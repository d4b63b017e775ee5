-- ===== src/Host/CommandLine/Options.antt =====
-- CLI.cpp reads back the options that a command line was written from.
use Prim.Native.String.{String}
use rv64i_simulator.Base.{ℕ, ◌≡◌, refl, ◌∙◌, Bool, true, Option, none, some, List, [], ◌∷◌, u32}
use rv64i_simulator.Host.CommandLine.{
  SystemType, Cli, initial, flag, system_of, Parsed, last_option, options, parse_command_line,
}

-- An option as a user means it; a size has its text.
pub data Setting : Type 0 where
  debug trace opensbi : Setting
  memory : String → ℕ → Setting

-- The arguments that say so.
unfoldable pub render : List Setting → List String
render [] = []
render (Setting.debug ∷ s) = "--debug" ∷ render s
render (Setting.trace ∷ s) = "--trace" ∷ render s
render (Setting.opensbi ∷ s) = "--system" ∷ "opensbi" ∷ render s
render (Setting.memory text kb ∷ s) = "--memory" ∷ text ∷ render s

-- What the options make of a configuration.
unfoldable pub apply_settings : List Setting → Cli → Cli
apply_settings [] config = config
apply_settings (Setting.debug ∷ s) config =
    apply_settings s (record config { debug_enabled = true })
apply_settings (Setting.trace ∷ s) config =
    apply_settings s (record config { trace_enabled = true })
apply_settings (Setting.opensbi ∷ s) config =
    apply_settings s (record config { system_type = SystemType.open_sbi })
apply_settings (Setting.memory text kb ∷ s) config =
    apply_settings s (record config { memory_kb = u32 kb })

-- The texts are those of their numbers.
abbrev pub AllRead : (String → Option ℕ) → List Setting → Type 0
AllRead stoul [] = Unit
AllRead stoul (Setting.memory text kb ∷ s) = (stoul text ≡ some kb) × AllRead stoul s
AllRead stoul (Setting.debug ∷ s) = AllRead stoul s
AllRead stoul (Setting.trace ∷ s) = AllRead stoul s
AllRead stoul (Setting.opensbi ∷ s) = AllRead stoul s

module _ (stoul : String → Option ℕ) (has_io : Bool) where
  -- An option without a value, and the options after it.
  debug_first :
      (config : Cli) (args : List String)
      → options stoul has_io config ("--debug" ∷ args)
        ≡ options stoul has_io (record config { debug_enabled = true }) args
  unfolding options last_option flag
  debug_first config [] = refl
  debug_first config (a ∷ args) = refl

  trace_first :
      (config : Cli) (args : List String)
      → options stoul has_io config ("--trace" ∷ args)
        ≡ options stoul has_io (record config { trace_enabled = true }) args
  unfolding options last_option flag
  trace_first config [] = refl
  trace_first config (a ∷ args) = refl

  read_number :
      (o : Option ℕ) (kb : ℕ) (y : ℕ → Parsed)
      → o ≡ some kb
      → elim o [ none ↦ none | some n ↦ y n ] ≡ y kb
  read_number o kb y e = rw e refl

  options-render :
      (s : List Setting) (config : Cli)
      → AllRead stoul s
      → options stoul has_io config (render s) ≡ some (apply_settings s config, [])
  unfolding options flag system_of render apply_settings
  options-render [] config p = refl
  options-render (Setting.debug ∷ s) config p = debug_first config (render s) ∙ options-render s _ p
  options-render (Setting.trace ∷ s) config p = trace_first config (render s) ∙ options-render s _ p
  options-render (Setting.opensbi ∷ s) config p = options-render s _ p
  options-render (Setting.memory text kb ∷ s) config p =
      read_number (stoul text) kb _ p.0 ∙ options-render s _ p.1

  -- A command line written from a file name and any list of the options debug, trace, memory with a
  -- number that stoul reads, and the OpenSBI system, is read back as those settings in order, valid
  -- and without a message.
  pub parse_command_line-render :
      (filename : String) (s : List Setting)
      → AllRead stoul s
      → parse_command_line stoul has_io (filename ∷ render s)
        ≡ some (apply_settings s (record initial { filename = some filename; valid = true }), [])
  unfolding parse_command_line
  parse_command_line-render filename s p = options-render s _ p
