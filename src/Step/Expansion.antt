-- ===== src/Step/Expansion.antt =====
-- A step on a compressed instruction, in RAM and machine mode: the instruction that it stands for is executed.
use rv64i_simulator.Base.{◌≡◌, ◌∙◌, ap, true, Option, bit_and, ◌==◌}
use rv64i_simulator.Machine.{Machine}
use rv64i_simulator.Registry.{Table}
use rv64i_simulator.Instr.System.{Environment}
use rv64i_simulator.Compressed.{decompress}
use rv64i_simulator.Compressed.Forms.{Rvc, IsLegal, encode, expansion}
use rv64i_simulator.Compressed.Expand.{decompress-expansion, encode-short}
use rv64i_simulator.Step.{execute, step}
use rv64i_simulator.Step.Fetch.{IsReady, ticked, half_at, step-compressed}

pub step-expansion :
    (m : Machine) (env : Option Environment) (table : Table) (form : Rvc)
    → IsReady m
    → IsLegal form
    → half_at m m.program_counter ≡ encode form
    → step env table m ≡ (true, execute env table m.program_counter (expansion form) 2 (ticked m))
step-expansion m env table form r legal e =
    step-compressed m r env table (ap (λ h. bit_and h 0x3 == 0x3) e ∙ encode-short form legal)
    ∙ ap (λ raw. (true, execute env table m.program_counter raw 2 (ticked m)))
        (ap decompress e ∙ decompress-expansion form legal)
