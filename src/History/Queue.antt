-- ===== src/History/Queue.antt =====
-- The history of Debug.cpp is a queue that keeps the last 8192 characters.
use rv64i_simulator.Base.{
  ℕ, zero, suc, ◌+◌, ◌-◌, ◌≤◌, ◌<◌, ◌≡◌, refl, sym, ap, ap₂, ◌∙◌, lt→ltb, ltb→lt, ==_refl, Bool,
  true, false, List, [], ◌∷◌, ◌++◌, leb, ltb, ==_ne, ◌==◌, if◌then◌else◌, update, Bool-cases, inl,
  inr, arith,
}
use rv64i_simulator.Output.{codes}
use rv64i_simulator.Output.Digits.{length, ++-length}
use rv64i_simulator.History.{
  Debug, history_size, record_char, record_chars, record_string, slice, recorded, dump,
  enable_trace, initial,
}

-- A queue of at most `history_size` characters, the oldest first.
unfoldable pub drop_oldest : List ℕ → List ℕ
drop_oldest [] = []
drop_oldest (c ∷ cs) = cs

unfoldable pub push : ℕ → List ℕ → List ℕ
push c queue =
    if ltb (length queue) history_size then queue ++ (c ∷ []) else drop_oldest (queue ++ (c ∷ []))

unfoldable pub push_all : List ℕ → List ℕ → List ℕ
push_all [] queue = queue
push_all (c ∷ s) queue = push_all s (push c queue)

-- A state of the log that the program reaches while it traces.
pub record IsTracing (d : Debug) : Type 0 where
  pub tr : d.tr ≡ true
  pub head : d.head < history_size

slice-length : (h : ℕ → ℕ) (i n : ℕ) → length (slice h i n) ≡ n
unfolding slice
slice-length h i zero = refl
slice-length h i (suc n) = omega (arith, slice-length h (i + 1) n)

++-assoc : (a b c : List ℕ) → (a ++ b) ++ c ≡ a ++ (b ++ c)
++-assoc [] b c = refl
++-assoc (x ∷ a) b c = ap (λ t. x ∷ t) (++-assoc a b c)

-- A slice that the replaced character is not in.
slice-update :
    (h : ℕ → ℕ) (at c i n : ℕ)
    → ((j : ℕ) → i ≤ j → j < i + n → (j == at) ≡ false)
    → slice (update h at c) i n ≡ slice h i n
unfolding slice
slice-update h at c i zero p = refl
slice-update h at c i (suc n) p =
    let here = p i (omega arith) (omega arith) in
    let rest = slice-update h at c (i + 1) n (λ j a b. p j (omega arith) (omega arith)) in
    rw (here, rest) refl

-- The character after a slice.
slice-snoc : (h : ℕ → ℕ) (i n : ℕ) → slice h i (suc n) ≡ slice h i n ++ (h (i + n) ∷ [])
unfolding slice
slice-snoc h i zero = let e : i ≡ i + 0 = omega arith in ap (λ j. h j ∷ []) e
slice-snoc h i (suc n) =
    let e : i + 1 + n ≡ i + suc n = omega arith in
    ap (λ t. h i ∷ t) (slice-snoc h (i + 1) n ∙ ap (λ j. slice h (i + 1) n ++ (h j ∷ [])) e)

-- The characters that the fields of a log hold.
abbrev shown : (ℕ → ℕ) → ℕ → Bool → List ℕ
shown h head wrapped =
    if wrapped then slice h head (history_size - head) ++ slice h 0 head else slice h 0 head

-- The newest characters with the one that is stored.
newest-snoc :
    (h : ℕ → ℕ) (head c : ℕ) → slice (update h head c) 0 (head + 1) ≡ slice h 0 head ++ (c ∷ [])
newest-snoc h head c =
    let e : head + 1 ≡ suc head = omega arith in
    let same = slice-update h head c 0 head (λ j a b. ==_ne j head (λ q. omega arith)) in
    let last : update h head c head ≡ c = rw (==_refl head) refl in
    let at : 0 + head ≡ head = omega arith in
    ap (slice (update h head c) 0) e
    ∙ slice-snoc (update h head c) 0 head
    ∙ ap₂ (λ t j. t ++ (update h head c j ∷ [])) same at
    ∙ ap (λ v. slice h 0 head ++ (v ∷ [])) last

push-short : (c : ℕ) (q : List ℕ) → length q < history_size → push c q ≡ q ++ (c ∷ [])
unfolding push
push-short c q p = rw (lt→ltb (length q) history_size p) refl

push-full : (c x : ℕ) (q : List ℕ) → length (x ∷ q) ≡ history_size → push c (x ∷ q) ≡ q ++ (c ∷ [])
unfolding push drop_oldest
push-full c x q p =
    let e : ltb (length (x ∷ q)) history_size ≡ false = ground (arith, p) in rw e refl

-- A full buffer, its oldest character first.
full-shown :
    (h : ℕ → ℕ) (head : ℕ)
    → head < history_size
    → shown h head true
      ≡ h head ∷ (slice h (head + 1) (history_size - (head + 1)) ++ slice h 0 head)
unfolding slice
full-shown h head p =
    let e : history_size - head ≡ suc (history_size - (head + 1)) = omega arith in
    ap (λ n. slice h head n ++ slice h 0 head) e

full-length :
    (h : ℕ → ℕ) (head : ℕ)
    → head < history_size
    → length (h head ∷ (slice h (head + 1) (history_size - (head + 1)) ++ slice h 0 head))
      ≡ history_size
full-length h head p =
    let older = slice-length h (head + 1) (history_size - (head + 1)) in
    let newer = slice-length h 0 head in
    omega (arith, ++-length (slice h (head + 1) (history_size - (head + 1))) (slice h 0 head))

-- What a full buffer shows after one more character.
full-push :
    (h : ℕ → ℕ) (head c : ℕ)
    → head < history_size
    → push c (shown h head true)
      ≡ slice h (head + 1) (history_size - (head + 1)) ++ (slice h 0 head ++ (c ∷ []))
full-push h head c p =
    ap (push c) (full-shown h head p)
    ∙ push-full c (h head) _ (full-length h head p)
    ∙ ++-assoc (slice h (head + 1) (history_size - (head + 1))) (slice h 0 head) (c ∷ [])

-- The character is stored before the end of the buffer.
shown-inside :
    (h : ℕ → ℕ) (head c : ℕ) (wrapped : Bool)
    → head + 1 < history_size
    → shown (update h head c) (head + 1) wrapped ≡ push c (shown h head wrapped)
shown-inside h head c false p =
    newest-snoc h head c
    ∙ sym (push-short c (slice h 0 head) (let l = slice-length h 0 head in omega arith))
shown-inside h head c true p =
    let older =
      slice-update h head c (head + 1) (history_size - (head + 1))
        (λ j a b. ==_ne j head (λ q. omega arith)) in
    ap₂ ◌++◌ older (newest-snoc h head c) ∙ sym (full-push h head c (omega arith))

++-nil : (a : List ℕ) → a ++ [] ≡ a
++-nil [] = refl
++-nil (x ∷ a) = ap (λ t. x ∷ t) (++-nil a)

none_older : (h : ℕ → ℕ) (i n : ℕ) (rest : List ℕ) → n ≡ 0 → slice h i n ++ rest ≡ rest
unfolding slice
none_older h i n rest e = ap (λ k. slice h i k ++ rest) e

-- The character is stored at the end of the buffer.
shown-last :
    (h : ℕ → ℕ) (head c : ℕ) (wrapped : Bool)
    → head + 1 ≡ history_size
    → shown (update h head c) 0 true ≡ push c (shown h head wrapped)
unfolding slice
shown-last h head c wrapped p = all ∙ pushed wrapped
  where
    all : shown (update h head c) 0 true ≡ slice h 0 head ++ (c ∷ [])
    all =
        ++-nil (slice (update h head c) 0 history_size)
        ∙ ap (slice (update h head c) 0) (sym p)
        ∙ newest-snoc h head c

    pushed : (wrapped : Bool) → slice h 0 head ++ (c ∷ []) ≡ push c (shown h head wrapped)
    pushed false =
        sym (push-short c (slice h 0 head) (let l = slice-length h 0 head in omega arith))
    pushed true =
        sym (
          none_older h (head + 1) (history_size - (head + 1)) (slice h 0 head ++ (c ∷ []))
            (omega arith))
        ∙ sym (full-push h head c (omega arith))

-- One character: the queue takes it, and the log stays in shape.
record Recorded (c : ℕ) (before after : Debug) : Type 0 where
  queue : recorded after ≡ push c (recorded before)
  tracing : IsTracing after
  sent : after.sent ≡ before.sent
  has_io : after.has_io ≡ before.has_io

record_char-Recorded : (c : ℕ) (d : Debug) → IsTracing d → Recorded c d (record_char c d)
unfolding record_char recorded
record_char-Recorded c d p = elim (Bool-cases (leb history_size (d.head + 1))) [
  | inl q ↦
      let full : d.head + 1 ≡ history_size = let l = p.head in ground arith in
      rw (record_char, p.tr, q)
        (record {
          queue = shown-last d.history d.head c d.wrapped full;
          tracing = record { tr = refl; head = omega arith };
          sent = refl;
          has_io = refl;
        })
  | inr q ↦
      let inside : d.head + 1 < history_size = ground arith in
      rw (record_char, p.tr, q)
        (record {
          queue = shown-inside d.history d.head c d.wrapped inside;
          tracing = record { tr = refl; head = inside };
          sent = refl;
          has_io = refl;
        })
]

-- A text: the queue takes its characters in turn.
record RecordedAll (s : List ℕ) (before after : Debug) : Type 0 where
  queue : recorded after ≡ push_all s (recorded before)
  tracing : IsTracing after
  sent : after.sent ≡ before.sent
  has_io : after.has_io ≡ before.has_io

record_chars-RecordedAll :
    (s : List ℕ) (d : Debug) → IsTracing d → RecordedAll s d (record_chars s d)
unfolding record_chars push_all
record_chars-RecordedAll [] d p = record { queue = refl; tracing = p; sent = refl; has_io = refl }
record_chars-RecordedAll (c ∷ s) d p =
    let one = record_char-Recorded c d p in
    let rest = record_chars-RecordedAll s (record_char c d) one.tracing in
    record {
      queue = rest.queue ∙ ap (push_all s) one.queue;
      tracing = rest.tracing;
      sent = rest.sent ∙ one.sent;
      has_io = rest.has_io ∙ one.has_io;
    }

-- The last characters of a text.
unfoldable pub last_of : ℕ → List ℕ → List ℕ
last_of n [] = []
last_of n (c ∷ cs) = let rest = last_of n cs in if ltb n (length (c ∷ cs)) then rest else c ∷ cs

last_of-short : (n : ℕ) (q : List ℕ) → length q ≤ n → last_of n q ≡ q
unfolding last_of
last_of-short n [] p = refl
last_of-short n (c ∷ cs) p = let e : ltb n (length (c ∷ cs)) ≡ false = ground arith in rw e refl

last_of-long : (n c : ℕ) (cs : List ℕ) → n < length (c ∷ cs) → last_of n (c ∷ cs) ≡ last_of n cs
unfolding last_of
last_of-long n c cs p = rw (lt→ltb n (length (c ∷ cs)) p) refl

-- A character for a full queue.
overfull :
    (c : ℕ) (s : List ℕ)
    → ((t : List ℕ) → length t ≤ history_size → push_all s t ≡ last_of history_size (t ++ s))
    → (q : List ℕ) → length q ≡ history_size
    → push_all s (push c q) ≡ last_of history_size (q ++ (c ∷ s))
overfull c s rest [] full = absurd (omega arith)
overfull c s rest (x ∷ q) full =
    let fits : length (q ++ (c ∷ [])) ≤ history_size = omega (arith, ++-length q (c ∷ [])) in
    let long : history_size < length (x ∷ (q ++ (c ∷ s))) = omega (arith, ++-length q (c ∷ s)) in
    ap (push_all s) (push-full c x q full)
    ∙ rest (q ++ (c ∷ [])) fits
    ∙ ap (last_of history_size) (++-assoc q (c ∷ []) s)
    ∙ sym (last_of-long history_size x (q ++ (c ∷ s)) long)

push_all-last_of :
    (s q : List ℕ) → length q ≤ history_size → push_all s q ≡ last_of history_size (q ++ s)
unfolding push_all
push_all-last_of [] q p =
    sym (ap (last_of history_size) (++-nil q) ∙ last_of-short history_size q p)
push_all-last_of (c ∷ s) q p = elim (Bool-cases (ltb (length q) history_size)) [
  | inl r ↦
      let short = ltb→lt (length q) history_size r in
      let fits : length (q ++ (c ∷ [])) ≤ history_size = omega (arith, ++-length q (c ∷ [])) in
      ap (push_all s) (push-short c q short)
      ∙ push_all-last_of s (q ++ (c ∷ [])) fits
      ∙ ap (last_of history_size) (++-assoc q (c ∷ []) s)
  | inr r ↦
      let full : length q ≡ history_size = ground arith in
      overfull c s (λ t b. push_all-last_of s t b) q full
]

-- A log that traces from the start.
abbrev pub tracing_log : Debug
tracing_log = enable_trace (initial true)

tracing_log-IsTracing : IsTracing tracing_log
unfolding enable_trace
tracing_log-IsTracing = record { tr = refl; head = omega arith }

abbrev pub title : List ℕ
title = codes "\n Trace Dump: \n"

abbrev pub footer : List ℕ
footer = codes "\n...\n"

dump-sent :
    (d : Debug)
    → d.has_io ≡ true
    → d.tr ≡ true
    → (dump d).sent ≡ ((d.sent ++ title) ++ recorded d) ++ footer
unfolding dump
dump-sent d p q = rw (dump, p, q) refl

-- After any text is recorded while tracing is on from the start, dump sends its title, the last
-- 8192 characters of the text in order, and its footer, wherever the ring buffer's head is.
pub dump-last_of :
    (s : List ℕ)
    → (dump (record_string s tracing_log)).sent ≡ (title ++ last_of history_size s) ++ footer
unfolding record_string enable_trace recorded slice
dump-last_of s =
    let all = record_chars-RecordedAll s tracing_log tracing_log-IsTracing in
    dump-sent (record_chars s tracing_log) all.has_io all.tracing.tr
    ∙ ap₂ (λ a b. ((a ++ title) ++ b) ++ footer) all.sent
        (all.queue ∙ push_all-last_of s [] (omega arith))
