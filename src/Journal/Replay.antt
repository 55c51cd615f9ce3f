-- ===== src/Journal/Replay.antt =====
-- What src/journal.c reads back from the log that it wrote.
use mathlib.Core.List.{append_assoc, append-nil}
use sdb.Base.{
  ℕ, zero, suc, ◌+◌, ◌-◌, ◌%◌, ◌^◌, ◌≤◌, ◌<◌, ◌≡◌, ◌≢◌, refl, ap, ◌∙◌, Bool, true, false, List, [],
  ◌∷◌, ◌++◌, map, Option, some, and_then, leb, ◌==◌, length, take, All, length-append, arith,
}
use sdb.Core.{Sdb, journal_line, sdb_max_path, sdb_set}
use sdb.Core.Appends.{Nonzero, c_string-Nonzero}
use sdb.Ht.{Heap}
use sdb.Journal.{journal_lines, cut_line, load_loop, sdb_journal_load}

-- The log after the sets.
abbrev pub log_of : List (List ℕ × List ℕ) → List ℕ
log_of [] = []
log_of ((key, val) ∷ es) = journal_line key val ++ log_of es

-- No `=` in the key, no newline in either, and a line that fits into the buffer.
abbrev pub IsLoggable : List ℕ × List ℕ → Type 0
IsLoggable (key, val) =
    All (λ c. (0 < c) × (c ≢ b'=') × (c ≢ b'\n')) key
    × All (λ c. (0 < c) × (c ≢ b'\n')) val
    × (length key + length val + 2 < sdb_max_path)

take-all : (n : ℕ) (s : List ℕ) → length s ≤ n → take n s ≡ s
take-all zero [] h = refl
take-all zero (c ∷ s) h = absurd (omega arith)
take-all (suc n) [] h = refl
take-all (suc n) (c ∷ s) h = ap (λ (t : List ℕ). c ∷ t) (take-all n s (omega arith))

-- The line of a set that fits.
pub line-whole :
    (key val : List ℕ)
    → length key + length val + 2 < sdb_max_path
    → journal_line key val ≡ key ++ (b'=' ∷ val) ++ b'\n' ∷ []
unfolding journal_line
line-whole key val fits =
    take-all (sdb_max_path - 1) (key ++ (b'=' ∷ val) ++ b'\n' ∷ []) (
      omega (arith, length-append (key ++ b'=' ∷ val) (b'\n' ∷ []), length-append key (b'=' ∷ val)))

-- A line without a newline in it, in front of the rest of the log.
lines-next :
    (line t rest : List ℕ)
    → All (λ c. c ≢ b'\n') t
    → journal_lines line (t ++ b'\n' ∷ rest) ≡ (line ++ t) ∷ journal_lines [] rest
unfolding journal_lines
lines-next line [] rest all = rw (append-nil line) refl
lines-next line (c ∷ t) rest (h, all) =
    let e : (c == b'\n') ≡ false = ground arith in
    rw e (lines-next (line ++ c ∷ []) t rest all ∙ rw (append_assoc line (c ∷ []) t) refl)

cut_line-key :
    (key val : List ℕ)
    → All (λ c. (0 < c) × (c ≢ b'=') × (c ≢ b'\n')) key
    → cut_line (key ++ b'=' ∷ val) ≡ some (key, val)
unfolding cut_line
cut_line-key [] val all = refl
cut_line-key (c ∷ key) val ((_, h, _), all) =
    let e : (c == b'=') ≡ false = ground arith in rw (e, cut_line-key key val all) refl

All-append : (P : ℕ → Type 0) (a b : List ℕ) → All P a → All P b → All P (a ++ b)
All-append P [] b p q = q
All-append P (c ∷ a) b (h, p) q = (h, All-append P a b p q)

key-Nonzero :
    (key : List ℕ)
    → All (λ c. (0 < c) × (c ≢ b'=') × (c ≢ b'\n')) key
    → Nonzero key × All (λ c. c ≢ b'\n') key
key-Nonzero [] all = (tt, tt)
key-Nonzero (c ∷ key) ((h, _, n), all) = let (p, q) = key-Nonzero key all in ((h, p), (n, q))

val-Nonzero :
    (val : List ℕ) → All (λ c. (0 < c) × (c ≢ b'\n')) val → Nonzero val × All (λ c. c ≢ b'\n') val
val-Nonzero [] all = (tt, tt)
val-Nonzero (c ∷ val) ((h, n), all) = let (p, q) = val-Nonzero val all in ((h, p), (n, q))

-- The line without its newline.
abbrev line_of : List ℕ × List ℕ → List ℕ
line_of (key, val) = key ++ b'=' ∷ val

line_of-Nonzero :
    (key val : List ℕ)
    → IsLoggable (key, val)
    → Nonzero (line_of (key, val)) × All (λ c. c ≢ b'\n') (line_of (key, val))
line_of-Nonzero key val (k, v, fits) =
    let (kp, kn) = key-Nonzero key k in
    let (vp, vn) = val-Nonzero val v in
    (
      All-append (λ c. 0 < c) key (b'=' ∷ val) kp (omega arith, vp),
      All-append (λ c. c ≢ b'\n') key (b'=' ∷ val) kn (omega arith, vn),
    )

log_of-Nonzero : (es : List (List ℕ × List ℕ)) → All IsLoggable es → Nonzero (log_of es)
log_of-Nonzero [] all = tt
log_of-Nonzero ((key, val) ∷ es) (h, all) = rw (line-whole key val h.2) (
    All-append (λ c. 0 < c) (line_of (key, val) ++ b'\n' ∷ []) (log_of es)
      (All-append (λ c. 0 < c) (line_of (key, val)) (b'\n' ∷ []) (line_of-Nonzero key val h).0
        (omega arith, tt))
      (log_of-Nonzero es all))

journal_lines-log_of :
    (es : List (List ℕ × List ℕ))
    → All IsLoggable es
    → journal_lines [] (log_of es) ≡ map line_of es
journal_lines-log_of [] all = unfold journal_lines in refl
journal_lines-log_of ((key, val) ∷ es) (h, all) =
    rw (line-whole key val h.2, append_assoc (line_of (key, val)) (b'\n' ∷ []) (log_of es))
      (lines-next [] (line_of (key, val)) (log_of es) (line_of-Nonzero key val h).1
        ∙ ap (λ (ls : List (List ℕ)). line_of (key, val) ∷ ls) (journal_lines-log_of es all))

log_of-full :
    (e : List ℕ × List ℕ) (es : List (List ℕ × List ℕ))
    → IsLoggable e
    → (length (log_of (e ∷ es)) == 0) ≡ false
log_of-full (key, val) es h =
    let a = length-append (journal_line key val) (log_of es) in
    let b = length-append (line_of (key, val)) (b'\n' ∷ []) in
    let c = ap length (line-whole key val h.2) in ground arith

module _ ⦃heap : Heap⦄ where
  -- The sets one after another, counted.
  abbrev pub replay : Sdb → ℕ → List (List ℕ × List ℕ) → Option (Sdb × ℕ)
  replay s changes [] = some (s, changes)
  replay s changes ((key, val) ∷ es) =
      and_then (sdb_set s (some key) (some val) 0) (λ r. replay r.0 (changes + 1) es)

  load_loop-replay :
      (es : List (List ℕ × List ℕ)) (s : Sdb) (changes : ℕ)
      → All IsLoggable es
      → load_loop s changes (map line_of es) ≡ replay s changes es
  unfolding load_loop
  load_loop-replay [] s changes all = refl
  load_loop-replay ((key, val) ∷ es) s changes (h, all) =
      rw (load_loop, cut_line-key key val h.0)
        (ap (λ (f : Sdb × Bool → Option (Sdb × ℕ)). and_then (sdb_set s (some key) (some val) 0) f)
          (λ i r. load_loop-replay es r.0 (changes + 1) all i))

  -- Loading a log of sets makes them again, in their order, and counts them. The log is not
  -- empty, no key has a zero, a newline or a `=` in it, no value a zero or a newline, every
  -- line with its terminating zero fits into SDB_MAX_PATH bytes, the log with a zero behind it
  -- is shorter than 2^31 bytes, and every allocation is granted.
  pub sdb_journal_load-replay :
      (s : Sdb) (e : List ℕ × List ℕ) (es : List (List ℕ × List ℕ))
      → ((n : ℕ) → heap.grants n ≡ true)
      → s.journal ≡ some (log_of (e ∷ es))
      → length (log_of (e ∷ es)) + 1 < 2 ^ 31
      → All IsLoggable (e ∷ es)
      → sdb_journal_load s ≡ replay s 0 (e ∷ es)
  unfolding sdb_journal_load
  sdb_journal_load-replay s e es grants log short all =
      let text = log_of (e ∷ es) in
      let sz : length text % 2 ^ 32 ≡ length text = omega arith in
      let nonnegative : leb (2 ^ 31) (length text) ≡ false = ground arith in
      simp (
        sdb_journal_load,
        log,
        sz,
        log_of-full e es all.0,
        nonnegative,
        take-all (length text) text (omega arith),
        grants (length text + 1),
        c_string-Nonzero text (log_of-Nonzero (e ∷ es) all),
        journal_lines-log_of (e ∷ es) all,
        load_loop-replay (e ∷ es) s 0 all,
      )
