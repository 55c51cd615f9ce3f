-- ===== src/CdbMake/Filled.antt =====
-- The tables that `cdb_make_finish` of src/cdb_make.c fills, with the entries of all records.
use sdb.Base.{
  ℕ, zero, suc, ◌+◌, ◌*◌, ◌/◌, ◌%◌, ◌^◌, ◌<◌, ◌≡◌, refl, sym, ap, ◌∙◌, false, ◌&&◌, List, [], ◌∷◌,
  Option, none, some, ltb, leb, ◌==◌, if◌then◌else◌, length, set, replicate, All, length-append,
  length-replicate, arith, Bool-cases, Option-cases, inl, inr,
}
use sdb.CdbMake.{Hp, empty_hp, first_free, fill}
use sdb.CdbMake.Layout.{IsSmall}
use sdb.CdbMake.Scatter.{pick, count_in, length-pick}
use sdb.CdbMake.Slots.{
  slot_at, slot_of, probe, or_else, or_else_assoc, first_answer, fill-first_answer,
}
use sdb.CdbMake.State.{Record, IsStorable, size, entries_of}
use sdb.CdbMake.Tables.{tables_bytes, table_bytes, length-table_bytes}
use sdb.Util.Bounds.{sdb_hash-below}

module _ {ℓ} {R : Type ℓ} (f : Hp → Option R) where
  -- The first answer among entries that stand the newest first.
  abbrev pub oldest_answer : List Hp → Option R
  oldest_answer [] = none
  oldest_answer (e ∷ es) = or_else (oldest_answer es) (f e)

  or_else-none : (a : Option R) → or_else a none ≡ a
  or_else-none none = refl
  or_else-none (some r) = refl

  -- Entries of the other tables do not answer.
  pub pick-oldest_answer :
      (u : ℕ)
      → ((e : Hp) (r : R) → f e ≡ some r → e.h ≡ u)
      → (older es : List Hp)
      → first_answer f (pick (u % 256) older es) ≡ or_else (oldest_answer es) (first_answer f older)
  pick-oldest_answer u only older [] = refl
  pick-oldest_answer u only older (e ∷ es) = elim (Bool-cases (e.h % 256 == u % 256)) [
    | inl here ↦ rw here (
        pick-oldest_answer u only (e ∷ older) es
        ∙ sym (or_else_assoc (oldest_answer es) (f e) (first_answer f older)))
    | inr elsewhere ↦ elim (Option-cases (f e)) [
      | inl n ↦
          rw (elsewhere, n)
            (pick-oldest_answer u only older es
              ∙ ap (λ (o : Option R). or_else o (first_answer f older))
                  (sym (or_else-none (oldest_answer es))))
      | inr (r, y) ↦ absurd (let s = only e r y in ground (arith, elsewhere, s))
    ]
  ]

All-pick :
    (P : Hp → Type 0) (i : ℕ) (older es : List Hp)
    → All P older
    → All P es
    → All P (pick i older es)
All-pick P i older [] olds all = olds
All-pick P i older (e ∷ es) olds (here, others) = elim (Bool-cases (e.h % 256 == i)) [
  | inl own ↦ rw own (All-pick P i (e ∷ older) es (here, olds) others)
  | inr other ↦ rw other (All-pick P i older es olds others)
]

entries-IsSmall :
    (rs : List Record) → All IsStorable rs → 1024 + size rs < 2 ^ 32 → All IsSmall (entries_of rs)
entries-IsSmall [] all fits = tt
entries-IsSmall ((key, value) ∷ rs) ((short, few, bytes), others) fits =
    ((sdb_hash-below key bytes, omega arith), entries-IsSmall rs others (omega arith))

abbrev IsUsed : Hp → Type 0
IsUsed e = (e.p == 0) ≡ false

entries-IsUsed : (rs : List Record) → All IsUsed (entries_of rs)
entries-IsUsed [] = tt
entries-IsUsed (r ∷ rs) = (ground arith, entries-IsUsed rs)

set-IsSmall :
    (hash : List Hp) (w j : ℕ) (e : Hp)
    → IsSmall e
    → IsSmall (slot_at hash j)
    → IsSmall (slot_at (set hash w e) j)
set-IsSmall [] w j e here slot = slot
set-IsSmall (x ∷ hash) zero zero e here slot = here
set-IsSmall (x ∷ hash) zero (suc j) e here slot = slot
set-IsSmall (x ∷ hash) (suc w) zero e here slot = slot
set-IsSmall (x ∷ hash) (suc w) (suc j) e here slot = set-IsSmall hash w j e here slot

fill-IsSmall :
    (es hash t : List Hp)
    → All IsSmall es
    → ((j : ℕ) → IsSmall (slot_at hash j))
    → fill es hash ≡ some t
    → (j : ℕ) → IsSmall (slot_at t j)
unfolding fill
fill-IsSmall [] hash t all slots run j = let s : hash ≡ t = cc run in rw (sym s) (slots j)
fill-IsSmall (e ∷ es) hash t (here, others) slots run j =
    elim (Option-cases (first_free (length hash) (e.h / 2 ^ 8 % length hash) hash)) [
      | inl n ↦ absurd (let g : none ≡ some t = rw n at run in cc g)
      | inr (w, y) ↦
          fill-IsSmall es (set hash w e) t others (λ k. set-IsSmall hash w k e here (slots k))
            (rw y at run) j
    ]

empty-IsSmall : (n j : ℕ) → IsSmall (slot_at (replicate n empty_hp) j)
empty-IsSmall zero j = (omega arith, omega arith)
empty-IsSmall (suc n) zero = (omega arith, omega arith)
empty-IsSmall (suc n) (suc j) = empty-IsSmall n j

fill-some :
    (es : List Hp) (n : ℕ)
    → length es ≡ n
    → All IsUsed es
    → (t : List Hp) × (fill es (replicate (n * 2) empty_hp) ≡ some t) × (length t ≡ n * 2)
fill-some [] n len all =
    (replicate (n * 2) empty_hp, unfold fill in refl, length-replicate (n * 2) empty_hp)
fill-some (e ∷ es) n len all =
    let silent : Hp → Option ℕ = λ x. none in
    let (t, run, size_eq, found) =
      fill-first_answer silent 0 (λ x r q. absurd (cc q)) (e ∷ es) (n * 2) all (omega arith) in
    (t, run, size_eq)

abbrev filled : List Record → ℕ → Option (List Hp)
filled rs i = fill (pick i [] (entries_of rs)) (replicate (count_in i (entries_of rs) * 2) empty_hp)

-- The table that is filled.
unfoldable pub table_of : List Record → ℕ → List Hp
table_of rs i = elim (filled rs i) [ none ↦ [] | some t ↦ t ]

module _ (rs : List Record) (i : ℕ) where
  abbrev Filled : Type 0
  Filled = (t : List Hp) × (filled rs i ≡ some t) × (length t ≡ count_in i (entries_of rs) * 2)

  pub filled-some : Filled
  filled-some =
      fill-some (pick i [] (entries_of rs)) (count_in i (entries_of rs))
        (length-pick i [] (entries_of rs) ∙ omega arith)
        (All-pick IsUsed i [] (entries_of rs) tt (entries-IsUsed rs))

  pub table_of-Fills : filled rs i ≡ some (table_of rs i)
  unfolding table_of
  table_of-Fills = let (t, run, len) = filled-some in rw (table_of, run) refl

  pub length-table_of : length (table_of rs i) ≡ count_in i (entries_of rs) * 2
  unfolding table_of
  length-table_of = let (t, run, len) = filled-some in rw (table_of, run) len

  pub table_of-IsSmall :
      All IsStorable rs → 1024 + size rs < 2 ^ 32 → (j : ℕ) → IsSmall (slot_at (table_of rs i) j)
  table_of-IsSmall storable fits =
      let n = count_in i (entries_of rs) * 2 in
      fill-IsSmall (pick i [] (entries_of rs)) (replicate n empty_hp) (table_of rs i)
        (All-pick IsSmall i [] (entries_of rs) tt (entries-IsSmall rs storable fits))
        (empty-IsSmall n) table_of-Fills

probe-nothing {ℓ} :
    {R : Type ℓ} (f : Hp → Option R) (n j : ℕ) (t : List Hp) → n ≡ 0 → probe f n j t ≡ none
probe-nothing f n j t nothing = unfold probe in rw nothing refl

first_answer-nothing {ℓ} :
    {R : Type ℓ} (f : Hp → Option R) (es : List Hp) → length es ≡ 0 → first_answer f es ≡ none
first_answer-nothing f [] nothing = refl
first_answer-nothing f (e ∷ es) nothing = absurd (omega arith)

-- The search in the table for a hash finds the first answer of all the entries.
pub table_of-probe {ℓ} :
    {R : Type ℓ} (f : Hp → Option R) (u : ℕ)
    → ((e : Hp) (r : R) → f e ≡ some r → e.h ≡ u)
    → (rs : List Record)
    → (let t = table_of rs (u % 256) in probe f (length t) (slot_of u t) t)
      ≡ oldest_answer f (entries_of rs)
table_of-probe f u only rs =
    let i = u % 256 in
    let t = table_of rs i in
    let n = count_in i (entries_of rs) in
    let picked = pick i [] (entries_of rs) in
    let oldest =
      pick-oldest_answer f u only [] (entries_of rs)
      ∙ or_else-none f (oldest_answer f (entries_of rs)) in
    elim (Bool-cases (n == 0)) [
      | inl zeros ↦
          probe-nothing f (length t) (slot_of u t) t (ground (arith, length-table_of rs i))
          ∙ sym (first_answer-nothing f picked (ground (arith, length-pick i [] (entries_of rs))))
          ∙ oldest
      | inr many ↦
          let (t', run, len, found) =
            fill-first_answer f u only picked (n * 2)
              (All-pick IsUsed i [] (entries_of rs) tt (entries-IsUsed rs))
              (ground (arith, length-pick i [] (entries_of rs))) in
          let same : t' ≡ t = cc (run, table_of-Fills rs i) in rw same at found ∙ oldest
    ]

-- How many entries the tables from one on have, so many of them.
counted : ℕ → ℕ → List Hp → ℕ
counted i zero es = 0
counted i (suc left) es = count_in i es + counted (i + 1) left es

counted-cons :
    (i left : ℕ) (e : Hp) (es : List Hp)
    → counted i left (e ∷ es)
      ≡ (if leb i (e.h % 256) && ltb (e.h % 256) (i + left) then 1 else 0) + counted i left es
unfolding counted
counted-cons i zero e es = ground arith
counted-cons i (suc left) e es = ground (arith, counted-cons (i + 1) left e es)

counted-none : (i left : ℕ) → counted i left [] ≡ 0
unfolding counted
counted-none i zero = refl
counted-none i (suc left) = omega (arith, counted-none (i + 1) left)

counted-all : (es : List Hp) → counted 0 256 es ≡ length es
counted-all [] = counted-none 0 256
counted-all (e ∷ es) = ground (arith, counted-cons 0 256 e es, counted-all es)

length-tables_bytes :
    (rs : List Record) (i left : ℕ)
    → length (tables_bytes (table_of rs) i left) ≡ 16 * counted i left (entries_of rs)
unfolding tables_bytes counted
length-tables_bytes rs i zero = refl
length-tables_bytes rs i (suc left) = omega (
  arith,
  length-append (table_bytes (table_of rs i)) (tables_bytes (table_of rs) (i + 1) left),
  length-table_bytes (table_of rs i),
  length-table_of rs i,
  length-tables_bytes rs (i + 1) left,
)

length-entries_of : (rs : List Record) → length (entries_of rs) ≡ length rs
length-entries_of [] = refl
length-entries_of (r ∷ rs) = ap suc (length-entries_of rs)

pub length-all_tables :
    (rs : List Record) → length (tables_bytes (table_of rs) 0 256) ≡ 16 * length rs
length-all_tables rs =
    omega (arith, length-tables_bytes rs 0 256, counted-all (entries_of rs), length-entries_of rs)
