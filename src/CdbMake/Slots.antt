-- ===== src/CdbMake/Slots.antt =====
-- The slots of a table of src/cdb_make.c: filling them, and searching them as src/cdb.c does.
use native.Mathlib.Nat.{mod-lt}
use sdb.Base.{
  ℕ, zero, suc, ◌+◌, ◌/◌, ◌%◌, ◌^◌, ◌≤◌, ◌<◌, ◌≡◌, ◌⊎◌, refl, sym, ap, ◌∙◌, true, false, List, [],
  ◌∷◌, Option, none, some, ◌==◌, if◌then◌else◌, length, get_or, set, replicate, All,
  length-replicate, length-set, get_or-set_self, get_or-set_ne, arith, Bool-cases, Option-cases,
  inl, inr,
}
use sdb.CdbMake.{Hp, empty_hp, first_free, fill}

-- The entry of a slot.
abbrev pub slot_at : List Hp → ℕ → Hp
slot_at hash j = get_or hash j empty_hp

-- The slot behind a slot.
abbrev pub behind : List Hp → ℕ → ℕ
behind hash j = if j + 1 == length hash then 0 else j + 1

-- The slots in use.
abbrev used : List Hp → ℕ
used [] = 0
used (e ∷ hash) = (if e.p == 0 then 0 else 1) + used hash

used-below :
    (hash : List Hp)
    → ((j : ℕ) → j < length hash → ((slot_at hash j).p == 0) ≡ false)
    → length hash ≤ used hash
used-below [] all = omega arith
used-below (e ∷ hash) all =
    let rest = used-below hash (λ j h. all (suc j) (omega arith)) in
    let first = all 0 (omega arith) in ground arith

used-set :
    (hash : List Hp) (j : ℕ) (e : Hp)
    → j < length hash
    → ((slot_at hash j).p == 0) ≡ true
    → used (set hash j e) ≤ used hash + 1
used-set [] j e h free = absurd (omega arith)
used-set (x ∷ hash) zero e h free = ground arith
used-set (x ∷ hash) (suc j) e h free = ground (arith, used-set hash j e (omega arith) free)

used-empty : (n : ℕ) → used (replicate n empty_hp) ≡ 0
used-empty zero = refl
used-empty (suc n) = omega (arith, used-empty n)

slot_at-empty : (n j : ℕ) → slot_at (replicate n empty_hp) j ≡ empty_hp
slot_at-empty zero j = refl
slot_at-empty (suc n) zero = refl
slot_at-empty (suc n) (suc j) = slot_at-empty n j

-- What `first_free` finds is a free slot of the table.
first_free-free :
    (fuel j : ℕ) (hash : List Hp) (r : ℕ)
    → j < length hash
    → first_free fuel j hash ≡ some r
    → (r < length hash) × (((slot_at hash r).p == 0) ≡ true)
unfolding first_free
first_free-free zero j hash r h e = absurd (grind (arith, e))
first_free-free (suc fuel) j hash r h e = elim (Bool-cases ((slot_at hash j).p == 0)) [
  | inl free ↦ let same : j ≡ r = grind (arith, e, free) in (rw (sym same) h, rw (sym same) free)
  | inr taken ↦ first_free-free fuel (behind hash j) hash r (ground arith) (rw taken at e)
]

-- If none is found then each slot that was passed is in use.
first_free-none :
    (fuel j : ℕ) (hash : List Hp)
    → j < length hash
    → first_free fuel j hash ≡ none
    → (k : ℕ) → k < length hash
    → ((j ≤ k) × (k < j + fuel)) ⊎ (k + length hash < j + fuel)
    → ((slot_at hash k).p == 0) ≡ false
unfolding first_free
first_free-none zero j hash h e k low passed = absurd (ground arith)
first_free-none (suc fuel) j hash h e k low passed = elim (Bool-cases ((slot_at hash j).p == 0)) [
  | inl free ↦ absurd (grind (arith, e, free))
  | inr taken ↦ elim (Bool-cases (j == k)) [
    | inl same ↦ let s : j ≡ k = ground arith in rw (sym s) taken
    | inr other ↦
        first_free-none fuel (behind hash j) hash (ground arith) (rw taken at e) k low
          (ground arith)
  ]
]

first_free-some :
    (j : ℕ) (hash : List Hp)
    → j < length hash
    → used hash < length hash
    → (r : ℕ) × (first_free (length hash) j hash ≡ some r)
first_free-some j hash h room = elim (Option-cases (first_free (length hash) j hash)) [
  | inl e ↦ absurd (
      omega (
        arith,
        used-below hash (λ k low. first_free-none (length hash) j hash h e k low (ground arith)),
      ))
  | inr (r, e) ↦ (r, e)
]

-- An answer, or else another.
abbrev pub or_else {ℓ} : {R : Type ℓ} → Option R → Option R → Option R
or_else none b = b
or_else (some r) b = some r

-- The slot where the search for an entry begins.
abbrev pub slot_of : ℕ → List Hp → ℕ
slot_of h hash = h / 2 ^ 8 % length hash

pub or_else_assoc {ℓ} :
    {R : Type ℓ} (a b c : Option R) → or_else (or_else a b) c ≡ or_else a (or_else b c)
or_else_assoc none b c = refl
or_else_assoc (some r) b c = refl

none-some {ℓ} : {A : Type ℓ} (r : A) → ¬ (none ≡ some r)
none-some r e = cc e

-- The first answer on a search from a slot on, up to a slot that is free.
unfoldable pub probe {ℓ} : {R : Type ℓ} → (Hp → Option R) → ℕ → ℕ → List Hp → Option R
probe f zero j hash = none
probe f (suc fuel) j hash =
    if (slot_at hash j).p == 0
    then none
    else elim (f (slot_at hash j)) [ none ↦ probe f fuel (behind hash j) hash | some r ↦ some r ]

module _ {ℓ} {R : Type ℓ} (f : Hp → Option R) where
  -- The first answer of a list of entries.
  abbrev pub first_answer : List Hp → Option R
  first_answer [] = none
  first_answer (e ∷ es) = or_else (f e) (first_answer es)

  abbrev IsSilent : List Hp → Type ℓ
  IsSilent hash = (j : ℕ) → ((slot_at hash j).p == 0) ≡ false → f (slot_at hash j) ≡ none

  probe-silent : (fuel j : ℕ) (hash : List Hp) → IsSilent hash → probe f fuel j hash ≡ none
  unfolding probe
  probe-silent zero j hash silent = refl
  probe-silent (suc fuel) j hash silent = elim (Bool-cases ((slot_at hash j).p == 0)) [
    | inl free ↦ rw free refl
    | inr taken ↦ rw (taken, silent j taken) (probe-silent fuel (behind hash j) hash silent)
  ]

  module _ (hash : List Hp) (w : ℕ) (e : Hp) (low : w < length hash)
      (free : ((slot_at hash w).p == 0) ≡ true) where
    behind-set : (j : ℕ) → behind (set hash w e) j ≡ behind hash j
    behind-set j = rw (length-set hash w e) refl

    taken-other :
        (j : ℕ) → ((slot_at hash j).p == 0) ≡ false → slot_at (set hash w e) j ≡ slot_at hash j
    taken-other j taken = get_or-set_ne hash w j e empty_hp (λ same.
        absurd
          (let t : ((slot_at hash w).p == 0) ≡ false = rw same taken in grind (arith, t, free)))

    -- An answer that is found is found behind the change of a free slot.
    probe-set_found :
        (fuel j : ℕ) (r : R) → probe f fuel j hash ≡ some r → probe f fuel j (set hash w e) ≡ some r
    unfolding probe
    probe-set_found zero j r found = found
    probe-set_found (suc fuel) j r found = elim (Bool-cases ((slot_at hash j).p == 0)) [
      | inl free' ↦ absurd (let g = rw free' at found in none-some r g)
      | inr taken ↦ elim (Option-cases (f (slot_at hash j))) [
        | inl n ↦
            let g = probe-set_found fuel (behind hash j) r (rw (taken, n) at found) in
            rw (taken-other j taken, taken, n, behind-set j) g
        | inr (r', y) ↦
            let g : some r' ≡ some r = rw (taken, y) at found in
            rw (taken-other j taken, taken, y) g
      ]
    ]

    -- An entry that answers is found where the search for its slot begins.
    probe-set_new :
        (fuel j : ℕ) (r : R)
        → j < length hash
        → (e.p == 0) ≡ false
        → probe f fuel j hash ≡ none
        → first_free fuel j hash ≡ some w
        → f e ≡ some r
        → probe f fuel j (set hash w e) ≡ some r
    unfolding probe first_free
    probe-set_new zero j r below full silent at answer = absurd (none-some w at)
    probe-set_new (suc fuel) j r below full silent at answer =
        elim (Bool-cases ((slot_at hash j).p == 0)) [
          | inl free' ↦
              let g : some j ≡ some w = rw free' at at in
              let same : j ≡ w = cc g in
              let here : slot_at (set hash w e) j ≡ e =
                rw same (get_or-set_self hash w e empty_hp low) in
              rw (here, full, answer) refl
          | inr taken ↦ elim (Option-cases (f (slot_at hash j))) [
            | inl n ↦
                let g =
                  probe-set_new fuel (behind hash j) r (ground arith) full (rw (taken, n) at silent)
                    (rw taken at at) answer in
                rw (taken-other j taken, taken, n, behind-set j) g
            | inr (r', y) ↦
                let g : some r' ≡ none = rw (taken, y) at silent in absurd (none-some r' (sym g))
          ]
        ]

    set-IsSilent : f e ≡ none → IsSilent hash → IsSilent (set hash w e)
    set-IsSilent n silent j taken = elim (Bool-cases (w == j)) [
      | inl same ↦
          let s : w ≡ j = ground arith in
          let here : slot_at (set hash w e) j ≡ e =
            rw (sym s) (get_or-set_self hash w e empty_hp low) in
          rw here n
      | inr other ↦
          let here = get_or-set_ne hash w j e empty_hp (λ s. absurd (ground arith)) in
          rw here (silent j (rw here at taken))
    ]

module _ {ℓ} {R : Type ℓ} (f : Hp → Option R) (u : ℕ)
    (only : (e : Hp) (r : R) → f e ≡ some r → e.h ≡ u) where
  -- The search finds the answer, and without one no slot answers.
  abbrev Holds : List Hp → Option R → Type ℓ
  Holds hash o = (probe f (length hash) (slot_of u hash) hash ≡ o) × (o ≡ none → IsSilent f hash)

  module _ (hash : List Hp) (w : ℕ) (e : Hp) (below : w < length hash)
      (free : ((slot_at hash w).p == 0) ≡ true) (full : (e.p == 0) ≡ false) where
    Holds-set :
        first_free (length hash) (slot_of e.h hash) hash ≡ some w
        → (o : Option R) → Holds hash o
        → Holds (set hash w e) (or_else o (f e))
    Holds-set at (some r) (found, silent) = (
      rw (length-set hash w e)
          (probe-set_found f hash w e below free (length hash) (slot_of u hash) r found),
      λ n. absurd (none-some r (sym n)),
    )
    Holds-set at none (found, silent) = elim (Option-cases (f e)) [
      | inl n ↦
          let still = set-IsSilent f hash w e below free n (silent refl) in
          rw (n, length-set hash w e)
            (probe-silent f (length hash) (slot_of u hash) (set hash w e) still, λ q. still)
      | inr (r, y) ↦
          let here = rw (only e r y) at at in
          let g =
            probe-set_new f hash w e below free (length hash) (slot_of u hash) r (omega arith) full
              found here y in
          rw (y, length-set hash w e) (g, λ q. absurd (none-some r (sym q)))
    ]

  -- Filling a table that is large enough ends, and the search then finds the first answer.
  pub fill-probe :
      (es hash : List Hp) (o : Option R)
      → All (λ e. (e.p == 0) ≡ false) es
      → used hash + length es < length hash
      → Holds hash o
      → (t : List Hp) × (fill es hash ≡ some t)
        × (length t ≡ length hash)
        × Holds t (or_else o (first_answer f es))
  unfolding fill
  fill-probe [] hash none full room holds = (hash, refl, refl, holds)
  fill-probe [] hash (some r) full room holds = (hash, refl, refl, holds)
  fill-probe (e ∷ es) hash o (full, fulls) room holds =
      let low : slot_of e.h hash < length hash = mod-lt (e.h / 2 ^ 8) (omega arith) in
      let (w, at) = first_free-some (slot_of e.h hash) hash low (omega arith) in
      let (below, free) = first_free-free (length hash) (slot_of e.h hash) hash w low at in
      let (t, run, same, found) =
        fill-probe es (set hash w e) (or_else o (f e)) fulls
          (omega (arith, used-set hash w e below free, length-set hash w e))
          (Holds-set hash w e below free full at o holds) in
      (t, rw at run, same ∙ length-set hash w e, rw or_else_assoc at found)

  -- Filling the slots of a table that is empty ends, when it has more slots than there are
  -- entries and no entry has the position 0, and leaves as many slots. A search from the slot
  -- of a hash up to a free slot, around the end of the table, then answers what the first of
  -- the entries that answers says; only entries of the hash answer.
  pub fill-first_answer :
      (es : List Hp) (n : ℕ)
      → All (λ e. (e.p == 0) ≡ false) es
      → length es < n
      → (t : List Hp) × (fill es (replicate n empty_hp) ≡ some t)
        × (length t ≡ n)
        × (probe f (length t) (slot_of u t) t ≡ first_answer f es)
  fill-first_answer es n full room =
      let empty = replicate n empty_hp in
      let silent : IsSilent f empty = λ j taken.
        let p0 : (slot_at empty j).p ≡ 0 = ap (λ (x : Hp). x.p) (slot_at-empty n j) in
        absurd (grind (arith, p0, taken)) in
      let (t, run, same, found) =
        fill-probe es empty none full (omega (arith, used-empty n, length-replicate n empty_hp))
          (probe-silent f (length empty) (slot_of u empty) empty silent, λ q. silent) in
      (t, run, same ∙ length-replicate n empty_hp, found.0)
