-- ===== src/Arrays/Compact.antt =====
-- `sdb_array_compact` of src/util.c: it ends, and takes out the empty elements but for one in front
-- and one at the end.
use sdb.Base.{
  ℕ, ◌≡◌, refl, sym, ◌∙◌, Bool, true, false, not, ◌&&◌, List, [], ◌∷◌, some, ◌==◌, if◌then◌else◌,
  length, arith, Bool-cases, inl, inr,
}
use sdb.Arrays.{sdb_rs, at_rs, compact_pass, compact_loop, sdb_array_compact}
use sdb.Arrays.Split.{
  split, first, behind, filled, first-prepend, behind-prepend, filled-first, split-rs, split-other,
}

-- Two commas stand side by side.
abbrev pub has_double : List ℕ → Bool
has_double [] = false
has_double (c ∷ s) = let rest = has_double s in if c == sdb_rs && at_rs s then true else rest

has_double-tail : (c : ℕ) (p : List ℕ) → has_double (c ∷ p) ≡ false → has_double p ≡ false
has_double-tail c p single = ground arith

-- A pass leaves an array without double commas as it is.
compact_pass-single : (p : List ℕ) → has_double p ≡ false → compact_pass false p ≡ (false, p)
unfolding compact_pass
compact_pass-single [] single = refl
compact_pass-single (c ∷ p) single =
    let here : (c == sdb_rs && at_rs p) ≡ false = ground arith in
    simp (here, compact_pass-single p (has_double-tail c p single))

-- What a pass leaves starts with a comma where the array does, but behind a comma it never does.
compact_pass-at_rs : (run : Bool) (p : List ℕ) → at_rs (compact_pass run p).1 ≡ (not run && at_rs p)
unfolding compact_pass
compact_pass-at_rs true [] = refl
compact_pass-at_rs false [] = refl
compact_pass-at_rs true (c ∷ p) = elim (Bool-cases (c == sdb_rs)) [
  | inl rs ↦ rw rs (compact_pass-at_rs true p)
  | inr other ↦ simp other
]
compact_pass-at_rs false (c ∷ p) = elim (Bool-cases (c == sdb_rs && at_rs p)) [
  | inl double ↦ simp double
  | inr single ↦ simp single
]

compact_pass-has_double : (run : Bool) (p : List ℕ) → has_double (compact_pass run p).1 ≡ false
unfolding compact_pass
compact_pass-has_double true [] = refl
compact_pass-has_double false [] = refl
compact_pass-has_double true (c ∷ p) = elim (Bool-cases (c == sdb_rs)) [
  | inl rs ↦ rw rs (compact_pass-has_double true p)
  | inr other ↦ simp (other, compact_pass-has_double false p)
]
compact_pass-has_double false (c ∷ p) = elim (Bool-cases (c == sdb_rs && at_rs p)) [
  | inl double ↦
      rw double (ground (arith, compact_pass-at_rs true p, compact_pass-has_double true p))
  | inr single ↦
      rw single (ground (arith, compact_pass-at_rs false p, compact_pass-has_double false p))
]

filled-split :
    (a b : List ℕ)
    → first (split a) ≡ first (split b)
    → filled (behind (split a)) ≡ filled (behind (split b))
    → filled (split a) ≡ filled (split b)
filled-split a b f g = filled-first (split a) ∙ rw (f, g) refl ∙ sym (filled-first (split b))

-- The two arrays have the same first element, and the same others that are not empty.
Alike : List ℕ → List ℕ → Type 0
Alike a b =
    (first (split a) ≡ first (split b)) × (filled (behind (split a)) ≡ filled (behind (split b)))

module _ (c : ℕ) (a b : List ℕ) where
  Alike-rs : (c == sdb_rs) ≡ true → filled (split a) ≡ filled (split b) → Alike (c ∷ a) (c ∷ b)
  unfolding Alike
  Alike-rs rs h =
      (rw (split-rs c a rs, split-rs c b rs) refl, rw (split-rs c a rs, split-rs c b rs) h)

  Alike-other : (c == sdb_rs) ≡ false → Alike a b → Alike (c ∷ a) (c ∷ b)
  unfolding Alike
  Alike-other other (f, g) = (
    rw
        (
          split-other c a other,
          split-other c b other,
          first-prepend c (split a),
          first-prepend c (split b),
          f,
        )
        refl,
    rw
        (
          split-other c a other,
          split-other c b other,
          behind-prepend c (split a),
          behind-prepend c (split b),
        )
        g,
  )

Alike-filled : (a b : List ℕ) → Alike a b → filled (split a) ≡ filled (split b)
unfolding Alike
Alike-filled a b (f, g) = filled-split a b f g

compact_pass-Alike :
    (p : List ℕ)
    → Alike (compact_pass false p).1 p × (filled (split (compact_pass true p).1) ≡ filled (split p))
unfolding compact_pass
compact_pass-Alike [] = (unfold Alike in (refl, refl), refl)
compact_pass-Alike (c ∷ p) =
    let (m, h) = compact_pass-Alike p in
    let k = Alike-filled (compact_pass false p).1 p m in
    elim (Bool-cases (c == sdb_rs)) [
      | inl rs ↦ (
        elim (Bool-cases (at_rs p)) [
          | inl more ↦ rw (rs, more) (Alike-rs c (compact_pass true p).1 p rs h)
          | inr alone ↦ rw (rs, alone) (Alike-rs c (compact_pass false p).1 p rs k)
        ],
        rw rs (h ∙ unfold filled in rw (split-rs c p rs) refl),
      )
      | inr other ↦
          let next = Alike-other c (compact_pass false p).1 p other m in
          (rw other next, rw other (Alike-filled (c ∷ (compact_pass false p).1) (c ∷ p) next))
    ]

-- Compacting an array ends. What it leaves has no two commas side by side, and its elements that
-- are not empty are those of the array, in their order.
pub sdb_array_compact-filled :
    (p : List ℕ)
    → (r : List ℕ) × (sdb_array_compact p ≡ some r)
      × (has_double r ≡ false)
      × (filled (split r) ≡ filled (split p))
unfolding sdb_array_compact compact_loop
sdb_array_compact-filled p =
    let r = (compact_pass false p).1 in
    let (m, _) = compact_pass-Alike p in
    let single = compact_pass-has_double false p in
    let still = compact_pass-single r single in
    (
      r,
      elim (Bool-cases ((compact_pass false p).0 && not (length r == 0))) [
        | inl more ↦ simp (more, still)
        | inr done ↦ simp done
      ],
      single,
      Alike-filled r p m,
    )
