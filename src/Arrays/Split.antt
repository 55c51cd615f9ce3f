-- ===== src/Arrays/Split.antt =====
-- The arrays of src/util.c against the list of their elements.
use sdb.Base.{
  ℕ, ◌+◌, ◌≡◌, refl, sym, ap, ◌∙◌, true, false, List, [], ◌∷◌, some, ◌==◌, if◌then◌else◌, length,
  arith, Bool-cases, inl, inr,
}
use sdb.Arrays.{
  sdb_rs, at_rs, alen_loop, sdb_alen, skip_rs, ignore_empty_loop, sdb_alen_ignore_empty,
}

abbrev pub prepend : ℕ → List (List ℕ) → List (List ℕ)
prepend c [] = (c ∷ []) ∷ []
prepend c (w ∷ ws) = (c ∷ w) ∷ ws

-- The elements between the commas.
unfoldable pub split : List ℕ → List (List ℕ)
split [] = [] ∷ []
split (c ∷ s) = let rest = split s in if c == sdb_rs then [] ∷ rest else prepend c rest

-- The first element, and the others.
abbrev pub first : List (List ℕ) → List ℕ
first [] = []
first (w ∷ ws) = w

abbrev pub behind : List (List ℕ) → List (List ℕ)
behind [] = []
behind (w ∷ ws) = ws

abbrev pub add_filled : List ℕ → List (List ℕ) → List (List ℕ)
add_filled [] ws = ws
add_filled (c ∷ w) ws = (c ∷ w) ∷ ws

-- The elements that are not empty.
unfoldable pub filled : List (List ℕ) → List (List ℕ)
filled [] = []
filled (w ∷ ws) = add_filled w (filled ws)

module _ (c : ℕ) where
  length-prepend : (ws : List (List ℕ)) → length (prepend c ws) ≡ 1 + length (behind ws)
  length-prepend [] = refl
  length-prepend (w ∷ ws) = omega arith

  pub behind-prepend : (ws : List (List ℕ)) → behind (prepend c ws) ≡ behind ws
  behind-prepend [] = refl
  behind-prepend (w ∷ ws) = refl

  pub first-prepend : (ws : List (List ℕ)) → first (prepend c ws) ≡ c ∷ first ws
  first-prepend [] = refl
  first-prepend (w ∷ ws) = refl

pub filled-first : (ws : List (List ℕ)) → filled ws ≡ add_filled (first ws) (filled (behind ws))
unfolding filled
filled-first [] = refl
filled-first (w ∷ ws) = refl

pub filled-prepend :
    (c : ℕ) (ws : List (List ℕ)) → filled (prepend c ws) ≡ (c ∷ first ws) ∷ filled (behind ws)
unfolding filled
filled-prepend c [] = refl
filled-prepend c (w ∷ ws) = refl

length-split : (s : List ℕ) → length (split s) ≡ 1 + length (behind (split s))
unfolding split
length-split [] = refl
length-split (c ∷ s) = elim (Bool-cases (c == sdb_rs)) [
  | inl rs ↦ rw rs (omega arith)
  | inr other ↦
      rw other (length-prepend c (split s) ∙ ap suc' (sym (ap length (behind-prepend c (split s)))))
]
  where
    suc' : ℕ → ℕ
    suc' n = 1 + n

alen_loop-behind : (s : List ℕ) (n : ℕ) → alen_loop n s ≡ n + length (behind (split s))
unfolding alen_loop split
alen_loop-behind [] n = omega arith
alen_loop-behind (c ∷ s) n = elim (Bool-cases (c == sdb_rs)) [
  | inl rs ↦ rw rs (omega (arith, alen_loop-behind s (n + 1), length-split s))
  | inr other ↦ rw (other, behind-prepend) (alen_loop-behind s n)
]

alen-split : (c : ℕ) (s : List ℕ) → sdb_alen (some (c ∷ s)) ≡ length (split (c ∷ s))
unfolding sdb_alen
alen-split c s = omega (arith, alen_loop-behind (c ∷ s) 0, length-split (c ∷ s))

module _ (d : ℕ) (n : List ℕ) where
  pub split-rs : (d == sdb_rs) ≡ true → split (d ∷ n) ≡ [] ∷ split n
  unfolding split
  split-rs rs = rw rs refl

  pub split-other : (d == sdb_rs) ≡ false → split (d ∷ n) ≡ prepend d (split n)
  unfolding split
  split-other other = rw other refl

  pub filled-rs : (d == sdb_rs) ≡ true → filled (split (d ∷ n)) ≡ filled (behind (split (d ∷ n)))
  unfolding filled
  filled-rs rs = rw (split-rs rs) refl

  filled-other :
      (d == sdb_rs) ≡ false
      → length (filled (split (d ∷ n))) ≡ 1 + length (filled (behind (split (d ∷ n))))
  filled-other other =
      rw (split-other other, filled-prepend d (split n), behind-prepend d (split n)) (omega arith)

module _ (c len : ℕ) (n p : List ℕ) where
  loop-rs :
      (c == sdb_rs) ≡ true
      → ignore_empty_loop len p (c ∷ n)
        ≡ (if at_rs n then ignore_empty_loop len n n else ignore_empty_loop (len + 1) n n)
  unfolding ignore_empty_loop
  loop-rs rs = rw rs refl

  loop-other : (c == sdb_rs) ≡ false → ignore_empty_loop len p (c ∷ n) ≡ ignore_empty_loop len p n
  unfolding ignore_empty_loop
  loop-other other = rw other refl

-- An element starts before what is left, and it is not empty.
loop-filled :
    (n p : List ℕ) (len : ℕ)
    → (length p == 0) ≡ false
    → ignore_empty_loop len p n ≡ len + 1 + length (filled (behind (split n)))
loop-filled [] p len there = unfold ignore_empty_loop split filled in rw there (omega arith)
loop-filled (c ∷ []) p len there = elim (Bool-cases (c == sdb_rs)) [
  | inl rs ↦
      rw (loop-rs c len [] p rs, split-rs c [] rs)
        (unfold ignore_empty_loop split filled in omega arith)
  | inr other ↦
      rw (loop-other c len [] p other, split-other c [] other)
        (unfold ignore_empty_loop split filled in rw there (omega arith))
]
loop-filled (c ∷ d ∷ n) p len there = elim (Bool-cases (c == sdb_rs)) [
  | inr other ↦
      rw
        (
          loop-other c len (d ∷ n) p other,
          split-other c (d ∷ n) other,
          behind-prepend c (split (d ∷ n)),
        )
        (loop-filled (d ∷ n) p len there)
  | inl rs ↦ elim (Bool-cases (d == sdb_rs)) [
    | inl more ↦
        rw (loop-rs c len (d ∷ n) p rs, more, split-rs c (d ∷ n) rs, filled-rs d n more)
          (loop-filled (d ∷ n) (d ∷ n) len (ground arith))
    | inr other ↦
        rw (loop-rs c len (d ∷ n) p rs, other, split-rs c (d ∷ n) rs, filled-other d n other)
          (omega (arith, loop-filled (d ∷ n) (d ∷ n) (len + 1) (ground arith)))
  ]
]

skip_rs-filled : (s : List ℕ) → filled (split (skip_rs s)) ≡ filled (split s)
unfolding skip_rs
skip_rs-filled [] = refl
skip_rs-filled (c ∷ s) = elim (Bool-cases (c == sdb_rs)) [
  | inl rs ↦ rw (rs, filled-rs c s rs, split-rs c s rs) (skip_rs-filled s)
  | inr other ↦ simp other
]

skip_rs-first : (s : List ℕ) → at_rs (skip_rs s) ≡ false
unfolding skip_rs
skip_rs-first [] = refl
skip_rs-first (c ∷ s) = elim (Bool-cases (c == sdb_rs)) [
  | inl rs ↦ rw rs (skip_rs-first s)
  | inr other ↦ simp other
]

ignore_empty-filled : (s : List ℕ) → sdb_alen_ignore_empty (some s) ≡ length (filled (split s))
unfolding sdb_alen_ignore_empty
ignore_empty-filled [] = unfold split filled in refl
ignore_empty-filled (c ∷ s) =
    go (skip_rs (c ∷ s)) (skip_rs-first (c ∷ s)) ∙ ap length (skip_rs-filled (c ∷ s))
  where
    go : (p : List ℕ) → at_rs p ≡ false → ignore_empty_loop 0 p p ≡ length (filled (split p))
    go [] other = unfold ignore_empty_loop split filled in refl
    go (d ∷ n) other = rw (filled-other d n other) (loop-filled (d ∷ n) (d ∷ n) 0 (ground arith))

-- The length of an array that is not empty is the number of its elements, and its length without
-- the empty ones is the number of those that are not empty.
pub sdb_alen-split :
    (c : ℕ) (s : List ℕ)
    → (sdb_alen (some (c ∷ s)) ≡ length (split (c ∷ s)))
      × (sdb_alen_ignore_empty (some (c ∷ s)) ≡ length (filled (split (c ∷ s))))
sdb_alen-split c s = (alen-split c s, ignore_empty-filled (c ∷ s))
