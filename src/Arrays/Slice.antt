-- ===== src/Arrays/Slice.antt =====
-- The parts of an array in a string: `sdb_aslice` and `sdb_anext` of src/util.c.
use sdb.Base.{
  ℕ, zero, suc, ◌+◌, ◌-◌, ◌≡◌, refl, sym, ap, ◌∙◌, true, false, List, [], ◌∷◌, ◌++◌, Option, none,
  some, leb, ◌==◌, if◌then◌else◌, take, drop, arith, Bool-cases, inl, inr,
}
use sdb.Arrays.{sdb_rs, cut_rs, sdb_anext, slice_end, slice_start, sdb_aslice}
use sdb.Arrays.Split.{prepend, split, split-rs, split-other}

-- The elements, each with the comma that ends it. Nothing stands behind a comma at the end.
unfoldable pub pieces : List ℕ → List (List ℕ)
pieces [] = []
pieces (c ∷ s) = let rest = pieces s in if c == sdb_rs then (c ∷ []) ∷ rest else prepend c rest

unfoldable pub concat : List (List ℕ) → List ℕ
concat [] = []
concat (w ∷ ws) = w ++ concat ws

-- Their text, if there is one.
abbrev pub joined : List (List ℕ) → Option (List ℕ)
joined [] = none
joined (w ∷ ws) = some (concat (w ∷ ws))

concat-prepend :
    (c k : ℕ) (ws : List (List ℕ))
    → concat (take (suc k) (prepend c ws)) ≡ c ∷ concat (take (suc k) ws)
unfolding concat
concat-prepend c zero [] = refl
concat-prepend c (suc k) [] = refl
concat-prepend c k (w ∷ ws) = refl

drop-prepend : (c k : ℕ) (ws : List (List ℕ)) → drop (suc k) (prepend c ws) ≡ drop (suc k) ws
drop-prepend c zero [] = refl
drop-prepend c (suc k) [] = refl
drop-prepend c k (w ∷ ws) = refl

joined-prepend :
    (c k : ℕ) (ws : List (List ℕ))
    → joined (take (suc k) (prepend c ws)) ≡ some (concat (take (suc k) (prepend c ws)))
joined-prepend c k [] = refl
joined-prepend c k (w ∷ ws) = refl

-- `k` elements are left to take.
slice_end-take : (p : List ℕ) (idx k : ℕ) → slice_end idx (idx + k) p ≡ concat (take k (pieces p))
unfolding slice_end pieces concat
slice_end-take [] idx zero = refl
slice_end-take [] idx (suc k) = refl
slice_end-take (c ∷ p) idx zero = let e : (idx == idx + 0) ≡ true = ground arith in rw e refl
slice_end-take (c ∷ p) idx (suc k) =
    let e : (idx == idx + suc k) ≡ false = ground arith in
    let m : idx + suc k ≡ idx + 1 + k = omega arith in
    elim (Bool-cases (c == sdb_rs)) [
      | inl rs ↦ rw (e, rs, m) (ap (λ (r : List ℕ). c ∷ r) (slice_end-take p (idx + 1) k))
      | inr other ↦
          rw (e, other)
            (ap (λ (r : List ℕ). c ∷ r) (slice_end-take p idx (suc k))
              ∙ sym (concat-prepend c k (pieces p)))
    ]

-- `k` elements are left to skip.
slice_start-drop :
    (p : List ℕ) (idx k n : ℕ)
    → slice_start idx (idx + k) (idx + k + suc n) p ≡ joined (take (suc n) (drop k (pieces p)))
unfolding slice_start pieces
slice_start-drop [] idx zero n = refl
slice_start-drop [] idx (suc k) n = refl
slice_start-drop (c ∷ p) idx zero n =
    let e : (idx == idx + 0) ≡ true = ground arith in
    let m : idx + 0 + suc n ≡ idx + suc n = omega arith in
    let there : some (concat (take (suc n) (pieces (c ∷ p))))
        ≡ joined (take (suc n) (pieces (c ∷ p))) =
      elim (Bool-cases (c == sdb_rs)) [
        | inl rs ↦ rw rs refl
        | inr other ↦ rw other (sym (joined-prepend c n (pieces p)))
      ] in
    rw (e, m) (ap (λ (r : List ℕ). some r) (slice_end-take (c ∷ p) idx (suc n)) ∙ there)
slice_start-drop (c ∷ p) idx (suc k) n =
    let e : (idx == idx + suc k) ≡ false = ground arith in
    let f : (idx == idx + suc k + suc n) ≡ false = ground arith in
    let m : idx + suc k ≡ idx + 1 + k = omega arith in
    elim (Bool-cases (c == sdb_rs)) [
      | inl rs ↦ rw (e, f, rs, m) (slice_start-drop p (idx + 1) k n)
      | inr other ↦ rw (e, f, other, drop-prepend c k (pieces p)) (slice_start-drop p idx (suc k) n)
    ]

-- The slice from one index up to another is the text of the elements between them, each with the
-- comma behind it; there is none if there are no such elements, where nothing stands behind a
-- comma at the end.
pub sdb_aslice-pieces :
    (out : List ℕ) (from to : ℕ)
    → sdb_aslice out from to ≡ joined (take (to - from) (drop from (pieces out)))
unfolding sdb_aslice
sdb_aslice-pieces out from to = elim (Bool-cases (leb to from)) [
  | inl none_between ↦ let e : to - from ≡ 0 = ground arith in rw (none_between, e) refl
  | inr some_between ↦
      let e : to - from ≡ suc (to - from - 1) = ground arith in
      let m : to ≡ 0 + from + suc (to - from - 1) = ground arith in
      let z : 0 + from ≡ from = omega arith in
      rw (some_between, e) (cc (slice_start-drop out 0 from (to - from - 1), m, z))
]

-- The pieces are the whole of the array.
pub concat-pieces : (s : List ℕ) → concat (pieces s) ≡ s
unfolding pieces concat
concat-pieces [] = refl
concat-pieces (c ∷ s) = elim (Bool-cases (c == sdb_rs)) [
  | inl rs ↦ rw rs (ap (λ (r : List ℕ). c ∷ r) (concat-pieces s))
  | inr other ↦ rw other (go (pieces s) ∙ ap (λ (r : List ℕ). c ∷ r) (concat-pieces s))
]
  where
    go : (ws : List (List ℕ)) → concat (prepend c ws) ≡ c ∷ concat ws
    go [] = refl
    go (w ∷ ws) = refl

-- The elements of what follows, if anything does.
abbrev pub elements : Option (List ℕ) → List (List ℕ)
elements none = []
elements (some s) = split s

-- An array is cut into its first element and the array of the others.
pub sdb_anext-split : (s : List ℕ) → split s ≡ (sdb_anext s).0 ∷ elements (sdb_anext s).1
unfolding sdb_anext cut_rs
sdb_anext-split [] = unfold split in refl
sdb_anext-split (c ∷ s) = elim (Bool-cases (c == sdb_rs)) [
  | inl rs ↦ rw (split-rs c s rs, rs) refl
  | inr other ↦ rw (split-other c s other, other, sdb_anext-split s) refl
]
