-- ===== src/Match/Substring.antt =====
-- The comparisons of src/match.c without a star: what `strstr2` finds, what it misses, and what
-- the anchored comparison without case answers.
use mathlib.Core.List.{append_assoc}
use native.Mathlib.Numerals.{add-one}
use sdb.Base.{
  ℕ, zero, suc, ◌+◌, ◌≤◌, ◌<◌, ◌≡◌, ◌≢◌, refl, sym, ◌∙◌, ap, Bool, true, false, not, ◌&&◌, ◌||◌,
  List, [], ◌∷◌, ◌++◌, none, some, leb, ◌==◌, if◌then◌else◌, length, get_or, take, drop, All, arith,
  Bool-cases, inl, inr,
}
use sdb.Match.{Flags, tolower, mycmp_loop, mycmp, strstr2_loop, strstr2, compare_plain}

take-suc : (b : List ℕ) (j x : ℕ) → get_or b j 0 ≡ x → 0 < x → take (suc j) b ≡ take j b ++ x ∷ []
take-suc [] j x e h = absurd (omega arith)
take-suc (y ∷ b) zero x e h = cc
take-suc (y ∷ b) (suc j) x e h = ap (λ (r : List ℕ). y ∷ r) (take-suc b j x e h)

-- Where the pattern stands in the text.
abbrev pub Occurs : List ℕ → List ℕ → Type 0
Occurs p t = (before : List ℕ) × (after : List ℕ) × (t ≡ before ++ (p ++ after))

Occurs-append : (w p t : List ℕ) → Occurs p t → Occurs p (w ++ t)
Occurs-append w p t (before, after, e) =
    (w ++ before, after, ap (λ (r : List ℕ). w ++ r) e ∙ sym (append_assoc w before (p ++ after)))

-- The first `j` characters of the pattern stand before what is left of the text.
strstr2_loop-Occurs :
    (a b : List ℕ) (n j : ℕ) → j ≤ n → strstr2_loop a b n j ≡ n → Occurs (take n b) (take j b ++ a)
unfolding strstr2_loop
strstr2_loop-Occurs [] b n j h e = ([], [], rw e)
strstr2_loop-Occurs (x ∷ a) b n j h e = elim (Bool-cases (x == 0 || get_or b j 0 == 0 || leb n j)) [
  | inl ended ↦ let j-n : j ≡ n = ground arith in ([], x ∷ a, rw j-n)
  | inr more ↦ elim (Bool-cases (x == get_or b j 0)) [
    | inl same ↦
        let moved : take (suc j) b ++ a ≡ take j b ++ x ∷ a =
          rw (take-suc b j x (ground arith) (ground arith)) (append_assoc (take j b) (x ∷ []) a) in
        let one_more : j + 1 ≡ suc j = omega arith in
        let next : strstr2_loop a b n (j + 1) ≡ n = ground arith in
        let (before, after, found) =
          strstr2_loop-Occurs a b n (suc j) (ground arith) (rw one_more at next) in
        (before, after, sym moved ∙ found)
    | inr other ↦
        let next : strstr2_loop a b n 0 ≡ n = ground arith in
        let (before, after, found) =
          Occurs-append (take j b ++ x ∷ []) (take n b) a
            (strstr2_loop-Occurs a b n 0 (omega arith) next) in
        (before, after, sym (append_assoc (take j b) (x ∷ []) a) ∙ found)
  ]
]

-- A match that `strstr2` reports is one: the first `n` characters of the pattern stand in the
-- text.
pub strstr2-Occurs : (a b : List ℕ) (n : ℕ) → strstr2 a b n ≡ true → Occurs (take n b) a
unfolding strstr2
strstr2-Occurs a b n e = strstr2_loop-Occurs a b n 0 (omega arith) (ground arith)

-- The loop does not go back in the text when a partial match fails: a pattern of two different
-- nonzero characters is missed behind one more of its first character, though it stands there.
pub strstr2-misses :
    (x y : ℕ)
    → 0 < x
    → 0 < y
    → x ≢ y
    → Occurs (x ∷ y ∷ []) (x ∷ x ∷ y ∷ []) × (strstr2 (x ∷ x ∷ y ∷ []) (x ∷ y ∷ []) 2 ≡ false)
unfolding strstr2 strstr2_loop
strstr2-misses x y hx hy ne = ((x ∷ [], [], refl), ground arith)

-- The first `k` characters of both strings are there and equal up to case.
abbrev pub fold_eq : ℕ → List ℕ → List ℕ → Bool
fold_eq zero a b = true
fold_eq (suc k) [] b = false
fold_eq (suc k) (x ∷ a) [] = false
fold_eq (suc k) (x ∷ a) (y ∷ b) = tolower x == tolower y && fold_eq k a b

abbrev pub IsNonzero : ℕ → Type 0
IsNonzero c = 0 < c

get_or_pos : (b : List ℕ) (j : ℕ) → All IsNonzero b → j < length b → 0 < get_or b j 0
get_or_pos [] j h lt = absurd (omega arith)
get_or_pos (y ∷ b) zero h lt = h.0
get_or_pos (y ∷ b) (suc j) h lt = get_or_pos b j h.1 (omega arith)

drop_get : (b : List ℕ) (j : ℕ) → j < length b → drop j b ≡ get_or b j 0 ∷ drop (suc j) b
drop_get [] j lt = absurd (omega arith)
drop_get (y ∷ b) zero lt = refl
drop_get (y ∷ b) (suc j) lt = drop_get b j (omega arith)

mycmp_loop-fold_eq :
    (a b : List ℕ) (n j k : ℕ)
    → j + k ≡ n
    → n ≤ length b
    → k ≤ length a
    → All IsNonzero a
    → All IsNonzero b
    → mycmp_loop a b n false j ≡ (if fold_eq k a (drop j b) then some n else none)
unfolding mycmp_loop
mycmp_loop-fold_eq [] b n j zero e hb ha za zb = ground arith
mycmp_loop-fold_eq [] b n j (suc k) e hb ha za zb = absurd (omega arith)
mycmp_loop-fold_eq (x ∷ a) b n j zero e hb ha za zb = ground arith
mycmp_loop-fold_eq (x ∷ a) b n j (suc k) e hb ha za zb =
    rw (drop_get b j (omega arith))
      (ground (arith, get_or_pos b j zb, mycmp_loop-fold_eq a b n (j + 1) k, add-one j))

mycmp-fold_eq :
    (a b : List ℕ) (n : ℕ)
    → n ≤ length a
    → n ≤ length b
    → All IsNonzero a
    → All IsNonzero b
    → mycmp a b n false ≡ fold_eq n a b
unfolding mycmp
mycmp-fold_eq a b n la lb za zb =
    let e : 0 + n ≡ n = omega arith in ground (arith, mycmp_loop-fold_eq a b n 0 n e lb la za zb)

-- An anchored comparison without case, of a pattern no longer than the text and neither with a
-- zero, answers `true` for the texts whose first `blen` characters differ from the pattern up to
-- case, and `false` for those that match it.
pub compare_plain-icase_start :
    (a b : List ℕ) (blen : ℕ) (flags : Flags)
    → flags.glob ≡ false
    → flags.icase ≡ true
    → flags.start ≡ true
    → flags.finish ≡ false
    → blen ≤ length a
    → blen ≤ length b
    → All IsNonzero a
    → All IsNonzero b
    → compare_plain a b blen flags ≡ some (not (fold_eq blen a b))
unfolding compare_plain
compare_plain-icase_start a b blen flags hg hi hs hf la lb za zb =
    ground (arith, mycmp-fold_eq a b blen la lb za zb)
