-- ===== src/Ls/Counts.antt =====
-- The length that a list of src/ls.c keeps.
use sdb.Base.{
  ℕ, zero, suc, ◌+◌, ◌-◌, ◌<◌, ◌≡◌, refl, false, ◌||◌, List, [], ◌∷◌, none, ltb, ◌==◌, length,
  length-append, arith, Bool-cases, inl, inr,
}
use sdb.Ls.{
  SdbList, ls_append, ls_prepend, ls_pop, all_but_last, insert_loop, ls_insert, del_loop, ls_del_n,
  ls_join,
}

-- A change of a list.
pub data Edit (A : Type 0) : Type 0 where
  at_end at_front : A → Edit A
  last_out : Edit A
  before : ℕ → A → Edit A
  out : ℕ → Edit A
  behind : List A → Edit A

abbrev pub edit : {A : Type 0} → SdbList A → Edit A → SdbList A
edit list (at_end x) = ls_append list x
edit list (at_front x) = ls_prepend list x
edit list last_out = (ls_pop list).0
edit list (before n x) = ls_insert list n x
edit list (out n) = (ls_del_n list n).0
edit list (behind xs) =
    (ls_join list (record { items = xs; len = length xs; cmp = none; sorted = false })).0

abbrev pub edit_all : {A : Type 0} → SdbList A → List (Edit A) → SdbList A
edit_all list [] = list
edit_all list (e ∷ edits) = edit_all (edit list e) edits

-- The length is that of the data.
abbrev pub IsCounted : {A : Type 0} → SdbList A → Type 0
IsCounted list = list.len ≡ length list.items

module _ {A : Type 0} where
  length-all_but_last : (xs : List A) → length (all_but_last xs) ≡ length xs - 1
  unfolding all_but_last
  length-all_but_last [] = refl
  length-all_but_last (x ∷ []) = omega arith
  length-all_but_last (x ∷ (y ∷ xs)) = omega (arith, length-all_but_last (y ∷ xs))

  length-insert_loop : (n : ℕ) (x : A) (xs : List A) → length (insert_loop n x xs) ≡ length xs + 1
  unfolding insert_loop
  length-insert_loop n x [] = refl
  length-insert_loop zero x (y ∷ ys) = omega arith
  length-insert_loop (suc n) x (y ∷ ys) = omega (arith, length-insert_loop n x ys)

  length-del_loop : (n : ℕ) (xs : List A) → n < length xs → length (del_loop n xs) ≡ length xs - 1
  unfolding del_loop
  length-del_loop n [] low = absurd (omega arith)
  length-del_loop zero (x ∷ xs) low = omega arith
  length-del_loop (suc n) (x ∷ xs) low = omega (arith, length-del_loop n xs (omega arith))

  edit-IsCounted : (list : SdbList A) (e : Edit A) → IsCounted list → IsCounted (edit list e)
  unfolding ls_append ls_prepend ls_pop ls_insert ls_del_n ls_join
  edit-IsCounted list (at_end x) counted = omega (arith, counted, length-append list.items (x ∷ []))
  edit-IsCounted list (at_front x) counted = omega (arith, counted)
  edit-IsCounted list last_out counted = elim (Bool-cases (length list.items == 0)) [
    | inl nothing ↦ rw (edit, ls_pop, nothing) counted
    | inr more ↦ rw (edit, ls_pop, more) (omega (arith, counted, length-all_but_last list.items))
  ]
  edit-IsCounted list (before n x) counted = elim (Bool-cases (length list.items == 0 || n == 0)) [
    | inl front ↦ rw (edit, ls_insert, front) (omega (arith, counted))
    | inr inside ↦
        rw (edit, ls_insert, inside) (omega (arith, counted, length-insert_loop n x list.items))
  ]
  edit-IsCounted list (out n) counted = elim (Bool-cases (ltb n (length list.items))) [
    | inl low ↦
        rw (edit, ls_del_n, low)
          (let h : n < length list.items = ground arith in
            omega (arith, counted, length-del_loop n list.items h))
    | inr high ↦ rw (edit, ls_del_n, high) counted
  ]
  edit-IsCounted list (behind xs) counted = elim (Bool-cases (length xs == 0)) [
    | inl nothing ↦ rw (edit, ls_join, nothing) counted
    | inr more ↦ elim (Bool-cases (list.len == 0)) [
      | inl first ↦ rw (edit, ls_join, more, first) (ground (arith, first))
      | inr others ↦
          rw (edit, ls_join, more, others) (omega (arith, counted, length-append list.items xs))
    ]
  ]

  -- Appending, prepending, inserting, taking out the last or the nth element and joining
  -- another list of its own length behind, in any order, keep the length of a list that of its
  -- data.
  pub edit_all-IsCounted :
      (edits : List (Edit A)) (list : SdbList A) → IsCounted list → IsCounted (edit_all list edits)
  edit_all-IsCounted [] list counted = counted
  edit_all-IsCounted (e ∷ edits) list counted =
      edit_all-IsCounted edits (edit list e) (edit-IsCounted list e counted)
