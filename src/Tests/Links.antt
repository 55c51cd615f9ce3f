-- ===== src/Tests/Links.antt =====
-- The theorems on src/ls.c at small lists.
use sdb.Base.{ℕ, ◌≡◌, refl, Bool, true, false, List, [], ◌∷◌, none, ltb, arith}
use sdb.Ls.{SdbList, ls_sort, ls_append}
use sdb.Ls.Counts.{
  Edit, at_end, at_front, last_out, before, out, behind, IsCounted, edit_all, edit_all-IsCounted,
}
use sdb.Ls.Sorted.{IsSorted, IsOrder, IsPermutation, ls_sort-IsSorted, ls_sort-ls_append}

-- `cmp` of two numbers, of which the first is greater.
abbrev above : ℕ → ℕ → Bool
above x y = ltb y x

above-IsOrder : IsOrder above
above-IsOrder = (λ x y e. ground (arith, e), λ x y z e f. ground (arith, e, f))

abbrev numbers : SdbList ℕ
numbers = record { items = 3 ∷ (1 ∷ (2 ∷ [])); len = 3; cmp = none; sorted = false }

ls_sort-IsSorted_example :
    (r : SdbList ℕ) × (ls_sort numbers 1000 above ≡ (r, true))
    × IsSorted above r.items
    × IsPermutation r.items numbers.items
    × (r.len ≡ numbers.len)
ls_sort-IsSorted_example = ls_sort-IsSorted above above-IsOrder numbers 1000 refl refl

ls_sort-ls_append_example :
    (let sorted_list = ls_append (ls_sort numbers 1000 above).0 0 in
      ls_sort sorted_list 1000 above ≡ (sorted_list, false))
ls_sort-ls_append_example = ls_sort-ls_append above numbers 1000 0

abbrev some_edits : List (Edit ℕ)
some_edits =
    at_end 7 ∷ (last_out ∷ (before 1 9 ∷ (out 0 ∷ (behind (5 ∷ (6 ∷ [])) ∷ (at_front 4 ∷ [])))))

edit_all-IsCounted_example : IsCounted (edit_all numbers some_edits)
edit_all-IsCounted_example = edit_all-IsCounted some_edits numbers refl
