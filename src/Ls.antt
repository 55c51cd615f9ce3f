-- ===== src/Ls.antt =====
-- src/ls.c: the linked list, as the list of its data from the head on. The data are not NULL, and
-- a link is always granted.
pub mod Sorted
pub mod Counts
use sdb.Base.{
  ℕ, zero, suc, ◌+◌, ◌-◌, ◌%◌, ◌^◌, Bool, true, false, not, ◌&&◌, ◌||◌, List, [], ◌∷◌, ◌++◌, Option,
  none, some, ltb, ◌==◌, if◌then◌else◌, length, take, drop,
}

-- `MERGELIMIT`
abbrev pub mergelimit : ℕ
mergelimit = 24

module _ {A : Type 0} (greater : A → A → Bool) where
  -- The inner loop: the data of a node against those behind it, and what they leave.
  unfoldable pub exchange : A → List A → A × List A
  exchange x [] = (x, [])
  exchange x (y ∷ ys) =
      if greater x y
      then (let rest = exchange y ys in (rest.0, x ∷ rest.1))
      else (let rest = exchange x ys in (rest.0, y ∷ rest.1))

  -- The fuel is the length of the list.
  unfoldable pub ls_insertion_sort_iter : ℕ → List A → List A
  ls_insertion_sort_iter zero xs = xs
  ls_insertion_sort_iter (suc fuel) [] = []
  ls_insertion_sort_iter (suc fuel) (x ∷ xs) =
      let done = exchange x xs in done.0 ∷ ls_insertion_sort_iter fuel done.1

  -- `_merge`, on the sum of the lengths.
  unfoldable pub merge : ℕ → List A → List A → List A
  merge zero first second = []
  merge (suc fuel) [] [] = []
  merge (suc fuel) (x ∷ first) [] = x ∷ merge fuel first []
  merge (suc fuel) [] (y ∷ second) = y ∷ merge fuel [] second
  merge (suc fuel) (x ∷ first) (y ∷ second) =
      let from_first = merge fuel first (y ∷ second) in
      let from_second = merge fuel (x ∷ first) second in
      if greater x y then y ∷ from_second else x ∷ from_first

-- How often `fast` moves on by two.
unfoldable pub split_count : {A : Type 0} → ℕ → List A → ℕ
split_count zero xs = 0
split_count (suc fuel) [] = 0
split_count (suc fuel) (x ∷ []) = 0
split_count (suc fuel) (x ∷ (y ∷ [])) = 0
split_count (suc fuel) (x ∷ (y ∷ (z ∷ xs))) = suc (split_count fuel (z ∷ xs))

-- Both halves, or nothing for a list that is short. It is called on two elements or more.
unfoldable pub sdb_list_split : {A : Type 0} → List A → Option (List A × List A)
sdb_list_split xs =
    let count = split_count (length xs) xs in
    if ltb count mergelimit then none else some (take (count + 1) xs, drop (count + 1) xs)

module _ {A : Type 0} (greater : A → A → Bool) where
  -- `_merge_sort`, on the length of the list.
  unfoldable pub merge_sort : ℕ → List A → List A
  merge_sort zero xs = xs
  merge_sort (suc fuel) xs = if ltb (length xs) 2 then xs else elim (sdb_list_split xs) [
    | none ↦ ls_insertion_sort_iter greater (length xs) xs
    | some halves ↦
        let first = merge_sort fuel halves.0 in
        let second = merge_sort fuel halves.1 in
        merge greater (length first + length second) first second
  ]

  unfoldable pub ls_merge_sort : List A → List A
  ls_merge_sort xs = merge_sort (length xs) xs

-- `cmp` is the comparator, by its address, that the list was sorted with last.
pub record SdbList (A : Type 0) : Type 0 where
  pub items : List A
  pub len : ℕ
  pub cmp : Option ℕ
  pub sorted : Bool

abbrev pub is_cmp : Option ℕ → ℕ → Bool
is_cmp none cmp = false
is_cmp (some c) cmp = c == cmp

unfoldable pub ls_sort : {A : Type 0} → SdbList A → ℕ → (A → A → Bool) → SdbList A × Bool
ls_sort list cmp greater =
    if is_cmp list.cmp cmp
    then (list, false)
    else (let items =
          if ltb mergelimit list.len
          then ls_merge_sort greater list.items
          else ls_insertion_sort_iter greater (length list.items) list.items in
        (record list { items = items; cmp = some cmp; sorted = true }, true))

unfoldable pub ls_new : {A : Type 0} → SdbList A
ls_new = record { items = []; len = 0; cmp = none; sorted = false }

unfoldable pub ls_append : {A : Type 0} → SdbList A → A → SdbList A
ls_append list x = record list { items = list.items ++ x ∷ []; len = list.len + 1; sorted = false }

unfoldable pub ls_prepend : {A : Type 0} → SdbList A → A → SdbList A
ls_prepend list x = record list { items = x ∷ list.items; len = list.len + 1; sorted = false }

-- The length wraps around where there is nothing to take out.
unfoldable pub ls_pop_head : {A : Type 0} → SdbList A → SdbList A × Option A
ls_pop_head {A = A} list = go list.items
  where
    go : List A → SdbList A × Option A
    go [] = (record list { len = (list.len + (2 ^ 64 - 1)) % 2 ^ 64 }, none)
    go (x ∷ xs) = (record list { items = xs; len = list.len - 1 }, some x)

-- The first list with the elements of both, and the second, whose length stays.
unfoldable pub ls_join : {A : Type 0} → SdbList A → SdbList A → SdbList A × SdbList A × Bool
ls_join list1 list2 = if list2.len == 0 then (list1, list2, false) else (
  record list1 {
    items = if list1.len == 0 then list2.items else list1.items ++ list2.items;
    len = list1.len + list2.len;
    sorted = false;
  },
  record list2 { items = [] },
  true,
)

-- `ls_empty`
abbrev pub ls_empty : {A : Type 0} → SdbList A → Bool
ls_empty list = list.len == 0

unfoldable pub all_but_last : {A : Type 0} → List A → List A
all_but_last [] = []
all_but_last (x ∷ []) = []
all_but_last (x ∷ (y ∷ xs)) = x ∷ all_but_last (y ∷ xs)

abbrev pub last_of : {A : Type 0} → List A → Option A
last_of [] = none
last_of (x ∷ []) = some x
last_of (x ∷ (y ∷ xs)) = last_of (y ∷ xs)

unfoldable pub ls_pop : {A : Type 0} → SdbList A → SdbList A × Option A
ls_pop list =
    if length list.items == 0
    then (list, none)
    else (record list { items = all_but_last list.items; len = list.len - 1 }, last_of list.items)

unfoldable pub clone_loop : {A : Type 0} → SdbList A → List A → SdbList A
clone_loop r [] = r
clone_loop r (x ∷ xs) = clone_loop (ls_append r x) xs

unfoldable pub ls_clone : {A : Type 0} → SdbList A → SdbList A
ls_clone list = clone_loop ls_new list.items

-- In front of the `n`th element, or at the end.
unfoldable pub insert_loop : {A : Type 0} → ℕ → A → List A → List A
insert_loop n x [] = x ∷ []
insert_loop zero x (y ∷ ys) = x ∷ (y ∷ ys)
insert_loop (suc n) x (y ∷ ys) = y ∷ insert_loop n x ys

-- `n` is not negative.
unfoldable pub ls_insert : {A : Type 0} → SdbList A → ℕ → A → SdbList A
ls_insert list n x =
    if length list.items == 0 || n == 0
    then ls_prepend list x
    else record list { items = insert_loop n x list.items; len = list.len + 1; sorted = false }

unfoldable pub del_loop : {A : Type 0} → ℕ → List A → List A
del_loop n [] = []
del_loop zero (x ∷ xs) = xs
del_loop (suc n) (x ∷ xs) = x ∷ del_loop n xs

unfoldable pub ls_del_n : {A : Type 0} → SdbList A → ℕ → SdbList A × Bool
ls_del_n list n =
    if ltb n (length list.items)
    then (record list { items = del_loop n list.items; len = list.len - 1 }, true)
    else (list, false)
