-- ===== src/Ls/Sorted.antt =====
-- Sorting a list of src/ls.c.
use sdb.Base.{
  ℕ, zero, suc, ◌+◌, ◌*◌, ◌≤◌, ◌<◌, ◌≡◌, refl, sym, ap, ◌∙◌, Bool, true, false, List, [], ◌∷◌, ◌++◌,
  some, ltb, ◌==◌, if◌then◌else◌, length, take, drop, length-append, length-drop, take-append-drop,
  arith, Bool-cases, inl, inr,
}
use sdb.Ls.{
  exchange, ls_insertion_sort_iter, merge, split_count, sdb_list_split, merge_sort, ls_merge_sort,
  SdbList, is_cmp, ls_sort, ls_append,
}

-- How many elements pass a test.
abbrev pub count : {A : Type 0} → (A → Bool) → List A → ℕ
count p [] = 0
count p (x ∷ xs) = (if p x then 1 else 0) + count p xs

-- Every test is passed by as many elements of both.
abbrev pub IsPermutation : {A : Type 0} → List A → List A → Type 0
IsPermutation {A = A} xs ys = (p : A → Bool) → count p xs ≡ count p ys

count-append :
    {A : Type 0} (p : A → Bool) (xs ys : List A) → count p (xs ++ ys) ≡ count p xs + count p ys
count-append p [] ys = omega arith
count-append p (x ∷ xs) ys = omega (arith, count-append p xs ys)

count_skip :
    {A : Type 0} (p : A → Bool) (x : A) (xs : List A)
    → p x ≡ false
    → count p xs ≡ 0
    → count p (x ∷ xs) ≡ 0
count_skip p x xs fails none_there = rw fails (omega (arith, none_there))

count-length : {A : Type 0} (xs : List A) → count (λ x. true) xs ≡ length xs
count-length [] = refl
count-length (x ∷ xs) = omega (arith, count-length xs)

IsPermutation-length : {A : Type 0} (xs ys : List A) → IsPermutation xs ys → length xs ≡ length ys
IsPermutation-length xs ys same = omega (arith, same (λ x. true), count-length xs, count-length ys)

module _ {A : Type 0} (greater : A → A → Bool) where
  -- No element is greater than one behind it.
  abbrev pub IsSorted : List A → Type 0
  IsSorted [] = Unit {0}
  IsSorted (x ∷ xs) = (count (greater x) xs ≡ 0) × IsSorted xs

  -- The comparator orders all elements: one of two is not greater, and this is passed on.
  abbrev pub IsOrder : Type 0
  IsOrder =
      ((x y : A) → greater x y ≡ true → greater y x ≡ false)
      × ((x y z : A) → greater x y ≡ false → greater y z ≡ false → greater x z ≡ false)

  module _ (order : IsOrder) where
    count-below :
        (x y : A) (zs : List A)
        → greater x y ≡ false
        → count (greater y) zs ≡ 0
        → count (greater x) zs ≡ 0
    count-below x y [] less none_greater = refl
    count-below x y (z ∷ zs) less none_greater = elim (Bool-cases (greater y z)) [
      | inl above ↦ absurd (ground (arith, above, none_greater))
      | inr below ↦
          let e = order.1 x y z less below in
          ground (arith, e, below, none_greater, count-below x y zs less)
    ]

    exchange-above :
        (x y : A) (ys : List A)
        → greater x y ≡ true
        → exchange greater x (y ∷ ys) ≡ ((exchange greater y ys).0, x ∷ (exchange greater y ys).1)
    unfolding exchange
    exchange-above x y ys above = rw above refl

    exchange-below :
        (x y : A) (ys : List A)
        → greater x y ≡ false
        → exchange greater x (y ∷ ys) ≡ ((exchange greater x ys).0, y ∷ (exchange greater x ys).1)
    unfolding exchange
    exchange-below x y ys below = rw below refl

    -- What the inner loop leaves in the node is not greater than what it leaves behind it.
    exchange-smallest :
        (x : A) (xs : List A)
        → (let r = exchange greater x xs in
            IsPermutation (r.0 ∷ r.1) (x ∷ xs)
            × (count (greater r.0) r.1 ≡ 0)
            × (greater r.0 x ≡ false))
    exchange-smallest x [] =
        unfold exchange in
        (λ p. refl, refl, elim (Bool-cases (greater x x)) [ inl e ↦ order.0 x x e | inr e ↦ e ])
    exchange-smallest x (y ∷ ys) = elim (Bool-cases (greater x y)) [
      | inl above ↦
          let (same, least, low) = exchange-smallest y ys in
          let e = order.1 (exchange greater y ys).0 y x low (order.0 x y above) in
          let r = exchange greater y ys in
          rw (exchange-above x y ys above)
            (λ p. omega (arith, same p), count_skip (greater r.0) x r.1 e least, e)
      | inr below ↦
          let (same, least, low) = exchange-smallest x ys in
          let e = order.1 (exchange greater x ys).0 x y low below in
          let r = exchange greater x ys in
          rw (exchange-below x y ys below)
            (λ p. omega (arith, same p), count_skip (greater r.0) y r.1 e least, low)
    ]

    ls_insertion_sort_iter-IsSorted :
        (fuel : ℕ) (xs : List A)
        → length xs ≤ fuel
        → IsSorted (ls_insertion_sort_iter greater fuel xs)
          × IsPermutation (ls_insertion_sort_iter greater fuel xs) xs
    unfolding ls_insertion_sort_iter
    ls_insertion_sort_iter-IsSorted zero [] enough = (tt, λ p. refl)
    ls_insertion_sort_iter-IsSorted zero (x ∷ xs) enough = absurd (omega arith)
    ls_insertion_sort_iter-IsSorted (suc fuel) [] enough = (tt, λ p. refl)
    ls_insertion_sort_iter-IsSorted (suc fuel) (x ∷ xs) enough =
        let r = exchange greater x xs in
        let (same, least, low) = exchange-smallest x xs in
        let len = IsPermutation-length (r.0 ∷ r.1) (x ∷ xs) same in
        let (done, kept) = ls_insertion_sort_iter-IsSorted fuel r.1 (omega (arith, len)) in
        ((kept (greater r.0) ∙ least, done), λ p. omega (arith, kept p, same p))

    merge-above :
        (fuel : ℕ) (x : A) (xs : List A) (y : A) (ys : List A)
        → greater x y ≡ true
        → merge greater (suc fuel) (x ∷ xs) (y ∷ ys) ≡ y ∷ merge greater fuel (x ∷ xs) ys
    unfolding merge
    merge-above fuel x xs y ys above = rw above refl

    merge-below :
        (fuel : ℕ) (x : A) (xs : List A) (y : A) (ys : List A)
        → greater x y ≡ false
        → merge greater (suc fuel) (x ∷ xs) (y ∷ ys) ≡ x ∷ merge greater fuel xs (y ∷ ys)
    unfolding merge
    merge-below fuel x xs y ys below = rw below refl

    merge-IsSorted :
        (fuel : ℕ) (xs ys : List A)
        → length xs + length ys ≤ fuel
        → IsSorted xs
        → IsSorted ys
        → IsSorted (merge greater fuel xs ys) × IsPermutation (merge greater fuel xs ys) (xs ++ ys)
    unfolding merge
    merge-IsSorted zero [] [] enough left right = (tt, λ p. refl)
    merge-IsSorted zero (x ∷ xs) ys enough left right = absurd (omega arith)
    merge-IsSorted zero [] (y ∷ ys) enough left right = absurd (omega arith)
    merge-IsSorted (suc fuel) [] [] enough left right = (tt, λ p. refl)
    merge-IsSorted (suc fuel) (x ∷ xs) [] enough (least, left) right =
        let (done, kept) = merge-IsSorted fuel xs [] (omega arith) left tt in
        (
          (kept (greater x) ∙ count-append (greater x) xs [] ∙ omega (arith, least), done),
          λ p. omega (arith, kept p),
        )
    merge-IsSorted (suc fuel) [] (y ∷ ys) enough left (least, right) =
        let (done, kept) = merge-IsSorted fuel [] ys (omega arith) tt right in
        ((kept (greater y) ∙ least, done), λ p. omega (arith, kept p))
    merge-IsSorted (suc fuel) (x ∷ xs) (y ∷ ys) enough (least1, left) (least2, right) =
        elim (Bool-cases (greater x y)) [
          | inl above ↦
              let (done, kept) =
                merge-IsSorted fuel (x ∷ xs) ys (omega arith) (least1, left) right in
              let less = order.0 x y above in
              let behind = count_skip (greater y) x xs less (count-below y x xs less least1) in
              let all : count (greater y) (merge greater fuel (x ∷ xs) ys) ≡ 0 =
                kept (greater y)
                ∙ count-append (greater y) (x ∷ xs) ys
                ∙ omega (arith, behind, least2) in
              rw (merge-above fuel x xs y ys above) (
                (all, done),
                λ p.
                    omega
                      (arith, kept p, count-append p (x ∷ xs) ys, count-append p (x ∷ xs) (y ∷ ys)),
              )
          | inr below ↦
              let (done, kept) =
                merge-IsSorted fuel xs (y ∷ ys) (omega arith) left (least2, right) in
              let behind = count_skip (greater x) y ys below (count-below x y ys below least2) in
              let all : count (greater x) (merge greater fuel xs (y ∷ ys)) ≡ 0 =
                kept (greater x)
                ∙ count-append (greater x) xs (y ∷ ys)
                ∙ omega (arith, behind, least1) in
              rw (merge-below fuel x xs y ys below) ((all, done), λ p. omega (arith, kept p))
        ]

    split-lengths :
        (fuel : ℕ) (xs : List A) → 0 < length xs → 2 * split_count fuel xs + 1 ≤ length xs
    unfolding split_count
    split-lengths zero xs full = omega arith
    split-lengths (suc fuel) [] full = absurd (omega arith)
    split-lengths (suc fuel) (x ∷ []) full = omega arith
    split-lengths (suc fuel) (x ∷ (y ∷ [])) full = omega arith
    split-lengths (suc fuel) (x ∷ (y ∷ (z ∷ xs))) full =
        omega (arith, split-lengths fuel (z ∷ xs) (omega arith))

    short-IsSorted : (xs : List A) → length xs < 2 → IsSorted xs
    short-IsSorted [] short = tt
    short-IsSorted (x ∷ []) short = (refl, tt)
    short-IsSorted (x ∷ (y ∷ xs)) short = absurd (omega arith)

    merge_sort-IsSorted :
        (fuel : ℕ) (xs : List A)
        → length xs ≤ fuel
        → IsSorted (merge_sort greater fuel xs) × IsPermutation (merge_sort greater fuel xs) xs
    unfolding merge_sort sdb_list_split
    merge_sort-IsSorted zero [] enough = (tt, λ p. refl)
    merge_sort-IsSorted zero (x ∷ xs) enough = absurd (omega arith)
    merge_sort-IsSorted (suc fuel) xs enough = elim (Bool-cases (ltb (length xs) 2)) [
      | inl short ↦ rw short (short-IsSorted xs (ground arith), λ p. refl)
      | inr long ↦
          let n = split_count (length xs) xs in
          elim (Bool-cases (ltb n 24)) [
            | inl few ↦
                rw (long, few) (ls_insertion_sort_iter-IsSorted (length xs) xs (omega arith))
            | inr many ↦
                let steps = split-lengths (length xs) xs (ground arith) in
                let front = take (n + 1) xs in
                let back = drop (n + 1) xs in
                let parts = take-append-drop (n + 1) xs in
                let behind = length-drop (n + 1) xs in
                let total : length front + length back ≡ length xs =
                  sym (length-append front back) ∙ ap (λ (t : List A). length t) parts in
                let (done1, kept1) =
                  merge_sort-IsSorted fuel front (ground (arith, total, behind, steps)) in
                let (done2, kept2) = merge_sort-IsSorted fuel back (omega (arith, total, behind)) in
                let first = merge_sort greater fuel front in
                let second = merge_sort greater fuel back in
                let (done, kept) =
                  merge-IsSorted (length first + length second) first second (omega arith) done1
                    done2 in
                rw (long, many)
                  (
                    done,
                    λ p.
                        kept p
                        ∙ count-append p first second
                        ∙ omega (arith, kept1 p, kept2 p, count-append p front back)
                        ∙ ap (λ (t : List A). count p t) parts,
                  )
          ]
    ]

    -- Sorting a list with a comparator that it was not sorted with last ends and returns
    -- true. No element of the result is greater than one behind it, every test is passed by
    -- as many elements as before, and the length stays. The length of the list is that of its
    -- data, and the comparator is an order: one of two elements is not greater than the
    -- other, and not being greater is passed on.
    pub ls_sort-IsSorted :
        (list : SdbList A) (cmp : ℕ)
        → list.len ≡ length list.items
        → is_cmp list.cmp cmp ≡ false
        → (r : SdbList A) × (ls_sort list cmp greater ≡ (r, true))
          × IsSorted r.items
          × IsPermutation r.items list.items
          × (r.len ≡ list.len)
    unfolding ls_sort ls_merge_sort
    ls_sort-IsSorted list cmp counted other =
        let n = length list.items in
        elim (Bool-cases (ltb 24 list.len)) [
          | inl long ↦
              let (done, kept) = merge_sort-IsSorted n list.items (omega arith) in
              (
                record list {
                  items = merge_sort greater n list.items;
                  cmp = some cmp;
                  sorted = true;
                },
                simp (other, long),
                done,
                kept,
                refl,
              )
          | inr short ↦
              let (done, kept) = ls_insertion_sort_iter-IsSorted n list.items (omega arith) in
              (
                record list {
                  items = ls_insertion_sort_iter greater n list.items;
                  cmp = some cmp;
                  sorted = true;
                },
                simp (other, short),
                done,
                kept,
                refl,
              )
        ]

  -- A list that was sorted, and then got an element at its end, is not sorted again with the
  -- same comparator: `ls_sort` returns false and leaves it as it is, whatever the element is.
  pub ls_sort-ls_append :
      (list : SdbList A) (cmp : ℕ) (x : A)
      → (let sorted_list = ls_append (ls_sort list cmp greater).0 x in
          ls_sort sorted_list cmp greater ≡ (sorted_list, false))
  unfolding ls_sort ls_append
  ls_sort-ls_append list cmp x = elim (Bool-cases (is_cmp list.cmp cmp)) [
    | inl same ↦ simp same
    | inr other ↦ let again : (cmp == cmp) ≡ true = ground arith in simp (other, again)
  ]
