-- ===== src/Ht/Entries.antt =====
-- The entries of one bucket of src/ht.inc.c: searching, overwriting, appending and removing.
use mathlib.Core.Option.{or_else}
use sdb.Base.{
  ℕ, zero, suc, ◌+◌, ◌≤◌, ◌≡◌, refl, sym, ◌∙◌, Bool, true, ◌&&◌, List, [], ◌∷◌, ◌++◌, Option, none,
  some, ◌==◌, if◌then◌else◌, length, get_elem?, set, All, arith, Bool-cases, inl, inr,
}
use sdb.Ht.{Options, Kv, is_kv_equal, find_index, remove_at}

-- Two keys are one to the table: their sizes agree and the comparison says so.
abbrev pub same {ℓ} : {K V : Type ℓ} → Options K V → K → K → Bool
same opt a b = opt.calcsize_key a == opt.calcsize_key b && opt.equal a b

-- What the callbacks have to satisfy for the table to work as a map.
pub record KeyLaws {ℓ} {K V : Type ℓ} (opt : Options K V) : Type ℓ where
  pub same_refl : (a : K) → same opt a a ≡ true
  pub same_symm : (a b : K) → same opt a b ≡ true → same opt b a ≡ true
  pub same_trans : (a b c : K) → same opt a b ≡ true → same opt b c ≡ true → same opt a c ≡ true
  pub hash_same : (a b : K) → same opt a b ≡ true → opt.hashfn a ≡ opt.hashfn b
  pub dup_same : (a : K) → same opt a (opt.dupkey a) ≡ true

module _ {ℓ} {K V : Type ℓ} ⦃opt : Options K V⦄ where
  -- An entry whose stored size is that of its key.
  abbrev pub IsKeyed : Kv K V → Type 0
  IsKeyed kv = kv.key_len ≡ opt.calcsize_key kv.key

  unfoldable pub find_in : K → List (Kv K V) → Option (Kv K V)
  find_in q [] = none
  find_in q (kv ∷ arr) = if same opt q kv.key then some kv else find_in q arr

  -- The number of entries under a key.
  unfoldable pub occ : K → List (Kv K V) → ℕ
  occ q [] = 0
  occ q (kv ∷ arr) = (if same opt q kv.key then 1 else 0) + occ q arr

  is_kv_equal-same :
      (q : K) (kv : Kv K V) → IsKeyed kv → is_kv_equal q (opt.calcsize_key q) kv ≡ same opt q kv.key
  unfolding is_kv_equal
  is_kv_equal-same q kv h = rw h

  pub get-find_index :
      (q : K) (arr : List (Kv K V))
      → All IsKeyed arr
      → elim (find_index q (opt.calcsize_key q) arr) [ none ↦ none | some j ↦ get_elem? arr j ]
        ≡ find_in q arr
  unfolding find_index find_in
  get-find_index q [] h = refl
  get-find_index q (kv ∷ arr) h =
      ground (arith, is_kv_equal-same q kv h.0, get-find_index q arr h.1)

  pub find_in-append :
      (q : K) (arr more : List (Kv K V))
      → find_in q (arr ++ more) ≡ or_else (find_in q arr) (find_in q more)
  unfolding find_in or_else
  find_in-append q [] more = refl
  find_in-append q (kv ∷ arr) more = ground (arith, find_in-append q arr more)

  pub occ-append : (q : K) (arr more : List (Kv K V)) → occ q (arr ++ more) ≡ occ q arr + occ q more
  unfolding occ
  occ-append q [] more = omega arith
  occ-append q (kv ∷ arr) more = omega (arith, occ-append q arr more)

  pub find_in-eq-none : (q : K) (arr : List (Kv K V)) → occ q arr ≡ 0 → find_in q arr ≡ none
  unfolding find_in occ
  find_in-eq-none q [] h = refl
  find_in-eq-none q (kv ∷ arr) h = ground (arith, find_in-eq-none q arr)

  pub occ-eq-zero : (q : K) (arr : List (Kv K V)) → find_in q arr ≡ none → occ q arr ≡ 0
  unfolding find_in occ
  occ-eq-zero q [] h = refl
  occ-eq-zero q (kv ∷ arr) h = ground (arith, occ-eq-zero q arr)

  pub find_index-none :
      (q : K) (arr : List (Kv K V))
      → All IsKeyed arr
      → find_index q (opt.calcsize_key q) arr ≡ none
      → find_in q arr ≡ none
  unfolding find_index find_in
  find_index-none q [] h e = refl
  find_index-none q (kv ∷ arr) h e =
      ground (arith, is_kv_equal-same q kv h.0, find_index-none q arr h.1)

  pub find_index-of_absent :
      (q : K) (arr : List (Kv K V))
      → All IsKeyed arr
      → find_in q arr ≡ none
      → find_index q (opt.calcsize_key q) arr ≡ none
  unfolding find_index find_in
  find_index-of_absent q [] h e = refl
  find_index-of_absent q (kv ∷ arr) h e =
      ground (arith, is_kv_equal-same q kv h.0, find_index-of_absent q arr h.1)

  module _ (laws : KeyLaws opt) where
    -- Two names of one key are told apart from the others alike.
    pub same_congr : (a b c : K) → same opt a b ≡ true → same opt a c ≡ same opt b c
    same_congr a b c e = elim (Bool-cases (same opt a c)) [
      | inl yes_ac ↦ rw (yes_ac, laws.same_trans b a c (laws.same_symm a b e) yes_ac)
      | inr no_ac ↦ elim (Bool-cases (same opt b c)) [
        | inl yes_bc ↦ cc (laws.same_trans a b c e yes_bc)
        | inr no_bc ↦ rw (no_ac, no_bc)
      ]
    ]

    pub same_congr_right : (a b c : K) → same opt b c ≡ true → same opt a b ≡ same opt a c
    same_congr_right a b c e = elim (Bool-cases (same opt a b)) [
      | inl yes_ab ↦ rw (yes_ab, laws.same_trans a b c yes_ab e)
      | inr no_ab ↦ elim (Bool-cases (same opt a c)) [
        | inl yes_ac ↦ cc (laws.same_trans a c b yes_ac (laws.same_symm b c e))
        | inr no_ac ↦ rw (no_ab, no_ac)
      ]
    ]

    -- Overwriting the entry that a search found.
    pub find_in-set :
        (k q : K) (arr : List (Kv K V)) (j : ℕ) (kv : Kv K V)
        → All IsKeyed arr
        → find_index k (opt.calcsize_key k) arr ≡ some j
        → same opt k kv.key ≡ true
        → find_in q (set arr j kv) ≡ (if same opt q k then some kv else find_in q arr)
    unfolding find_in find_index
    find_in-set k q [] j kv h e s = cc
    find_in-set k q (x ∷ arr) zero kv h e s =
        ground (
          arith,
          is_kv_equal-same k x h.0,
          same_congr_right q k kv.key s,
          same_congr_right q k x.key,
        )
    find_in-set k q (x ∷ arr) (suc j) kv h e s =
        ground (arith, is_kv_equal-same k x h.0, same_congr q k x.key, find_in-set k q arr j kv h.1)

    pub occ-set :
        (k q : K) (arr : List (Kv K V)) (j : ℕ) (kv : Kv K V)
        → All IsKeyed arr
        → find_index k (opt.calcsize_key k) arr ≡ some j
        → same opt k kv.key ≡ true
        → occ q (set arr j kv) ≡ occ q arr
    unfolding occ find_index
    occ-set k q [] j kv h e s = cc
    occ-set k q (x ∷ arr) zero kv h e s =
        ground (
          arith,
          is_kv_equal-same k x h.0,
          same_congr_right q k kv.key s,
          same_congr_right q k x.key,
        )
    occ-set k q (x ∷ arr) (suc j) kv h e s =
        ground (arith, is_kv_equal-same k x h.0, occ-set k q arr j kv h.1)

    absent_behind :
        (k q : K) (x : Kv K V) (arr : List (Kv K V))
        → same opt k x.key ≡ true
        → occ q (x ∷ arr) ≤ 1
        → find_in q arr ≡ (if same opt q k then none else find_in q (x ∷ arr))
    unfolding find_in
    absent_behind k q x arr s o = elim (Bool-cases (same opt q k)) [
      | inl yes_qk ↦
          let hit : same opt q x.key ≡ true = sym (same_congr_right q k x.key s) ∙ yes_qk in
          rw (yes_qk) (find_in-eq-none q arr (unfold occ in ground (arith, hit)))
      | inr no_qk ↦ rw (no_qk, sym (same_congr_right q k x.key s) ∙ no_qk)
    ]

    -- Taking out the entry that a search found.
    pub find_in-remove_at :
        (k q : K) (arr : List (Kv K V)) (j : ℕ)
        → All IsKeyed arr
        → find_index k (opt.calcsize_key k) arr ≡ some j
        → occ q arr ≤ 1
        → find_in q (remove_at arr j) ≡ (if same opt q k then none else find_in q arr)
    unfolding find_in find_index occ
    find_in-remove_at k q [] j h e o = cc
    find_in-remove_at k q (x ∷ arr) zero h e o =
        absent_behind k q x arr (ground (arith, is_kv_equal-same k x h.0)) o
    find_in-remove_at k q (x ∷ arr) (suc j) h e o =
        ground
          (arith, is_kv_equal-same k x h.0, same_congr q k x.key, find_in-remove_at k q arr j h.1)

  pub occ-remove_at : (q : K) (arr : List (Kv K V)) (j : ℕ) → occ q (remove_at arr j) ≤ occ q arr
  unfolding occ
  occ-remove_at q [] j = omega arith
  occ-remove_at q (x ∷ arr) zero = omega arith
  occ-remove_at q (x ∷ arr) (suc j) = omega (arith, occ-remove_at q arr j)

  pub IsKeyed-set :
      (arr : List (Kv K V)) (j : ℕ) (kv : Kv K V)
      → All IsKeyed arr
      → IsKeyed kv
      → All IsKeyed (set arr j kv)
  IsKeyed-set [] j kv h hk = h
  IsKeyed-set (x ∷ arr) zero kv h hk = (hk, h.1)
  IsKeyed-set (x ∷ arr) (suc j) kv h hk = (h.0, IsKeyed-set arr j kv h.1 hk)

  pub IsKeyed-append :
      (arr : List (Kv K V)) (kv : Kv K V)
      → All IsKeyed arr
      → IsKeyed kv
      → All IsKeyed (arr ++ kv ∷ [])
  IsKeyed-append [] kv h hk = (hk, tt)
  IsKeyed-append (x ∷ arr) kv h hk = (h.0, IsKeyed-append arr kv h.1 hk)

  pub IsKeyed-remove_at :
      (arr : List (Kv K V)) (j : ℕ) → All IsKeyed arr → All IsKeyed (remove_at arr j)
  IsKeyed-remove_at [] j h = h
  IsKeyed-remove_at (x ∷ arr) zero h = h.1
  IsKeyed-remove_at (x ∷ arr) (suc j) h = (h.0, IsKeyed-remove_at arr j h.1)

  pub length-remove_at :
      (k : K) (arr : List (Kv K V)) (j : ℕ)
      → find_index k (opt.calcsize_key k) arr ≡ some j
      → length (remove_at arr j) + 1 ≡ length arr
  unfolding find_index
  length-remove_at k [] j e = cc
  length-remove_at k (x ∷ arr) zero e = omega arith
  length-remove_at k (x ∷ arr) (suc j) e = ground (arith, length-remove_at k arr j)
