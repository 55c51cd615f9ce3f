-- ===== src/Ht/Contents.antt =====
-- The entries of all buckets of a table of src/ht.inc.c, in the order of its nested loops.
use mathlib.Core.Option.{or_else}
use sdb.Base.{
  ℕ, zero, suc, ◌≤◌, ◌≡◌, refl, ◌∙◌, List, [], ◌∷◌, ◌++◌, ◌==◌, if◌then◌else◌, length,
  length-append, get_or, All, arith,
}
use sdb.Ht.{Options, Kv, Bucket, Ht, empty_bucket, bucketfn}
use sdb.Ht.Entries.{IsKeyed, find_in, occ, find_in-append, occ-append, find_in-eq-none}
use sdb.Ht.State.{total, IsValid, view}
use sdb.Ht.Write.{or_else-none}

module _ {ℓ} {K V : Type ℓ} where
  -- All entries, in the order of the nested loops.
  unfoldable pub entries : List (Bucket K V) → List (Kv K V)
  entries [] = []
  entries (bt ∷ table) = bt.arr ++ entries table

  pub length-entries : (table : List (Bucket K V)) → length (entries table) ≡ total table
  unfolding entries total
  length-entries [] = refl
  length-entries (bt ∷ table) =
      omega (arith, length-append bt.arr (entries table), length-entries table)

module _ {ℓ} {K V : Type ℓ} ⦃opt : Options K V⦄ where
  IsKeyed-append :
      (xs ys : List (Kv K V)) → All IsKeyed xs → All IsKeyed ys → All IsKeyed (xs ++ ys)
  IsKeyed-append [] ys hx hy = hy
  IsKeyed-append (x ∷ xs) ys hx hy = (hx.0, IsKeyed-append xs ys hx.1 hy)

  pub IsKeyed-entries :
      (table : List (Bucket K V))
      → ((i : ℕ) → All IsKeyed (get_or table i empty_bucket).arr)
      → All IsKeyed (entries table)
  unfolding entries
  IsKeyed-entries [] h = tt
  IsKeyed-entries (bt ∷ table) h =
      IsKeyed-append bt.arr (entries table) (h 0) (IsKeyed-entries table (λ i. h (suc i)))

  -- A key that may stand in the bucket `b` alone occurs once at most, and is found there.
  module _ (q : K) where
    entries_none :
        (table : List (Bucket K V))
        → ((i : ℕ) → occ q (get_or table i empty_bucket).arr ≤ 0)
        → occ q (entries table) ≡ 0
    unfolding entries occ
    entries_none [] h = refl
    entries_none (bt ∷ table) h =
        omega (arith, occ-append q bt.arr (entries table), h 0, entries_none table (λ i. h (suc i)))

    entries_once :
        (table : List (Bucket K V)) (b : ℕ)
        → ((i : ℕ) → occ q (get_or table i empty_bucket).arr ≤ (if i == b then 1 else 0))
        → (occ q (entries table) ≤ 1)
          × (find_in q (entries table) ≡ find_in q (get_or table b empty_bucket).arr)
    unfolding entries occ find_in or_else
    entries_once [] b h = (omega arith, refl)
    entries_once (bt ∷ table) zero h =
        let rest : occ q (entries table) ≡ 0 =
          entries_none table (λ i. let t = h (suc i) in ground arith) in
        (
          omega (arith, occ-append q bt.arr (entries table), h 0),
          rw (find_in-append q bt.arr (entries table), find_in-eq-none q (entries table) rest)
              (or_else-none (find_in q bt.arr)),
        )
    entries_once (bt ∷ table) (suc b) h =
        let first : occ q bt.arr ≡ 0 = let t = h 0 in ground arith in
        let (once, found) = entries_once table b (λ i. let t = h (suc i) in ground arith) in
        (
          omega (arith, occ-append q bt.arr (entries table)),
          rw (find_in-append q bt.arr (entries table), find_in-eq-none q bt.arr first) found,
        )

  pub find_in-entries :
      (ht : Ht K V)
      → IsValid ht
      → (q : K) → (occ q (entries ht.table) ≤ 1) × (find_in q (entries ht.table) ≡ view ht q)
  unfolding view
  find_in-entries ht v q = entries_once q ht.table (bucketfn ht q) (v.placed q)

  pub count-entries : (ht : Ht K V) → IsValid ht → length (entries ht.table) ≡ ht.count
  count-entries ht v = length-entries ht.table ∙ v.counted
