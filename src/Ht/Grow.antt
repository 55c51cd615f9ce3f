-- ===== src/Ht/Grow.antt =====
-- Growing a table of src/ht.inc.c: the entries move to a new table.
use mathlib.Core.Option.{or_else}
use sdb.Base.{
  and_then, and_then_assoc, and_then_congr, ℕ, suc, ◌+◌, ◌*◌, ◌%◌, ◌^◌, ◌≤◌, ◌<◌, ◌≡◌, refl, sym,
  ap, ◌∙◌, Bool, true, false, List, [], ◌∷◌, ◌++◌, Option, none, some, leb, if◌then◌else◌, length,
  All, arith,
}
use sdb.Ht.{
  Options, Heap, Kv, Bucket, Ht, bucketfn, check_growing, internal_ht_new, internal_ht_grow,
  move_bucket, move_table, insert_kv, next_idx, compute_size,
}
use sdb.Ht.Sizes.{compute_size-lt}
use sdb.Ht.Contents.{entries, IsKeyed-entries, find_in-entries, count-entries}
use sdb.Ht.Entries.{same, KeyLaws, IsKeyed, find_in, occ}
use sdb.Ht.State.{IsValid, view, blank, blank-IsValid, view-blank}
use sdb.Ht.Reserve.{store-extend, reserve_kv-absent}
use sdb.Ht.Write.{appended, appended-IsValid, view-appended, or_else-none}

module _ {ℓ} {K V : Type ℓ} ⦃opt : Options K V⦄ ⦃heap : Heap⦄ where
  move_bucket-append :
      (insert : Ht K V → Kv K V → Option (Ht K V × Bool)) (xs ys : List (Kv K V)) (ht : Ht K V)
      → move_bucket insert (xs ++ ys) ht
        ≡ and_then (move_bucket insert xs ht) (move_bucket insert ys)
  unfolding move_bucket
  move_bucket-append insert [] ys ht = refl
  move_bucket-append insert (x ∷ xs) ys ht =
      and_then_assoc (insert ht x) (λ r. move_bucket insert xs r.0) (move_bucket insert ys)
        (λ r. move_bucket insert (xs ++ ys) r.0) (λ r. move_bucket-append insert xs ys r.0)

  -- The nested loops are one loop over all entries.
  move_table-entries :
      (insert : Ht K V → Kv K V → Option (Ht K V × Bool)) (table : List (Bucket K V)) (ht : Ht K V)
      → move_table insert table ht ≡ move_bucket insert (entries table) ht
  unfolding move_table entries move_bucket
  move_table-entries insert [] ht = refl
  move_table-entries insert (bt ∷ table) ht =
      and_then_congr (move_bucket insert bt.arr ht) (move_table insert table)
        (move_bucket insert (entries table)) (λ r. move_table-entries insert table r)
      ∙ sym (move_bucket-append insert bt.arr (entries table) ht)

  -- A table that does not fill up by it takes an entry under a new key.
  insert_kv-absent :
      (fuel : ℕ) (ht : Ht K V) (kv : Kv K V)
      → ((n : ℕ) → heap.grants n ≡ true)
      → IsValid ht
      → view ht kv.key ≡ none
      → IsKeyed kv
      → ht.count + 1 < ht.size
      → insert_kv (suc fuel) ht kv false ≡ some (appended ht kv kv.key, true)
  unfolding insert_kv check_growing
  insert_kv-absent fuel ht kv grants v absent keyed room =
      let b = bucketfn ht kv.key in
      let grow = λ (h : Ht K V) (k : Kv K V). insert_kv fuel h k false in
      let low : b < length ht.table = omega (arith, v.positive, v.wide) in
      let free : leb ht.size (ht.count + 1) ≡ false = ground arith in
      simp keyed (
        rw (
          reserve_kv-absent ht v kv.key absent false,
          store-extend grow ht b kv grants low (v.roomy b),
          free,
        ))

-- What a table is after a number of entries was moved to it.
record Moved {ℓ} {K V : Type ℓ} ⦃opt : Options K V⦄ (ht : Ht K V) (es : List (Kv K V)) (r : Ht K V)
    : Type ℓ where
  valid : IsValid r
  size : r.size ≡ ht.size
  count : r.count ≡ ht.count + length es
  reads : (q : K) → view r q ≡ or_else (view ht q) (find_in q es)

module _ {ℓ} {K V : Type ℓ} ⦃opt : Options K V⦄ ⦃heap : Heap⦄ (laws : KeyLaws opt)
    (grants : (n : ℕ) → heap.grants n ≡ true) where
  move_reads :
      (x y z : Option (Kv K V)) (b : Bool) (kv : Kv K V)
      → (b ≡ true → x ≡ none)
      → y ≡ or_else (if b then some kv else x) z
      → y ≡ or_else x (if b then some kv else z)
  unfolding or_else
  move_reads x y z true kv apart e = rw (apart refl) e
  move_reads x y z false kv apart e = e

  move_apart :
      (x : Option (Kv K V)) (b : Bool) (m : ℕ) (kv : Kv K V)
      → (if b then 1 else 0) + m ≤ 1
      → 0 < m
      → (0 < (if b then 1 else 0) + m → x ≡ none)
      → (if b then some kv else x) ≡ none
  move_apart x true m kv once more apart = absurd (omega arith)
  move_apart x false m kv once more apart = apart (omega arith)

  move_bucket-Moved :
      (fuel : ℕ) (es : List (Kv K V)) (ht : Ht K V)
      → IsValid ht
      → All IsKeyed es
      → ((q : K) → occ q es ≤ 1)
      → ((q : K) → 0 < occ q es → view ht q ≡ none)
      → ht.count + length es < ht.size
      → (r : Ht K V) × (move_bucket (λ h k. insert_kv (suc fuel) h k false) es ht ≡ some r)
        × Moved ht es r
  unfolding move_bucket occ find_in or_else
  move_bucket-Moved fuel [] ht v keyed once apart room = (
    ht,
    refl,
    record {
      valid = v;
      size = refl;
      count = omega arith;
      reads = λ q. sym (or_else-none (view ht q));
    },
  )
  move_bucket-Moved fuel (kv ∷ es) ht v keyed once apart room =
      let absent = apart kv.key (rw (laws.same_refl kv.key) (omega arith)) in
      let valid = appended-IsValid laws ht v kv kv.key keyed.0 (laws.same_refl kv.key) absent in
      let view' = view-appended laws ht v kv kv.key keyed.0 (laws.same_refl kv.key) absent in
      let (r, run, m) =
        move_bucket-Moved fuel es (appended ht kv kv.key) valid keyed.1 (λ q. omega (arith, once q))
          (λ q more.
            view' q
            ∙ move_apart (view ht q) (same opt q kv.key) (occ q es) kv (once q) more (apart q))
          (omega arith) in
      (
        r,
        rw (insert_kv-absent fuel ht kv grants v absent keyed.0 (omega arith)) run,
        record {
          valid = m.valid;
          size = m.size;
          count = omega (arith, m.count);
          reads = λ q.
              move_reads (view ht q) (view r q) (find_in q es) (same opt q kv.key) kv
                (λ hit. apart q (rw hit (omega arith)))
                (m.reads q ∙ ap (λ (t : Option (Kv K V)). or_else t (find_in q es)) (view' q));
        },
      )

  pub internal_ht_new-blank :
      (size idx : ℕ) → internal_ht_new {K = K} {V = V} size idx ≡ some (blank size idx)
  unfolding internal_ht_new
  internal_ht_new-blank size idx = rw (grants 1, grants size)

  internal_ht_grow-move :
      (insert : Ht K V → Kv K V → Option (Ht K V × Bool)) (ht : Ht K V)
      → let idx = next_idx ht.prime_idx in
        internal_ht_grow insert ht
        ≡ move_table insert ht.table (blank (compute_size idx (ht.size * 2 % 2 ^ 32)) idx)
  unfolding internal_ht_grow
  internal_ht_grow-move insert ht = rw (
    internal_ht_new-blank (compute_size (next_idx ht.prime_idx) (ht.size * 2 % 2 ^ 32))
        (next_idx ht.prime_idx),
    internal_ht_grow,
  )

  -- Growing a well-formed table that holds no more entries than it has buckets, and has fewer
  -- than 2^31, ends in a well-formed table that is larger, holds as many entries, and maps
  -- every key to what it mapped it to. The options keep the laws of keys, and every allocation
  -- is granted.
  pub internal_ht_grow-view :
      (fuel : ℕ) (ht : Ht K V)
      → IsValid ht
      → ht.count ≤ ht.size
      → ht.size < 2 ^ 31
      → (r : Ht K V) × (internal_ht_grow (λ h k. insert_kv (suc fuel) h k false) ht ≡ some r)
        × IsValid r
        × (ht.size < r.size)
        × (r.count ≡ ht.count)
        × ((q : K) → view r q ≡ view ht q)
  unfolding or_else
  internal_ht_grow-view fuel ht v full small =
      let idx = next_idx ht.prime_idx in
      let size' = compute_size idx (ht.size * 2 % 2 ^ 32) in
      let (larger, sized) = compute_size-lt ht.prime_idx ht.size v.sized small in
      let fresh_table : Ht K V = blank size' idx in
      let len = count-entries ht v in
      let (r, run, m) =
        move_bucket-Moved fuel (entries ht.table) fresh_table
          (blank-IsValid size' idx (omega arith) sized) (IsKeyed-entries ht.table v.keyed)
          (λ q. (find_in-entries ht v q).0) (λ q _. view-blank size' idx q) (omega arith) in
      (
        r,
        internal_ht_grow-move _ ht ∙ move_table-entries _ ht.table fresh_table ∙ run,
        m.valid,
        omega (arith, m.size),
        omega (arith, m.count),
        λ q. m.reads q ∙ rw (view-blank size' idx q) ((find_in-entries ht v q).1),
      )
