-- ===== src/Ht/Faults.antt =====
-- Insertion by src/ht.inc.c where the allocator refuses a bucket its first array.
use sdb.Base.{
  ℕ, ◌+◌, ◌<◌, ◌≡◌, refl, ◌∙◌, true, false, [], none, some, ◌==◌, length, length-set, arith,
  Bool-cases, Option-cases, inl, inr,
}
use sdb.Ht.{
  Options, Heap, Bucket, Ht, empty_bucket, bucket_at, bucketfn, set_bucket, find_index, find_kv,
  find, extend, reserve_kv, store, insert_update, insert,
}
use sdb.Ht.State.{get_or-set}

module _ {ℓ} {K V : Type ℓ} where
  -- A bucket without an array, of whatever size it believes in and whatever it counts.
  abbrev pub hollow : ℕ → ℕ → Bucket K V
  hollow size lost = record { arr = []; size = size; room = 0; lost = lost }

  abbrev pub with_hollow : Ht K V → ℕ → ℕ → ℕ → ℕ → Ht K V
  with_hollow ht b size lost n = record ht { table = set_bucket ht b (hollow size lost); count = n }

  bucket_at-hollow :
      (ht : Ht K V) (b size lost n : ℕ)
      → b < length ht.table
      → bucket_at (with_hollow ht b size lost n) b ≡ hollow size lost
  bucket_at-hollow ht b size lost n low =
      get_or-set ht.table b b (hollow size lost) empty_bucket low ∙ ground arith

module _ {ℓ} {K V : Type ℓ} ⦃opt : Options K V⦄ where
  -- What a bucket without an array counts is of no consequence to a search.
  find-hollow :
      (ht : Ht K V) (b size lost size' lost' n : ℕ) (q : K)
      → b < length ht.table
      → bucket_at ht b ≡ hollow size' lost'
      → find (with_hollow ht b size lost n) q ≡ find ht q
  unfolding find find_kv
  find-hollow ht b size lost size' lost' n q low e =
      let h = with_hollow ht b size lost n in
      let i = bucketfn ht q in
      let arrays : (bucket_at h i).arr ≡ (bucket_at ht i).arr = elim (Bool-cases (b == i)) [
        | inl hit ↦
            let same_index : b ≡ i = ground arith in
            rw (get_or-set ht.table b i (hollow size lost) empty_bucket low, hit)
              (rw (← same_index, e) refl)
        | inr miss ↦ rw (get_or-set ht.table b i (hollow size lost) empty_bucket low, miss)
      ] in
      elim (Option-cases (find_index q (opt.calcsize_key q) (bucket_at ht i).arr)) [
        | inl gone ↦ rw (find, find_kv, arrays, gone)
        | inr (j, hit) ↦ rw (find, find_kv, arrays, hit, arrays)
      ]

module _ {ℓ} {K V : Type ℓ} ⦃opt : Options K V⦄ ⦃heap : Heap⦄ (k : K) (x : V) where
  insert-empty :
      (ht : Ht K V)
      → bucket_at ht (bucketfn ht k) ≡ empty_bucket
      → heap.grants 2 ≡ false
      → insert ht k x ≡ some (with_hollow ht (bucketfn ht k) 2 0 ht.count, false)
  unfolding insert insert_update store reserve_kv extend find_index
  insert-empty ht e g = rw (e, reserve_kv, extend, e, g)

  insert-hollow :
      (ht : Ht K V)
      → bucket_at ht (bucketfn ht k) ≡ hollow 2 0
      → insert ht k x ≡ some (with_hollow ht (bucketfn ht k) 2 1 (ht.count + 1), false)
  unfolding insert insert_update store reserve_kv extend find_index
  insert-hollow ht e = rw (e, reserve_kv, extend, e)

  insert-lost :
      (ht : Ht K V)
      → bucket_at ht (bucketfn ht k) ≡ hollow 2 1
      → heap.grants 4 ≡ true
      → insert ht k x ≡ none
  unfolding insert insert_update store reserve_kv extend find_index
  insert-lost ht e g = rw (e, reserve_kv, extend, e, g)

module _ {ℓ} {K V : Type ℓ} ⦃opt : Options K V⦄ ⦃heap : Heap⦄ where
  -- Three insertions of a key whose bucket has no array yet, where the allocator refuses an
  -- array of two entries and grants one of four. The first returns false and leaves the count.
  -- The second asks for no memory, returns false too and raises the count. Every key finds
  -- after both what it found before. Of what the third does the model says nothing: the entry
  -- in front of the one it writes was never written.
  pub insert-miscounts :
      (ht : Ht K V) (k : K) (x : V)
      → bucketfn ht k < length ht.table
      → bucket_at ht (bucketfn ht k) ≡ empty_bucket
      → heap.grants 2 ≡ false
      → heap.grants 4 ≡ true
      → (r : Ht K V) × (s : Ht K V) × (insert ht k x ≡ some (r, false))
        × (r.count ≡ ht.count)
        × (insert r k x ≡ some (s, false))
        × (s.count ≡ ht.count + 1)
        × ((q : K) → (find r q ≡ find ht q) × (find s q ≡ find ht q))
        × (insert s k x ≡ none)
  insert-miscounts ht k x low e g2 g4 =
      let b = bucketfn ht k in
      let r = with_hollow ht b 2 0 ht.count in
      let s = with_hollow r b 2 1 (ht.count + 1) in
      let wide : b < length r.table = rw (length-set ht.table b (hollow 2 0)) low in
      let first = bucket_at-hollow ht b 2 0 ht.count low in
      let second = bucket_at-hollow r b 2 1 (ht.count + 1) wide in
      let same_first : (q : K) → find r q ≡ find ht q =
        λ q. find-hollow ht b 2 0 0 0 ht.count q low e in
      (
        r,
        s,
        insert-empty k x ht e g2,
        refl,
        insert-hollow k x r first,
        refl,
        (λ q. (same_first q, find-hollow r b 2 1 2 0 (ht.count + 1) q wide first ∙ same_first q)),
        insert-lost k x s second g4,
      )
