-- ===== src/Ht/Reserve.antt =====
-- Where `reserve_kv` of src/ht.inc.c places an entry, and what `extend` does to its bucket.
use sdb.Base.{
  ℕ, zero, suc, ◌+◌, ◌*◌, ◌<◌, ◌≡◌, refl, ap, ◌∙◌, Bool, true, false, List, [], ◌∷◌, ◌++◌, Option,
  none, some, ltb, leb, ◌==◌, ==_refl, if◌then◌else◌, length, get_or, set, length-append, arith,
  Bool-cases, inl, inr,
}
use sdb.Ht.{
  Options, Heap, Kv, Bucket, Ht, refused, existing, fresh, empty_bucket, bucket_at, bucketfn,
  find_index, write_kv, extend, reserve_kv, check_growing, store, stored,
}
use sdb.Ht.Entries.{find_index-of_absent}
use sdb.Ht.State.{get_or-set, IsRoomy, IsValid, view, with_bucket}

set-set {ℓ} : {A : Type ℓ} (xs : List A) (i : ℕ) (v w : A) → set (set xs i v) i w ≡ set xs i w
set-set [] i v w = refl
set-set (x ∷ xs) zero v w = refl
set-set {A} (x ∷ xs) (suc i) v w = ap (λ (r : List A). x ∷ r) (set-set xs i v w)

module _ {ℓ} {K V : Type ℓ} where
  -- The bucket after an entry is put behind its last one.
  abbrev pub longer : Bucket K V → Kv K V → Bucket K V
  longer bt kv =
      let n = length bt.arr in
      record {
        arr = bt.arr ++ kv ∷ [];
        size = if leb bt.size (n + 1) then (n + 1) * 2 else bt.size;
        room = if leb bt.size (n + 1) then (n + 1) * 2 else bt.room;
        lost = bt.lost;
      }

  pub longer-IsRoomy : (bt : Bucket K V) (kv : Kv K V) → IsRoomy bt → IsRoomy (longer bt kv)
  longer-IsRoomy bt kv r = elim (Bool-cases (leb bt.size (length bt.arr + 1))) [
    | inl full ↦ rw full (omega (arith, length-append bt.arr (kv ∷ []), r))
    | inr free ↦
        let less : length bt.arr + 1 < bt.size = ground arith in
        rw free (omega (arith, length-append bt.arr (kv ∷ []), r))
  ]

module _ {ℓ} {K V : Type ℓ} ⦃opt : Options K V⦄ ⦃heap : Heap⦄ where
  write_kv-with :
      (ht : Ht K V) (b n : ℕ) (bt : Bucket K V) (kv : Kv K V)
      → b < length ht.table
      → write_kv (with_bucket ht b bt n) (fresh b) kv
        ≡ with_bucket ht b (record bt { arr = bt.arr ++ kv ∷ [] }) n
  unfolding write_kv
  write_kv-with ht b n bt kv low =
      let here : get_or (set ht.table b bt) b empty_bucket ≡ bt =
        get_or-set ht.table b b bt empty_bucket low ∙ rw (==_refl b) in
      rw (here, set-set)

  extend-full :
      (ht : Ht K V) (b : ℕ)
      → ((n : ℕ) → heap.grants n ≡ true)
      → (bucket_at ht b).lost ≡ 0
      → let n = length (bucket_at ht b).arr in
        leb (bucket_at ht b).size (n + 1) ≡ true
        → extend ht b ≡ (
          with_bucket ht b
              (record (bucket_at ht b) { size = (n + 1) * 2; room = (n + 1) * 2 })
              (ht.count + 1),
          fresh b,
        )
  unfolding extend
  extend-full ht b grants none_lost full =
      let n = length (bucket_at ht b).arr in
      let counted : n + (bucket_at ht b).lost ≡ n = omega arith in
      let last : ((bucket_at ht b).lost == 0) ≡ true = ground arith in
      rw (extend, counted, full, grants ((n + 1) * 2), last)

  extend-free :
      (ht : Ht K V) (b : ℕ)
      → IsRoomy (bucket_at ht b)
      → leb (bucket_at ht b).size (length (bucket_at ht b).arr + 1) ≡ false
      → extend ht b ≡ (record ht { count = ht.count + 1 }, fresh b)
  unfolding extend
  extend-free ht b roomy free =
      let n = length (bucket_at ht b).arr in
      let counted : n + (bucket_at ht b).lost ≡ n = omega (arith, roomy) in
      let inside : ltb n (bucket_at ht b).room ≡ true = ground (arith, roomy) in
      rw (extend, counted, free, inside)

  -- With every allocation granted, the slot behind the last entry is had and written.
  pub store-extend :
      (insert : Ht K V → Kv K V → Option (Ht K V × Bool)) (ht : Ht K V) (b : ℕ) (kv : Kv K V)
      → ((n : ℕ) → heap.grants n ≡ true)
      → b < length ht.table
      → IsRoomy (bucket_at ht b)
      → store insert (extend ht b) kv
        ≡ stored
            (check_growing insert (with_bucket ht b (longer (bucket_at ht b) kv) (ht.count + 1)))
  unfolding store
  store-extend insert ht b kv grants low roomy =
      let bt = bucket_at ht b in
      let n = length bt.arr in
      let go = λ (h : Ht K V). stored (check_growing insert h) in
      elim (Bool-cases (leb bt.size (n + 1))) [
        | inl full ↦
            rw (full, extend-full ht b grants (omega (arith, roomy)) full)
              (ap go (write_kv-with ht b (ht.count + 1) _ kv low))
        | inr free ↦ rw (free, extend-free ht b roomy free) (unfold write_kv in refl)
      ]

module _ {ℓ} {K V : Type ℓ} ⦃opt : Options K V⦄ (ht : Ht K V) (v : IsValid ht) (k : K) where
  pub find_index-view :
      view ht k ≡ none → find_index k (opt.calcsize_key k) (bucket_at ht (bucketfn ht k)).arr ≡ none
  unfolding view
  find_index-view absent =
      find_index-of_absent k (bucket_at ht (bucketfn ht k)).arr (v.keyed (bucketfn ht k)) absent

module _ {ℓ} {K V : Type ℓ} ⦃opt : Options K V⦄ ⦃heap : Heap⦄ (ht : Ht K V) (v : IsValid ht)
    (k : K) where
  pub reserve_kv-absent :
      view ht k ≡ none
      → (u : Bool) → reserve_kv ht k (opt.calcsize_key k) u ≡ extend ht (bucketfn ht k)
  unfolding reserve_kv
  reserve_kv-absent absent u = rw (find_index-view ht v k absent, reserve_kv)

  pub reserve_kv-found :
      (j : ℕ) (u : Bool)
      → find_index k (opt.calcsize_key k) (bucket_at ht (bucketfn ht k)).arr ≡ some j
      → reserve_kv ht k (opt.calcsize_key k) u
        ≡ (if u then (ht, existing (bucketfn ht k) j) else (ht, refused))
  unfolding reserve_kv
  reserve_kv-found j u found = rw (found, reserve_kv)
