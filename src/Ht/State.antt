-- ===== src/Ht/State.antt =====
-- When a table of src/ht.inc.c is well formed, what it maps a key to, and how a change of one
-- bucket acts on both.
use sdb.Base.{
  ℕ, zero, suc, ◌+◌, ◌%◌, ◌≤◌, ◌<◌, ◌≡◌, refl, ap, ◌∙◌, true, List, [], ◌∷◌, Option, none, ◌==◌,
  if◌then◌else◌, length, get_or, set, replicate, length-set, length-replicate, get_or-replicate,
  All, arith, Bool-cases, inl, inr,
}
use sdb.Ht.{Options, Kv, Bucket, Ht, empty_bucket, bucket_at, set_bucket, bucketfn}
use sdb.Ht.Entries.{same, KeyLaws, IsKeyed, find_in, occ}
use sdb.Ht.Sizes.{IsSized}

pub get_or-set {ℓ} :
    {A : Type ℓ} (xs : List A) (i j : ℕ) (v d : A)
    → i < length xs
    → get_or (set xs i v) j d ≡ (if i == j then v else get_or xs j d)
get_or-set [] i j v d h = absurd (omega arith)
get_or-set (x ∷ xs) zero zero v d h = refl
get_or-set (x ∷ xs) zero (suc j) v d h = ground arith
get_or-set (x ∷ xs) (suc i) zero v d h = ground arith
get_or-set (x ∷ xs) (suc i) (suc j) v d h = ground (arith, get_or-set xs i j v d)

module _ {ℓ} {K V : Type ℓ} where
  -- The number of entries in all buckets.
  unfoldable pub total : List (Bucket K V) → ℕ
  total [] = 0
  total (bt ∷ table) = length bt.arr + total table

  total-set :
      (table : List (Bucket K V)) (b : ℕ) (bt : Bucket K V)
      → b < length table
      → total (set table b bt) + length (get_or table b empty_bucket).arr
        ≡ total table + length bt.arr
  unfolding total
  total-set [] b bt h = absurd (omega arith)
  total-set (x ∷ table) zero bt h = omega arith
  total-set (x ∷ table) (suc b) bt h = omega (arith, total-set table b bt (omega arith))

  pub length-le-total :
      (table : List (Bucket K V)) (b : ℕ) → length (get_or table b empty_bucket).arr ≤ total table
  unfolding total
  length-le-total [] b = omega arith
  length-le-total (x ∷ table) zero = omega arith
  length-le-total (x ∷ table) (suc b) = omega (arith, length-le-total table b)

  -- Neither the entries nor the size that the bucket believes in exceed the array, and it counts
  -- no other entries.
  abbrev pub IsRoomy : Bucket K V → Type 0
  IsRoomy bt = (length bt.arr ≤ bt.room) × (bt.size ≤ bt.room) × (bt.lost ≡ 0)

pub total-replicate {ℓ} :
    (K V : Type ℓ) (n : ℕ) → total (replicate n (empty_bucket {K = K} {V = V})) ≡ 0
unfolding total
total-replicate K V zero = refl
total-replicate K V (suc n) = omega (arith, total-replicate K V n)

module _ {ℓ} {K V : Type ℓ} ⦃opt : Options K V⦄ where
  -- A table in which every entry stands in the bucket of its key, no key occurs twice, the count
  -- is that of the entries, and no array is overfull.
  pub record IsValid (ht : Ht K V) : Type ℓ where
    pub wide : length ht.table ≡ ht.size
    pub positive : 0 < ht.size
    pub sized : IsSized ht.prime_idx ht.size
    pub counted : total ht.table ≡ ht.count
    pub keyed : (i : ℕ) → All IsKeyed (bucket_at ht i).arr
    pub placed :
        (q : K) (i : ℕ) → occ q (bucket_at ht i).arr ≤ (if i == bucketfn ht q then 1 else 0)
    pub roomy : (i : ℕ) → IsRoomy (bucket_at ht i)

  -- The entry that the table holds under a key.
  unfoldable pub view : Ht K V → K → Option (Kv K V)
  view ht q = find_in q (bucket_at ht (bucketfn ht q)).arr

  module _ (laws : KeyLaws opt) where
    pub bucketfn_congr :
        (ht : Ht K V) (a b : K) → same opt a b ≡ true → bucketfn ht a ≡ bucketfn ht b
    bucketfn_congr ht a b e = ap (λ (h : ℕ). h % ht.size) (laws.hash_same a b e)

  -- A new content for the bucket `b`.
  abbrev pub with_bucket : Ht K V → ℕ → Bucket K V → ℕ → Ht K V
  with_bucket ht b bt n = record ht { table = set_bucket ht b bt; count = n }

  module _ (ht : Ht K V) (v : IsValid ht) (b : ℕ) (bt : Bucket K V) (n : ℕ)
      (low : b < ht.size) where
    bucket_at-with :
        (i : ℕ) → bucket_at (with_bucket ht b bt n) i ≡ (if b == i then bt else bucket_at ht i)
    bucket_at-with i = get_or-set ht.table b i bt empty_bucket (omega (arith, v.wide))

    pub view-with :
        (q : K)
        → view (with_bucket ht b bt n) q
          ≡ (if b == bucketfn ht q then find_in q bt.arr else view ht q)
    unfolding view
    view-with q = elim (Bool-cases (b == bucketfn ht q)) [
      | inl hit ↦ rw (bucket_at-with (bucketfn ht q), hit)
      | inr miss ↦ rw (bucket_at-with (bucketfn ht q), miss)
    ]

    at_either :
        (P : Bucket K V → Type 0) (i : ℕ)
        → ((b == i) ≡ true → P bt)
        → P (bucket_at ht i)
        → P (bucket_at (with_bucket ht b bt n) i)
    at_either P i new old = elim (Bool-cases (b == i)) [
      | inl hit ↦ rw (bucket_at-with i, hit) (new hit)
      | inr miss ↦ rw (bucket_at-with i, miss) old
    ]

    pub with_bucket-IsValid :
        All IsKeyed bt.arr
        → ((q : K) → occ q bt.arr ≤ (if b == bucketfn ht q then 1 else 0))
        → IsRoomy bt
        → n + length (bucket_at ht b).arr ≡ ht.count + length bt.arr
        → IsValid (with_bucket ht b bt n)
    with_bucket-IsValid k p r c = record {
      wide = length-set ht.table b bt ∙ v.wide;
      positive = v.positive;
      sized = v.sized;
      counted = omega (arith, total-set ht.table b bt (omega (arith, v.wide)), v.counted);
      keyed = λ i. at_either (λ t. All IsKeyed t.arr) i (λ _. k) (v.keyed i);
      placed = λ q i.
          at_either (λ t. occ q t.arr ≤ (if i == bucketfn ht q then 1 else 0)) i
            (λ hit. let i-b : i ≡ b = ground arith in rw i-b (p q)) (v.placed q i);
      roomy = λ i. at_either IsRoomy i (λ _. r) (v.roomy i);
    }

module _ {ℓ} {K V : Type ℓ} ⦃opt : Options K V⦄ where
  -- A table without entries.
  abbrev pub blank : ℕ → ℕ → Ht K V
  blank size idx = record {
    table = replicate size empty_bucket;
    size = size;
    count = 0;
    prime_idx = idx;
  }

  pub blank-IsValid : (size idx : ℕ) → 0 < size → IsSized idx size → IsValid (blank size idx)
  unfolding occ
  blank-IsValid size idx pos sized = record {
    wide = length-replicate size empty_bucket;
    positive = pos;
    sized = sized;
    counted = total-replicate K V size;
    keyed = λ i. rw get_or-replicate tt;
    placed = λ q i. rw get_or-replicate (omega arith);
    roomy = λ i. rw get_or-replicate (omega arith);
  }

  pub view-blank : (size idx : ℕ) (q : K) → view (blank size idx) q ≡ none
  unfolding view find_in
  view-blank size idx q = rw get_or-replicate
