-- ===== src/Ht/Write.antt =====
-- What storing an entry in a reserved slot does to a table of src/ht.inc.c.
use mathlib.Core.Option.{or_else}
use sdb.Base.{
  ℕ, ◌+◌, ◌-◌, ◌≤◌, ◌<◌, ◌≡◌, refl, sym, ◌∙◌, true, List, [], ◌∷◌, ◌++◌, Option, none, some, ◌==◌,
  ==_refl, if◌then◌else◌, set, length-set, length-append, arith, Bool-cases, inl, inr,
}
use mathlib.Core.Bool.{false≢true}
use native.Mathlib.Nat.{le_trans}
use sdb.Ht.{
  Options, Kv, Bucket, Ht, existing, bucket_at, bucketfn, find_index, write_kv, remove_at,
  remove_entry,
}
use sdb.Ht.Entries.{
  same, KeyLaws, same_congr, same_congr_right, IsKeyed, find_in, occ, find_in-append,
  find_in-eq-none, occ-append, occ-eq-zero, find_in-set, occ-set, find_in-remove_at, occ-remove_at,
  length-remove_at, IsKeyed-set, IsKeyed-append, IsKeyed-remove_at,
}
use sdb.Ht.State.{
  length-le-total, IsValid, view, bucketfn_congr, with_bucket, view-with, with_bucket-IsValid,
}
use sdb.Ht.Reserve.{longer, longer-IsRoomy}

pub or_else-none {ℓ} : {A : Type ℓ} (o : Option A) → or_else o none ≡ o
unfolding or_else
or_else-none none = refl
or_else-none (some a) = refl

module _ {ℓ} {K V : Type ℓ} ⦃opt : Options K V⦄ where
  -- The table with an entry more in the bucket of the key `k`.
  abbrev pub appended : Ht K V → Kv K V → K → Ht K V
  appended ht kv k =
      let b = bucketfn ht k in with_bucket ht b (longer (bucket_at ht b) kv) (ht.count + 1)

module _ {ℓ} {K V : Type ℓ} ⦃opt : Options K V⦄ (laws : KeyLaws opt) (ht : Ht K V)
    (v : IsValid ht) where
  home-low : (k : K) → bucketfn ht k < ht.size
  home-low k = omega (arith, v.positive)

  occ_congr : (a b : K) (arr : List (Kv K V)) → same opt a b ≡ true → occ a arr ≡ occ b arr
  unfolding occ
  occ_congr a b [] e = refl
  occ_congr a b (x ∷ arr) e = rw (same_congr laws a b x.key e, occ_congr a b arr e)

  find_in_congr :
      (a b : K) (arr : List (Kv K V)) → same opt a b ≡ true → find_in a arr ≡ find_in b arr
  unfolding find_in
  find_in_congr a b [] e = refl
  find_in_congr a b (x ∷ arr) e = rw (same_congr laws a b x.key e, find_in_congr a b arr e)

  -- The table answers alike for two names of one key.
  pub view_congr : (a b : K) → same opt a b ≡ true → view ht a ≡ view ht b
  unfolding view
  view_congr a b e =
      rw (bucketfn_congr laws ht a b e) (find_in_congr a b (bucket_at ht (bucketfn ht b)).arr e)

  at_most_one : (q : K) (i : ℕ) → occ q (bucket_at ht i).arr ≤ 1
  at_most_one q i = elim (Bool-cases (i == bucketfn ht q)) [
    | inl hit ↦ let h = v.placed q i in rw hit at h
    | inr miss ↦ let h = v.placed q i in le_trans (rw miss at h) (omega arith)
  ]

  -- A bucket that answers for the key `k` alone differently answers so for the table.
  at_home :
      (k q : K) (arr : List (Kv K V)) (o : Option (Kv K V))
      → find_in q arr ≡ (if same opt q k then o else find_in q (bucket_at ht (bucketfn ht k)).arr)
      → (if bucketfn ht k == bucketfn ht q then find_in q arr else view ht q)
        ≡ (if same opt q k then o else view ht q)
  at_home k q arr o e = elim (Bool-cases (bucketfn ht k == bucketfn ht q)) [
    | inl here ↦
        let h : bucketfn ht k ≡ bucketfn ht q = ground arith in
        rw here (e ∙ (unfold view in rw h refl))
    | inr there ↦ elim (Bool-cases (same opt q k)) [
      | inl hit ↦
          let h = bucketfn_congr laws ht q k hit in
          absurd (false≢true (sym there ∙ rw h (==_refl (bucketfn ht k))))
      | inr miss ↦ rw (there, miss)
    ]
  ]

  -- An entry under a key that the table does not hold.
  module _ (kv : Kv K V) (k : K) (keyed : IsKeyed kv) (s : same opt k kv.key ≡ true)
      (absent : view ht k ≡ none) where
    same_entry : (q : K) → same opt q kv.key ≡ same opt q k
    same_entry q = sym (same_congr_right laws q k kv.key s)

    absent_occ : (q : K) → same opt q k ≡ true → occ q (bucket_at ht (bucketfn ht k)).arr ≡ 0
    absent_occ q hit =
        occ_congr q k _ hit
        ∙ occ-eq-zero k (bucket_at ht (bucketfn ht k)).arr (unfold view in absent)

    home_hit : (q : K) → same opt q k ≡ true → (bucketfn ht k == bucketfn ht q) ≡ true
    home_hit q hit = let e = bucketfn_congr laws ht q k hit in rw e (==_refl (bucketfn ht k))

    longer-occ :
        (q : K)
        → occ q (longer (bucket_at ht (bucketfn ht k)) kv).arr
          ≤ (if bucketfn ht k == bucketfn ht q then 1 else 0)
    longer-occ q =
        let arr = (bucket_at ht (bucketfn ht k)).arr in
        let sum = occ-append q arr (kv ∷ []) in
        elim (Bool-cases (same opt q k)) [
          | inl hit ↦
              let one : occ q (kv ∷ []) ≡ 1 = unfold occ in rw (same_entry q ∙ hit) refl in
              rw (home_hit q hit) (omega (arith, absent_occ q hit))
          | inr miss ↦
              let zero_more : occ q (kv ∷ []) ≡ 0 = unfold occ in rw (same_entry q ∙ miss) refl in
              let old = v.placed q (bucketfn ht k) in
              let e : occ q (arr ++ kv ∷ []) ≡ occ q arr = omega arith in rw e old
        ]

    pub appended-IsValid : IsValid (appended ht kv k)
    appended-IsValid =
        let b = bucketfn ht k in
        let bt = bucket_at ht b in
        with_bucket-IsValid ht v b (longer bt kv) (ht.count + 1) (home-low k)
          (IsKeyed-append bt.arr kv (v.keyed b) keyed) longer-occ (longer-IsRoomy bt kv (v.roomy b))
          (omega (arith, length-append bt.arr (kv ∷ [])))

    pub view-appended :
        (q : K) → view (appended ht kv k) q ≡ (if same opt q k then some kv else view ht q)
    view-appended q =
        let b = bucketfn ht k in
        let arr = (bucket_at ht b).arr in
        let w = view-with ht v b (longer (bucket_at ht b) kv) (ht.count + 1) (home-low k) q in
        elim (Bool-cases (same opt q k)) [
          | inl hit ↦
              rw
                (
                  hit,
                  w,
                  home_hit q hit,
                  find_in-append q arr (kv ∷ []),
                  find_in-eq-none q arr (absent_occ q hit),
                )
                (unfold find_in or_else in rw (same_entry q ∙ hit) refl)
          | inr miss ↦
              let nothing : find_in q (kv ∷ []) ≡ none =
                unfold find_in in rw (same_entry q ∙ miss) refl in
              elim (Bool-cases (b == bucketfn ht q)) [
                | inl here ↦
                    let e : b ≡ bucketfn ht q = ground arith in
                    rw (miss, w, here, find_in-append q arr (kv ∷ []), nothing, or_else-none)
                      (unfold view in rw e refl)
                | inr there ↦ rw (miss, w, there)
              ]
        ]

  -- An entry put in the place of one under the same key.
  module _ (kv : Kv K V) (k : K) (j : ℕ) (keyed : IsKeyed kv) (s : same opt k kv.key ≡ true)
      (found : find_index k (opt.calcsize_key k) (bucket_at ht (bucketfn ht k)).arr ≡ some j) where
    overwritten_bucket : Bucket K V
    overwritten_bucket =
        let bt = bucket_at ht (bucketfn ht k) in record bt { arr = set bt.arr j kv }

    pub overwritten-IsValid : IsValid (write_kv ht (existing (bucketfn ht k) j) kv)
    unfolding overwritten_bucket write_kv
    overwritten-IsValid =
        let b = bucketfn ht k in
        let bt = bucket_at ht b in
        with_bucket-IsValid ht v b overwritten_bucket ht.count (home-low k)
          (IsKeyed-set bt.arr j kv (v.keyed b) keyed)
          (λ q. let e = occ-set laws k q bt.arr j kv (v.keyed b) found s in rw e (v.placed q b))
          (let r = v.roomy b in rw (length-set bt.arr j kv) r) (rw (length-set bt.arr j kv))

    pub view-overwritten :
        (q : K)
        → view (write_kv ht (existing (bucketfn ht k) j) kv) q
          ≡ (if same opt q k then some kv else view ht q)
    unfolding overwritten_bucket write_kv
    view-overwritten q =
        let b = bucketfn ht k in
        let bt = bucket_at ht b in
        view-with ht v b overwritten_bucket ht.count (home-low k) q
        ∙ at_home k q (set bt.arr j kv) (some kv)
            (find_in-set laws k q bt.arr j kv (v.keyed b) found s)

  -- The entry under a key taken out.
  module _ (k : K) (j : ℕ)
      (found : find_index k (opt.calcsize_key k) (bucket_at ht (bucketfn ht k)).arr ≡ some j) where
    shorter_bucket : Bucket K V
    shorter_bucket = let bt = bucket_at ht (bucketfn ht k) in record bt { arr = remove_at bt.arr j }

    pub removed-IsValid : IsValid (remove_entry ht (bucketfn ht k) j)
    unfolding shorter_bucket remove_entry
    removed-IsValid =
        let b = bucketfn ht k in
        let bt = bucket_at ht b in
        let len = length-remove_at k bt.arr j found in
        with_bucket-IsValid ht v b shorter_bucket (ht.count - 1) (home-low k)
          (IsKeyed-remove_at bt.arr j (v.keyed b))
          (λ q. le_trans (occ-remove_at q bt.arr j) (v.placed q b)) (omega (arith, v.roomy b))
          (omega (arith, v.counted, length-le-total ht.table b))

    pub view-removed :
        (q : K)
        → view (remove_entry ht (bucketfn ht k) j) q ≡ (if same opt q k then none else view ht q)
    unfolding shorter_bucket remove_entry
    view-removed q =
        let b = bucketfn ht k in
        let bt = bucket_at ht b in
        view-with ht v b shorter_bucket (ht.count - 1) (home-low k) q
        ∙ at_home k q (remove_at bt.arr j) none
            (find_in-remove_at laws k q bt.arr j (v.keyed b) found (at_most_one q b))
