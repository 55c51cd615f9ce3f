-- ===== src/Ht/Insert.antt =====
-- Insertion into a table of src/ht.inc.c, on each branch of `insert_update`, with every allocation
-- granted.
use sdb.Base.{
  ℕ, suc, ◌+◌, ◌^◌, ◌≤◌, ◌<◌, ◌≡◌, refl, ap, ◌∙◌, Bool, true, false, Option, none, some, leb,
  if◌then◌else◌, arith, Bool-cases, Option-cases, inl, inr,
}
use sdb.Ht.{
  Options, Heap, Kv, Ht, existing, bucket_at, bucketfn, value_of, find_index, find_kv, find,
  write_kv, store, check_growing, reserve_kv, insert_kv, new_kv, insert_update, ht_fuel,
}
use sdb.Ht.Entries.{same, KeyLaws, IsKeyed, get-find_index, find_index-none}
use sdb.Ht.State.{IsValid, view}
use sdb.Ht.Reserve.{store-extend, reserve_kv-absent, reserve_kv-found}
use sdb.Ht.Write.{appended, appended-IsValid, view-appended, overwritten-IsValid, view-overwritten}
use sdb.Ht.Grow.{internal_ht_grow-view}

module _ {ℓ} {K V : Type ℓ} ⦃opt : Options K V⦄ where
  pub find_kv-view : (ht : Ht K V) → IsValid ht → (q : K) → find_kv ht q ≡ view ht q
  unfolding find_kv view
  find_kv-view ht v q =
      get-find_index q (bucket_at ht (bucketfn ht q)).arr (v.keyed (bucketfn ht q))

  pub find-view : (ht : Ht K V) → IsValid ht → (q : K) → find ht q ≡ value_of (view ht q)
  unfolding find
  find-view ht v q = ap value_of (find_kv-view ht v q)

  pub find_index-some :
      (ht : Ht K V)
      → IsValid ht
      → (k : K) (e : Kv K V) → view ht k ≡ some e
      → (j : ℕ) × (find_index k (opt.calcsize_key k) (bucket_at ht (bucketfn ht k)).arr ≡ some j)
  unfolding view
  find_index-some ht v k e h =
      let arr = (bucket_at ht (bucketfn ht k)).arr in
      elim (Option-cases (find_index k (opt.calcsize_key k) arr)) [
        | inl nothing ↦ cc (find_index-none k arr (v.keyed (bucketfn ht k)) nothing)
        | inr found ↦ found
      ]

  -- A table between two operations: it is well formed and not full.
  pub record IsReady (ht : Ht K V) : Type ℓ where
    pub valid : IsValid ht
    pub open_slots : ht.count < ht.size

-- What an operation leaves: a table that is ready, with so many entries, that maps keys so.
pub record Maps {ℓ} {K V : Type ℓ} ⦃opt : Options K V⦄ (r : Ht K V) (n : ℕ)
    (f : K → Option (Kv K V)) : Type ℓ where
  pub ready : IsReady r
  pub count : r.count ≡ n
  pub reads : (q : K) → view r q ≡ f q

module _ {ℓ} {K V : Type ℓ} ⦃opt : Options K V⦄ ⦃heap : Heap⦄ (laws : KeyLaws opt)
    (grants : (n : ℕ) → heap.grants n ≡ true) where
  -- The check at the end of an insertion leaves room for the next one.
  check_growing-Maps :
      (ht : Ht K V)
      → IsValid ht
      → ht.count ≤ ht.size
      → ht.size < 2 ^ 31
      → (r : Ht K V) × (check_growing (λ h k. insert_kv ht_fuel h k false) ht ≡ some r)
        × Maps r ht.count (view ht)
  unfolding check_growing
  check_growing-Maps ht v full small = elim (Bool-cases (leb ht.size ht.count)) [
    | inl grows ↦
        let (r, run, valid, larger, count, reads) =
          internal_ht_grow-view laws grants 0 ht v full small in
        (
          r,
          rw grows run,
          record {
            ready = record { valid = valid; open_slots = omega arith };
            count = count;
            reads = reads;
          },
        )
    | inr stays ↦ (
      ht,
      rw stays,
      record {
        ready = record { valid = v; open_slots = ground arith };
        count = refl;
        reads = λ q. refl;
      },
    )
  ]

  -- The entry that an insertion stores goes by the key that it was given.
  new_kv-IsKeyed : (k : K) (x : V) → IsKeyed (new_kv k x)
  new_kv-IsKeyed k x = let e = laws.dup_same k in ground arith

  -- An entry `kv` under the key `k`, stored where `reserve_kv` says.
  module _ (k : K) (kv : Kv K V) (keyed : IsKeyed kv) (s : same opt k kv.key ≡ true) where
    abbrev placed : Ht K V → Bool → Option (Ht K V × Bool)
    placed ht u =
        store (λ h e. insert_kv ht_fuel h e false) (reserve_kv ht k (opt.calcsize_key k) u) kv

    pub store-absent :
        (ht : Ht K V) (u : Bool)
        → IsReady ht
        → ht.size < 2 ^ 31
        → view ht k ≡ none
        → (r : Ht K V) × (placed ht u ≡ some (r, true))
          × Maps r (ht.count + 1) (λ q. if same opt q k then some kv else view ht q)
    store-absent ht u ready small absent =
        let v = ready.valid in
        let ht' = appended ht kv k in
        let valid = appended-IsValid laws ht v kv k keyed s absent in
        let (r, run, m) = check_growing-Maps ht' valid (omega (arith, ready.open_slots)) small in
        (
          r,
          rw (
            reserve_kv-absent ht v k absent u,
            store-extend (λ h e. insert_kv ht_fuel h e false) ht (bucketfn ht k) kv grants
                (omega (arith, v.wide, v.positive)) (v.roomy (bucketfn ht k)),
            run,
          ),
          record {
            ready = m.ready;
            count = m.count;
            reads = λ q. m.reads q ∙ view-appended laws ht v kv k keyed s absent q;
          },
        )

    pub store-refused :
        (ht : Ht K V) (e : Kv K V)
        → IsReady ht
        → view ht k ≡ some e
        → placed ht false ≡ some (ht, false)
    unfolding store
    store-refused ht e ready held =
        let (j, found) = find_index-some ht ready.valid k e held in
        rw (reserve_kv-found ht ready.valid k j false found)

    pub store-replaced :
        (ht : Ht K V) (e : Kv K V)
        → IsReady ht
        → view ht k ≡ some e
        → (r : Ht K V) × (placed ht true ≡ some (r, true))
          × Maps r ht.count (λ q. if same opt q k then some kv else view ht q)
    unfolding store
    store-replaced ht e ready held =
        let v = ready.valid in
        let (j, found) = find_index-some ht v k e held in
        let ht' = write_kv ht (existing (bucketfn ht k) j) kv in
        let stays : leb ht.size ht.count ≡ false = let o = ready.open_slots in ground arith in
        (
          ht',
          rw (reserve_kv-found ht v k j true found) (unfold check_growing write_kv in rw stays),
          record {
            ready = record {
              valid = overwritten-IsValid laws ht v kv k j keyed s found;
              open_slots = unfold write_kv in ready.open_slots;
            };
            count = unfold write_kv in refl;
            reads = λ q. view-overwritten laws ht v kv k j keyed s found q;
          },
        )

  pub insert_update-absent :
      (ht : Ht K V) (k : K) (x : V) (u : Bool)
      → IsReady ht
      → ht.size < 2 ^ 31
      → view ht k ≡ none
      → (r : Ht K V) × (insert_update ht_fuel ht k x u ≡ some (r, true))
        × Maps r (ht.count + 1) (λ q. if same opt q k then some (new_kv k x) else view ht q)
  unfolding insert_update
  insert_update-absent ht k x =
      store-absent k (new_kv k x) (new_kv-IsKeyed k x) (laws.dup_same k) ht

  pub insert_update-refused :
      (ht : Ht K V) (k : K) (x : V) (e : Kv K V)
      → IsReady ht
      → view ht k ≡ some e
      → insert_update ht_fuel ht k x false ≡ some (ht, false)
  unfolding insert_update
  insert_update-refused ht k x =
      store-refused k (new_kv k x) (new_kv-IsKeyed k x) (laws.dup_same k) ht

  pub insert_update-replaced :
      (ht : Ht K V) (k : K) (x : V) (e : Kv K V)
      → IsReady ht
      → view ht k ≡ some e
      → (r : Ht K V) × (insert_update ht_fuel ht k x true ≡ some (r, true))
        × Maps r ht.count (λ q. if same opt q k then some (new_kv k x) else view ht q)
  unfolding insert_update
  insert_update-replaced ht k x =
      store-replaced k (new_kv k x) (new_kv-IsKeyed k x) (laws.dup_same k) ht

  pub insert_kv-placed :
      (ht : Ht K V) (kv : Kv K V) (keyed : IsKeyed kv) (u : Bool)
      → insert_kv (suc ht_fuel) ht kv u ≡ placed kv.key kv keyed (laws.same_refl kv.key) ht u
  unfolding insert_kv
  insert_kv-placed ht kv keyed u =
      ap (λ (n : ℕ). store (λ h e. insert_kv ht_fuel h e false) (reserve_kv ht kv.key n u) kv) keyed
