-- ===== src/Ht/Change.antt =====
-- The changes that the store makes to a table of src/ht.inc.c: an entry put in, overwritten where
-- it stands, or taken out.
use sdb.Base.{
  ℕ, suc, ◌^◌, ◌<◌, ◌≡◌, refl, sym, ◌∙◌, true, List, [], ◌∷◌, Option, All, none, some,
  if◌then◌else◌, arith, Bool-cases, Option-cases, inl, inr,
}
use sdb.Ht.{
  Options, Heap, Kv, Ht, existing, bucket_at, bucketfn, find_index, write_kv, remove_entry, delete,
  insert_kv, ht_fuel,
}
use sdb.Ht.Entries.{same, KeyLaws, IsKeyed, find_in}
use sdb.Ht.State.{IsValid, view}
use sdb.Ht.Reserve.{find_index-view}
use sdb.Ht.Write.{view_congr, overwritten-IsValid, view-overwritten, removed-IsValid, view-removed}
use sdb.Ht.Insert.{IsReady, find_index-some, store-absent, store-replaced, insert_kv-placed}

-- A ready table that maps the key `k` to `x`, and every other key to what `ht` does.
pub record Changed {ℓ} {K V : Type ℓ} ⦃opt : Options K V⦄ (ht r : Ht K V) (k : K)
    (x : Option (Kv K V)) : Type ℓ where
  pub ready : IsReady r
  pub reads : (q : K) → view r q ≡ (if same opt q k then x else view ht q)

module _ {ℓ} {K V : Type ℓ} ⦃opt : Options K V⦄ where
  find_in-some :
      (k : K) (arr : List (Kv K V)) (e : Kv K V)
      → All IsKeyed arr
      → find_in k arr ≡ some e
      → IsKeyed e × (same opt k e.key ≡ true)
  unfolding find_in
  find_in-some k [] e h found = absurd cc
  find_in-some k (kv ∷ arr) e h found = elim (Bool-cases (same opt k kv.key)) [
    | inl hit ↦
        let here : find_in k (kv ∷ arr) ≡ some kv = rw hit in
        let eq : kv ≡ e = cc (here, found) in rw (← eq) (h.0, hit)
    | inr miss ↦
        let later : find_in k (kv ∷ arr) ≡ find_in k arr = rw miss in
        find_in-some k arr e h.1 (sym later ∙ found)
  ]

  -- The record that a key has is as long as it says, and is the record of that key.
  pub view-some :
      (ht : Ht K V) (k : K) (e : Kv K V)
      → IsValid ht
      → view ht k ≡ some e
      → IsKeyed e × (same opt k e.key ≡ true)
  unfolding view
  view-some ht k e v held =
      find_in-some k (bucket_at ht (bucketfn ht k)).arr e (v.keyed (bucketfn ht k)) held

module _ {ℓ} {K V : Type ℓ} ⦃opt : Options K V⦄ (laws : KeyLaws opt) where
  pub unchanged :
      (ht : Ht K V) (k : K) (x : Option (Kv K V)) → IsReady ht → view ht k ≡ x → Changed ht ht k x
  unchanged ht k x ready e = record {
    ready = ready;
    reads = λ q. elim (Bool-cases (same opt q k)) [
      | inl hit ↦ rw hit (view_congr laws ht ready.valid q k hit ∙ e)
      | inr miss ↦ rw miss
    ];
  }

  pub delete-Changed :
      (ht : Ht K V) (k : K)
      → IsReady ht
      → (r : Ht K V) × ((delete ht k).0 ≡ r) × (r.size ≡ ht.size) × Changed ht r k none
  unfolding delete
  delete-Changed ht k ready = elim (Option-cases (view ht k)) [
    | inl absent ↦ (
      ht,
      rw (find_index-view ht ready.valid k absent, delete),
      refl,
      unchanged ht k none ready absent,
    )
    | inr (e, held) ↦
        let (j, found) = find_index-some ht ready.valid k e held in
        (
          remove_entry ht (bucketfn ht k) j,
          rw (found, delete),
          unfold remove_entry in refl,
          record {
            ready = record {
              valid = removed-IsValid laws ht ready.valid k j found;
              open_slots = unfold remove_entry in omega (arith, ready.open_slots);
            };
            reads = view-removed laws ht ready.valid k j found;
          },
        )
  ]

  pub write_kv-Changed :
      (ht : Ht K V) (k : K) (kv : Kv K V) (j : ℕ)
      → IsReady ht
      → IsKeyed kv
      → same opt k kv.key ≡ true
      → find_index k (opt.calcsize_key k) (bucket_at ht (bucketfn ht k)).arr ≡ some j
      → Changed ht (write_kv ht (existing (bucketfn ht k) j) kv) k (some kv)
  write_kv-Changed ht k kv j ready keyed s found = record {
    ready = record {
      valid = overwritten-IsValid laws ht ready.valid kv k j keyed s found;
      open_slots = unfold write_kv in ready.open_slots;
    };
    reads = view-overwritten laws ht ready.valid kv k j keyed s found;
  }

module _ {ℓ} {K V : Type ℓ} ⦃opt : Options K V⦄ ⦃heap : Heap⦄ (laws : KeyLaws opt)
    (grants : (n : ℕ) → heap.grants n ≡ true) where
  pub insert_kv-Changed :
      (ht : Ht K V) (kv : Kv K V)
      → IsReady ht
      → ht.size < 2 ^ 31
      → IsKeyed kv
      → (r : Ht K V) × (insert_kv (suc ht_fuel) ht kv true ≡ some (r, true))
        × Changed ht r kv.key (some kv)
  insert_kv-Changed ht kv ready small keyed =
      let s = laws.same_refl kv.key in
      let go = insert_kv-placed laws grants ht kv keyed true in
      elim (Option-cases (view ht kv.key)) [
        | inl absent ↦
            let (r, run, m) =
              store-absent laws grants kv.key kv keyed s ht true ready small absent in
            (r, go ∙ run, record { ready = m.ready; reads = m.reads })
        | inr (e, held) ↦
            let (r, run, m) = store-replaced laws grants kv.key kv keyed s ht e ready held in
            (r, go ∙ run, record { ready = m.ready; reads = m.reads })
      ]
