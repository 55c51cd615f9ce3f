-- ===== src/SdbHt/Laws.antt =====
-- The insertions of src/ht.c against a map from strings to records.
use sdb.Base.{
  ℕ, suc, ◌+◌, ◌^◌, ◌<◌, ◌≡◌, refl, ◌∙◌, Bool, true, false, not, ◌||◌, List, ◌∷◌, some,
  if◌then◌else◌, length, inl, inr,
}
use native.Mathlib.Nat.{add-zero}
use sdb.Ht.{Heap, find, insert_kv, ht_fuel}
use sdb.Ht.Entries.{same, KeyLaws}
use sdb.Ht.Insert.{IsReady, store-absent, store-refused, store-replaced, insert_kv-placed}
use sdb.Ht.Laws.{is_some, to_nat, Finds, Finds-store, found_view}
use sdb.HtKeys.Laws.{string_options-KeyLaws}
use sdb.SdbHt.{Records, record_options, record_of, sdb_ht_internal_insert}

abbrev pub record_laws : KeyLaws record_options
record_laws = string_options-KeyLaws (λ v. v) (record_options).calcsize_val

module _ ⦃heap : Heap⦄ (grants : (n : ℕ) → heap.grants n ≡ true) (ht : Records) (c : ℕ)
    (key value : List ℕ) where
  insert-placed :
      (u : Bool)
      → sdb_ht_internal_insert ht (some (c ∷ key)) (some value) u
        ≡ insert_kv (suc ht_fuel) ht (record_of (c ∷ key) value) u
  unfolding sdb_ht_internal_insert
  insert-placed u = rw (grants (length (c ∷ key) + 1), grants (length value + 1))

  -- Inserting a record under a key that is not empty ends, and returns true unless the key is
  -- there and the insertion is not an update. Then the value stands under the key, with no time
  -- of expiry, nothing else changes, and a key that was not there is counted; otherwise the
  -- table is left as it is. The table is ready and its size is below 2^31, and every allocation
  -- is granted.
  pub sdb_ht_internal_insert-Finds :
      (u : Bool)
      → IsReady ht
      → ht.size < 2 ^ 31
      → let there = is_some (find ht (c ∷ key)) in
        (r : Records) × (sdb_ht_internal_insert ht (some (c ∷ key)) (some value) u
          ≡ some (r, u || not there))
        × (if u || not there
            then Finds r (ht.count + to_nat (not there)) (λ q.
              if same record_options q (c ∷ key)
              then some (record { text = some value; cas = 0; expire = 0 })
              else find ht q)
            else r ≡ ht)
  sdb_ht_internal_insert-Finds true ready small =
      let k = c ∷ key in
      let kv = record_of k value in
      let s = record_laws.same_refl k in
      let go = insert-placed true ∙ insert_kv-placed record_laws grants ht kv refl true in
      elim (found_view ht ready k) [
        | inl (absent, no_find) ↦
            let (r, run, m) =
              store-absent record_laws grants k kv refl s ht true ready small absent in
            (r, go ∙ run, rw no_find (Finds-store ht r k kv (ht.count + 1) ready m))
        | inr (e, held, hit) ↦
            let (r, run, m) = store-replaced record_laws grants k kv refl s ht e ready held in
            (r, go ∙ run, rw (hit, add-zero) (Finds-store ht r k kv ht.count ready m))
      ]
  sdb_ht_internal_insert-Finds false ready small =
      let k = c ∷ key in
      let kv = record_of k value in
      let s = record_laws.same_refl k in
      let go = insert-placed false ∙ insert_kv-placed record_laws grants ht kv refl false in
      elim (found_view ht ready k) [
        | inl (absent, no_find) ↦
            let (r, run, m) =
              store-absent record_laws grants k kv refl s ht false ready small absent in
            (r, go ∙ rw no_find run, rw no_find (Finds-store ht r k kv (ht.count + 1) ready m))
        | inr (e, held, hit) ↦
            let run = store-refused record_laws grants k kv refl s ht e ready held in
            (ht, go ∙ rw hit run, rw hit refl)
      ]
