-- ===== src/SdbHt.antt =====
-- src/ht.c: the tables of records of the store. A record is an entry of the table whose value also
-- has the fields `cas` and `expire`, which every move of an entry copies (`elem_size`).
pub mod Laws
use sdb.Base.{
  ℕ, suc, ◌+◌, ◌%◌, ◌^◌, Bool, true, false, ◌&&◌, List, [], ◌∷◌, Option, none, some, if◌then◌else◌,
  length,
}
use sdb.Ht.{Options, Heap, Kv, Ht, new_opt, find_kv, find, delete, insert_kv, ht_fuel}
use sdb.HtKeys.{string_options}

-- `text` is absent for a value that is NULL.
pub record SdbValue : Type 0 where
  pub text : Option (List ℕ)
  pub cas : ℕ
  pub expire : ℕ

-- `ht_pp_new` with `strlen` for the size of a value.
instance abbrev pub record_options : Options (List ℕ) SdbValue
record_options =
    string_options (λ v. v) (λ v. elim v.text [ none ↦ 0 | some t ↦ length t % 2 ^ 32 ])

abbrev pub Records : Type 0
Records = Ht (List ℕ) SdbValue

-- The record `kvp` of `sdb_ht_internal_insert`.
abbrev pub record_of : List ℕ → List ℕ → Kv (List ℕ) SdbValue
record_of key value = record {
  key = key;
  val = record { text = some value; cas = 0; expire = 0 };
  key_len = length key % 2 ^ 32;
  value_len = length value % 2 ^ 32;
}

unfoldable pub sdb_ht_find_kvp : Records → List ℕ → Option (Kv (List ℕ) SdbValue)
sdb_ht_find_kvp ht key = find_kv ht key

unfoldable pub sdb_ht_find : Records → List ℕ → Option (List ℕ)
sdb_ht_find ht key = elim (find ht key) [ none ↦ none | some v ↦ v.text ]

unfoldable pub sdb_ht_delete : Records → List ℕ → Records × Bool
sdb_ht_delete ht key = delete ht key

module _ ⦃heap : Heap⦄ where
  unfoldable pub sdb_ht_new : Option Records
  sdb_ht_new = new_opt

  -- An absent string is NULL; the outer `none` means that the fuel ran out.
  unfoldable pub sdb_ht_internal_insert :
      Records → Option (List ℕ) → Option (List ℕ) → Bool → Option (Records × Bool)
  sdb_ht_internal_insert ht none value update = some (ht, false)
  sdb_ht_internal_insert ht (some []) value update = some (ht, false)
  sdb_ht_internal_insert ht (some (c ∷ key)) none update = some (ht, false)
  sdb_ht_internal_insert ht (some (c ∷ key)) (some value) update =
      if heap.grants (length (c ∷ key) + 1) && heap.grants (length value + 1)
      then insert_kv (suc ht_fuel) ht (record_of (c ∷ key) value) update
      else some (ht, false)

  unfoldable pub sdb_ht_insert :
      Records → Option (List ℕ) → Option (List ℕ) → Option (Records × Bool)
  sdb_ht_insert ht key value = sdb_ht_internal_insert ht key value false

  unfoldable pub sdb_ht_update :
      Records → Option (List ℕ) → Option (List ℕ) → Option (Records × Bool)
  sdb_ht_update ht key value = sdb_ht_internal_insert ht key value true

  unfoldable pub sdb_ht_insert_kvp : Records → Kv (List ℕ) SdbValue → Bool → Option (Records × Bool)
  sdb_ht_insert_kvp ht kvp update = insert_kv (suc ht_fuel) ht kvp update
