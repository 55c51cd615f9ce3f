-- ===== src/Dict.antt =====
-- src/dict.c: the dictionary of numbers. A bucket is NULL or an array that ends at the first key 0;
-- it is modelled by the entries before that.
pub mod Entries
pub mod State
pub mod Store
pub mod Laws
use sdb.Base.{
  ℕ, zero, suc, ◌+◌, ◌-◌, ◌%◌, ◌^◌, Bool, true, false, not, ◌&&◌, ◌||◌, List, [], ◌∷◌, ◌++◌, Option,
  none, some, ltb, leb, ◌==◌, if◌then◌else◌, length, get_or, set, replicate,
}
use sdb.Ht.{Heap}

pub record Dictkv {ℓ} (U : Type ℓ) : Type ℓ where
  pub k : ℕ
  pub v : ℕ
  pub u : U

-- What `f` releases is not modelled.
pub record Dict {ℓ} (U : Type ℓ) : Type ℓ where
  pub table : List (Option (List (Dictkv U)))
  pub size : ℕ

module _ {ℓ} {U : Type ℓ} where
  abbrev pub dict_bucket : Dict U → ℕ → ℕ
  dict_bucket m k = if ltb 0 m.size then k % m.size else 0

  -- The entries of a bucket; NULL has none.
  abbrev pub entries_of : Option (List (Dictkv U)) → List (Dictkv U)
  entries_of none = []
  entries_of (some kvs) = kvs

  abbrev pub entries_at : Dict U → ℕ → List (Dictkv U)
  entries_at m b = entries_of (get_or m.table b none)

  abbrev pub with_entries : Dict U → ℕ → List (Dictkv U) → Dict U
  with_entries m b kvs = record m { table = set m.table b (some kvs) }

  -- The entries with the first one under `k` overwritten; `none` where there is none.
  unfoldable pub overwrite : ℕ → ℕ → U → List (Dictkv U) → Option (List (Dictkv U))
  overwrite k v u [] = none
  overwrite k v u (kv ∷ kvs) =
      let rest = overwrite k v u kvs in
      if kv.k == k
      then some ((record kv { v = v; u = u }) ∷ kvs)
      else elim rest [ none ↦ none | some kvs' ↦ some (kv ∷ kvs') ]

  unfoldable pub lookup : ℕ → List (Dictkv U) → Option (Dictkv U)
  lookup k [] = none
  lookup k (kv ∷ kvs) = if kv.k == k then some kv else lookup k kvs

  -- The entries behind the first one under `k` moved over it.
  unfoldable pub remove_key : ℕ → List (Dictkv U) → List (Dictkv U)
  remove_key k [] = []
  remove_key k (kv ∷ kvs) = let rest = remove_key k kvs in if kv.k == k then kvs else kv ∷ rest

  unfoldable pub dict_getr : Dict U → ℕ → Option (Dictkv U)
  dict_getr m k = if m.size == 0 then none else lookup k (entries_at m (dict_bucket m k))

  unfoldable pub dict_get : Dict U → ℕ → ℕ
  dict_get m k = elim (dict_getr m k) [ none ↦ 0 | some kv ↦ kv.v ]

  -- For a dictionary with buckets; `table[0]` is read before the key is looked at.
  unfoldable pub dict_del : Dict U → ℕ → Dict U × Bool
  dict_del m k =
      let b = dict_bucket m k in
      if k == 0 then (m, false) else elim (lookup k (entries_at m b)) [
        | none ↦ (m, false)
        | some kv ↦ (with_entries m b (remove_key k (entries_at m b)), true)
      ]

  -- The number of entries of a bucket; a negative number asks for the last index.
  unfoldable pub dict_stats : Dict U → ℕ → ℕ
  dict_stats m nb =
      if leb (2 ^ 31) nb
      then (m.size + (2 ^ 32 - 1)) % 2 ^ 32
      else (if ltb nb m.size then length (entries_at m nb) else 0)

  module _ ⦃heap : Heap⦄ where
    unfoldable pub dict_init : ℕ → Dict U × Bool
    dict_init size =
        if ltb 0 size
        then (if heap.grants size
            then (record { table = replicate size none; size = size }, true)
            else (record { table = []; size = 0 }, false))
        else (record { table = []; size = 0 }, true)

    -- `dict_set` once the bucket has an array.
    unfoldable pub set_entry : Dict U → ℕ → ℕ → ℕ → U → List (Dictkv U) → Dict U × Bool
    set_entry m b k v u kvs = elim (overwrite k v u kvs) [
      | some kvs' ↦ (with_entries m b kvs', true)
      | none ↦
          if heap.grants (length kvs + 2)
          then (with_entries m b (kvs ++ (record { k = k; v = v; u = u }) ∷ []), true)
          else (m, false)
    ]

    unfoldable pub dict_set : Dict U → ℕ → ℕ → U → Dict U × Bool
    dict_set m k v u =
        let b = dict_bucket m k in
        if m.size == 0 || k == 0 then (m, false) else elim (get_or m.table b none) [
          | some kvs ↦ set_entry m b k v u kvs
          | none ↦ if heap.grants 2 then set_entry (with_entries m b []) b k v u [] else (m, false)
        ]

    unfoldable pub dict_add : Dict U → ℕ → ℕ → U → Dict U × Bool
    dict_add m k v u = elim (dict_getr m k) [ some kv ↦ (m, false) | none ↦ dict_set m k v u ]
