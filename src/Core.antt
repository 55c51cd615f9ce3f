-- ===== src/Core.antt =====
-- src/sdb.c: the store, a table of records in memory over a database on disk. The disk is what
-- `cdb_findnext` answers; the clock is an argument. Hooks, namespaces and locks are not modelled.
pub mod Spec
pub mod Change
pub mod Read
pub mod Lookups
pub mod Answers
pub mod Reading
pub mod Exists
pub mod Faults
pub mod Ops
pub mod Uncat
pub mod Appends
use sdb.Base.{
  ℕ, suc, ◌+◌, ◌-◌, ◌%◌, ◌^◌, Bool, true, false, not, ◌&&◌, ◌||◌, List, [], ◌∷◌, ◌++◌, Option, none,
  some, and_then, ltb, leb, ◌==◌, if◌then◌else◌, length, take, str_eq,
}
use sdb.Ht.{Heap, Kv, Ht, existing, bucket_at, bucketfn, find_index, write_kv}
use sdb.SdbHt.{SdbValue, record_options, Records, sdb_ht_find_kvp, sdb_ht_delete, sdb_ht_insert_kvp}

-- What `cdb_findnext` answers: -1, 0, or 1 with the data that it points at.
pub data Lookup : Type 0 where
  failed absent : Lookup
  present : List ℕ → Lookup

-- `opened` is `fd != -1`. `stale` is whether a nonzero byte stands where an earlier lookup pointed.
pub record Disk : Type 0 where
  pub opened : Bool
  pub find : List ℕ → Lookup
  pub stale : Bool

-- `journal` holds the bytes of the log, if there is one; `gp` is the generated lookup.
pub record Sdb : Type 0 where
  pub ht : Records
  pub disk : Disk
  pub gp : Option (List ℕ → Option (List ℕ))
  pub timestamped : Bool
  pub journal : Option (List ℕ)

-- The string that a lookup points at, the length that it gives for it, and its version.
pub record Value : Type 0 where
  pub str : List ℕ
  pub vlen : ℕ
  pub cas : ℕ

-- `SDB_KSZ` and `SDB_VSZ`, which is also `SDB_MAX_VALUE`
abbrev pub sdb_ksz : ℕ
sdb_ksz = 0xff

abbrev pub sdb_vsz : ℕ
sdb_vsz = 0xffffff

unfoldable pub nextcas : ℕ → ℕ
nextcas cas = if cas == 0 then 1 else (cas + 1) % 2 ^ 32

abbrev pub or_empty : Option (List ℕ) → List ℕ
or_empty none = []
or_empty (some val) = val

abbrev pub is_empty {ℓ} : {A : Type ℓ} → List A → Bool
is_empty [] = true
is_empty (x ∷ xs) = false

abbrev pub sdb_max_path : ℕ
sdb_max_path = 256

-- What `snprintf` puts into a buffer of `sdb_max_path` bytes.
unfoldable pub journal_line : List ℕ → List ℕ → List ℕ
journal_line key val = take (sdb_max_path - 1) (key ++ (b'=' ∷ val) ++ b'\n' ∷ [])

-- Every line is written whole.
unfoldable pub sdb_journal_log : Sdb → List ℕ → List ℕ → Sdb
sdb_journal_log s key val = record s {
  journal = elim s.journal [ none ↦ none | some log ↦ some (log ++ journal_line key val) ];
}

-- The fields of a record, assigned through the pointer that `sdb_ht_find_kvp` returned.
unfoldable pub assign_kvp : Records → List ℕ → Kv (List ℕ) SdbValue → Records
assign_kvp ht key kv =
    elim (find_index ⦃opt = record_options⦄ key (length key % 2 ^ 32)
      (bucket_at ht (bucketfn ht key)).arr) [
        | none ↦ ht
        | some j ↦ write_kv ht (existing (bucketfn ht key) j) kv
      ]

module _ ⦃heap : Heap⦄ where
  -- A record with a key of length `kl` and a value of length `vl`; an empty value is NULL.
  unfoldable pub sdbkv_new2 : List ℕ → ℕ → Option (List ℕ) → ℕ → Option (Kv (List ℕ) SdbValue)
  sdbkv_new2 k kl v vl =
      let vl' : ℕ = elim v [ none ↦ 0 | some t ↦ vl ] in
      let large : Bool = elim v [ none ↦ false | some t ↦ leb sdb_vsz vl ] in
      if large || leb sdb_ksz kl
      then none
      else (if heap.grants 1 && (heap.grants (kl + 1) && (vl' == 0 || heap.grants (vl' + 1)))
          then some (record {
            key = k;
            val = record { text = if vl' == 0 then none else v; cas = nextcas 0; expire = 0 };
            key_len = kl;
            value_len = vl';
          })
          else none)

  -- A record for a key that memory does not hold, or holds with NULL. An owned value is kept as it
  -- is; the version is raised once more, and the outcome of the insertion is not looked at.
  unfoldable pub new_record : List ℕ → List ℕ → Bool → Option (Kv (List ℕ) SdbValue)
  new_record key val owned =
      elim (if owned
        then sdbkv_new2 key (length key) none 0
        else sdbkv_new2 key (length key) (some val) (length val)) [
          | none ↦ none
          | some kv ↦
              let text = if owned then some val else kv.val.text in
              let vlen = if owned then length val else kv.value_len in
              some (record kv {
                val = record (kv.val) { text = text; cas = nextcas kv.val.cas };
                value_len = vlen;
              })
        ]

  unfoldable pub add_record : Sdb → List ℕ → List ℕ → Bool → Option (Sdb × ℕ)
  add_record s key val owned = elim (new_record key val owned) [
    | none ↦ some (s, 0)
    | some kv ↦
        and_then (sdb_ht_insert_kvp s.ht kv true) (λ r. some (record s { ht = r.0 }, kv.val.cas))
  ]

-- The record with a new value, which raises its version.
abbrev pub with_value : Kv (List ℕ) SdbValue → List ℕ → Kv (List ℕ) SdbValue
with_value kv val = record kv {
  val = record (kv.val) { text = some val; cas = nextcas kv.val.cas };
  value_len = length val;
}

-- A value over one that the disk holds too, or that has no disk below it.
unfoldable pub overwrite_record :
    Sdb → List ℕ → List ℕ → Kv (List ℕ) SdbValue → List ℕ → ℕ → Sdb × ℕ
overwrite_record s key val kv text cas =
    if not (cas == 0) && not (kv.val.cas == cas)
    then (s, 0)
    else (if length val == kv.value_len && str_eq text val
        then (s, kv.val.cas)
        else (record s { ht = assign_kvp s.ht key (with_value kv val) }, nextcas kv.val.cas))

-- A value over one that is in memory. One that an open disk does not hold is only taken out.
unfoldable pub replace_record : Sdb → List ℕ → List ℕ → Kv (List ℕ) SdbValue → List ℕ → ℕ → Sdb × ℕ
replace_record s key val kv text cas = elim (s.disk.find key) [
  | failed ↦ overwrite_record s key val kv text cas
  | absent ↦ (record s { ht = (sdb_ht_delete s.ht key).0 }, nextcas kv.val.cas)
  | present d ↦ overwrite_record s key val kv text cas
]

module _ ⦃heap : Heap⦄ where
  unfoldable pub set_record : Sdb → List ℕ → List ℕ → Bool → ℕ → Option (Sdb × ℕ)
  set_record s key val owned cas = elim (sdb_ht_find_kvp s.ht key) [
    | none ↦ add_record s key val owned
    | some kv ↦ elim kv.val.text [
      | none ↦ add_record s key val owned
      | some text ↦ some (replace_record s key val kv text cas)
    ]
  ]

  -- The new state and the version that it returns. An absent string is NULL; the outer `none`
  -- means that the fuel of an insertion ran out.
  unfoldable pub sdb_set_internal :
      Sdb → Option (List ℕ) → Option (List ℕ) → Bool → ℕ → Option (Sdb × ℕ)
  sdb_set_internal s none val owned cas = some (s, 0)
  sdb_set_internal s (some key) val owned cas =
      if leb sdb_ksz (length key) || leb sdb_vsz (length (or_empty val))
      then some (s, 0)
      else set_record (sdb_journal_log s key (or_empty val)) key (or_empty val) owned cas

  -- The result as a truth value.
  abbrev pub truth : Option (Sdb × ℕ) → Option (Sdb × Bool)
  truth o = and_then o (λ r. some (r.0, not (r.1 == 0)))

  unfoldable pub sdb_set : Sdb → Option (List ℕ) → Option (List ℕ) → ℕ → Option (Sdb × Bool)
  sdb_set s key val cas = truth (sdb_set_internal s key val false cas)

  unfoldable pub sdb_set_owned : Sdb → Option (List ℕ) → Option (List ℕ) → ℕ → Option (Sdb × Bool)
  sdb_set_owned s key val cas = truth (sdb_set_internal s key val true cas)

  unfoldable pub sdb_unset : Sdb → Option (List ℕ) → ℕ → Option (Sdb × Bool)
  sdb_unset s none cas = some (s, false)
  sdb_unset s (some key) cas = sdb_set s (some key) (some []) cas
