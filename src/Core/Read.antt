-- ===== src/Core/Read.antt =====
-- src/sdb.c: how a key is looked up, in memory, in the generated table and on disk.
use sdb.Base.{
  ℕ, Bool, false, not, ◌&&◌, ◌||◌, List, Option, none, some, and_then, ltb, leb, ◌==◌,
  if◌then◌else◌, length, get_or, c_string,
}
use sdb.Ht.{Heap, Kv}
use sdb.SdbHt.{SdbValue, sdb_ht_find_kvp}
use sdb.Core.{Lookup, failed, absent, present, Disk, Sdb, Value, sdb_vsz, is_empty, sdb_unset}

-- A value on disk is as long as its record says, with the zero that ends it.
unfoldable pub disk_value : Lookup → Option Value
disk_value failed = none
disk_value absent = none
disk_value (present d) =
    if ltb (length d) 1 || leb sdb_vsz (length d)
    then none
    else some (record { str = c_string d; vlen = length d; cas = 0 })

-- A key that is not in memory. The generated lookup leaves the length and the version at 0.
unfoldable pub other_value : Sdb → List ℕ → Option Value
other_value s key = elim s.gp [
  | some get ↦ elim (get key) [
    | none ↦ none
    | some t ↦ some (record { str = t; vlen = 0; cas = 0 })
  ]
  | none ↦ if s.disk.opened then disk_value (s.disk.find key) else none
]

abbrev pub str_of : Option Value → Option (List ℕ)
str_of none = none
str_of (some v) = some v.str

-- A record whose time has passed.
unfoldable pub is_expired : Sdb → ℕ → Kv (List ℕ) SdbValue → Bool
is_expired s now kv = s.timestamped && (not (kv.val.expire == 0) && ltb kv.val.expire now)

module _ ⦃heap : Heap⦄ where
  -- A value in memory; one that has expired is unset.
  unfoldable pub memory_value :
      Sdb → ℕ → List ℕ → Kv (List ℕ) SdbValue → Option (Sdb × Option Value)
  memory_value s now key kv = elim kv.val.text [
    | none ↦ some (s, none)
    | some text ↦
        let gone = and_then (sdb_unset s (some key) 0) (λ r. some (r.0, none)) in
        if is_empty text
        then some (s, none)
        else (if is_expired s now kv
            then gone
            else some (s, some (record { str = text; vlen = kv.value_len; cas = kv.val.cas })))
  ]

  unfoldable pub sdb_const_get_len : Sdb → ℕ → Option (List ℕ) → Option (Sdb × Option Value)
  sdb_const_get_len s now none = some (s, none)
  sdb_const_get_len s now (some key) = elim (sdb_ht_find_kvp s.ht key) [
    | none ↦ some (s, other_value s key)
    | some kv ↦ memory_value s now key kv
  ]

  -- A copy of the string.
  unfoldable pub sdb_get : Sdb → ℕ → Option (List ℕ) → Option (Sdb × Option (List ℕ))
  sdb_get s now key = and_then (sdb_const_get_len s now key) (λ r. some (r.0, str_of r.1))

-- The first byte that `cdb_read` puts at `ch`.
unfoldable pub disk_exists : Disk → Lookup → Bool
disk_exists disk failed = disk.stale
disk_exists disk absent = false
disk_exists disk (present d) = not (get_or d 0 0 == 0)

unfoldable pub sdb_exists : Sdb → Option (List ℕ) → Bool
sdb_exists s none = false
sdb_exists s (some key) = elim (sdb_ht_find_kvp s.ht key) [
  | some kv ↦ elim kv.val.text [ none ↦ false | some text ↦ not (is_empty text) ]
  | none ↦ if s.disk.opened then disk_exists s.disk (s.disk.find key) else false
]
