-- ===== src/Core/Lookups.antt =====
-- What the lookups of src/sdb.c answer, as a function of the store, and how a set changes it.
use mathlib.Core.Bool.{true≢false}
use sdb.Base.{
  ℕ, ◌^◌, ◌<◌, ◌≡◌, refl, sym, ap, ◌∙◌, Bool, true, false, ◌&&◌, ◌||◌, List, [], ◌∷◌, Option, none,
  some, leb, ◌==◌, if◌then◌else◌, length, str_eq, str_eq_iff, arith, Bool-cases, Option-cases, inl,
  inr,
}
use sdb.Ht.{Heap}
use sdb.Ht.Entries.{same}
use sdb.Ht.State.{view}
use sdb.Ht.Insert.{IsReady}
use sdb.SdbHt.{record_options}
use sdb.Core.{
  Lookup, failed, absent, present, Sdb, Value, sdb_ksz, sdb_vsz, is_empty, sdb_journal_log,
  with_value, set_record, sdb_set_internal,
}
use sdb.Core.Read.{other_value, is_expired, str_of}
use sdb.Core.Spec.{
  Record, fresh_record, overwritten, replaced, set_spec, has_value, set_spec-null, set_spec-some,
}
use sdb.Core.Change.{set_record-Changed}

-- What a record in memory reads as.
abbrev pub text_value : Sdb → ℕ → Record → Option (List ℕ) → Option Value
text_value s now kv none = none
text_value s now kv (some text) =
    if is_empty text
    then none
    else (if is_expired s now kv
        then none
        else some (record { str = text; vlen = kv.value_len; cas = kv.val.cas }))

abbrev pub record_value : Sdb → ℕ → List ℕ → Option Record → Option Value
record_value s now q none = other_value s q
record_value s now q (some kv) = text_value s now kv kv.val.text

-- What a lookup of the key answers.
unfoldable pub reads : Sdb → ℕ → List ℕ → Option Value
reads s now q = record_value s now q (view s.ht q)

-- A string, or nothing where it is empty.
abbrev pub non_empty : List ℕ → Option (List ℕ)
non_empty [] = none
non_empty (x ∷ xs) = some (x ∷ xs)

-- The key is in memory, and an open disk does not hold it.
abbrev pub is_absent : Lookup → Bool
is_absent failed = false
is_absent absent = true
is_absent (present d) = false

abbrev pub forgets : Sdb → List ℕ → Bool
forgets s key = has_value (view s.ht key) && is_absent (s.disk.find key)

abbrev pub expired_record : Sdb → ℕ → Option Record → Bool
expired_record s now none = false
expired_record s now (some kv) = is_expired s now kv

text_value-live :
    (s : Sdb) (now : ℕ) (kv : Record) (val : List ℕ)
    → is_expired s now kv ≡ false
    → str_of (text_value s now kv (some val)) ≡ non_empty val
text_value-live s now kv [] live = refl
text_value-live s now kv (x ∷ xs) live = rw live

pub record_value-some :
    (s : Sdb) (now : ℕ) (q : List ℕ) (kv : Record) (text : Option (List ℕ))
    → kv.val.text ≡ text
    → record_value s now q (some kv) ≡ text_value s now kv text
record_value-some s now q kv text e = ap (λ (t : Option (List ℕ)). text_value s now kv t) e

module _ (s : Sdb) (now : ℕ) (q key val : List ℕ) where
  fresh-live : (owned : Bool) → is_expired s now (fresh_record key val owned) ≡ false
  unfolding is_expired
  fresh-live owned = ground arith

  fresh-reads :
      (owned : Bool)
      → str_of (record_value s now q (some (fresh_record key val owned))) ≡ non_empty val
  fresh-reads true = text_value-live s now (fresh_record key val true) val (fresh-live true)
  fresh-reads false = go val (fresh-live false)
    where
      go :
          (v : List ℕ)
          → is_expired s now (fresh_record key v false) ≡ false
          → str_of (record_value s now q (some (fresh_record key v false))) ≡ non_empty v
      go [] live = refl
      go (x ∷ xs) live =
          let e : (length (x ∷ xs) == 0) ≡ false = ground arith in
          ap str_of (
            record_value-some s now q (fresh_record key (x ∷ xs) false) (some (x ∷ xs)) (rw e refl))
          ∙ text_value-live s now (fresh_record key (x ∷ xs) false) (x ∷ xs) live

  overwritten-reads :
      (kv : Record) (text : List ℕ)
      → kv.val.text ≡ some text
      → is_expired s now kv ≡ false
      → str_of (record_value s now q (some (overwritten kv text val 0).0)) ≡ non_empty val
  overwritten-reads kv text there live =
      elim (Bool-cases (length val == kv.value_len && str_eq text val)) [
        | inl equal ↦
            let e : text ≡ val = (str_eq_iff text val).0 (ground arith) in
            rw equal (
              ap str_of (record_value-some s now q kv (some text) there)
              ∙ rw e (text_value-live s now kv val live))
        | inr differ ↦
            rw differ (text_value-live s now (with_value kv val) val (unfold is_expired in live))
      ]

  kept-reads :
      (kv : Record) (text : List ℕ) (look : Lookup)
      → kv.val.text ≡ some text
      → is_expired s now kv ≡ false
      → is_absent look ≡ false
      → str_of (record_value s now q (replaced look kv text val 0).0) ≡ non_empty val
  kept-reads kv text failed there live e = overwritten-reads kv text there live
  kept-reads kv text absent there live e = absurd (true≢false e)
  kept-reads kv text (present d) there live e = overwritten-reads kv text there live

  -- What the key reads as after a set that its disk does not make forget it.
  spec-reads :
      (look : Lookup) (e : Option Record) (owned : Bool)
      → (has_value e && is_absent look) ≡ false
      → expired_record s now e ≡ false
      → str_of (record_value s now q (set_spec look e key val owned 0).0) ≡ non_empty val
  spec-reads look none owned kept_there live = fresh-reads owned
  spec-reads look (some kv) owned kept_there live = elim (Option-cases kv.val.text) [
    | inl null ↦ rw (set_spec-null look kv key val owned 0 null) (fresh-reads owned)
    | inr (text, there) ↦
        let e : has_value (some kv) ≡ true = simp there in
        rw (set_spec-some look kv key val owned 0 text there)
          (kept-reads kv text look there live (sym (rw e refl) ∙ kept_there))
  ]

module _ ⦃heap : Heap⦄ (grants : (n : ℕ) → heap.grants n ≡ true) where
  pub set_internal-record :
      (s : Sdb) (key val : List ℕ) (owned : Bool) (cas : ℕ)
      → length key < sdb_ksz
      → length val < sdb_vsz
      → sdb_set_internal s (some key) (some val) owned cas
        ≡ set_record (sdb_journal_log s key val) key val owned cas
  unfolding sdb_set_internal
  set_internal-record s key val owned cas small_key small_val =
      let e : (leb sdb_ksz (length key) || leb sdb_vsz (length val)) ≡ false = ground arith in rw e

  -- A set without a version ends. Where it does not forget the key, and the record in memory
  -- has not expired, the key then reads as the value, or as nothing if that is empty, and every
  -- other key as before. The table is ready and its size is below 2^31, the key and the value
  -- are shorter than SDB_KSZ and SDB_VSZ, and every allocation is granted.
  pub sdb_set_internal-reads :
      (s : Sdb) (now : ℕ) (key val : List ℕ) (owned : Bool)
      → IsReady s.ht
      → s.ht.size < 2 ^ 31
      → length key < sdb_ksz
      → length val < sdb_vsz
      → forgets s key ≡ false
      → expired_record s now (view s.ht key) ≡ false
      → (r : Sdb) × (c : ℕ) × (sdb_set_internal s (some key) (some val) owned 0 ≡ some (r, c))
        × IsReady r.ht
        × ((q : List ℕ)
            → str_of (reads r now q)
              ≡ (if same record_options q key then non_empty val else str_of (reads s now q)))
  unfolding sdb_journal_log reads is_expired other_value
  sdb_set_internal-reads s now key val owned ready small small_key small_val kept_there live =
      let s' = sdb_journal_log s key val in
      let (h, run, _, m) =
        set_record-Changed grants s' key val owned 0 ready small small_key small_val in
      (
        record s' { ht = h },
        (set_spec (s.disk.find key) (view s.ht key) key val owned 0).1,
        set_internal-record s key val owned 0 small_key small_val ∙ run,
        m.ready,
        λ q. elim (Bool-cases (same record_options q key)) [
          | inl hit ↦
              rw (m.reads q, hit)
                (spec-reads s now q key val (s.disk.find key) (view s.ht key) owned kept_there live)
          | inr miss ↦ rw (m.reads q, miss) refl
        ],
      )
