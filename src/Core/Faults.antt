-- ===== src/Core/Faults.antt =====
-- src/sdb.c: a set that the disk makes the store forget, and a set that is refused.
use mathlib.Core.Bool.{true≢false}
use sdb.Base.{
  ℕ, ◌+◌, ◌^◌, ◌<◌, ◌≡◌, refl, ◌∙◌, Bool, true, false, List, [], ◌∷◌, ◌++◌, none, some, ◌==◌,
  length,
}
use sdb.Ht.{Heap}
use sdb.Ht.State.{view}
use sdb.Ht.Insert.{IsReady}
use sdb.SdbHt.{record_options}
use sdb.SdbHt.Laws.{record_laws}
use sdb.Core.{
  Lookup, failed, absent, present, Sdb, sdb_ksz, sdb_vsz, sdb_max_path, nextcas, sdb_journal_log,
  replace_record, overwrite_record, sdb_set_internal,
}
use sdb.Core.Read.{other_value, is_expired}
use sdb.Journal.Replay.{line-whole}
use sdb.Core.Spec.{Record, set_spec, set_spec-some}
use sdb.Core.Change.{set_record-some, set_record-Changed}
use sdb.Core.Lookups.{reads, is_absent, set_internal-record}
use sdb.Core.Answers.{other_value-absent}

module _ ⦃heap : Heap⦄ (grants : (n : ℕ) → heap.grants n ≡ true) (s : Sdb) (now : ℕ)
    (key val : List ℕ) (owned : Bool) (cas : ℕ) (kv : Record) (text : List ℕ) (ready : IsReady s.ht)
    (small_key : length key < sdb_ksz) (small_val : length val < sdb_vsz)
    (held : view s.ht key ≡ some kv) (there : kv.val.text ≡ some text) where
  -- A set of a key that has a value in memory, in a store whose disk answers that it does not
  -- hold the key, returns the next version of the old record, whatever value and version are
  -- given, and the key then reads as nothing. No generated lookup is set, the table is ready
  -- and its size is below 2^31, the key and the value are shorter than SDB_KSZ and SDB_VSZ, and
  -- every allocation is granted.
  pub sdb_set_internal-forgets :
      s.ht.size < 2 ^ 31
      → s.gp ≡ none
      → s.disk.find key ≡ absent
      → (r : Sdb) × (sdb_set_internal s (some key) (some val) owned cas
          ≡ some (r, nextcas kv.val.cas))
        × (reads r now key ≡ none)
  unfolding sdb_journal_log reads other_value
  sdb_set_internal-forgets small gp nowhere =
      let s' = sdb_journal_log s key val in
      let (h, run, _, m) =
        set_record-Changed grants s' key val owned cas ready small small_key small_val in
      let spec : set_spec (s.disk.find key) (view s.ht key) key val owned cas
          ≡ (none, nextcas kv.val.cas) =
        rw (held, set_spec-some (s.disk.find key) kv key val owned cas text there, nowhere) refl in
      (
        record s' { ht = h },
        set_internal-record grants s key val owned cas small_key small_val ∙ run ∙ rw spec refl,
        rw (m.reads key, record_laws.same_refl key, spec) (other_value-absent s now key gp nowhere),
      )

  -- A set with a version that the record in memory has not returns 0, and every key reads as
  -- before, but the log ends with the line of the set. There is a log, the line and its
  -- terminating zero fit into SDB_MAX_PATH bytes, the key has a value in memory, the disk does
  -- not answer that it has no such key, the table is ready, the key and the value are shorter
  -- than SDB_KSZ and SDB_VSZ, and every allocation is granted.
  pub sdb_set_internal-refused :
      (log : List ℕ)
      → s.journal ≡ some log
      → length key + length val + 2 < sdb_max_path
      → is_absent (s.disk.find key) ≡ false
      → (cas == 0) ≡ false
      → (kv.val.cas == cas) ≡ false
      → (r : Sdb) × (sdb_set_internal s (some key) (some val) owned cas ≡ some (r, 0))
        × (r.journal ≡ some (log ++ (key ++ (b'=' ∷ val) ++ b'\n' ∷ [])))
        × ((q : List ℕ) → reads r now q ≡ reads s now q)
  unfolding sdb_journal_log replace_record overwrite_record reads is_expired other_value
  sdb_set_internal-refused log logged fits kept_there given other =
      let s' = sdb_journal_log s key val in
      (
        s',
        set_internal-record grants s key val owned cas small_key small_val
            ∙ set_record-some s' ready kv key val owned cas held text there
            ∙ go (s.disk.find key) refl kept_there,
        rw (logged, line-whole key val fits) refl,
        (λ q. refl),
      )
    where
      go :
          (look : Lookup)
          → s.disk.find key ≡ look
          → is_absent look ≡ false
          → some (replace_record (sdb_journal_log s key val) key val kv text cas)
            ≡ some (sdb_journal_log s key val, 0)
      go failed e k = rw (replace_record, e, other, given) refl
      go absent e k = absurd (true≢false k)
      go (present d) e k = rw (replace_record, e, other, given) refl
