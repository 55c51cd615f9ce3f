-- ===== src/Tests/Store.antt =====
-- The theorems on src/sdb.c, src/num.c and src/journal.c at small stores.
use mathlib.Core.Bool.{false≢true}
use sdb.Base.{
  ℕ, suc, ◌==◌, c_string, ◌+◌, ◌^◌, ◌<◌, ◌≤◌, ◌≡◌, refl, sym, ap, ◌∙◌, Bool, true, false, List, [],
  ◌∷◌, ◌++◌, ◌↔◌, ◌⊎◌, Option, none, some, if◌then◌else◌, length, codes, arith,
}
use sdb.Util.{sdb_hash, sdb_hash_len, hash_loop, hash_step, widen_char}
use sdb.Ht.{
  Heap, find_kv, find_index, insert_kv, store, reserve_kv, extend, check_growing, write_kv,
}
use sdb.Ht.Change.{Changed}
use sdb.Ht.Entries.{same, find_in}
use sdb.Ht.State.{view}
use sdb.Ht.Insert.{IsReady}
use sdb.Ht.Laws.{is_some}
use sdb.SdbHt.{Records, record_options, sdb_ht_find_kvp, sdb_ht_insert_kvp}
use sdb.SdbHt.Laws.{record_laws}
use sdb.Core.{
  journal_line, Lookup, failed, absent, present, Sdb, Value, nextcas, sdbkv_new2, new_record,
  add_record, set_record, sdb_set_internal,
}
use sdb.Core.Read.{sdb_const_get_len, disk_value, other_value, sdb_exists, str_of}
use sdb.Core.Spec.{fresh_record}
use sdb.Core.Change.{set_record-Changed}
use sdb.Core.Lookups.{reads, non_empty, sdb_set_internal-reads}
use sdb.Core.Reading.{Reads, sdb_const_get_len-Reads}
use sdb.Core.Exists.{sdb_exists-reads}
use sdb.Core.Faults.{sdb_set_internal-forgets, sdb_set_internal-refused}
use sdb.Core.Ops.{sdb_concat, sdb_uncat}
use sdb.Core.Uncat.{CutDown, Occurs}
use sdb.Core.Appends.{LeavesText, sdb_concat-reads, sdb_uncat-reads}
use sdb.Numbers.{sdb_num_base}
use sdb.Num.{sdb_num_parse, sdb_num_get, sdb_num_set, sdb_num_inc}
use sdb.Num.Counters.{sdb_num_set-sdb_num_get, sdb_num_inc-sum}
use sdb.Journal.{sdb_journal_load}
use sdb.Journal.Replay.{log_of, replay, sdb_journal_load-replay}
use sdb.Tests.Records.{no_records, no_records-IsReady}

instance abbrev roomy : Heap
roomy = record { grants = λ n. true }

abbrev key : List ℕ
key = codes "k"

-- A store in memory over a disk that answers this to every lookup.
abbrev store_over : Records → Lookup → Sdb
store_over ht look = record {
  ht = ht;
  disk = record { opened = true; find = λ q. look; stale = false };
  gp = none;
  timestamped = false;
  journal = some [];
}

abbrev empty_store : Sdb
empty_store = store_over no_records absent

-- A table with the key in it.
first_set :
    (h : Records) × (set_record empty_store key (codes "v") false 0
      ≡ some (record empty_store { ht = h }, 2))
    × (false ≡ true → h.size ≡ no_records.size)
    × Changed no_records h key (some (fresh_record key (codes "v") false))
unfolding view find_in sdb_hash sdb_hash_len hash_loop hash_step widen_char
first_set =
    let (h, run, _, m) =
      set_record-Changed (λ n. refl) empty_store key (codes "v") false 0 no_records-IsReady
        (omega arith) (omega arith) (omega arith) in
    (h, run, (λ e. absurd (false≢true e)), m)

abbrev one_record : Records
one_record = first_set.0

abbrev size_of : Option (Sdb × ℕ) → ℕ
size_of none = 0
size_of (some r) = r.0.ht.size

first_size : size_of (set_record empty_store key (codes "v") false 0) ≡ 3
unfolding set_record sdb_ht_find_kvp find_kv find_index sdb_hash sdb_hash_len hash_loop hash_step
    widen_char add_record new_record sdbkv_new2 sdb_ht_insert_kvp insert_kv store reserve_kv extend
    check_growing write_kv
first_size = refl

one_record-size : one_record.size ≡ 3
one_record-size = sym (ap size_of first_set.1) ∙ first_size

one_record-IsReady : IsReady one_record
one_record-IsReady = first_set.3.ready

one_record-view : view one_record key ≡ some (fresh_record key (codes "v") false)
one_record-view = first_set.3.reads key ∙ rw (record_laws.same_refl key) refl

one_record-small : one_record.size < 2 ^ 31
one_record-small = let e = one_record-size in omega arith

no_records-view : view no_records key ≡ none
unfolding view find_in sdb_hash sdb_hash_len hash_loop hash_step widen_char
no_records-view = refl

sdb_set_internal-reads_example :
    (r : Sdb) × (c : ℕ) × (sdb_set_internal empty_store (some key) (some (codes "v")) false 0
      ≡ some (r, c))
    × IsReady r.ht
    × ((q : List ℕ)
        → str_of (reads r 7 q) ≡ (
            if same record_options q key
            then non_empty (codes "v")
            else str_of (reads empty_store 7 q)))
sdb_set_internal-reads_example =
    sdb_set_internal-reads (λ n. refl) empty_store 7 key (codes "v") false no_records-IsReady
      (omega arith) (omega arith) (omega arith) (rw no_records-view refl) (rw no_records-view refl)

sdb_set_internal-forgets_example :
    (r : Sdb) × (sdb_set_internal
        (store_over one_record absent)
        (some key)
        (some (codes "w"))
        false
        0
      ≡ some (r, nextcas 2))
    × (reads r 7 key ≡ none)
sdb_set_internal-forgets_example =
    sdb_set_internal-forgets (λ n. refl) (store_over one_record absent) 7 key (codes "w") false 0
      (fresh_record key (codes "v") false) (codes "v") one_record-IsReady (omega arith)
      (omega arith) one_record-view refl one_record-small refl refl

sdb_set_internal-refused_example :
    (r : Sdb) × (sdb_set_internal
        (store_over one_record failed)
        (some key)
        (some (codes "w"))
        false
        1
      ≡ some (r, 0))
    × (r.journal ≡ some (key ++ (b'=' ∷ codes "w") ++ b'\n' ∷ []))
    × ((q : List ℕ) → reads r 7 q ≡ reads (store_over one_record failed) 7 q)
sdb_set_internal-refused_example =
    sdb_set_internal-refused (λ n. refl) (store_over one_record failed) 7 key (codes "w") false 1
      (fresh_record key (codes "v") false) (codes "v") one_record-IsReady (omega arith)
      (omega arith) one_record-view refl [] refl (omega arith) refl refl refl

-- A store over a disk that holds a string under every key.
abbrev disk_store : Sdb
disk_store = store_over no_records (present (codes "10" ++ 0 ∷ []))

sdb_const_get_len-Reads_example :
    (r : Sdb) × (v : Option Value) × (sdb_const_get_len disk_store 7 (some key) ≡ some (r, v))
    × ((w : Option Value) → Reads disk_store 7 key w ↔ (w ≡ v))
    × IsReady r.ht
    × (r.ht.size ≡ 3)
    × (((get : List ℕ → Option (List ℕ)) × (none ≡ some get))
        ⊎ ((q : List ℕ) (w : Option Value) → Reads disk_store 7 q w ↔ Reads r 7 q w))
sdb_const_get_len-Reads_example =
    sdb_const_get_len-Reads (λ n. refl) disk_store 7 key no_records-IsReady (omega arith)
      (omega arith)

sdb_exists-reads_example : sdb_exists disk_store (some key) ≡ is_some (reads disk_store 7 key)
sdb_exists-reads_example =
    sdb_exists-reads disk_store 7 key no_records-IsReady refl refl (rw no_records-view refl)

-- What every key reads as in it.
disk_store-reads : reads disk_store 7 key ≡ some (record { str = codes "10"; vlen = 3; cas = 0 })
unfolding reads view find_in sdb_hash sdb_hash_len hash_loop hash_step widen_char other_value
    disk_value c_string
disk_store-reads = refl

abbrev ten : Value
ten = record { str = codes "10"; vlen = 3; cas = 0 }

sdb_concat-reads_example :
    (ten.vlen ≡ length ten.str
      → LeavesText disk_store 7 key
          (sdb_concat disk_store 7 (some key) (some (codes "!")) 0)
          (ten.str ++ codes "!"))
    × (ten.vlen ≡ suc (length ten.str)
        → LeavesText disk_store 7 key
            (sdb_concat disk_store 7 (some key) (some (codes "!")) 0)
            ten.str)
sdb_concat-reads_example =
    sdb_concat-reads (λ n. refl) disk_store 7 b'k' [] no_records-IsReady (omega arith) (omega arith)
      (rw no_records-view refl) ten b'!' [] disk_store-reads (unfold journal_line in omega arith)
      (ground arith) (omega arith)

sdb_uncat-reads_example :
    (w : List ℕ) × CutDown (codes "0") ten.str w
    × ¬ Occurs (codes "0") w
    × LeavesText disk_store 7 key (sdb_uncat disk_store 7 (some key) (some (codes "0")) 0) w
sdb_uncat-reads_example =
    sdb_uncat-reads (λ n. refl) disk_store 7 b'k' [] no_records-IsReady (omega arith) (omega arith)
      (rw no_records-view refl) ten b'0' [] disk_store-reads (omega arith) refl

decimal_there : (sdb_num_base (str_of (reads disk_store 7 key)) == 8) ≡ false
unfolding sdb_num_base
decimal_there = rw disk_store-reads refl

sdb_num_set-sdb_num_get_example :
    (r : Sdb) × (ok : Bool) × (cas : ℕ) × (sdb_num_set disk_store 7 key 12 0 ≡ some (r, ok))
    × (sdb_num_get r 7 key ≡ some (r, (12, cas)))
    × ((q : List ℕ)
        → same record_options q key ≡ false
        → str_of (reads r 7 q) ≡ str_of (reads disk_store 7 q))
sdb_num_set-sdb_num_get_example =
    sdb_num_set-sdb_num_get (λ n. refl) disk_store 7 key no_records-IsReady (omega arith)
      (omega arith) (rw no_records-view refl) (rw no_records-view refl) 12 (omega arith)
      decimal_there

sdb_num_inc-sum_example :
    let n = sdb_num_parse (str_of (reads disk_store 7 key)) in
    (n + 5 < 2 ^ 64
      → (r : Sdb) × (cas : ℕ) × (sdb_num_inc disk_store 7 key 5 0 ≡ some (r, n + 5))
        × (sdb_num_get r 7 key ≡ some (r, (n + 5, cas))))
    × (2 ^ 64 ≤ n + 5 → sdb_num_inc disk_store 7 key 5 0 ≡ some (disk_store, 0))
sdb_num_inc-sum_example =
    sdb_num_inc-sum (λ n. refl) disk_store 7 key no_records-IsReady (omega arith) (omega arith)
      (rw no_records-view refl) (rw no_records-view refl) 5 (omega arith) decimal_there

abbrev logged : List (List ℕ × List ℕ)
logged = (codes "a", codes "1") ∷ (codes "b", codes "") ∷ []

abbrev logged_store : Sdb
logged_store = record empty_store { journal = some (log_of logged) }

sdb_journal_load-replay_example : sdb_journal_load logged_store ≡ replay logged_store 0 logged
sdb_journal_load-replay_example =
    sdb_journal_load-replay logged_store (codes "a", codes "1") ((codes "b", codes "") ∷ [])
      (λ n. refl) refl (unfold journal_line in omega arith) (ground arith)
