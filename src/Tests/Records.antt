-- ===== src/Tests/Records.antt =====
-- The theorem on src/ht.c at an empty table.
use sdb.Base.{◌+◌, ◌≡◌, refl, true, not, some, if◌then◌else◌, codes, arith, inl}
use sdb.Ht.{Heap, find, prime}
use sdb.Ht.Entries.{same}
use sdb.Ht.State.{blank, blank-IsValid}
use sdb.Ht.Insert.{IsReady}
use sdb.Ht.Laws.{is_some, to_nat, Finds}
use sdb.SdbHt.{Records, record_options, sdb_ht_internal_insert}
use sdb.SdbHt.Laws.{sdb_ht_internal_insert-Finds}

instance abbrev open_heap : Heap
open_heap = record { grants = λ n. true }

abbrev pub no_records : Records
no_records = blank 3 0

pub no_records-IsReady : IsReady no_records
unfolding prime
no_records-IsReady = record {
  valid = blank-IsValid 3 0 (omega arith) (inl (omega arith, refl));
  open_slots = omega arith;
}

sdb_ht_internal_insert-Finds_example :
    let there = is_some (find no_records (codes "foo")) in
    (r : Records) × (sdb_ht_internal_insert no_records
        (some (codes "foo"))
        (some (codes "bar"))
        true
      ≡ some (r, true))
    × Finds r (0 + to_nat (not there)) (λ q.
      if same record_options q (codes "foo")
      then some (record { text = some (codes "bar"); cas = 0; expire = 0 })
      else find no_records q)
sdb_ht_internal_insert-Finds_example =
    sdb_ht_internal_insert-Finds (λ n. refl) no_records b'f' (codes "oo") (codes "bar") true
      no_records-IsReady (omega arith)
