-- ===== src/Tests/Files.antt =====
-- The theorems on src/buffer.inc.c, src/cdb.c and src/cdb_make.c at small files.
use sdb.Base.{
  ℕ, ◌≡◌, refl, true, List, [], ◌∷◌, ◌==◌, Option, none, some, if◌then◌else◌, length, replicate,
  codes, arith,
}
use sdb.Buffer.{Device, Buffer, buffer_putalign}
use sdb.Buffer.Stream.{Puts, buffer_putalign-stream}
use sdb.Cdb.{cdb_findnext}
use sdb.CdbMake.{Hp, CdbMake, empty_hp, fill, cdb_make_add}
use sdb.CdbMake.Layout.{or_absent}
use sdb.CdbMake.RoundTrip.{build, first_value, build-cdb_findnext}
use sdb.CdbMake.Slots.{slot_of, probe, first_answer, fill-first_answer}
use sdb.CdbMake.State.{Record, Describes, cdb_make_start-Describes, cdb_make_add-Describes}
use sdb.Ht.{Heap}
use sdb.Util.{sdb_hash}

instance abbrev roomy : Heap
roomy = record { grants = λ n. true }

instance abbrev disk : Device
disk = record { writes = λ n. true; seeks = λ n. true }

abbrev some_records : List Record
some_records =
    (codes "a", codes "one") ∷ ((codes "b", codes "two") ∷ ((codes "a", codes "three") ∷ []))

build-cdb_findnext_example :
    (file : List ℕ) × (build some_records ≡ some file)
    × ((q : List ℕ)
        → cdb_findnext true file (sdb_hash q) q ≡ or_absent (first_value q some_records))
build-cdb_findnext_example =
    build-cdb_findnext (λ n. refl) (λ n. refl) (λ n. refl) some_records
      (
        (omega arith, omega arith, (omega arith, tt)),
        (
          (omega arith, omega arith, (omega arith, tt)),
          ((omega arith, omega arith, (omega arith, tt)), tt),
        ),
      )
      (omega arith) (omega arith)

abbrev half_full : Buffer
half_full = record { x = codes "abc"; n = 4; file = codes "xy" }

buffer_putalign-stream_example :
    Puts half_full (codes "defghijk") (buffer_putalign half_full (codes "defghijk"))
buffer_putalign-stream_example =
    buffer_putalign-stream (λ n. refl) half_full (codes "defghijk") (omega arith, omega arith)

-- Two entries that begin at one slot, the last one.
abbrev entry : ℕ → ℕ → Hp
entry h p = record { h = h; p = p }

abbrev colliding : List Hp
colliding = entry 769 1024 ∷ (entry 1793 1040 ∷ [])

abbrev at_hash : Hp → Option ℕ
at_hash e = if e.h == 1793 then some e.p else none

at_hash-only : (e : Hp) (r : ℕ) → at_hash e ≡ some r → e.h ≡ 1793
at_hash-only e r found = ground (arith, found)

fill-first_answer_example :
    (t : List Hp) × (fill colliding (replicate 4 empty_hp) ≡ some t)
    × (length t ≡ 4)
    × (probe at_hash (length t) (slot_of 1793 t) t ≡ first_answer at_hash colliding)
fill-first_answer_example =
    fill-first_answer at_hash 1793 at_hash-only colliding 4 (refl, (refl, tt)) (omega arith)

cdb_make_add-Describes_example :
    (let c = (cdb_make_start-Describes refl).0 in
      (c' : CdbMake) × (cdb_make_add c (codes "a") (codes "one") ≡ some c')
      × Describes c' ((codes "a", codes "one") ∷ []))
cdb_make_add-Describes_example =
    cdb_make_add-Describes (λ n. refl) (λ n. refl) (cdb_make_start-Describes refl).0 [] (codes "a")
      (codes "one") (omega arith, omega arith, (omega arith, tt)) (omega arith)
      (cdb_make_start-Describes refl).2
