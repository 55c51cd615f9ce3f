-- ===== src/CdbMake/RoundTrip.antt =====
-- A file that src/cdb_make.c wrote, searched by src/cdb.c.
use mathlib.Core.List.{append-nil}
use sdb.Base.{
  ℕ, ◌+◌, ◌*◌, ◌%◌, ◌^◌, ◌<◌, ◌≡◌, refl, sym, ap, ◌∙◌, true, false, List, [], ◌∷◌, ◌++◌, Option,
  none, some, and_then, ◌==◌, length, str_eq, str_eq_iff, All, length-append, arith, Bool-cases,
  inl, inr,
}
use sdb.Buffer.{Device}
use sdb.Cdb.{check_slot, cdb_findnext}
use sdb.Cdb.Bytes.{At, At-first, At-second}
use sdb.CdbMake.{Hp, cdb_make_start, cdb_make_finish}
use sdb.CdbMake.Filled.{
  oldest_answer, table_of, table_of-Fills, table_of-IsSmall, table_of-probe, length-all_tables,
}
use sdb.CdbMake.Layout.{or_absent, length-starts_bytes, file-IsPlaced}
use sdb.CdbMake.Records.{answer_of, check_slot-record}
use sdb.CdbMake.Search.{cdb_findnext-IsPlaced}
use sdb.CdbMake.Slots.{or_else, or_else_assoc}
use sdb.CdbMake.State.{
  Record, IsStorable, string_bytes, record_bytes, size, bytes_of, entries_of, reverse_onto, add_all,
  add_all-Describes, cdb_make_start-Describes, length-bytes_of,
}
use sdb.CdbMake.Tables.{tables_bytes, starts_bytes, file_bytes, cdb_make_finish-file}
use sdb.Core.{Lookup}
use sdb.Ht.{Heap}
use sdb.Util.{sdb_hash}

-- The first value for a key in the order in which the records are added.
abbrev pub first_value : List ℕ → List Record → Option Lookup
first_value q [] = none
first_value q (r ∷ kvs) = or_else (answer_of q r) (first_value q kvs)

-- The same among records that stand the newest first.
abbrev oldest : List ℕ → List Record → Option Lookup
oldest q [] = none
oldest q (r ∷ rs) = or_else (oldest q rs) (answer_of q r)

or_else-nothing : (a : Option Lookup) → a ≡ or_else a none
or_else-nothing none = refl
or_else-nothing (some r) = refl

oldest-reverse_onto :
    (q : List ℕ) (rs kvs : List Record)
    → oldest q (reverse_onto rs kvs) ≡ or_else (oldest q rs) (first_value q kvs)
oldest-reverse_onto q rs [] = or_else-nothing (oldest q rs)
oldest-reverse_onto q rs (r ∷ kvs) =
    oldest-reverse_onto q (r ∷ rs) kvs
    ∙ or_else_assoc (oldest q rs) (answer_of q r) (first_value q kvs)

size-reverse_onto : (rs kvs : List Record) → size (reverse_onto rs kvs) ≡ size rs + size kvs
size-reverse_onto rs [] = omega arith
size-reverse_onto rs (r ∷ kvs) = omega (arith, size-reverse_onto (r ∷ rs) kvs)

length-reverse_onto : (rs kvs : List Record) → length (reverse_onto rs kvs) ≡ length rs + length kvs
length-reverse_onto rs [] = omega arith
length-reverse_onto rs (r ∷ kvs) = omega (arith, length-reverse_onto (r ∷ rs) kvs)

reverse_onto-IsStorable :
    (rs kvs : List Record)
    → All IsStorable rs
    → All IsStorable kvs
    → All IsStorable (reverse_onto rs kvs)
reverse_onto-IsStorable rs [] olds all = olds
reverse_onto-IsStorable rs (r ∷ kvs) olds (here, others) =
    reverse_onto-IsStorable (r ∷ rs) kvs (here, olds) others

module _ (map q : List ℕ) (small : length map < 2 ^ 32) where
  abbrev slot_answer : Hp → Option Lookup
  slot_answer e = check_slot map (sdb_hash q) (string_bytes q) e.h e.p

  check_slot-other :
      (h p : ℕ)
      → (h == sdb_hash q) ≡ false
      → check_slot map (sdb_hash q) (string_bytes q) h p ≡ none
  unfolding check_slot
  check_slot-other h p other = rw (check_slot, other) refl

  slot_answer-only : (e : Hp) (r : Lookup) → slot_answer e ≡ some r → e.h ≡ sdb_hash q
  slot_answer-only e r found = elim (Bool-cases (e.h == sdb_hash q)) [
    | inl same ↦ ground arith
    | inr other ↦
        absurd (let g : none ≡ some r = sym (check_slot-other e.h e.p other) ∙ found in cc g)
  ]

  slot_answer-record :
      (key value : List ℕ) (p : ℕ)
      → IsStorable (key, value)
      → At map p (record_bytes (key, value))
      → slot_answer (record { h = sdb_hash key; p = p }) ≡ answer_of q (key, value)
  slot_answer-record key value p storable at = elim (Bool-cases (sdb_hash key == sdb_hash q)) [
    | inl same ↦
        let s : sdb_hash key ≡ sdb_hash q = ground arith in
        rw s (check_slot-record map small p key value storable at q (sdb_hash q))
    | inr other ↦ check_slot-other (sdb_hash key) p other ∙ elim (Bool-cases (str_eq key q)) [
      | inl e ↦
          let same = ap sdb_hash ((str_eq_iff key q).0 e) in absurd (ground (arith, same, other))
      | inr e ↦ rw e refl
    ]
  ]

  -- The entries of the records answer as the records do.
  oldest_answer-oldest :
      (rs : List Record)
      → All IsStorable rs
      → At map 1024 (bytes_of rs)
      → oldest_answer slot_answer (entries_of rs) ≡ oldest q rs
  oldest_answer-oldest [] all at = refl
  oldest_answer-oldest ((key, value) ∷ rs) (here, others) at =
      let before = At-first map 1024 (bytes_of rs) (record_bytes (key, value)) at in
      let own =
        rw length-bytes_of at (At-second map 1024 (bytes_of rs) (record_bytes (key, value)) at) in
      rw
        (
          oldest_answer-oldest rs others before,
          slot_answer-record key value (1024 + size rs) here own,
        )
        refl

-- The search of a key in the file for the records.
cdb_findnext-file :
    (rs : List Record) (q : List ℕ)
    → All IsStorable rs
    → 1024 + size rs + 16 * length rs < 2 ^ 32
    → cdb_findnext true (file_bytes rs (table_of rs)) (sdb_hash q) q ≡ or_absent (oldest q rs)
cdb_findnext-file rs q storable fits =
    let table = table_of rs in
    let map = file_bytes rs table in
    let u = sdb_hash q in
    let starts = starts_bytes table (1024 + size rs) 0 256 in
    let tables = tables_bytes table 0 256 in
    let len1 : length starts ≡ 1024 = length-starts_bytes table (1024 + size rs) 0 256 in
    let len2 = length-all_tables rs in
    let all : length map ≡ 1024 + size rs + length tables = omega (
      arith,
      length-append starts (bytes_of rs ++ tables),
      length-append (bytes_of rs) tables,
      len1,
      length-bytes_of rs,
    ) in
    let small : length map < 2 ^ 32 = omega (arith, all, len2) in
    let whole : At map 0 (starts ++ (bytes_of rs ++ tables)) =
      ([], [], refl, sym (append-nil map)) in
    let at_starts = At-first map 0 starts (bytes_of rs ++ tables) whole in
    let behind = rw len1 at (At-second map 0 starts (bytes_of rs ++ tables) whole) in
    let at_records = At-first map 1024 (bytes_of rs) tables behind in
    let at_tables = rw length-bytes_of at (At-second map 1024 (bytes_of rs) tables behind) in
    let (tpos, placed) =
      file-IsPlaced map table (u % 256) 256 (1024 + size rs) (length map) (omega arith) at_starts
        at_tables (sym all) in
    let found =
      cdb_findnext-IsPlaced map small u tpos (table (u % 256)) placed q
        (table_of-IsSmall rs (u % 256) storable (omega arith)) in
    found
    ∙ ap or_absent (
        table_of-probe (slot_answer map q small) u (slot_answer-only map q small) rs
        ∙ oldest_answer-oldest map q small rs storable at_records)

abbrev pub build : ⦃device : Device⦄ → ⦃heap : Heap⦄ → List Record → Option (List ℕ)
build kvs = and_then cdb_make_start (λ c. and_then (add_all c kvs) cdb_make_finish)

module _ ⦃device : Device⦄ ⦃heap : Heap⦄ (grants : (n : ℕ) → heap.grants n ≡ true)
    (writes : (n : ℕ) → device.writes n ≡ true) (seeks : (n : ℕ) → device.seeks n ≡ true) where
  -- Writing a constant database ends with a file: starting it, adding records and finishing it
  -- all succeed. In that file the search of any key answers the value of the first record that
  -- was added under the key, with the zero behind it, and answers that there is none if no
  -- record has the key. The keys are strings of bytes of at most 254 characters and the values
  -- are shorter than 0xfffffe characters; the file is smaller than 2^32 bytes and has fewer
  -- than 536870911 / 3 records; every allocation is granted, and every write and seek is done.
  pub build-cdb_findnext :
      (kvs : List Record)
      → All IsStorable kvs
      → 1024 + size kvs + 16 * length kvs < 2 ^ 32
      → 3 * length kvs < 536870911
      → (file : List ℕ) × (build kvs ≡ some file)
        × ((q : List ℕ) → cdb_findnext true file (sdb_hash q) q ≡ or_absent (first_value q kvs))
  build-cdb_findnext kvs storable fits few =
      let (c0, run0, d0) = cdb_make_start-Describes (seeks 1024) in
      let (c, run, d) = add_all-Describes grants writes c0 [] kvs storable (omega arith) d0 in
      let rs = reverse_onto [] kvs in
      let sizes = size-reverse_onto [] kvs in
      let lengths = length-reverse_onto [] kvs in
      let finished =
        cdb_make_finish-file grants writes seeks c rs (table_of rs) d (λ i low. table_of-Fills rs i)
          (omega (arith, sizes, lengths, length-all_tables rs)) (omega (arith, lengths)) in
      (
        file_bytes rs (table_of rs),
        rw (run0, run) finished,
        λ q.
            cdb_findnext-file rs q (reverse_onto-IsStorable [] kvs tt storable)
              (omega (arith, sizes, lengths))
            ∙ ap or_absent (oldest-reverse_onto q [] kvs),
      )
