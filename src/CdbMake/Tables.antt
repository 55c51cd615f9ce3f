-- ===== src/CdbMake/Tables.antt =====
-- The bytes that `cdb_make_finish` of src/cdb_make.c writes.
use mathlib.Core.List.{append_assoc, append-nil}
use sdb.Base.{
  ℕ, zero, suc, ◌+◌, ◌-◌, ◌*◌, ◌^◌, ◌≤◌, ◌<◌, ◌≡◌, refl, sym, ◌∙◌, true, false, ◌||◌, List, [], ◌∷◌,
  ◌++◌, some, ltb, if◌then◌else◌, length, get_or, take, drop, replicate, length-append, arith,
}
use sdb.Buffer.{Device, Buffer, buffer_putflush}
use sdb.Buffer.Stream.{stream, IsSound, allwrite-some, buffer_flush-stream, buffer_putalign-stream}
use sdb.Cdb.{add32}
use sdb.CdbMake.{
  Hp, CdbMake, ut32_pack, seek_set, incpos, empty_hp, running, scatter, fill, put_slots, put_tables,
  cdb_make_finish,
}
use sdb.CdbMake.Scatter.{pick, count_in, scatter-pick}
use sdb.CdbMake.State.{Record, Describes, entries_of, bytes_of, size}
use sdb.Ht.{Heap}

-- The bytes of a slot, and of a table.
abbrev pub slot_bytes : Hp → List ℕ
slot_bytes hp = ut32_pack hp.h ++ ut32_pack hp.p

abbrev pub table_bytes : List Hp → List ℕ
table_bytes [] = []
table_bytes (hp ∷ hash) = slot_bytes hp ++ table_bytes hash

pub length-table_bytes : (hash : List Hp) → length (table_bytes hash) ≡ length hash * 8
unfolding ut32_pack
length-table_bytes [] = refl
length-table_bytes (hp ∷ hash) =
    omega (arith, length-append (slot_bytes hp) (table_bytes hash), length-table_bytes hash)

-- The bytes of so many tables from one on, and where each of them begins.
unfoldable pub tables_bytes : (ℕ → List Hp) → ℕ → ℕ → List ℕ
tables_bytes table i zero = []
tables_bytes table i (suc left) = table_bytes (table i) ++ tables_bytes table (i + 1) left

unfoldable pub starts_bytes : (ℕ → List Hp) → ℕ → ℕ → ℕ → List ℕ
starts_bytes table pos i zero = []
starts_bytes table pos i (suc left) =
    ut32_pack pos ++ starts_bytes table (pos + length (table i) * 8) (i + 1) left

module _ ⦃device : Device⦄ (writes : (n : ℕ) → device.writes n ≡ true) where
  put_slots-stream :
      (hash : List Hp) (b : Buffer) (pos : ℕ)
      → IsSound b
      → pos + length hash * 8 < 2 ^ 32
      → (b' : Buffer) × (put_slots hash b pos ≡ some (b', pos + length hash * 8))
        × IsSound b'
        × (stream b' ≡ stream b ++ table_bytes hash)
  unfolding put_slots incpos
  put_slots-stream [] b pos sound fits =
      let e : pos + 0 * 8 ≡ pos = omega arith in (b, rw e refl, sound, sym (append-nil (stream b)))
  put_slots-stream (hp ∷ hash) b pos sound fits =
      let (b1, run1, sound1, n1, all1) = buffer_putalign-stream writes b (slot_bytes hp) sound in
      let (b2, run2, sound2, all2) = put_slots-stream hash b1 (pos + 8) sound1 (omega arith) in
      let e1 : add32 pos 8 ≡ pos + 8 = omega arith in
      let e2 : ltb (pos + 8) 8 ≡ false = ground arith in
      let e3 : pos + 8 + length hash * 8 ≡ pos + length (hp ∷ hash) * 8 = omega arith in
      (b2, simp (run1, e1, e2, run2, e3), sound2, all2 ∙ simp (all1, append_assoc))

  module _ (room : ℕ) (count start : List ℕ) (split : List Hp) (table : ℕ → List Hp)
      (filled : (i : ℕ)
        → i < 256
        → fill
            (take (get_or count i 0) (drop (get_or start i 0) split))
            (replicate (get_or count i 0 * 2) empty_hp)
          ≡ some (table i))
      (large : (i : ℕ) → i < 256 → get_or count i 0 * 2 ≤ room) where
    put_tables-stream :
        (left i : ℕ) (final : List ℕ) (b : Buffer) (pos : ℕ)
        → i + left ≤ 256
        → IsSound b
        → pos + length (tables_bytes table i left) < 2 ^ 32
        → (b' : Buffer) × (put_tables room left i count start split final b pos
            ≡ some (final ++ starts_bytes table pos i left, b'))
          × IsSound b'
          × (stream b' ≡ stream b ++ tables_bytes table i left)
    unfolding put_tables tables_bytes starts_bytes
    put_tables-stream zero i final b pos low sound fits =
        (b, rw (append-nil final) refl, sound, sym (append-nil (stream b)))
    put_tables-stream (suc left) i final b pos low sound fits =
        let has_room : ltb room (get_or count i 0 * 2) ≡ false =
          ground (arith, large i (omega arith)) in
        let len = length-table_bytes (table i) in
        let both = length-append (table_bytes (table i)) (tables_bytes table (i + 1) left) in
        let (b1, run1, sound1, all1) =
          put_slots-stream (table i) b pos sound (omega (arith, len, both)) in
        let (b2, run2, sound2, all2) =
          put_tables-stream left (i + 1) (final ++ ut32_pack pos) b1 (pos + length (table i) * 8)
            (omega arith) sound1 (omega (arith, len, both)) in
        (
          b2,
          simp (has_room, filled i (omega arith), run1, run2, append_assoc),
          sound2,
          all2 ∙ simp (all1, append_assoc),
        )

-- A table for each entry list: what filling it gives.
abbrev pub Fills : List Record → (ℕ → List Hp) → Type 0
Fills rs table =
    (i : ℕ)
    → i < 256
    → fill (pick i [] (entries_of rs)) (replicate (count_in i (entries_of rs) * 2) empty_hp)
      ≡ some (table i)

-- The file for the records and the tables.
abbrev pub file_bytes : List Record → (ℕ → List Hp) → List ℕ
file_bytes rs table =
    starts_bytes table (1024 + size rs) 0 256 ++ (bytes_of rs ++ tables_bytes table 0 256)

module _ ⦃device : Device⦄ ⦃heap : Heap⦄ (grants : (n : ℕ) → heap.grants n ≡ true)
    (writes : (n : ℕ) → device.writes n ≡ true) (seeks : (n : ℕ) → device.seeks n ≡ true) where
  -- The rest of `cdb_make_finish`, once the tables are in the buffer.
  finish-file :
      (c : CdbMake) (final : List ℕ) (b : Buffer)
      → c.memsize + c.numentries ≤ 536870911
      → (let s = scatter c.entries (running 0 c.count) (replicate c.numentries empty_hp) in
          put_tables c.memsize 256 0 c.count s.0 s.1 [] c.b c.pos ≡ some (final, b))
      → cdb_make_finish c ≡ some (final ++ stream b)
  unfolding cdb_make_finish seek_set buffer_putflush
  finish-file c final b memory put =
      let e1 : add32 c.memsize c.numentries ≡ c.memsize + c.numentries = omega arith in
      let e2 : (ltb 536870911 (c.memsize + c.numentries)
            || (if heap.grants ((c.memsize + c.numentries) * 8) then false else true))
          ≡ false =
        ground (arith, grants ((c.memsize + c.numentries) * 8)) in
      let e3 : c.memsize + c.numentries - c.numentries ≡ c.memsize = omega arith in
      simp (e1, e2, e3, put, buffer_flush-stream writes, seeks 0, allwrite-some writes)

  pub cdb_make_finish-file :
      (c : CdbMake) (rs : List Record) (table : ℕ → List Hp)
      → Describes c rs
      → Fills rs table
      → 1024 + size rs + length (tables_bytes table 0 256) < 2 ^ 32
      → 3 * length rs < 536870911
      → cdb_make_finish c ≡ some (file_bytes rs table)
  cdb_make_finish-file c rs table d fills fits few =
      let s = scatter c.entries (running 0 c.count) (replicate c.numentries empty_hp) in
      let filled : (i : ℕ)
          → i < 256
          → fill (take (get_or c.count i 0) (drop (get_or s.0 i 0) s.1))
              (replicate (get_or c.count i 0 * 2) empty_hp)
            ≡ some (table i) =
        λ i low.
          rw
            (
              scatter-pick c.entries c.count c.numentries i low d.tables
                  (λ j lo. rw d.entries (d.counts j lo)) (d.total ∙ sym d.number)
                  (omega (arith, d.number)),
              d.entries,
              d.counts i low,
            )
            (fills i low) in
      let (b, run, sound, all) =
        put_tables-stream writes c.memsize c.count s.0 s.1 table filled d.slots 256 0 [] c.b c.pos
          (omega arith) d.sound (omega (arith, d.position)) in
      finish-file c (starts_bytes table c.pos 0 256) b (omega (arith, d.memory, d.number)) run
      ∙ rw (d.position, all, d.written) refl
