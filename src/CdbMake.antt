-- ===== src/CdbMake.antt =====
-- src/cdb_make.c: writing a constant database. The state is used only while each call succeeds.
-- The lists of 1000 entries each are one list, the newest first.
pub mod Slots
pub mod Scatter
pub mod State
pub mod Tables
pub mod Layout
pub mod Records
pub mod Filled
pub mod Search
pub mod RoundTrip
use sdb.Base.{
  ℕ, zero, suc, ◌+◌, ◌-◌, ◌*◌, ◌/◌, ◌%◌, ◌^◌, Bool, true, false, ◌&&◌, ◌||◌, List, [], ◌∷◌, ◌++◌,
  Option, none, some, and_then, ltb, leb, ◌==◌, if◌then◌else◌, length, get_or, set, take, drop,
  replicate,
}
use sdb.Buffer.{Device, Buffer, buffer_initialize, buffer_flush, buffer_putalign, buffer_putflush}
use sdb.Cdb.{add32, kvlsz}
use sdb.Ht.{Heap}
use sdb.Util.{sdb_hash}

-- `struct cdb_hp`
pub record Hp : Type 0 where
  pub h : ℕ
  pub p : ℕ

-- What `finish` alone uses of `struct cdb_make` is local to it.
pub record CdbMake : Type 0 where
  pub count : List ℕ
  pub entries : List Hp
  pub numentries : ℕ
  pub memsize : ℕ
  pub b : Buffer
  pub pos : ℕ

-- `CDB_HPLIST`
abbrev hplist_size : ℕ
hplist_size = 1000

-- `sizeof (struct cdb_hplist)`
abbrev hplist_bytes : ℕ
hplist_bytes = 8016

-- `SDB_MAX_KEY` and `SDB_MAX_VALUE`
abbrev pub sdb_max_key : ℕ
sdb_max_key = 0xff

abbrev pub sdb_max_value : ℕ
sdb_max_value = 0xffffff

unfoldable pub ut32_pack : ℕ → List ℕ
ut32_pack u = u % 256 ∷ (u / 256 % 256 ∷ (u / 256 / 256 % 256 ∷ (u / 256 / 256 / 256 % 256 ∷ [])))

unfoldable pub seek_set : ⦃device : Device⦄ → ℕ → Bool
seek_set ⦃device⦄ pos = device.seeks pos

unfoldable pub cdb_make_start : ⦃device : Device⦄ → Option CdbMake
cdb_make_start =
    if seek_set 1024
    then some (record {
      count = replicate 256 0;
      entries = [];
      numentries = 0;
      memsize = 1;
      b = buffer_initialize 8192;
      pos = 1024;
    })
    else none

-- The new position.
unfoldable pub incpos : ℕ → ℕ → Option ℕ
incpos pos len = if ltb (add32 pos len) len then none else some (add32 pos len)

-- `keylen` and `datalen` count the zeros behind the key and the data.
unfoldable pub cdb_make_addend : ⦃heap : Heap⦄ → CdbMake → ℕ → ℕ → ℕ → Option CdbMake
cdb_make_addend ⦃heap⦄ c keylen datalen h =
    if c.numentries % hplist_size == 0 && (if heap.grants hplist_bytes then false else true)
    then none
    else (let count = set c.count (h % 256) (add32 (get_or c.count (h % 256) 0) 1) in
        let u = get_or count (h % 256) 0 * 2 % 2 ^ 32 in
        and_then (incpos c.pos (kvlsz + keylen + datalen)) (λ pos. some (record c {
          count = count;
          entries = record { h = h; p = c.pos } ∷ c.entries;
          numentries = add32 c.numentries 1;
          memsize = if ltb c.memsize u then u else c.memsize;
          pos = pos;
        })))

unfoldable pub pack_kvlen : ℕ → ℕ → Option (List ℕ)
pack_kvlen klen vlen =
    if ltb sdb_max_key klen || leb sdb_max_value vlen
    then none
    else some (klen % 256 ∷ (vlen % 256 ∷ (vlen / 2 ^ 8 % 256 ∷ (vlen / 2 ^ 16 % 256 ∷ []))))

unfoldable pub cdb_make_addbegin : ⦃device : Device⦄ → CdbMake → ℕ → ℕ → Option CdbMake
cdb_make_addbegin c keylen datalen =
    and_then (pack_kvlen keylen datalen)
      (λ buf. and_then (buffer_putalign c.b buf) (λ b. some (record c { b = b })))

-- The key and the data are strings, which are written with their zeros.
unfoldable pub cdb_make_add :
    ⦃device : Device⦄ → ⦃heap : Heap⦄ → CdbMake → List ℕ → List ℕ → Option CdbMake
cdb_make_add c key data_bytes =
    let keylen = length key + 1 in
    let datalen = length data_bytes + 1 in
    and_then (cdb_make_addbegin c keylen datalen) (λ c1.
      and_then (buffer_putalign c1.b (key ++ 0 ∷ [])) (λ b2.
        and_then (buffer_putalign b2 (data_bytes ++ 0 ∷ []))
          (λ b3. cdb_make_addend (record c1 { b = b3 }) keylen datalen (sdb_hash key))))

-- The sums of the counts: where the entries of each table end in `split`.
unfoldable pub running : ℕ → List ℕ → List ℕ
running u [] = []
running u (n ∷ ns) = add32 u n ∷ running (add32 u n) ns

-- Each entry goes before those that its table has in `split`.
unfoldable pub scatter : List Hp → List ℕ → List Hp → List ℕ × List Hp
scatter [] start split = (start, split)
scatter (x ∷ entries) start split =
    let at = get_or start (x.h % 256) 0 - 1 in
    scatter entries (set start (x.h % 256) at) (set split at x)

abbrev pub empty_hp : Hp
empty_hp = record { h = 0; p = 0 }

-- The first slot that is free, from `where` on, at the end again from the start.
unfoldable pub first_free : ℕ → ℕ → List Hp → Option ℕ
first_free zero slot hash = none
first_free (suc fuel) slot hash =
    let next = if slot + 1 == length hash then 0 else slot + 1 in
    let rest = first_free fuel next hash in
    if (get_or hash slot empty_hp).p == 0 then some slot else rest

-- The entries of a table in its slots.
unfoldable pub fill : List Hp → List Hp → Option (List Hp)
fill [] hash = some hash
fill (hp ∷ hps) hash =
    and_then (first_free (length hash) (hp.h / 2 ^ 8 % length hash) hash)
      (λ slot. fill hps (set hash slot hp))

-- The slots of a table are put into the buffer.
unfoldable pub put_slots : ⦃device : Device⦄ → List Hp → Buffer → ℕ → Option (Buffer × ℕ)
put_slots [] b pos = some (b, pos)
put_slots (slot ∷ hash) b pos =
    and_then (buffer_putalign b (ut32_pack slot.h ++ ut32_pack slot.p))
      (λ b'. and_then (incpos pos 8) (λ pos'. put_slots hash b' pos'))

-- The tables from `i` on, `left` in number. `final` has where each of them begins. The memory has
-- `room` slots; a table that is larger is written outside it, and nothing is said of it.
unfoldable pub put_tables :
    ⦃device : Device⦄
    → ℕ
    → ℕ
    → ℕ
    → List ℕ
    → List ℕ
    → List Hp
    → List ℕ
    → Buffer
    → ℕ
    → Option (List ℕ × Buffer)
put_tables room zero i count start split final b pos = some (final, b)
put_tables room (suc left) i count start split final b pos =
    let n = get_or count i 0 in
    let hps = take n (drop (get_or start i 0) split) in
    if ltb room (n * 2)
    then none
    else and_then (fill hps (replicate (n * 2) empty_hp)) (λ hash.
      and_then (put_slots hash b pos) (λ put.
        put_tables room left (i + 1) count start split (final ++ ut32_pack pos) put.0 put.1))

-- The file. What `split` holds at first does not matter; the slots are behind its entries.
unfoldable pub cdb_make_finish : ⦃device : Device⦄ → ⦃heap : Heap⦄ → CdbMake → Option (List ℕ)
cdb_make_finish ⦃device⦄ ⦃heap⦄ c =
    let memsize = add32 c.memsize c.numentries in
    if ltb ((2 ^ 32 - 1) / 8) memsize || (if heap.grants (memsize * 8) then false else true)
    then none
    else (let sorted = scatter c.entries (running 0 c.count) (replicate c.numentries empty_hp) in
        and_then (put_tables (memsize - c.numentries) 256 0 c.count sorted.0 sorted.1 [] c.b c.pos)
          (λ put. and_then (buffer_flush put.1) (λ flushed.
            if seek_set 0
            then and_then (buffer_putflush (record flushed { file = [] }) put.0)
                (λ first. some (first.file ++ flushed.file))
            else none)))
