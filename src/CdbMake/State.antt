-- ===== src/CdbMake/State.antt =====
-- What the state of src/cdb_make.c says of the records that were added, and that adding keeps it so.
-- Records stand the newest first here.
use mathlib.Core.List.{append_assoc}
use sdb.Base.{
  ℕ, zero, suc, ◌+◌, ◌*◌, ◌/◌, ◌%◌, ◌^◌, ◌≤◌, ◌<◌, ◌≡◌, refl, ap, ◌∙◌, true, false, ◌&&◌, List, [],
  ◌∷◌, ◌++◌, Option, some, and_then, ltb, leb, ◌==◌, if◌then◌else◌, length, get_or, set, replicate,
  All, IsByte, length-append, length-set, length-replicate, get_or-replicate, get_or-set_self,
  get_or-set_ne, arith, Bool-cases, inl, inr,
}
use sdb.Buffer.{Device, Buffer, buffer_initialize}
use sdb.Buffer.Stream.{stream, IsSound, buffer_putalign-stream}
use sdb.Cdb.{add32, kvlsz}
use sdb.CdbMake.{
  Hp, CdbMake, seek_set, cdb_make_start, incpos, cdb_make_addend, pack_kvlen, cdb_make_addbegin,
  cdb_make_add,
}
use sdb.CdbMake.Scatter.{count_in, sum, prefix-sum}
use sdb.Ht.{Heap}
use sdb.Util.{sdb_hash}

abbrev pub Record : Type 0
Record = List ℕ × List ℕ

-- The bytes of the lengths, each with the zero that follows.
abbrev pub lens_bytes : ℕ → ℕ → List ℕ
lens_bytes klen vlen = klen % 256 ∷ (vlen % 256 ∷ (vlen / 2 ^ 8 % 256 ∷ (vlen / 2 ^ 16 % 256 ∷ [])))

abbrev pub string_bytes : List ℕ → List ℕ
string_bytes s = s ++ 0 ∷ []

abbrev pub record_bytes : Record → List ℕ
record_bytes (key, value) =
    lens_bytes (length key + 1) (length value + 1) ++ (string_bytes key ++ string_bytes value)

abbrev pub record_size : Record → ℕ
record_size (key, value) = 4 + (length key + 1) + (length value + 1)

-- The lengths fit into their bytes, and the key is a list of bytes.
abbrev pub IsStorable : Record → Type 0
IsStorable (key, value) = (length key < 255) × (length value + 1 < 0xffffff) × All IsByte key

abbrev pub size : List Record → ℕ
size [] = 0
size (r ∷ rs) = record_size r + size rs

-- The records of the second list in front of those of the first, its last one first.
abbrev pub reverse_onto : List Record → List Record → List Record
reverse_onto rs [] = rs
reverse_onto rs (r ∷ kvs) = reverse_onto (r ∷ rs) kvs

abbrev pub bytes_of : List Record → List ℕ
bytes_of [] = []
bytes_of (r ∷ rs) = bytes_of rs ++ record_bytes r

abbrev pub entries_of : List Record → List Hp
entries_of [] = []
entries_of (r ∷ rs) = record { h = sdb_hash r.0; p = 1024 + size rs } ∷ entries_of rs

pub record Describes (c : CdbMake) (rs : List Record) : Type 0 where
  pub entries : c.entries ≡ entries_of rs
  pub position : c.pos ≡ 1024 + size rs
  pub written : stream c.b ≡ bytes_of rs
  pub sound : IsSound c.b
  pub tables : length c.count ≡ 256
  pub counts : (j : ℕ) → j < 256 → get_or c.count j 0 ≡ count_in j (entries_of rs)
  pub total : sum c.count ≡ length rs
  pub number : c.numentries ≡ length rs
  pub memory : c.memsize ≤ length rs * 2 + 1
  pub slots : (j : ℕ) → j < 256 → get_or c.count j 0 * 2 ≤ c.memsize

pub length-record_bytes : (r : Record) → length (record_bytes r) ≡ record_size r
length-record_bytes (key, value) = omega (
  arith,
  length-append (string_bytes key) (string_bytes value),
  length-append key (0 ∷ []),
  length-append value (0 ∷ []),
)

pub length-bytes_of : (rs : List Record) → length (bytes_of rs) ≡ size rs
length-bytes_of [] = refl
length-bytes_of (r ∷ rs) =
    omega (
      arith,
      length-append (bytes_of rs) (record_bytes r),
      length-record_bytes r,
      length-bytes_of rs,
    )

pub size-length : (rs : List Record) → 6 * length rs ≤ size rs
size-length [] = omega arith
size-length (r ∷ rs) = omega (arith, size-length rs)

sum-set : (ns : List ℕ) (i : ℕ) → i < length ns → sum (set ns i (get_or ns i 0 + 1)) ≡ sum ns + 1
sum-set [] i h = absurd (omega arith)
sum-set (n ∷ ns) zero h = omega arith
sum-set (n ∷ ns) (suc i) h = omega (arith, sum-set ns i (omega arith))

counts-set :
    (count : List ℕ) (e : Hp) (es : List Hp)
    → e.h % 256 < length count
    → (j : ℕ) → get_or count j 0 ≡ count_in j es
    → get_or (set count (e.h % 256) (get_or count (e.h % 256) 0 + 1)) j 0 ≡ count_in j (e ∷ es)
counts-set count e es h j now =
    let i = e.h % 256 in
    let n = get_or count i 0 + 1 in
    elim (Bool-cases (i == j)) [
      | inl same ↦
          let s : j ≡ i = ground arith in
          let v : get_or count j 0 ≡ get_or count i 0 = ap (λ k. get_or count k 0) s in
          let g : get_or (set count i n) j 0 ≡ n = rw s (get_or-set_self count i n 0 h) in
          rw same (omega (arith, g, v, now))
      | inr other ↦
          rw other (get_or-set_ne count i j n 0 (λ s. absurd (ground arith)) ∙ omega (arith, now))
    ]

-- The room is raised with the count of a table.
slots-set :
    (c : CdbMake) (i j : ℕ)
    → i < length c.count
    → (get_or c.count i 0 + 1) * 2 < 2 ^ 32
    → get_or c.count j 0 * 2 ≤ c.memsize
    → get_or (set c.count i (get_or c.count i 0 + 1)) j 0 * 2
      ≤ (let u = (get_or c.count i 0 + 1) * 2 % 2 ^ 32 in if ltb c.memsize u then u else c.memsize)
slots-set c i j inside few now =
    let n = get_or c.count i 0 + 1 in
    elim (Bool-cases (i == j)) [
      | inl same ↦
          let s : j ≡ i = ground arith in
          rw (s, get_or-set_self c.count i n 0 inside) (ground arith)
      | inr other ↦ rw (get_or-set_ne c.count i j n 0 (λ s. absurd (ground arith))) (ground arith)
    ]

sum-zeros : (n : ℕ) → sum (replicate n 0) ≡ 0
sum-zeros zero = refl
sum-zeros (suc n) = omega (arith, sum-zeros n)

abbrev fresh : CdbMake
fresh = record {
  count = replicate 256 0;
  entries = [];
  numentries = 0;
  memsize = 1;
  b = buffer_initialize 8192;
  pos = 1024;
}

-- A state that was begun describes no records.
pub cdb_make_start-Describes :
    ⦃device : Device⦄
    → device.seeks 1024 ≡ true
    → (c : CdbMake) × (cdb_make_start ≡ some c) × Describes c []
unfolding cdb_make_start seek_set
cdb_make_start-Describes seeks = (
  fresh,
  rw seeks refl,
  record {
    entries = refl;
    position = refl;
    written = refl;
    sound = (omega arith, omega arith);
    tables = length-replicate {A = ℕ} 256 0;
    counts = λ j h. get_or-replicate {A = ℕ} 256 j 0;
    total = sum-zeros 256;
    number = refl;
    memory = omega arith;
    slots = λ j h. rw (get_or-replicate {A = ℕ} 256 j 0) (omega arith);
  },
)

-- The state behind `cdb_make_addend`.
abbrev ended : CdbMake → ℕ → ℕ → ℕ → CdbMake
ended c n u h = record c {
  count = set c.count (h % 256) (get_or c.count (h % 256) 0 + 1);
  entries = record { h = h; p = c.pos } ∷ c.entries;
  numentries = c.numentries + 1;
  memsize = if ltb c.memsize u then u else c.memsize;
  pos = c.pos + n;
}

-- The records of a list are added in its order.
unfoldable pub add_all : ⦃device : Device⦄ → ⦃heap : Heap⦄ → CdbMake → List Record → Option CdbMake
add_all c [] = some c
add_all c (r ∷ rs) = and_then (cdb_make_add c r.0 r.1) (λ c'. add_all c' rs)

module _ ⦃device : Device⦄ ⦃heap : Heap⦄ (grants : (n : ℕ) → heap.grants n ≡ true)
    (writes : (n : ℕ) → device.writes n ≡ true) where
  cdb_make_addend-some :
      (c : CdbMake) (keylen datalen h : ℕ)
      → get_or c.count (h % 256) 0 + 1 < 2 ^ 32
      → c.numentries + 1 < 2 ^ 32
      → c.pos + (kvlsz + keylen + datalen) < 2 ^ 32
      → (h % 256 < length c.count)
      → cdb_make_addend c keylen datalen h
        ≡ some
            (ended c (kvlsz + keylen + datalen) ((get_or c.count (h % 256) 0 + 1) * 2 % 2 ^ 32) h)
  unfolding cdb_make_addend incpos
  cdb_make_addend-some c keylen datalen h few fewer fits inside =
      let e1 : add32 (get_or c.count (h % 256) 0) 1 ≡ get_or c.count (h % 256) 0 + 1 =
        omega arith in
      let e2 : add32 c.numentries 1 ≡ c.numentries + 1 = omega arith in
      let e3 : add32 c.pos (kvlsz + keylen + datalen) ≡ c.pos + (kvlsz + keylen + datalen) =
        omega arith in
      let e4 : ltb (c.pos + (kvlsz + keylen + datalen)) (kvlsz + keylen + datalen) ≡ false =
        ground arith in
      let e0 : (c.numentries % 1000 == 0 && (if heap.grants 8016 then false else true)) ≡ false =
        ground (arith, grants 8016) in
      let e5 = get_or-set_self c.count (h % 256) (get_or c.count (h % 256) 0 + 1) 0 inside in
      simp (e0, e1, e2, e3, e4, e5)

  cdb_make_add-addend :
      (c : CdbMake) (key value : List ℕ)
      → IsStorable (key, value)
      → IsSound c.b
      → (b : Buffer) × (stream b ≡ stream c.b ++ record_bytes (key, value))
        × IsSound b
        × (cdb_make_add c key value
            ≡ cdb_make_addend
                (record c { b = b })
                (length key + 1)
                (length value + 1)
                (sdb_hash key))
  unfolding cdb_make_add cdb_make_addbegin pack_kvlen
  cdb_make_add-addend c key value (small, short, bytes) sound =
      let (b1, run1, sound1, n1, all1) =
        buffer_putalign-stream writes c.b (lens_bytes (length key + 1) (length value + 1)) sound in
      let (b2, run2, sound2, n2, all2) =
        buffer_putalign-stream writes b1 (string_bytes key) sound1 in
      let (b3, run3, sound3, n3, all3) =
        buffer_putalign-stream writes b2 (string_bytes value) sound2 in
      let klen : ltb 255 (length key + 1) ≡ false = ground arith in
      let vlen : leb 0xffffff (length value + 1) ≡ false = ground arith in
      (b3, all3 ∙ simp (all2, all1, append_assoc), sound3, simp (klen, vlen, run1, run2, run3))

  -- Adding a record to a state that describes records succeeds, and the state then describes
  -- the new record too: what was written, the position, the list of hashes and positions, the
  -- counts of each table and their sum, and the room that finishing needs, which is two slots
  -- for each entry of any one table and at most one more than two for all entries. The key is a
  -- string of bytes of at most 254 characters and the value is shorter than 0xfffffe, the
  -- records end below 2^32, every allocation is granted and every write is done.
  pub cdb_make_add-Describes :
      (c : CdbMake) (rs : List Record) (key value : List ℕ)
      → IsStorable (key, value)
      → 1024 + size ((key, value) ∷ rs) < 2 ^ 32
      → Describes c rs
      → (c' : CdbMake) × (cdb_make_add c key value ≡ some c') × Describes c' ((key, value) ∷ rs)
  cdb_make_add-Describes c rs key value storable fits d =
      let h = sdb_hash key in
      let i = h % 256 in
      let (b, all, sound, run) = cdb_make_add-addend c key value storable d.sound in
      let c1 : CdbMake = record c { b = b } in
      let inside : i < length c.count = omega (arith, d.tables) in
      let few : get_or c.count i 0 ≤ length rs = omega (arith, prefix-sum c.count i, d.total) in
      let n = kvlsz + (length key + 1) + (length value + 1) in
      let u = (get_or c.count i 0 + 1) * 2 % 2 ^ 32 in
      let step =
        cdb_make_addend-some c1 (length key + 1) (length value + 1) h
          (omega (arith, few, size-length rs)) (omega (arith, d.number, size-length rs))
          (omega (arith, d.position)) inside in
      (
        ended c1 n u h,
        run ∙ step,
        record {
          entries = simp (d.position, d.entries);
          position = omega (arith, d.position);
          written = all ∙ ap (λ (t : List ℕ). t ++ record_bytes (key, value)) d.written;
          sound = sound;
          tables = length-set c.count i (get_or c.count i 0 + 1) ∙ d.tables;
          counts = λ j low.
              counts-set c.count (record { h = h; p = 1024 + size rs }) (entries_of rs) inside j
                (d.counts j low);
          total = omega (arith, sum-set c.count i inside, d.total);
          number = omega (arith, d.number);
          memory = ground (arith, d.memory, few);
          slots =
              λ j low. slots-set c i j inside (omega (arith, few, size-length rs)) (d.slots j low);
        },
      )

  pub add_all-Describes :
      (c : CdbMake) (rs kvs : List Record)
      → All IsStorable kvs
      → 1024 + size rs + size kvs < 2 ^ 32
      → Describes c rs
      → (c' : CdbMake) × (add_all c kvs ≡ some c') × Describes c' (reverse_onto rs kvs)
  unfolding add_all
  add_all-Describes c rs [] storable fits d = (c, refl, d)
  add_all-Describes c rs ((key, value) ∷ kvs) (first, others) fits d =
      let (c1, run1, d1) = cdb_make_add-Describes c rs key value first (omega arith) d in
      let (c2, run2, d2) = add_all-Describes c1 ((key, value) ∷ rs) kvs others (omega arith) d1 in
      (c2, rw run1 run2, d2)
