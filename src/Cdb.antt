-- ===== src/Cdb.antt =====
-- src/cdb.c: the search of a key in the bytes of a constant database. The file is mapped; the
-- search begins anew, as behind `cdb_findstart`.
pub mod Bytes
use sdb.Base.{
  ℕ, zero, suc, ◌+◌, ◌-◌, ◌*◌, ◌/◌, ◌%◌, ◌^◌, Bool, true, false, not, ◌&&◌, ◌||◌, List, [], ◌∷◌,
  ◌++◌, Option, none, some, and_then, ltb, leb, ◌==◌, if◌then◌else◌, length, get_or, take, drop,
  str_eq,
}
use sdb.Core.{Lookup, failed, absent, present}

-- A sum of two positions, which are `ut32`.
abbrev pub add32 : ℕ → ℕ → ℕ
add32 a b = (a + b) % 2 ^ 32

unfoldable pub ut32_unpack : List ℕ → ℕ
ut32_unpack s =
    ((get_or s 3 0 * 2 ^ 8 + get_or s 2 0) * 2 ^ 8 + get_or s 1 0) * 2 ^ 8 + get_or s 0 0

-- `KVLSZ` and `CDB_MAX_VALUE`
abbrev pub kvlsz : ℕ
kvlsz = 4

abbrev pub cdb_max_value : ℕ
cdb_max_value = 0xffffff

-- So many bytes from a position of the map.
unfoldable pub cdb_read : List ℕ → ℕ → ℕ → Option (List ℕ)
cdb_read map len pos =
    if ltb (length map) pos || ltb (length map - pos) len
    then none
    else some (take len (drop pos map))

-- The lengths of a key and of its data, each with the zero behind it.
unfoldable pub cdb_getkvlen : List ℕ → ℕ → Option (ℕ × ℕ)
cdb_getkvlen map pos = and_then (cdb_read map 4 pos) (λ buf.
    let vlen = get_or buf 1 0 + get_or buf 2 0 * 2 ^ 8 + get_or buf 3 0 * 2 ^ 16 in
    if ltb cdb_max_value vlen then none else some (get_or buf 0 0, vlen))

pub data Comparison : Type 0 where
  unread differs agrees : Comparison

-- `match`, in runs of 32 bytes. The fuel is the length of the key.
unfoldable pub compare_key : ℕ → List ℕ → List ℕ → ℕ → Comparison
compare_key zero map key pos = agrees
compare_key (suc fuel) map key pos =
    let n = if ltb (length key) 32 then length key else 32 in
    let rest = compare_key fuel map (drop n key) (add32 pos n) in
    if length key == 0 then agrees else elim (cdb_read map n pos) [
      | none ↦ unread
      | some buf ↦ if str_eq buf (take n key) then rest else differs
    ]

-- The record that a slot points at: its data, an end of the search, or nothing.
unfoldable pub check_slot : List ℕ → ℕ → List ℕ → ℕ → ℕ → Option Lookup
check_slot map khash key u pos =
    if u == khash
    then elim (cdb_getkvlen map pos) [
      | none ↦ some failed
      | some lens ↦
          if lens.0 == 0
          then some failed
          else (if lens.0 == length key
              then elim (compare_key (length key) map key (add32 pos kvlsz)) [
                | unread ↦ some absent
                | agrees ↦
                    some (present (take lens.1 (drop (add32 (add32 pos kvlsz) (length key)) map)))
                | differs ↦ none
              ]
              else none)
    ]
    else none

-- The slots that are left to search, from `kpos` on.
unfoldable pub slot_loop : ℕ → List ℕ → ℕ → List ℕ → ℕ → ℕ → ℕ → Lookup
slot_loop zero map khash key hpos hslots kpos = absent
slot_loop (suc loop) map khash key hpos hslots kpos =
    let next = if add32 kpos 8 == add32 hpos (hslots * 8) then hpos else add32 kpos 8 in
    let rest = slot_loop loop map khash key hpos hslots next in
    elim (cdb_read map 8 kpos) [
      | none ↦ absent
      | some buf ↦
          let pos = ut32_unpack (drop 4 buf) in
          if pos == 0 then absent else elim (check_slot map khash key (ut32_unpack buf) pos) [
            | none ↦ rest
            | some found ↦ found
          ]
    ]

-- The start and the end of the table of slots for a hash.
unfoldable pub table_bounds : List ℕ → ℕ → Option (ℕ × ℕ)
table_bounds map u =
    if (u + 1) % 256 == 0
    then and_then (cdb_read map 4 (u * 4 % 1024)) (λ buf. some (ut32_unpack buf, length map))
    else and_then (cdb_read map 8 (u * 4 % 1024))
        (λ buf. some (ut32_unpack buf, ut32_unpack (drop 4 buf)))

-- The key is a string: it is compared with the zero that ends it.
unfoldable pub cdb_findnext : Bool → List ℕ → ℕ → List ℕ → Lookup
cdb_findnext opened map u key = if not opened then failed else elim (table_bounds map u) [
  | none ↦ failed
  | some (hpos, pos) ↦
      if ltb pos hpos
      then failed
      else (let hslots = (pos - hpos) / 8 in
          if hslots == 0
          then absent
          else slot_loop hslots map u (key ++ 0 ∷ []) hpos hslots
              (add32 hpos (u / 2 ^ 8 % hslots * 8)))
]
