-- ===== src/CdbMake/Layout.antt =====
-- Where src/cdb.c finds the tables and the slots that src/cdb_make.c wrote.
use mathlib.Core.List.{append_assoc}
use sdb.Base.{
  ℕ, zero, suc, ◌+◌, ◌-◌, ◌*◌, ◌^◌, ◌<◌, ◌≡◌, refl, ◌∙◌, List, [], ◌∷◌, ◌++◌, Option, none, some,
  ◌==◌, if◌then◌else◌, length, drop, length-append, arith, Bool-cases, Option-cases, inl, inr,
}
use sdb.Cdb.{add32, ut32_unpack, cdb_read, check_slot, slot_loop}
use sdb.Cdb.Bytes.{At, At-first, At-second, cdb_read-At}
use sdb.Core.{Lookup, absent}
use sdb.CdbMake.{Hp, ut32_pack}
use sdb.CdbMake.Slots.{slot_at, behind, probe}
use sdb.CdbMake.Tables.{slot_bytes, table_bytes, tables_bytes, starts_bytes, length-table_bytes}

-- A number of 32 bits is read as it was written.
pub ut32_unpack-ut32_pack :
    (x : ℕ) (rest : List ℕ) → x < 2 ^ 32 → ut32_unpack (ut32_pack x ++ rest) ≡ x
unfolding ut32_unpack ut32_pack
ut32_unpack-ut32_pack x rest h = omega arith

pub ut32_unpack-last : (x : ℕ) → x < 2 ^ 32 → ut32_unpack (ut32_pack x) ≡ x
unfolding ut32_unpack ut32_pack
ut32_unpack-last x h = omega arith

pub drop-ut32_pack : (x : ℕ) (rest : List ℕ) → drop 4 (ut32_pack x ++ rest) ≡ rest
unfolding ut32_pack
drop-ut32_pack x rest = refl

pub length-ut32_pack : (x : ℕ) → length (ut32_pack x) ≡ 4
unfolding ut32_pack
length-ut32_pack x = refl

length-slot_bytes : (hp : Hp) → length (slot_bytes hp) ≡ 8
unfolding ut32_pack
length-slot_bytes hp = refl

pub length-starts_bytes :
    (table : ℕ → List Hp) (pos i left : ℕ) → length (starts_bytes table pos i left) ≡ 4 * left
unfolding starts_bytes
length-starts_bytes table pos i zero = refl
length-starts_bytes table pos i (suc left) =
    let rest = starts_bytes table (pos + length (table i) * 8) (i + 1) left in
    omega (
      arith,
      length-append (ut32_pack pos) rest,
      length-ut32_pack pos,
      length-starts_bytes table (pos + length (table i) * 8) (i + 1) left,
    )

behind-below : (t : List Hp) (w : ℕ) → w < length t → behind t w < length t
behind-below t w low = ground arith

-- The position behind a slot, from the last one back to the first.
slot-behind :
    (t : List Hp) (hpos w : ℕ)
    → w < length t
    → hpos + length t * 8 < 2 ^ 32
    → (if add32 (hpos + 8 * w) 8 == add32 hpos (length t * 8) then hpos else add32 (hpos + 8 * w) 8)
      ≡ hpos + 8 * behind t w
slot-behind t hpos w low fits =
    let e1 : add32 (hpos + 8 * w) 8 ≡ hpos + 8 * w + 8 = omega arith in
    let e2 : add32 hpos (length t * 8) ≡ hpos + length t * 8 = omega arith in
    rw (e1, e2) (ground arith)

abbrev pub IsSmall : Hp → Type 0
IsSmall hp = (hp.h < 2 ^ 32) × (hp.p < 2 ^ 32)

abbrev pub or_absent : Option Lookup → Lookup
or_absent none = absent
or_absent (some found) = found

module _ (map : List ℕ) where
  -- A table and its start stand in the file, and behind the start that of the next table, or the table ends where all do.
  abbrev pub IsPlaced : ℕ → ℕ → List Hp → ℕ → ℕ → Type 0
  IsPlaced at tpos t left end =
      At map tpos (table_bytes t)
      × At map at (ut32_pack tpos)
      × (1 < left → At map at (ut32_pack tpos ++ ut32_pack (tpos + length t * 8)))
      × (left ≡ 1 → tpos + length t * 8 ≡ end)

  module _ (table : ℕ → List Hp) where
    start-next :
        (next i left at pos : ℕ)
        → 0 < left
        → At map at (ut32_pack pos ++ starts_bytes table next i left)
        → At map at (ut32_pack pos ++ ut32_pack next)
    unfolding starts_bytes
    start-next next i zero at pos h stands = absurd (omega arith)
    start-next next i (suc left) at pos h stands =
        let rest = starts_bytes table (next + length (table i) * 8) (i + 1) left in
        At-first map at (ut32_pack pos ++ ut32_pack next) rest
          (rw (append_assoc (ut32_pack pos) (ut32_pack next) rest) stands)

    tables-none : (i left : ℕ) → left ≡ 0 → length (tables_bytes table i left) ≡ 0
    tables-none i left none_left = unfold tables_bytes in rw none_left refl

    tables-IsPlaced :
        (k left i at pos : ℕ)
        → k < left
        → At map at (starts_bytes table pos i left)
        → At map pos (tables_bytes table i left)
        → (tpos : ℕ) × IsPlaced
            (at + 4 * k)
            tpos
            (table (i + k))
            (left - k)
            (pos + length (tables_bytes table i left))
    unfolding starts_bytes tables_bytes
    tables-IsPlaced k zero i at pos low starts tables = absurd (omega arith)
    tables-IsPlaced zero (suc left) i at pos low starts tables =
        let more = tables_bytes table (i + 1) left in
        let next = pos + length (table i) * 8 in
        let e1 : at + 4 * 0 ≡ at = omega arith in
        let e2 : i + 0 ≡ i = omega arith in
        let len = length-table_bytes (table i) in
        let both = length-append (table_bytes (table i)) more in
        (
          pos,
          rw (e1, e2)
              (
                At-first map pos (table_bytes (table i)) more tables,
                At-first map at (ut32_pack pos) (starts_bytes table next (i + 1) left) starts,
                λ two. start-next next (i + 1) left at pos (omega arith) starts,
                λ one. omega (arith, len, both, tables-none (i + 1) left (omega arith)),
              ),
        )
    tables-IsPlaced (suc k) (suc left) i at pos low starts tables =
        let more = tables_bytes table (i + 1) left in
        let next = pos + length (table i) * 8 in
        let len = length-table_bytes (table i) in
        let (tpos, placed) =
          tables-IsPlaced k left (i + 1) (at + 4) next (omega arith)
            (rw length-ut32_pack at
              (At-second map at (ut32_pack pos) (starts_bytes table next (i + 1) left) starts))
            (rw len at (At-second map pos (table_bytes (table i)) more tables)) in
        let both = length-append (table_bytes (table i)) more in
        let e1 : at + 4 + 4 * k ≡ at + 4 * suc k = omega arith in
        let e2 : i + 1 + k ≡ i + suc k = omega arith in
        let e3 : left - k ≡ suc left - suc k = omega arith in
        let e4 : next + length more ≡ pos + length (table_bytes (table i) ++ more) =
          omega (arith, len, both) in
        (tpos, rw (e1, e2, e3, e4) at placed)

    -- The tables of a file.
    pub file-IsPlaced :
        (k left pos end : ℕ)
        → k < left
        → At map 0 (starts_bytes table pos 0 left)
        → At map pos (tables_bytes table 0 left)
        → pos + length (tables_bytes table 0 left) ≡ end
        → (tpos : ℕ) × IsPlaced (4 * k) tpos (table k) (left - k) end
    file-IsPlaced k left pos end low starts tables whole =
        let (tpos, placed) = tables-IsPlaced k left 0 0 pos low starts tables in
        let e1 : 0 + 4 * k ≡ 4 * k = omega arith in
        let e2 : 0 + k ≡ k = omega arith in (tpos, rw (e1, e2, whole) at placed)

  -- A slot of a table that stands in the file.
  At-slot :
      (t : List Hp) (pos w : ℕ)
      → w < length t
      → At map pos (table_bytes t)
      → At map (pos + 8 * w) (slot_bytes (slot_at t w))
  At-slot [] pos w low at = absurd (omega arith)
  At-slot (hp ∷ t) pos zero low at =
      let e : pos + 8 * 0 ≡ pos = omega arith in
      rw e (At-first map pos (slot_bytes hp) (table_bytes t) at)
  At-slot (hp ∷ t) pos (suc w) low at =
      let len = length-slot_bytes hp in
      let e : pos + 8 + 8 * w ≡ pos + 8 * suc w = omega arith in
      let rest = rw len at (At-second map pos (slot_bytes hp) (table_bytes t) at) in
      rw e at (At-slot t (pos + 8) w (omega arith) rest)

  slot_step :
      (loop khash hpos hslots kpos pos : ℕ) (key buf : List ℕ)
      → cdb_read map 8 kpos ≡ some buf
      → ut32_unpack buf ≡ khash
      → ut32_unpack (drop 4 buf) ≡ pos
      → (u : ℕ)
      → slot_loop (suc loop) map u key hpos hslots kpos ≡ (
          if pos == 0 then absent else elim (check_slot map u key khash pos) [
            | none ↦
                slot_loop loop map u key hpos hslots
                  (if add32 kpos 8 == add32 hpos (hslots * 8) then hpos else add32 kpos 8)
            | some found ↦ found
          ])
  unfolding slot_loop
  slot_step loop khash hpos hslots kpos pos key buf read hash place u =
      rw (slot_loop, read, hash, place) refl

  -- The search in the slots of a table is that of the table.
  pub slot_loop-probe :
      (u hpos : ℕ) (key : List ℕ) (t : List Hp)
      → At map hpos (table_bytes t)
      → hpos + length t * 8 < 2 ^ 32
      → ((j : ℕ) → IsSmall (slot_at t j))
      → (fuel w : ℕ) → w < length t
      → slot_loop fuel map u key hpos (length t) (hpos + 8 * w)
        ≡ or_absent (probe (λ e. check_slot map u key e.h e.p) fuel w t)
  unfolding slot_loop probe
  slot_loop-probe u hpos key t at fits small zero w low = refl
  slot_loop-probe u hpos key t at fits small (suc fuel) w low =
      let e = slot_at t w in
      let kpos = hpos + 8 * w in
      let len = length-slot_bytes e in
      let read = rw len at (cdb_read-At map kpos (slot_bytes e) (At-slot t hpos w low at)) in
      let hash : ut32_unpack (slot_bytes e) ≡ e.h =
        ut32_unpack-ut32_pack e.h (ut32_pack e.p) (small w).0 in
      let place : ut32_unpack (drop 4 (slot_bytes e)) ≡ e.p =
        rw drop-ut32_pack (ut32_unpack-last e.p (small w).1) in
      let next : (if add32 kpos 8 == add32 hpos (length t * 8) then hpos else add32 kpos 8)
          ≡ hpos + 8 * behind t w =
        slot-behind t hpos w low fits in
      let more =
        slot_loop-probe u hpos key t at fits small fuel (behind t w) (behind-below t w low) in
      slot_step fuel e.h hpos (length t) kpos e.p key (slot_bytes e) read hash place u
      ∙ elim (Bool-cases (e.p == 0)) [
        | inl free ↦ rw free refl
        | inr taken ↦ elim (Option-cases (check_slot map u key e.h e.p)) [
          | inl none_here ↦ rw (taken, none_here, next) more
          | inr (r, here) ↦ rw (taken, here) refl
        ]
      ]
