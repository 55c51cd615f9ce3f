-- ===== src/CdbMake/Search.antt =====
-- `cdb_findnext` of src/cdb.c on a file whose tables stand where they should.
use native.Mathlib.Nat.{mod-lt}
use sdb.Base.{
  ℕ, ◌+◌, ◌-◌, ◌*◌, ◌/◌, ◌%◌, ◌^◌, ◌≤◌, ◌<◌, ◌≡◌, refl, true, false, List, ◌++◌, some, ltb, ◌==◌,
  length, length-append, arith, Bool-cases, inl, inr,
}
use sdb.Cdb.{add32, check_slot, table_bounds, cdb_findnext}
use sdb.Cdb.Bytes.{At-length, cdb_read-At}
use sdb.CdbMake.{Hp, ut32_pack}
use sdb.CdbMake.Layout.{
  IsPlaced, IsSmall, or_absent, ut32_unpack-ut32_pack, ut32_unpack-last, drop-ut32_pack,
  length-ut32_pack, slot_loop-probe,
}
use sdb.CdbMake.Slots.{slot_at, slot_of, probe}
use sdb.CdbMake.State.{string_bytes}
use sdb.CdbMake.Tables.{table_bytes, length-table_bytes}

module _ (map : List ℕ) (small : length map < 2 ^ 32) (u tpos : ℕ) (t : List Hp)
    (placed : IsPlaced map (4 * (u % 256)) tpos t (256 - u % 256) (length map)) where
  below : tpos + length t * 8 ≤ length map
  below = omega (arith, At-length map tpos (table_bytes t) placed.0, length-table_bytes t)

  table_bounds-IsPlaced : table_bounds map u ≡ some (tpos, tpos + length t * 8)
  unfolding table_bounds
  table_bounds-IsPlaced =
      let b = below in
      let start : u * 4 % 1024 ≡ 4 * (u % 256) = omega arith in
      elim (Bool-cases ((u + 1) % 256 == 0)) [
        | inl last ↦
            let at = 4 * (u % 256) in
            let read = rw length-ut32_pack at (cdb_read-At map at (ut32_pack tpos) placed.1) in
            let value = ut32_unpack-last tpos (omega (arith, b, small)) in
            let end : tpos + length t * 8 ≡ length map = placed.3 (ground arith) in
            rw (last, start, read, value, end) refl
        | inr more ↦
            let at = 4 * (u % 256) in
            let next = tpos + length t * 8 in
            let pair = length-append (ut32_pack tpos) (ut32_pack next) in
            let eight : length (ut32_pack tpos ++ ut32_pack next) ≡ 8 =
              omega (arith, pair, length-ut32_pack tpos, length-ut32_pack next) in
            let read =
              rw eight at
                (cdb_read-At map at (ut32_pack tpos ++ ut32_pack next) (placed.2 (ground arith))) in
            let first = ut32_unpack-ut32_pack tpos (ut32_pack next) (omega (arith, b, small)) in
            let second = ut32_unpack-last next (omega (arith, b, small)) in
            rw (more, start, read, first, drop-ut32_pack, second) refl
      ]

  pub cdb_findnext-IsPlaced :
      (q : List ℕ)
      → ((j : ℕ) → IsSmall (slot_at t j))
      → cdb_findnext true map u q
        ≡ or_absent
            (probe (λ e. check_slot map u (string_bytes q) e.h e.p) (length t) (slot_of u t) t)
  unfolding cdb_findnext
  cdb_findnext-IsPlaced q smalls =
      let b = below in
      let n = length t in
      let order : ltb (tpos + n * 8) tpos ≡ false = ground arith in
      let slots : (tpos + n * 8 - tpos) / 8 ≡ n = omega arith in
      elim (Bool-cases (n == 0)) [
        | inl zeros ↦
            let none_here : n ≡ 0 = ground arith in
            rw (table_bounds-IsPlaced, order, slots, zeros, none_here) (unfold probe in refl)
        | inr many ↦
            let low : slot_of u t < n = mod-lt (u / 2 ^ 8) (ground arith) in
            let start : add32 tpos (slot_of u t * 8) ≡ tpos + 8 * slot_of u t =
              omega (arith, low, b, small) in
            rw (table_bounds-IsPlaced, order, slots, many, start)
              (slot_loop-probe map u tpos (string_bytes q) t placed.0 (omega (arith, b, small))
                smalls n (slot_of u t) low)
      ]
