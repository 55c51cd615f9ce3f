-- ===== src/CdbMake/Records.antt =====
-- What src/cdb.c reads of a record that src/cdb_make.c wrote.
use sdb.Base.{
  ℕ, ◌+◌, ◌*◌, ◌/◌, ◌%◌, ◌^◌, ◌<◌, ◌≡◌, refl, sym, ap, Bool, true, false, ◌&&◌, List, [], ◌∷◌, ◌++◌,
  Option, none, some, ltb, ◌==◌, if◌then◌else◌, length, take, drop, str_eq, length-append, arith,
  Bool-cases, inl, inr,
}
use sdb.Cdb.{add32, cdb_read, cdb_getkvlen, compare_key, check_slot}
use sdb.Cdb.Bytes.{
  At, At-first, At-second, At-length, cdb_read-At, drop-At, compared, compare_key-At,
}
use sdb.Core.{Lookup, present}
use sdb.CdbMake.State.{Record, IsStorable, lens_bytes, string_bytes, record_bytes}

length-string_bytes : (s : List ℕ) → length (string_bytes s) ≡ length s + 1
length-string_bytes s = length-append s (0 ∷ [])

str_eq-string_bytes :
    (a b : List ℕ) → length a ≡ length b → str_eq (string_bytes a) (string_bytes b) ≡ str_eq a b
unfolding str_eq
str_eq-string_bytes [] [] same = refl
str_eq-string_bytes [] (y ∷ b) same = absurd (omega arith)
str_eq-string_bytes (x ∷ a) [] same = absurd (omega arith)
str_eq-string_bytes (x ∷ a) (y ∷ b) same =
    ap (λ (r : Bool). x == y && r) (str_eq-string_bytes a b (omega arith))

str_eq-longer : (a b : List ℕ) → (length a == length b) ≡ false → str_eq a b ≡ false
unfolding str_eq
str_eq-longer [] [] other = absurd (ground arith)
str_eq-longer [] (y ∷ b) other = refl
str_eq-longer (x ∷ a) [] other = refl
str_eq-longer (x ∷ a) (y ∷ b) other = ground (arith, str_eq-longer a b (ground arith))

-- The answer of a slot whose record has a key and a value.
abbrev pub answer_of : List ℕ → Record → Option Lookup
answer_of q (key, value) = if str_eq key q then some (present (string_bytes value)) else none

module _ (map : List ℕ) (small : length map < 2 ^ 32) (p : ℕ) (key value : List ℕ)
    (storable : IsStorable (key, value)) (at : At map p (record_bytes (key, value))) where
  cdb_getkvlen-record : cdb_getkvlen map p ≡ some (length key + 1, length value + 1)
  unfolding cdb_getkvlen
  cdb_getkvlen-record =
      let header = lens_bytes (length key + 1) (length value + 1) in
      let read : cdb_read map 4 p ≡ some header =
        cdb_read-At map p header
          (At-first map p header (string_bytes key ++ string_bytes value) at) in
      let vlen : (length value + 1) % 256
            + (length value + 1) / 2 ^ 8 % 256 * 2 ^ 8
            + (length value + 1) / 2 ^ 16 % 256 * 2 ^ 16
          ≡ length value + 1 =
        omega arith in
      let klen : (length key + 1) % 256 ≡ length key + 1 = omega arith in
      let fits : ltb 0xffffff (length value + 1) ≡ false = ground arith in
      rw (cdb_getkvlen, read, vlen, klen, fits) refl

  At-key : At map (p + 4) (string_bytes key ++ string_bytes value)
  At-key =
      At-second map p (lens_bytes (length key + 1) (length value + 1))
        (string_bytes key ++ string_bytes value) at

  -- The value is read behind a key of the length.
  value-At :
      (q : List ℕ)
      → length key ≡ length q
      → take (length value + 1) (drop (add32 (add32 p 4) (length (string_bytes q))) map)
        ≡ string_bytes value
  value-At q same =
      let k = length-string_bytes key in
      let v = length-string_bytes value in
      let at' = At-second map (p + 4) (string_bytes key) (string_bytes value) At-key in
      let end = At-length map (p + 4 + length (string_bytes key)) (string_bytes value) at' in
      let e : add32 (add32 p 4) (length (string_bytes q)) ≡ p + 4 + length (string_bytes key) =
        omega (arith, k, end, small, length-string_bytes q) in
      rw (e, sym v) (drop-At map (p + 4 + length (string_bytes key)) (string_bytes value) at')

  compare_key-record :
      (q : List ℕ)
      → length key ≡ length q
      → compare_key (length (string_bytes q)) map (string_bytes q) (add32 p 4)
        ≡ compared (str_eq key q)
  compare_key-record q same =
      let k = length-string_bytes key in
      let end = At-length map (p + 4) (string_bytes key ++ string_bytes value) At-key in
      let both = length-append (string_bytes key) (string_bytes value) in
      let e : add32 p 4 ≡ p + 4 = omega (arith, end, small) in
      rw (e, sym (str_eq-string_bytes key q same))
        (compare_key-At (length (string_bytes q)) map (string_bytes q) (string_bytes key) (p + 4)
          (omega arith) (omega (arith, k, length-string_bytes q)) (omega (arith, end, small, both))
          (At-first map (p + 4) (string_bytes key) (string_bytes value) At-key))

  -- A slot of the hash of a key answers if the record has the key.
  pub check_slot-record :
      (q : List ℕ) (u : ℕ) → check_slot map u (string_bytes q) u p ≡ answer_of q (key, value)
  unfolding check_slot
  check_slot-record q u =
      let own : (u == u) ≡ true = ground arith in
      let more : (length key + 1 == 0) ≡ false = ground arith in
      elim (Bool-cases (length key == length q)) [
        | inl same ↦
            let s : length key ≡ length q = ground arith in
            let len : (length key + 1 == length (string_bytes q)) ≡ true =
              ground (arith, length-string_bytes q) in
            let run = compare_key-record q s in
            let data_at = value-At q s in
            elim (Bool-cases (str_eq key q)) [
              | inl e ↦ rw (own, cdb_getkvlen-record, more, len, run, e, data_at) refl
              | inr e ↦ rw (own, cdb_getkvlen-record, more, len, run, e) refl
            ]
        | inr other ↦
            let len : (length key + 1 == length (string_bytes q)) ≡ false =
              ground (arith, length-string_bytes q) in
            rw (own, cdb_getkvlen-record, more, len, str_eq-longer key q other) refl
      ]
