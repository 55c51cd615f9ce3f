-- ===== src/Numbers/Octal.antt =====
-- What `sdb_itoa` of src/util.c spells in octal has no 0 in front, and is read as decimal.
use sdb.Base.{
  ℕ, ◌+◌, ◌*◌, ◌≤◌, ◌<◌, ◌≡◌, ◌≢◌, refl, true, false, ◌&&◌, ◌||◌, List, [], ◌∷◌, some, ltb, leb,
  ◌==◌, if◌then◌else◌, All, arith,
}
use sdb.Numbers.{
  spelled, sdb_itoa, sdb_atoi, sdb_num_bufsz, scan_digits, unsigned, max_u64, strtoull,
}
use sdb.Numbers.Digits.{digit_value, is_digit, value}
use sdb.Numbers.Spelling.{Spells, sdb_itoa-Spells}
use sdb.Numbers.Reading.{scan_digits-value}

value-le : (ds : List ℕ) (v w : ℕ) → v ≤ w → value 8 v ds ≤ value 10 w ds
unfolding value
value-le [] v w h = h
value-le (c ∷ ds) v w h = value-le ds (v * 8 + digit_value c) (w * 10 + digit_value c) (omega arith)

value-lt : (ds : List ℕ) (v w : ℕ) → v < w → value 8 v ds < value 10 w ds
unfolding value
value-lt [] v w h = h
value-lt (c ∷ ds) v w h = value-lt ds (v * 8 + digit_value c) (w * 10 + digit_value c) (omega arith)

octal-decimal :
    (ds : List ℕ) → All (λ c. is_digit 8 c ≡ true) ds → All (λ c. is_digit 10 c ≡ true) ds
octal-decimal [] all = tt
octal-decimal (c ∷ ds) (d, all) = (ground arith, octal-decimal ds all)

-- Two digits at least spell a greater number in decimal.
greater : (n : ℕ) (ds : List ℕ) → 8 ≤ n → Spells 8 n ds → n < value 10 0 ds
unfolding value
greater n [] large (v, lead, all) = absurd (omega arith)
greater n (c ∷ []) large (v, lead, (d, all)) = absurd (ground arith)
greater n (c ∷ d ∷ ds) large (v, lead, all) =
    let k =
      value-lt ds ((0 * 8 + digit_value c) * 8 + digit_value d)
        ((0 * 10 + digit_value c) * 10 + digit_value d) (omega arith) in
    omega (arith, k)

-- The text is read as decimal, up to `ULLONG_MAX`.
decimal-clamped :
    (n : ℕ) (ds : List ℕ)
    → Spells 8 n ds
    → sdb_atoi (some ds) ≡ (if ltb max_u64 (value 10 0 ds) then max_u64 else value 10 0 ds)
unfolding sdb_atoi strtoull unsigned
decimal-clamped n [] (v, lead, all) = absurd (omega arith)
decimal-clamped n (c ∷ ds) (v, lead, (d, all)) =
    let e : scan_digits 10 0 (c ∷ ds) ≡ value 10 0 (c ∷ ds) =
      scan_digits-value 10 (omega arith) (c ∷ ds) 0 (octal-decimal (c ∷ ds) (d, all)) in
    let digit : (b'1' ≤ c) × (c ≤ b'9') = ground arith in
    let space : (c == b' ' || (leb 9 c && leb c 13)) ≡ false = ground arith in
    let minus : (c == b'-') ≡ false = ground arith in
    let plus : (c == b'+') ≡ false = ground arith in
    let nought : (c == b'0') ≡ false = ground arith in rw (space, minus, plus, nought, e) refl

-- A number from 8 up and below ULLONG_MAX that is spelled in octal is not read back as it was.
pub sdb_itoa-octal :
    (n : ℕ)
    → 8 ≤ n
    → n < max_u64
    → (t : List ℕ) × (sdb_itoa n 8 sdb_num_bufsz ≡ spelled t) × (sdb_atoi (some t) ≢ n)
sdb_itoa-octal n large fits =
    let (ds, run, sp) =
      sdb_itoa-Spells n 8 sdb_num_bufsz (omega arith) (omega arith) (omega arith) (omega arith) in
    let g = greater n ds large sp in
    (ds, run, λ back. let e = decimal-clamped n ds sp in ground arith)
