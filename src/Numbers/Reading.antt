-- ===== src/Numbers/Reading.antt =====
-- What `sdb_itoa` of src/util.c spells, `sdb_atoi` reads back.
use sdb.Base.{
  ℕ, ◌+◌, ◌*◌, ◌^◌, ◌≤◌, ◌<◌, ◌≡◌, ◌⊎◌, refl, ◌∙◌, true, false, ◌&&◌, ◌||◌, List, [], ◌∷◌, some,
  ltb, leb, ◌==◌, All, arith, Bool-cases, inl, inr,
}
use sdb.Numbers.{
  spelled, sdb_itoa, sdb_atoi, sdb_num_bufsz, char_value, is_digit_of, scan_digits, unsigned,
  max_u64, strtoull,
}
use sdb.Numbers.Digits.{digit_value, is_digit, value}
use sdb.Numbers.Spelling.{Spells, sdb_itoa-Spells}

is_digit-of :
    (base c : ℕ)
    → base ≤ 16
    → is_digit base c ≡ true
    → (is_digit_of base c ≡ true) × (char_value c ≡ digit_value c)
is_digit-of base c sixteen d = ground arith

pub scan_digits-value :
    (base : ℕ)
    → base ≤ 16
    → (ds : List ℕ) (v : ℕ) → All (λ c. is_digit base c ≡ true) ds
    → scan_digits base v ds ≡ value base v ds
unfolding scan_digits value
scan_digits-value base sixteen [] v all = refl
scan_digits-value base sixteen (c ∷ ds) v (d, all) =
    let (g, e) = is_digit-of base c sixteen d in
    rw (g, e) (scan_digits-value base sixteen ds (v * base + digit_value c) all)

-- A number in hexadecimal, behind its prefix.
hexadecimal-read :
    (n : ℕ) (ds : List ℕ) → n < 2 ^ 64 → Spells 16 n ds → sdb_atoi (some (b'0' ∷ b'x' ∷ ds)) ≡ n
unfolding sdb_atoi strtoull unsigned
hexadecimal-read n [] fits (v, lead, all) = absurd (omega arith)
hexadecimal-read n (c ∷ ds) fits (v, lead, (d, all)) =
    let (g, _) = is_digit-of 16 c (omega arith) d in
    let e : scan_digits 16 0 (c ∷ ds) ≡ n =
      scan_digits-value 16 (omega arith) (c ∷ ds) 0 (d, all) ∙ v in
    let f : ltb max_u64 n ≡ false = ground arith in rw (g, e, f) refl

-- A number in decimal.
decimal-read : (n : ℕ) (ds : List ℕ) → n < 2 ^ 64 → Spells 10 n ds → sdb_atoi (some ds) ≡ n
unfolding sdb_atoi strtoull unsigned
decimal-read n [] fits (v, lead, all) = absurd (omega arith)
decimal-read n (c ∷ ds) fits (v, lead, (d, all)) =
    let e : scan_digits 10 0 (c ∷ ds) ≡ n =
      scan_digits-value 10 (omega arith) (c ∷ ds) 0 (d, all) ∙ v in
    let f : ltb max_u64 n ≡ false = ground arith in
    let digit : (b'1' ≤ c) × (c ≤ b'9') = ground arith in
    let space : (c == b' ' || (leb 9 c && leb c 13)) ≡ false = ground arith in
    let minus : (c == b'-') ≡ false = ground arith in
    let plus : (c == b'+') ≡ false = ground arith in
    let nought : (c == b'0') ≡ false = ground arith in rw (space, minus, plus, nought, e, f) refl

-- A spelling that is not empty and reads as the number.
abbrev pub ReadsBack : ℕ → ℕ → Type 0
ReadsBack n base =
    (c : ℕ) × (t : List ℕ) × (sdb_itoa n base sdb_num_bufsz ≡ spelled (c ∷ t))
    × (sdb_atoi (some (c ∷ t)) ≡ n)

zero-ReadsBack : ReadsBack 0 10 × ReadsBack 0 16
unfolding sdb_itoa sdb_atoi strtoull unsigned scan_digits
zero-ReadsBack = ((b'0', [], refl, refl), (b'0', [], refl, refl))

module _ (n : ℕ) (fits : n < 2 ^ 64) (positive : 0 < n) where
  ten-ReadsBack : ReadsBack n 10
  ten-ReadsBack =
      let (ds, run, sp) =
        sdb_itoa-Spells n 10 sdb_num_bufsz (omega arith) (omega arith) positive (omega arith) in
      go ds run sp
    where
      go :
          (ds : List ℕ) → sdb_itoa n 10 sdb_num_bufsz ≡ spelled ds → Spells 10 n ds → ReadsBack n 10
      go [] run (v, lead, all) = absurd (omega arith)
      go (c ∷ t) run sp = (c, t, run, decimal-read n (c ∷ t) fits sp)

  sixteen-ReadsBack : ReadsBack n 16
  sixteen-ReadsBack =
      let (ds, run, sp) =
        sdb_itoa-Spells n 16 sdb_num_bufsz (omega arith) (omega arith) positive (omega arith) in
      (b'0', b'x' ∷ ds, run, hexadecimal-read n ds fits sp)

-- A number of 64 bits in decimal or hexadecimal is spelled, by one character at least, in a
-- buffer of SDB_NUM_BUFSZ bytes, and read back as it was.
pub sdb_itoa-sdb_atoi : (n base : ℕ) → n < 2 ^ 64 → (base ≡ 10) ⊎ (base ≡ 16) → ReadsBack n base
sdb_itoa-sdb_atoi n base fits known = elim (Bool-cases (n == 0)) [
  | inl nothing ↦
      let z : n ≡ 0 = ground arith in
      elim known [
        | inl ten ↦ rw (z, ten) zero-ReadsBack.0
        | inr sixteen ↦ rw (z, sixteen) zero-ReadsBack.1
      ]
  | inr something ↦
      let positive : 0 < n = ground arith in
      elim known [
        | inl ten ↦ rw ten (ten-ReadsBack n fits positive)
        | inr sixteen ↦ rw sixteen (sixteen-ReadsBack n fits positive)
      ]
]
