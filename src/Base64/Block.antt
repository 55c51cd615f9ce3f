-- ===== src/Base64/Block.antt =====
-- One block of src/base64.c: what `sdb_b64_encode` writes, in plain arithmetic, and what
-- `sdb_b64_decode` makes of it.
use Prim.Native.Nat.{bit_or}
use sdb.Base.{
  ℕ, zero, suc, ◌+◌, ◌*◌, ◌/◌, ◌%◌, ◌<◌, ◌≡◌, refl, ap, Bool, true, ◌&&◌, [], ◌∷◌, some, ◌==◌,
  get_or, take, arith, IsByte,
}
use sdb.Base.Tables.{
  and_three, and_fifteen, and_high_nibble, and_top_two, and_low_six, or_four, or_sixteen,
  or_sixty_four, shifted_top_two,
}
use sdb.Base64.{cb64, Digit, invalid, stop, value, decode_digit, decode_out, b64_encode, b64_decode}

-- The character of six bits.
unfoldable pub sextet : ℕ → ℕ
sextet v = get_or cb64 v 0

-- The six bits that a character stands for, or 64.
digit_code : ℕ → ℕ
unfolding decode_digit
digit_code c = elim (decode_digit c) [ value v ↦ v | _ ↦ 64 ]

digits_agree : ℕ → Bool
digits_agree zero = true
digits_agree (suc n) = digit_code (sextet n) == n && digits_agree n

digits_agree_sound : (n v : ℕ) → digits_agree n ≡ true → v < n → digit_code (sextet v) ≡ v
unfolding digits_agree
digits_agree_sound zero v e h = absurd (omega arith)
digits_agree_sound (suc n) v e h = ground (arith, digits_agree_sound n v (ground arith))

digit_of_code : (d : Digit) (v : ℕ) → elim d [ value w ↦ w | _ ↦ 64 ] ≡ v → v < 64 → d ≡ value v
digit_of_code invalid v e h = absurd (omega arith)
digit_of_code stop v e h = absurd (omega arith)
digit_of_code (value w) v e h = ap value e

-- The decoder's table inverts the encoder's.
pub decode_digit-sextet : (v : ℕ) → v < 64 → decode_digit (sextet v) ≡ value v
decode_digit-sextet v h =
    digit_of_code (decode_digit (sextet v)) v
      (unfold digit_code in
        digits_agree_sound 64 v (unfold digits_agree digit_code sextet in refl) h)
      h

pub decode_digit-pad : decode_digit b'=' ≡ stop
unfolding decode_digit
decode_digit-pad = refl

or_parts_six : (a b : ℕ) → a < 4 → b < 16 → bit_or (a * 16) b ≡ a * 16 + b
or_parts_six a b ha hb =
    let e : (a * 16 + b) / 16 ≡ a = omega arith in
    let f : (a * 16 + b) % 16 ≡ b = omega arith in
    let t : bit_or ((a * 16 + b) / 16 * 16) ((a * 16 + b) % 16) ≡ a * 16 + b =
      or_sixteen (a * 16 + b) (omega arith) in
    rw (e, f) at t

or_parts_ten : (a b : ℕ) → a < 64 → b < 16 → bit_or (a * 16) b ≡ a * 16 + b
or_parts_ten a b ha hb =
    let e : (a * 16 + b) / 16 ≡ a = omega arith in
    let f : (a * 16 + b) % 16 ≡ b = omega arith in
    let t : bit_or ((a * 16 + b) / 16 * 16) ((a * 16 + b) % 16) ≡ a * 16 + b =
      or_sixteen (a * 16 + b) (omega arith) in
    rw (e, f) at t

or_parts_four : (a b : ℕ) → a < 64 → b < 4 → bit_or (a * 4) b ≡ a * 4 + b
or_parts_four a b ha hb =
    let e : (a * 4 + b) / 4 ≡ a = omega arith in
    let f : (a * 4 + b) % 4 ≡ b = omega arith in
    let t : bit_or ((a * 4 + b) / 4 * 4) ((a * 4 + b) % 4) ≡ a * 4 + b =
      or_four (a * 4 + b) (omega arith) in
    rw (e, f) at t

or_parts_high : (a b : ℕ) → a < 4 → b < 64 → bit_or (a * 64) b ≡ a * 64 + b
or_parts_high a b ha hb =
    let e : (a * 64 + b) / 64 ≡ a = omega arith in
    let f : (a * 64 + b) % 64 ≡ b = omega arith in
    let t : bit_or ((a * 64 + b) / 64 * 64) ((a * 64 + b) % 64) ≡ a * 64 + b =
      or_sixty_four (a * 64 + b) (omega arith) in
    rw (e, f) at t

module _ (a b c : ℕ) (ha : IsByte a) (hb : IsByte b) (hc : IsByte c) where
  pub b64_encode-three :
      b64_encode a b c 3
      ≡ sextet (a / 4)
        ∷ sextet (a % 4 * 16 + b / 16)
        ∷ sextet (b % 16 * 4 + c / 64)
        ∷ sextet (c % 64)
        ∷ []
  unfolding b64_encode sextet
  b64_encode-three = rw (
    and_three a ha,
    and_high_nibble b hb,
    and_fifteen b hb,
    and_top_two c hc,
    and_low_six c hc,
    or_parts_six (a % 4) (b / 16) (omega arith) (omega arith),
    or_parts_four (b % 16) (c / 64) (omega arith) (omega arith),
  )

  pub decode_out-three :
      decode_out (a / 4) (a % 4 * 16 + b / 16) (b % 16 * 4 + c / 64) (c % 64) ≡ a ∷ b ∷ c ∷ []
  unfolding decode_out
  decode_out-three =
      let v1 = a % 4 * 16 + b / 16 in
      let v2 = b % 16 * 4 + c / 64 in
      let e0 = or_parts_four (a / 4) (v1 / 16) (omega arith) (omega arith) in
      let e1 = or_parts_ten v1 (v2 / 4) (omega arith) (omega arith) in
      let e2 = or_parts_high (v2 % 4) (c % 64) (omega arith) (omega arith) in
      rw (e0, e1, shifted_top_two v2 (omega arith), e2) (ground arith)

-- The first byte of a block, whatever follows the two characters that hold it.
pub decode_out-one :
    (a r v2 v3 : ℕ)
    → IsByte a
    → r < 16
    → take 1 (decode_out (a / 4) (a % 4 * 16 + r) v2 v3) ≡ a ∷ []
unfolding decode_out
decode_out-one a r v2 v3 ha hr =
    let v1 = a % 4 * 16 + r in
    rw (or_parts_four (a / 4) (v1 / 16) (omega arith) (omega arith)) (ground arith)

-- The first two bytes of a block, whatever the fourth character is.
pub decode_out-two :
    (a b v3 : ℕ)
    → IsByte a
    → IsByte b
    → take 2 (decode_out (a / 4) (a % 4 * 16 + b / 16) (b % 16 * 4) v3) ≡ a ∷ b ∷ []
unfolding decode_out
decode_out-two a b v3 ha hb =
    let v1 = a % 4 * 16 + b / 16 in
    let v2 = b % 16 * 4 in
    rw
      (
        or_parts_four (a / 4) (v1 / 16) (omega arith) (omega arith),
        or_parts_ten v1 (v2 / 4) (omega arith) (omega arith),
      )
      (ground arith)

pub b64_encode-one :
    (a : ℕ)
    → IsByte a
    → b64_encode a 0 0 1 ≡ sextet (a / 4) ∷ sextet (a % 4 * 16 + 0) ∷ b'=' ∷ b'=' ∷ []
unfolding b64_encode sextet
b64_encode-one a ha = rw (and_three a ha, or_parts_six (a % 4) 0 (omega arith) (omega arith))

pub b64_encode-two :
    (a b : ℕ)
    → IsByte a
    → IsByte b
    → b64_encode a b 0 2
      ≡ sextet (a / 4) ∷ sextet (a % 4 * 16 + b / 16) ∷ sextet (b % 16 * 4) ∷ b'=' ∷ []
unfolding b64_encode sextet
b64_encode-two a b ha hb =
    let z : b % 16 * 4 + 0 ≡ b % 16 * 4 = omega arith in
    rw (
      and_three a ha,
      and_high_nibble b hb,
      and_fifteen b hb,
      or_parts_six (a % 4) (b / 16) (omega arith) (omega arith),
      or_parts_four (b % 16) 0 (omega arith) (omega arith),
      z,
    )

module _ (v0 v1 v2 v3 : ℕ) (h0 : v0 < 64) (h1 : v1 < 64) (h2 : v2 < 64) (h3 : v3 < 64) where
  pub b64_decode-sextets :
      b64_decode (sextet v0) (sextet v1) (sextet v2) (sextet v3) ≡ some (3, decode_out v0 v1 v2 v3)
  unfolding b64_decode
  b64_decode-sextets = ground (
    arith,
    decode_digit-sextet v0 h0,
    decode_digit-sextet v1 h1,
    decode_digit-sextet v2 h2,
    decode_digit-sextet v3 h3,
  )

  pub b64_decode-pad_one :
      b64_decode (sextet v0) (sextet v1) (sextet v2) b'=' ≡ some (2, decode_out v0 v1 v2 b'$')
  unfolding b64_decode
  b64_decode-pad_one = ground (
    arith,
    decode_digit-sextet v0 h0,
    decode_digit-sextet v1 h1,
    decode_digit-sextet v2 h2,
    decode_digit-pad,
  )

  pub b64_decode-pad_two :
      b64_decode (sextet v0) (sextet v1) b'=' b'=' ≡ some (1, decode_out v0 v1 b'$' 0)
  unfolding b64_decode
  b64_decode-pad_two =
      ground (arith, decode_digit-sextet v0 h0, decode_digit-sextet v1 h1, decode_digit-pad)
