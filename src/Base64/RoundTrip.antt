-- ===== src/Base64/RoundTrip.antt =====
-- src/base64.c: decoding what was encoded, and the room that the encoder is given.
use sdb.Base.{
  ℕ, zero, suc, ◌+◌, ◌*◌, ◌/◌, ◌%◌, ◌^◌, ◌≤◌, ◌<◌, ◌≡◌, refl, ap, List, [], ◌∷◌, Option, none, some,
  length, length-append, take, arith, IsByte, All,
}
use sdb.Base64.{
  b64_encode, b64_decode, decode_round, decode_loop, decode_raw, encode_raw, encode, decode,
}
use sdb.Base64.Block.{
  b64_encode-one, b64_encode-two, b64_encode-three, b64_decode-sextets, b64_decode-pad_one,
  b64_decode-pad_two, decode_out-one, decode_out-two, decode_out-three,
}

-- Four characters for each block of three bytes or less.
abbrev pub encoded_length : ℕ → ℕ
encoded_length n = (n + 2) / 3 * 4

decode_loop-encode_raw :
    (bin : List ℕ)
    → All IsByte bin
    → decode_loop (encode_raw bin) ≡ (encoded_length (length bin), bin)
unfolding encode_raw decode_loop decode_round
decode_loop-encode_raw [] h = refl
decode_loop-encode_raw (a ∷ []) h =
    let d =
      b64_decode-pad_two (a / 4) (a % 4 * 16 + 0) 0 0 (omega arith) (omega arith) (omega arith)
        (omega arith) in
    rw (b64_encode-one a h.0, d) (ground (arith, decode_out-one a 0 b'$' 0 h.0 (omega arith)))
decode_loop-encode_raw (a ∷ b ∷ []) h =
    let d =
      b64_decode-pad_one (a / 4) (a % 4 * 16 + b / 16) (b % 16 * 4) 0 (omega arith) (omega arith)
        (omega arith) (omega arith) in
    rw (b64_encode-two a b h.0 h.1.0, d) (ground (arith, decode_out-two a b b'$' h.0 h.1.0))
decode_loop-encode_raw (a ∷ b ∷ c ∷ rest) (ha, (hb, (hc, hr))) =
    let d =
      b64_decode-sextets (a / 4) (a % 4 * 16 + b / 16) (b % 16 * 4 + c / 64) (c % 64) (omega arith)
        (omega arith) (omega arith) (omega arith) in
    rw
      (
        b64_encode-three a b c ha hb hc,
        d,
        decode_loop-encode_raw rest hr,
        decode_out-three a b c ha hb hc,
      )
      (ground arith)

-- The room that `sdb_encode` allocates is enough for the text and its terminating zero.
length-encode_raw : (bin : List ℕ) → length (encode_raw bin) ≡ encoded_length (length bin)
unfolding encode_raw b64_encode
length-encode_raw [] = refl
length-encode_raw (a ∷ []) = refl
length-encode_raw (a ∷ b ∷ []) = refl
length-encode_raw (a ∷ b ∷ c ∷ rest) =
    omega (arith, length-append (b64_encode a b c 3) (encode_raw rest), length-encode_raw rest)

decode_raw-encode_raw : (bin : List ℕ) → All IsByte bin → decode_raw (encode_raw bin) ≡ bin
unfolding decode_raw
decode_raw-encode_raw [] h = rw (decode_loop-encode_raw [] h) refl
decode_raw-encode_raw (x ∷ bin) h = rw (decode_loop-encode_raw (x ∷ bin) h) (ground arith)

encode_raw-ne-nil : (x : ℕ) (bin : List ℕ) → 0 < length (encode_raw (x ∷ bin))
encode_raw-ne-nil x bin = omega (arith, length-encode_raw (x ∷ bin))

take-length : (xs : List ℕ) → take (length xs) xs ≡ xs
take-length [] = refl
take-length (x ∷ xs) = ap (λ (r : List ℕ). x ∷ r) (take-length xs)

length-take_le : (n : ℕ) (xs : List ℕ) → length (take n xs) ≤ n
length-take_le zero xs = omega arith
length-take_le (suc n) [] = omega arith
length-take_le (suc n) (x ∷ xs) = omega (arith, length-take_le n xs)

-- The text that `sdb_encode` builds for a length that it is given fits, with its terminating
-- zero, the `8 + len * 2` characters that it allocates.
pub encode_room :
    (bin : List ℕ) (len : ℕ) {out : List ℕ}
    → encode (some bin) (some len) ≡ some out
    → length out + 1 ≤ 8 + len * 2
unfolding encode
encode_room bin len {out} e =
    let f : encode_raw (take len bin) ≡ out = cc in
    rw (← f) (omega (arith, length-encode_raw (take len bin), length-take_le len bin))

-- Decoding the base64 text of a nonempty run of bytes gives the bytes back, as long as the run is
-- shorter than 2^28 bytes.
pub decode-encode :
    (bin : List ℕ)
    → All IsByte bin
    → 0 < length bin
    → length bin < 2 ^ 28
    → decode (encode (some bin) (some (length bin))) ≡ some bin
unfolding encode decode
decode-encode bin bytes pos small =
    rw (take-length bin, decode_raw-encode_raw bin bytes, length-encode_raw bin) (ground arith)

-- A round keeps three bytes at most.
decode_round_le :
    (r : Option (ℕ × List ℕ)) (rest : ℕ × List ℕ) (n : ℕ)
    → ((k : ℕ) (out : List ℕ) → r ≡ some (k, out) → k ≤ 3)
    → length rest.1 ≤ n
    → length (decode_round r rest).1 ≤ n + 3
unfolding decode_round
decode_round_le none rest n three h = omega arith
decode_round_le (some (zero, out)) rest n three h = omega arith
decode_round_le (some (suc k, out)) rest n three h = omega (
  arith,
  length-append (take (suc k) out) rest.1,
  length-take_le (suc k) out,
  three (suc k) out refl,
)

b64_decode-le_three : (a b c d k : ℕ) (out : List ℕ) → b64_decode a b c d ≡ some (k, out) → k ≤ 3
unfolding b64_decode
b64_decode-le_three a b c d k out e = ground arith

decode_loop_le : (chars : List ℕ) → length (decode_loop chars).1 ≤ (length chars + 3) / 4 * 3
unfolding decode_loop
decode_loop_le [] = omega arith
decode_loop_le (a ∷ []) =
    decode_round_le (b64_decode a 0 0 0) _ 0 (b64_decode-le_three a 0 0 0) (omega arith)
decode_loop_le (a ∷ b ∷ []) =
    decode_round_le (b64_decode a b 0 0) _ 0 (b64_decode-le_three a b 0 0) (omega arith)
decode_loop_le (a ∷ b ∷ c ∷ []) =
    decode_round_le (b64_decode a b c 0) _ 0 (b64_decode-le_three a b c 0) (omega arith)
decode_loop_le (a ∷ b ∷ c ∷ d ∷ rest) = omega (
  arith,
  decode_round_le (b64_decode a b c d) (decode_loop rest) ((length rest + 3) / 4 * 3)
      (b64_decode-le_three a b c d) (decode_loop_le rest),
)

-- What `sdb_decode` returns is not empty and fits, with the zero that is written behind it, the
-- `ilen * 3 + 16` bytes that it allocates.
pub decode_room :
    (chars out : List ℕ)
    → decode (some chars) ≡ some out
    → (0 < length out) × (length out + 1 ≤ length chars * 3 + 16)
unfolding decode decode_raw
decode_room chars out e = ground (arith, decode_loop_le chars)
