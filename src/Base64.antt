-- ===== src/Base64.antt =====
-- src/base64.c: the base64 encoder and decoder. A buffer is the list of its bytes; what a
-- block reads past the end of its input is the terminating zero.
pub mod Block
pub mod RoundTrip
use Prim.Native.Nat.{bit_and, bit_or}
use sdb.Base.{
  ℕ, zero, suc, ◌+◌, ◌-◌, ◌*◌, ◌/◌, ◌%◌, ◌^◌, Bool, ◌||◌, List, [], ◌∷◌, ◌++◌, Option, none, some,
  ltb, ◌==◌, if◌then◌else◌, length, get_or, take, codes, c_string,
}

abbrev pub cb64 : List ℕ
cb64 = codes "ABCDEFGHIJKLMNOPQRSTUVWXYZabcdefghijklmnopqrstuvwxyz0123456789+/"

abbrev pub cd64 : List ℕ
cd64 = codes "|$$$}rstuvwxyz{$$$$$$$>?@ABCDEFGHIJKLMNOPQRSTUVW$$$$$$XYZ[\\]^_`abcdefghijklmnopq"

-- One block of `len` input bytes.
unfoldable pub b64_encode : ℕ → ℕ → ℕ → ℕ → List ℕ
b64_encode in0 in1 in2 len =
    if ltb len 1
    then []
    else (get_or cb64 (in0 / 2 ^ 2) 0
        ∷ get_or cb64
            (bit_or (bit_and in0 0x03 * 2 ^ 4) (if ltb 1 len then bit_and in1 0xf0 / 2 ^ 4 else 0))
            0
        ∷ (if ltb 1 len
            then get_or cb64
                (bit_or (bit_and in1 0x0f * 2 ^ 2)
                  (if ltb 2 len then bit_and in2 0xc0 / 2 ^ 6 else 0))
                0
            else b'=')
        ∷ (if ltb 2 len then get_or cb64 (bit_and in2 0x3f) 0 else b'=')
        ∷ [])

-- What one character means: out of the alphabet's range, a `$` of the table, or six bits.
pub data Digit : Type 0 where
  invalid stop : Digit
  value : ℕ → Digit

unfoldable pub decode_digit : ℕ → Digit
decode_digit c =
    if ltb c b'+' || ltb b'z' c
    then invalid
    else let v = get_or cd64 (c - b'+') 0 in if v == b'$' then stop else value (v - 62)

unfoldable pub decode_out : ℕ → ℕ → ℕ → ℕ → List ℕ
decode_out v0 v1 v2 v3 =
    (bit_or (v0 * 2 ^ 2) (v1 / 2 ^ 4) % 256)
    ∷ (bit_or (v1 * 2 ^ 4) (v2 / 2 ^ 2) % 256)
    ∷ (bit_or (bit_and (v2 * 2 ^ 6) 0xc0) v3 % 256)
    ∷ []

-- The returned length and the three bytes written; `none` is the length -1. The loop over the
-- four characters is unrolled, and stops at a `$` with the entries behind it still 0.
unfoldable pub b64_decode : ℕ → ℕ → ℕ → ℕ → Option (ℕ × List ℕ)
b64_decode in0 in1 in2 in3 = elim (decode_digit in0) [
  | invalid ↦ none
  | stop ↦ none
  | value v0 ↦ elim (decode_digit in1) [
    | invalid ↦ none
    | stop ↦ some (0, decode_out v0 b'$' 0 0)
    | value v1 ↦ elim (decode_digit in2) [
      | invalid ↦ none
      | stop ↦ some (1, decode_out v0 v1 b'$' 0)
      | value v2 ↦ elim (decode_digit in3) [
        | invalid ↦ none
        | stop ↦ some (2, decode_out v0 v1 v2 b'$')
        | value v3 ↦ some (3, decode_out v0 v1 v2 v3)
      ]
    ]
  ]
]

-- The characters written, without the terminating zero.
unfoldable pub encode_raw : List ℕ → List ℕ
encode_raw [] = []
encode_raw (a ∷ []) = b64_encode a 0 0 1
encode_raw (a ∷ b ∷ []) = b64_encode a b 0 2
encode_raw (a ∷ b ∷ c ∷ rest) = b64_encode a b c 3 ++ encode_raw rest

-- One round of the loop of `sdb_decode_raw`: `rest` is the outcome of the rounds behind it, the
-- number of characters consumed and the bytes kept.
unfoldable pub decode_round : Option (ℕ × List ℕ) → ℕ × List ℕ → ℕ × List ℕ
decode_round none rest = (0, [])
decode_round (some (zero, out)) rest = (0, [])
decode_round (some (suc ret, out)) rest = (rest.0 + 4, take (suc ret) out ++ rest.1)

unfoldable pub decode_loop : List ℕ → ℕ × List ℕ
decode_loop [] = (0, [])
decode_loop (a ∷ []) = decode_round (b64_decode a 0 0 0) (0, [])
decode_loop (a ∷ b ∷ []) = decode_round (b64_decode a b 0 0) (0, [])
decode_loop (a ∷ b ∷ c ∷ []) = decode_round (b64_decode a b c 0) (0, [])
decode_loop (a ∷ b ∷ c ∷ d ∷ rest) = decode_round (b64_decode a b c d) (decode_loop rest)

-- `return (in != out)? out: 0`, with the bytes that the count stands for.
unfoldable pub decode_raw : List ℕ → List ℕ
decode_raw chars = let r = decode_loop chars in if r.0 == length r.1 then [] else r.1

-- `bin` is absent for NULL; `len` is absent for a negative length.
unfoldable pub encode : Option (List ℕ) → Option ℕ → Option (List ℕ)
encode none len = none
encode (some bin) none = some (encode_raw (c_string bin))
encode (some bin) (some len) = some (encode_raw (take len bin))

-- The decoded bytes, whose number is `*len`.
unfoldable pub decode : Option (List ℕ) → Option (List ℕ)
decode none = none
decode (some chars) =
    let ilen = length chars in
    if ilen == 0 || ltb ((ilen * 3 + 16) % 2 ^ 32) ilen
    then none
    else let out = decode_raw chars in if length out == 0 then none else some out
