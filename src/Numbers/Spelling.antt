-- ===== src/Numbers/Spelling.antt =====
-- What `sdb_itoa` of src/util.c spells, and that `strtoull` reads it back.
use native.Mathlib.Nat.{pow-le-pow_right, one-le-pow}
use mathlib.Core.Path.{subst}
use sdb.Base.{
  ◌↔◌, ℕ, zero, suc, ◌+◌, ◌-◌, ◌^◌, ◌≤◌, ◌<◌, ◌≡◌, refl, ◌∙◌, true, false, List, [], ◌∷◌, ◌++◌, ltb,
  leb, ◌==◌, if◌then◌else◌, get_or, length, All, arith, Bool-cases, inl, inr,
}
use sdb.Numbers.{Spelled, refused, spelled, overrun, itoa_loop, itoa_end, sdb_itoa}
use sdb.Numbers.Digits.{
  itoa_loop-length, digit_value, is_digit, value, below_one, itoa_loop-value, itoa_loop-moved,
  itoa_loop-room, itoa_loop-full, itoa_loop-leading, itoa_loop-digits,
}

-- The places that a buffer of `sl` bytes has for digits.
abbrev pub room : ℕ → ℕ → ℕ
room base sl = if leb base 10 then sl - 2 else sl - 3

abbrev pub prefix : ℕ → List ℕ
prefix base = if leb base 10 then [] else b'0' ∷ b'x' ∷ []

-- Digits of the base, the first not 0, that spell the number.
abbrev pub Spells : ℕ → ℕ → List ℕ → Type 0
Spells base n ds =
    (value base 0 ds ≡ n)
    × (0 < digit_value (get_or ds 0 b'0'))
    × All (λ c. is_digit base c ≡ true) ds

module _ (n base sl : ℕ) (two : 2 ≤ base) (sixteen : base ≤ 16) (positive : 0 < n) where
  loop-Spells : (i : ℕ) → n < base ^ i → Spells base n (itoa_loop base i n []).1
  loop-Spells i fits = (
    itoa_loop-value base two sixteen i n [] fits ∙ unfold value in refl,
    itoa_loop-leading base two sixteen i n [] fits (λ z. absurd (omega arith)),
    itoa_loop-digits base two sixteen i n [] tt,
  )

  some_room : (k : ℕ) → n < base ^ k → 0 < k
  some_room zero fits = let z = below_one base n fits in absurd (omega arith)
  some_room (suc k) fits = omega arith

  sdb_itoa-loop :
      2 < sl → sdb_itoa n base sl ≡ itoa_end base (sl - 2) (itoa_loop base (sl - 2) n [])
  unfolding sdb_itoa
  sdb_itoa-loop long =
      let a : (base == 0) ≡ false = ground arith in
      let b : (sl == 0) ≡ false = ground arith in
      let c : ltb 16 base ≡ false = ground arith in
      let d : (n == 0) ≡ false = ground arith in
      let e : (sl == 1) ≡ false = ground arith in rw (a, b, c, d, e) refl

  -- A positive number that has room is spelled by its digits, the first not 0, behind `0x` where
  -- the base is above ten; nothing is written outside the buffer.
  pub sdb_itoa-Spells :
      n < base ^ room base sl
      → (ds : List ℕ) × (sdb_itoa n base sl ≡ spelled (prefix base ++ ds)) × Spells base n ds
  unfolding itoa_end
  sdb_itoa-Spells fits = elim (Bool-cases (leb base 10)) [
    | inl decimal ↦
        let fits' : n < base ^ (sl - 2) = rw decimal at fits in
        let k = some_room (sl - 2) fits' in
        (
          (itoa_loop base (sl - 2) n []).1,
          sdb_itoa-loop (omega arith) ∙ rw decimal refl,
          loop-Spells (sl - 2) fits',
        )
    | inr hexadecimal ↦
        let fits' : n < base ^ (sl - 3) = rw hexadecimal at fits in
        let k = some_room (sl - 3) fits' in
        let wide : n < base ^ (sl - 2) =
          let p : base ^ (sl - 3) ≤ base ^ (sl - 2) =
            pow-le-pow_right (omega arith) (omega arith) in
          omega arith in
        let m : sl - 2 ≡ suc (sl - 3) = omega arith in
        let low : (itoa_loop base (sl - 2) n []).0 ≤ sl - 3 =
          rw m (itoa_loop-moved base two sixteen (sl - 3) n positive) in
        let high = itoa_loop-room base two sixteen (sl - 2) n (sl - 3) [] fits' in
        let i = (itoa_loop base (sl - 2) n []).0 in
        let a : (i == sl - 2) ≡ false = ground arith in
        let b : (i == 0) ≡ false = ground arith in
        (
          (itoa_loop base (sl - 2) n []).1,
          sdb_itoa-loop (omega arith) ∙ rw (hexadecimal, a, b) refl,
          loop-Spells (sl - 2) wide,
        )
  ]

-- A string that is spelled leaves place for its terminating zero. Nothing is said where there is
-- none.
abbrev pub IsShort : ℕ → Spelled → Type 0
IsShort sl refused = Unit {0}
IsShort sl (spelled t) = length t < sl
IsShort sl overrun = Unit {0}

itoa_end-IsShort :
    (base imax i : ℕ) (out : List ℕ)
    → length out + i ≡ imax
    → IsShort (imax + 2) (itoa_end base imax (i, out))
unfolding itoa_end
itoa_end-IsShort base imax i out e = elim (Bool-cases (leb base 10)) [
  | inl decimal ↦ rw decimal (omega arith)
  | inr hexadecimal ↦ elim (Bool-cases (i == imax)) [
    | inl still ↦ rw (hexadecimal, still) (ground arith)
    | inr moved ↦ elim (Bool-cases (i == 0)) [
      | inl low ↦ rw (hexadecimal, moved, low) tt
      | inr high ↦ rw (hexadecimal, moved, high) (ground arith)
    ]
  ]
]

pub sdb_itoa-IsShort : (n base sl : ℕ) → IsShort sl (sdb_itoa n base sl)
unfolding sdb_itoa
sdb_itoa-IsShort n base sl = go (if base == 0 then 16 else base)
  where
    go :
        (b : ℕ)
        → IsShort sl (
            if sl == 0
            then overrun
            else if ltb 16 b
            then refused
            else if n == 0
            then spelled (if leb 2 sl then b'0' ∷ [] else [])
            else if sl == 1
            then (if leb b 10 then spelled [] else overrun)
            else itoa_end b (sl - 2) (itoa_loop b (sl - 2) n []))
    go b = elim (Bool-cases (sl == 0)) [
      | inl nothing ↦ rw nothing tt
      | inr some_room ↦ elim (Bool-cases (ltb 16 b)) [
        | inl large ↦ rw (some_room, large) tt
        | inr known ↦ elim (Bool-cases (n == 0)) [
          | inl zero_number ↦ elim (Bool-cases (leb 2 sl)) [
            | inl two ↦ rw (some_room, known, zero_number, two) (ground arith)
            | inr one ↦ rw (some_room, known, zero_number, one) (ground arith)
          ]
          | inr positive ↦ elim (Bool-cases (sl == 1)) [
            | inl one ↦ elim (Bool-cases (leb b 10)) [
              | inl decimal ↦ rw (some_room, known, positive, one, decimal) (ground arith)
              | inr hexadecimal ↦ rw (some_room, known, positive, one, hexadecimal) tt
            ]
            | inr long ↦
                let loop = itoa_loop b (sl - 2) n [] in
                let k =
                  itoa_end-IsShort b (sl - 2) loop.0 loop.1
                    (omega (arith, itoa_loop-length b (sl - 2) n [])) in
                let m : sl - 2 + 2 ≡ sl = ground arith in
                rw (some_room, known, positive, long) (rw m at k)
          ]
        ]
      ]
    ]

module _ (n base sl : ℕ) (two : 2 ≤ base) (sixteen : base ≤ 16) (long : 2 < sl) where
  sdb_itoa-zero : n ≡ 0 → sdb_itoa n base sl ≡ spelled (b'0' ∷ [])
  unfolding sdb_itoa
  sdb_itoa-zero z =
      let a : (base == 0) ≡ false = ground arith in
      let b : (sl == 0) ≡ false = ground arith in
      let c : ltb 16 base ≡ false = ground arith in
      let d : (n == 0) ≡ true = ground arith in
      let e : leb 2 sl ≡ true = ground arith in rw (a, b, c, d, e) refl

  sdb_itoa-outside : 10 < base → base ^ (sl - 3) ≤ n → sdb_itoa n base sl ≡ overrun
  unfolding itoa_end
  sdb_itoa-outside above large =
      let one = one-le-pow (sl - 3) base (omega arith) in
      let hexadecimal : leb base 10 ≡ false = ground arith in
      let m : sl - 2 ≡ suc (sl - 3) = omega arith in
      let full : (itoa_loop base (sl - 2) n []).0 ≡ 0 =
        rw m (itoa_loop-full base two sixteen (sl - 3) n [] large) in
      let moved : (0 == sl - 2) ≡ false = ground arith in
      sdb_itoa-loop n base sl two sixteen (omega arith) long ∙ rw (hexadecimal, full, moved) refl

  decimal_spelled :
      leb base 10 ≡ true → 0 < n → sdb_itoa n base sl ≡ spelled (itoa_loop base (sl - 2) n []).1
  unfolding itoa_end
  decimal_spelled decimal positive =
      sdb_itoa-loop n base sl two sixteen positive long ∙ rw decimal refl

  outside_only : sdb_itoa n base sl ≡ overrun → (10 < base) × (base ^ (sl - 3) ≤ n)
  outside_only e = elim (Bool-cases (n == 0)) [
    | inl nothing ↦ absurd (cc (e, sdb_itoa-zero (ground arith)))
    | inr some_number ↦ elim (Bool-cases (leb base 10)) [
      | inl decimal ↦ absurd (cc (e, decimal_spelled decimal (ground arith)))
      | inr hexadecimal ↦ elim (Bool-cases (ltb n (base ^ (sl - 3)))) [
        | inl fits ↦
            let room_fits : n < base ^ room base sl = rw hexadecimal (ground arith) in
            let (ds, run, _) = sdb_itoa-Spells n base sl two sixteen (ground arith) room_fits in
            absurd (cc (e, run))
        | inr large ↦ (ground arith, ground arith)
      ]
    ]
  ]

  -- In a buffer of three bytes or more, `sdb_itoa` writes in front of the buffer exactly where
  -- the base is above ten and the digits leave no place for `0x`; what it spells elsewhere fits
  -- with its terminating zero. The base is from 2 to 16.
  pub sdb_itoa-overrun :
      ((sdb_itoa n base sl ≡ overrun) ↔ ((10 < base) × (base ^ (sl - 3) ≤ n)))
      × ((t : List ℕ) → sdb_itoa n base sl ≡ spelled t → length t < sl)
  sdb_itoa-overrun = (
    (outside_only, (λ o. sdb_itoa-outside o.0 o.1)),
    (λ t run. subst (λ r. IsShort sl r) run (sdb_itoa-IsShort n base sl)),
  )
