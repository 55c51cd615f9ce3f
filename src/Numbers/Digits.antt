-- ===== src/Numbers/Digits.antt =====
-- The digits that the loop of `sdb_itoa` in src/util.c writes.
use native.Mathlib.Nat.{one-le-pow, mod-lt, div-add-mod', div-lt_iff_lt-mul, pow-suc, pow-zero}
use sdb.Base.{
  ℕ, zero, suc, ◌+◌, ◌-◌, ◌*◌, ◌/◌, ◌%◌, ◌^◌, ◌≤◌, ◌<◌, ◌≡◌, refl, ap, ◌∙◌, Bool, true, false, ◌&&◌,
  ◌||◌, List, [], ◌∷◌, ltb, leb, ◌==◌, if◌then◌else◌, get_or, length, All, arith, Bool-cases, inl,
  inr,
}
use sdb.Numbers.{digit_table, digit, is_decimal, itoa_loop}

abbrev pub digit_value : ℕ → ℕ
digit_value c = if leb c b'9' then c - b'0' else c - b'a' + 10

-- A digit of the base, in lower case.
abbrev pub is_digit : ℕ → ℕ → Bool
is_digit base c = (is_decimal c || (leb b'a' c && leb c b'f')) && ltb (digit_value c) base

-- The number that digits spell behind `v`.
unfoldable pub value : ℕ → ℕ → List ℕ → ℕ
value base v [] = v
value base v (c ∷ ds) = value base (v * base + digit_value c) ds

-- The digits stand in the table in their order, from `k` on.
abbrev in_order : ℕ → List ℕ → Bool
in_order k [] = true
in_order k (c ∷ ds) = (digit_value c == k && is_digit 16 c) && in_order (k + 1) ds

in_order-get_or :
    (k : ℕ) (ds : List ℕ) (d : ℕ)
    → in_order k ds ≡ true
    → d < length ds
    → (digit_value (get_or ds d 0) ≡ k + d) × (is_digit 16 (get_or ds d 0) ≡ true)
in_order-get_or k [] d ok h = absurd (omega arith)
in_order-get_or k (c ∷ ds) zero ok h = ground arith
in_order-get_or k (c ∷ ds) (suc d) ok h =
    let (v, g) = in_order-get_or (k + 1) ds d (ground arith) (omega arith) in (omega arith, g)

digit_table-value :
    (d : ℕ)
    → d < 16
    → (digit_value (get_or digit_table d 0) ≡ d) × (is_digit 16 (get_or digit_table d 0) ≡ true)
digit_table-value d h = let (v, g) = in_order-get_or 0 digit_table d refl h in (omega arith, g)

pub below_one : (base n : ℕ) → n < base ^ 0 → n ≡ 0
below_one base n h = let k = rw (pow-zero base) at h in omega arith

pub itoa_loop-length :
    (base i n : ℕ) (out : List ℕ)
    → length (itoa_loop base i n out).1 + (itoa_loop base i n out).0 ≡ i + length out
unfolding itoa_loop
itoa_loop-length base zero n out = omega arith
itoa_loop-length base (suc i) n out = elim (Bool-cases (n == 0)) [
  | inl done ↦ rw done (omega arith)
  | inr more ↦
      rw more (omega (arith, itoa_loop-length base i (n / base) (digit base (n % base) ∷ out)))
]

module _ (base : ℕ) (two : 2 ≤ base) (sixteen : base ≤ 16) where
  digit-value :
      (d : ℕ) → d < base → (digit_value (digit base d) ≡ d) × (is_digit base (digit base d) ≡ true)
  digit-value d h = elim (Bool-cases (leb base 10)) [
    | inl decimal ↦ rw decimal (ground arith, ground arith)
    | inr hexadecimal ↦
        let (v, g) = digit_table-value d (omega arith) in rw hexadecimal (v, ground arith)
  ]

  last_digit : (n : ℕ) → digit_value (digit base (n % base)) ≡ n % base
  last_digit n = (digit-value (n % base) (mod-lt n (omega arith))).0

  joined : (n : ℕ) → n / base * base + digit_value (digit base (n % base)) ≡ n
  joined n = rw (last_digit n) (div-add-mod' n base)

  smaller : (n i : ℕ) → n < base ^ suc i → n / base < base ^ i
  smaller n i h = (div-lt_iff_lt-mul (omega arith)).1 (rw pow-suc at h)

  -- Reading what the loop writes goes on from the number that it was given.
  pub itoa_loop-value :
      (i n : ℕ) (out : List ℕ)
      → n < base ^ i
      → value base 0 (itoa_loop base i n out).1 ≡ value base n out
  unfolding itoa_loop value
  itoa_loop-value zero n out h = let e : n ≡ 0 = below_one base n h in rw e refl
  itoa_loop-value (suc i) n out h = elim (Bool-cases (n == 0)) [
    | inl done ↦ let e : n ≡ 0 = ground arith in rw (done, e) refl
    | inr more ↦ rw more (
        itoa_loop-value i (n / base) (digit base (n % base) ∷ out) (smaller n i h)
        ∙ ap (λ (v : ℕ). value base v out) (joined n))
  ]

  pub itoa_loop-le : (i n : ℕ) (out : List ℕ) → (itoa_loop base i n out).0 ≤ i
  unfolding itoa_loop
  itoa_loop-le zero n out = omega arith
  itoa_loop-le (suc i) n out = elim (Bool-cases (n == 0)) [
    | inl done ↦ rw done (omega arith)
    | inr more ↦ rw more (omega (arith, itoa_loop-le i (n / base) (digit base (n % base) ∷ out)))
  ]

  pub itoa_loop-moved : (i n : ℕ) → 0 < n → (itoa_loop base (suc i) n []).0 ≤ i
  unfolding itoa_loop
  itoa_loop-moved i n positive =
      let more : (n == 0) ≡ false = ground arith in
      rw more (itoa_loop-le i (n / base) (digit base (n % base) ∷ []))

  -- A number below `base ^ k` takes `k` places at most.
  pub itoa_loop-room :
      (i n k : ℕ) (out : List ℕ) → n < base ^ k → i ≤ (itoa_loop base i n out).0 + k
  unfolding itoa_loop
  itoa_loop-room zero n k out h = omega arith
  itoa_loop-room (suc i) n zero out h =
      let e : (n == 0) ≡ true = (let z = below_one base n h in ground arith) in rw e (omega arith)
  itoa_loop-room (suc i) n (suc k) out h = elim (Bool-cases (n == 0)) [
    | inl done ↦ rw done (omega arith)
    | inr more ↦
        rw more (
          omega
            (arith, itoa_loop-room i (n / base) k (digit base (n % base) ∷ out) (smaller n k h)))
  ]

  -- A number from `base ^ k` on takes more than `k` places.
  pub itoa_loop-full :
      (k n : ℕ) (out : List ℕ) → base ^ k ≤ n → (itoa_loop base (suc k) n out).0 ≡ 0
  unfolding itoa_loop
  itoa_loop-full zero n out h =
      let k = pow-zero base in let more : (n == 0) ≡ false = ground arith in rw more refl
  itoa_loop-full (suc k) n out h =
      let wide : base ^ k * base ≤ n = rw pow-suc at h in
      let next : base ^ k ≤ n / base = elim (Bool-cases (ltb (n / base) (base ^ k))) [
        | inl small ↦
            let short : n / base < base ^ k = ground arith in
            let less : n < base ^ k * base = (div-lt_iff_lt-mul {k = base} (omega arith)).0 short in
            absurd (omega (arith, less))
        | inr large ↦ ground arith
      ] in
      let one = one-le-pow (suc k) base (omega arith) in
      let more : (n == 0) ≡ false = ground arith in
      rw more (itoa_loop-full k (n / base) (digit base (n % base) ∷ out) next)

  lone : (n : ℕ) → (n == 0) ≡ false → n / base ≡ 0 → 0 < digit_value (digit base (n % base))
  lone n more z =
      let pos : 0 < n = ground arith in
      let e = rw z at (div-add-mod' n base) in rw (last_digit n) (omega arith)

  -- The first digit is not 0.
  pub itoa_loop-leading :
      (i n : ℕ) (out : List ℕ)
      → n < base ^ i
      → (n ≡ 0 → 0 < digit_value (get_or out 0 b'0'))
      → 0 < digit_value (get_or (itoa_loop base i n out).1 0 b'0')
  unfolding itoa_loop
  itoa_loop-leading zero n out h lead = lead (below_one base n h)
  itoa_loop-leading (suc i) n out h lead = elim (Bool-cases (n == 0)) [
    | inl done ↦ rw done (lead (ground arith))
    | inr more ↦ rw more (
        itoa_loop-leading i (n / base) (digit base (n % base) ∷ out) (smaller n i h)
          (λ z. lone n more z))
  ]

  pub itoa_loop-digits :
      (i n : ℕ) (out : List ℕ)
      → All (λ c. is_digit base c ≡ true) out
      → All (λ c. is_digit base c ≡ true) (itoa_loop base i n out).1
  unfolding itoa_loop
  itoa_loop-digits zero n out all = all
  itoa_loop-digits (suc i) n out all = elim (Bool-cases (n == 0)) [
    | inl done ↦ rw done all
    | inr more ↦ rw more (
        itoa_loop-digits i (n / base) (digit base (n % base) ∷ out)
          ((digit-value (n % base) (mod-lt n (omega arith))).1, all))
  ]
