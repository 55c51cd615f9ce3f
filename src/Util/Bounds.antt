-- ===== src/Util/Bounds.antt =====
-- The hash of src/util.c is a number of 32 bits.
use Prim.Native.Nat.{bit_xor, bit_xor-bitwise, digits, differ}
use native.Mathlib.Nat.{pow-suc}
use sdb.Base.{
  ℕ, zero, suc, ◌+◌, ◌/◌, ◌%◌, ◌^◌, ◌<◌, List, [], ◌∷◌, ◌==◌, All, IsByte, arith, Bool-cases, inl,
  inr,
}
use sdb.Util.{hash_start, widen_char, hash_step, hash_loop, sdb_hash_len, sdb_hash}

differ-below : (x y : ℕ) → x < 2 → y < 2 → differ x y < 2
differ-below zero y p q = q
differ-below (suc x) zero p q = p
differ-below (suc x) (suc y) p q = differ-below x y (omega arith) (omega arith)

digits-below : (k n a b : ℕ) → a < 2 ^ k → b < 2 ^ k → digits (λ b. b) differ n a b < 2 ^ k
digits-below k zero a b p q = q
digits-below k (suc n) zero b p q = q
digits-below zero (suc n) (suc a) b p q = absurd (omega arith)
digits-below (suc k) (suc n) (suc a) b p q =
    let e = pow-suc 2 k in
    omega (
      arith,
      e,
      digits-below k n (suc a / 2) (b / 2) (omega (arith, e)) (omega (arith, e)),
      differ-below (suc a % 2) (b % 2) (omega arith) (omega arith),
    )

bit_xor-below : (k a b : ℕ) → a < 2 ^ k → b < 2 ^ k → bit_xor a b < 2 ^ k
bit_xor-below k a b p q = rw bit_xor-bitwise (digits-below k a a b p q)

hash_step-below : (h c : ℕ) → IsByte c → hash_step h c < 2 ^ 32
unfolding hash_step widen_char
hash_step-below h c byte = bit_xor-below 32 _ _ (omega arith) (ground arith)

hash_loop-below : (h n : ℕ) (s : List ℕ) → h < 2 ^ 32 → All IsByte s → (hash_loop h n s).0 < 2 ^ 32
unfolding hash_loop
hash_loop-below h n [] small bytes = small
hash_loop-below h n (c ∷ s) small (byte, bytes) = elim (Bool-cases (c == 0)) [
  | inl end ↦ rw end small
  | inr more ↦ rw more (hash_loop-below (hash_step h c) (n + 1) s (hash_step-below h c byte) bytes)
]

pub sdb_hash-below : (s : List ℕ) → All IsByte s → sdb_hash s < 2 ^ 32
unfolding sdb_hash sdb_hash_len
sdb_hash-below s bytes = hash_loop-below hash_start 0 s (omega arith) bytes
