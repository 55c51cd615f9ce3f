-- ===== src/Ht/Sizes.antt =====
-- The sizes that the tables of src/ht.inc.c go through.
use sdb.Base.{
  ℕ, zero, suc, ◌+◌, ◌*◌, ◌%◌, ◌^◌, ◌<◌, ◌≡◌, ◌⊎◌, inl, inr, refl, Bool, true, ◌&&◌, ltb, arith,
  Bool-cases,
}
use sdb.Ht.{prime, primes_count, ut32_max, next_idx, compute_size}

-- The index is that of the size in the table of primes, or says that the table is used up.
abbrev pub IsSized : ℕ → ℕ → Type 0
IsSized idx size = ((idx < primes_count) × (size ≡ prime idx)) ⊎ (idx ≡ ut32_max)

rises : (ℕ → ℕ) → ℕ → Bool
rises f zero = true
rises f (suc n) = ltb (f n) (f (n + 1)) && rises f n

rises_sound : (f : ℕ → ℕ) (n i : ℕ) → rises f n ≡ true → i < n → f i < f (i + 1)
unfolding rises
rises_sound f zero i e h = absurd (omega arith)
rises_sound f (suc n) i e h = ground (arith, rises_sound f n i)

prime-lt-next : (i : ℕ) → i < 71 → prime i < prime (i + 1)
prime-lt-next i h = rises_sound prime 71 i (unfold rises prime in refl) h

-- The size that a growing table takes is larger, and of a table whose index fits it.
pub compute_size-lt :
    (idx size : ℕ)
    → IsSized idx size
    → size < 2 ^ 31
    → (size < compute_size (next_idx idx) (size * 2 % 2 ^ 32))
      × IsSized (next_idx idx) (compute_size (next_idx idx) (size * 2 % 2 ^ 32))
unfolding next_idx compute_size
compute_size-lt idx size h small = elim (Bool-cases (ltb idx 71)) [
  | inl low ↦ (ground (arith, prime-lt-next idx), inl (ground arith))
  | inr high ↦ (ground arith, inr (ground arith))
]
