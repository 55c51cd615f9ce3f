-- ===== src/HtKeys/Laws.antt =====
-- The options of src/ht_pp.c and src/ht_up.c against the laws of keys, and the tables that their
-- `new_size` makes.
use sdb.Base.{
  ℕ, suc, ◌+◌, ◌-◌, ◌*◌, ◌%◌, ◌^◌, ◌≤◌, ◌<◌, ◌≡◌, inl, inr, refl, sym, ap, ◌∙◌, true, List, [], ◌∷◌,
  none, some, not, ◌&&◌, ltb, ◌==◌, if◌then◌else◌, length, get_or, str_eq_iff, str_eq_refl, arith,
  Bool-cases,
}
use sdb.Ht.{
  Options, Heap, Ht, ht_primes_sizes, prime, primes_count, ut32_max, compute_size, value_of,
}
use sdb.Ht.Entries.{same, KeyLaws}
use mathlib.Core.Path.{subst}
use sdb.Base.Tables.{same_below, same_below→eq}
use sdb.Ht.Sizes.{IsSized}
use sdb.Ht.State.{blank, blank-IsValid, view-blank}
use sdb.Ht.Grow.{internal_ht_new-blank}
use sdb.Ht.Insert.{find-view}
use sdb.Ht.Laws.{Finds}
use sdb.HtKeys.{string_options, number_options, size_idx, new_size}

module _ {V : Type 0} (valdup : V → V) (calcsize_v : V → ℕ) where
  pub str_same : (a b : List ℕ) → same (string_options valdup calcsize_v) a b ≡ true → a ≡ b
  str_same a b e = (str_eq_iff a b).0 (ground arith)

  same_str : (a b : List ℕ) → a ≡ b → same (string_options valdup calcsize_v) a b ≡ true
  same_str a b e = rw e (let t = str_eq_refl b in ground arith)

  -- Under the options of a table of strings being one key is an equivalence, two strings that
  -- are one key have one hash, and the copy of a key is one key with it.
  pub string_options-KeyLaws : KeyLaws (string_options valdup calcsize_v)
  string_options-KeyLaws = record {
    same_refl = λ a. same_str a a refl;
    same_symm = λ a b e. same_str b a (sym (str_same a b e));
    same_trans = λ a b c e f. same_str a c (str_same a b e ∙ str_same b c f);
    hash_same = λ a b e. ap (string_options valdup calcsize_v).hashfn (str_same a b e);
    dup_same = λ a. same_str a a refl;
  }

  -- So do those of a table of numbers.
  pub number_options-KeyLaws : KeyLaws (number_options valdup calcsize_v)
  number_options-KeyLaws = record {
    same_refl = λ a. ground arith;
    same_symm = λ a b e. ground arith;
    same_trans = λ a b c e f. ground arith;
    hash_same = λ a b e. let s : a ≡ b = ground arith in rw s refl;
    dup_same = λ a. ground arith;
  }

-- The loop of `new_size` stops at the first size that is large enough, or behind the last one.
size_idx_lem :
    (ps : List ℕ) (i n : ℕ)
    → (i ≤ size_idx ps i n)
      × (size_idx ps i n ≤ i + length ps)
      × (size_idx ps i n < i + length ps → n ≤ get_or ps (size_idx ps i n - i) 0)
unfolding size_idx
size_idx_lem [] i n = (omega arith, omega arith, λ lt. absurd (omega arith))
size_idx_lem (p ∷ ps) i n = elim (Bool-cases (ltb p n)) [
  | inl small ↦
      let (low, high, large) = size_idx_lem ps (i + 1) n in
      let index : size_idx ps (i + 1) n - i ≡ suc (size_idx ps (i + 1) n - (i + 1)) = omega arith in
      rw small (omega arith, omega arith, λ lt. rw index (large (omega arith)))
  | inr fits ↦
      let here : i - i ≡ 0 = omega arith in
      rw fits (omega arith, omega arith, λ _. rw here (ground arith))
]

prime_pos : (i : ℕ) → i < primes_count → 0 < prime i
prime_pos i h =
    let t =
      same_below→eq (λ n. if ltb 0 (prime n) then 1 else 0) (λ _. 1) primes_count
        (unfold prime same_below in refl) i h in
    ground arith

-- The size and the index that `new_size` starts with.
chosen_lem :
    (i n : ℕ)
    → i ≤ primes_count
    → (i < primes_count → n ≤ prime i)
    → n < 2 ^ 32
    → let idx = if i == primes_count then ut32_max else i in
      let size = compute_size idx (n * 1 % 2 ^ 32) in (n ≤ size) × (0 < size) × IsSized idx size
unfolding compute_size
chosen_lem i n high large bound = elim (Bool-cases (i == primes_count)) [
  | inl over ↦ rw over (ground arith, ground arith, inr refl)
  | inr found ↦
      let low : i < primes_count = ground arith in
      let inside : (not (i == ut32_max) && ltb i primes_count) ≡ true = ground arith in
      rw (found, inside) (large low, prime_pos i low, inl (low, refl))
]

size_idx-primes :
    (n : ℕ)
    → (size_idx ht_primes_sizes 0 n ≤ primes_count)
      × (size_idx ht_primes_sizes 0 n < primes_count → n ≤ prime (size_idx ht_primes_sizes 0 n))
unfolding prime
size_idx-primes n =
    let (low, high, large) = size_idx_lem ht_primes_sizes 0 n in
    let index : size_idx ht_primes_sizes 0 n - 0 ≡ size_idx ht_primes_sizes 0 n = omega arith in
    (high, λ lt. subst (λ (j : ℕ). n ≤ get_or ht_primes_sizes j 0) index (large lt))

module _ {ℓ} {K V : Type ℓ} ⦃opt : Options K V⦄ ⦃heap : Heap⦄ (laws : KeyLaws opt)
    (grants : (n : ℕ) → heap.grants n ≡ true) where
  -- A table that is made for `n` entries, for an `n` below 2^32, has `n` buckets at least, is
  -- ready, has no entries, and finds nothing. The options keep the laws of keys, and every
  -- allocation is granted.
  pub new_size-Finds :
      (n : ℕ)
      → n < 2 ^ 32
      → (r : Ht K V) × (new_size n ≡ some r) × (n ≤ r.size) × Finds r 0 (λ q. none)
  unfolding new_size
  new_size-Finds n bound =
      let i = size_idx ht_primes_sizes 0 n in
      let idx = if i == primes_count then ut32_max else i in
      let size = compute_size idx (n * 1 % 2 ^ 32) in
      let (high, large) = size_idx-primes n in
      let (fits, pos, sized) = chosen_lem i n high large bound in
      let v = blank-IsValid size idx pos sized in
      (
        blank size idx,
        internal_ht_new-blank laws grants size idx,
        fits,
        record {
          ready = record { valid = v; open_slots = pos };
          count = refl;
          finds = λ q. find-view (blank size idx) v q ∙ ap value_of (view-blank size idx q);
        },
      )
