-- ===== src/HtKeys.antt =====
-- src/ht_pp.c and src/ht_up.c: the tables with strings and with numbers as keys.
pub mod Laws
use sdb.Base.{
  ℕ, zero, suc, ◌+◌, ◌*◌, ◌%◌, ◌^◌, Bool, List, [], ◌∷◌, Option, ltb, ◌==◌, if◌then◌else◌, length,
  str_eq,
}
use sdb.Util.{sdb_hash}
use sdb.Ht.{
  Options, Heap, Ht, ht_primes_sizes, primes_count, ut32_max, compute_size, internal_ht_new,
}

-- The options that `internal_ht_default_new` of src/ht_pp.c sets. Two strings are one key where
-- `strcmp` says so; the copy of a string is the string.
abbrev pub string_options : {V : Type 0} → (V → V) → (V → ℕ) → Options (List ℕ) V
string_options valdup calcsize_v = record {
  equal = str_eq;
  hashfn = sdb_hash;
  dupkey = λ k. k;
  dupval = valdup;
  calcsize_key = λ k. length k % 2 ^ 32;
  calcsize_val = calcsize_v;
}

-- The options that `internal_ht_default_new` of src/ht_up.c sets, with `KEY_TO_HASH`.
abbrev pub number_options : {V : Type 0} → (V → V) → (V → ℕ) → Options ℕ V
number_options valdup calcsize_v = record {
  equal = λ a b. a == b;
  hashfn = λ k. k % 2 ^ 32;
  dupkey = λ k. k;
  dupval = valdup;
  calcsize_key = λ k. 0;
  calcsize_val = calcsize_v;
}

-- The loop of `new_size` over the sizes from index `i` on.
unfoldable pub size_idx : List ℕ → ℕ → ℕ → ℕ
size_idx [] i initial_size = i
size_idx (p ∷ ps) i initial_size =
    let rest = size_idx ps (i + 1) initial_size in if ltb p initial_size then rest else i

module _ {ℓ} {K V : Type ℓ} ⦃opt : Options K V⦄ ⦃heap : Heap⦄ where
  unfoldable pub new_size : ℕ → Option (Ht K V)
  new_size initial_size =
      let i = size_idx ht_primes_sizes 0 initial_size in
      let idx = if i == primes_count then ut32_max else i in
      internal_ht_new (compute_size idx (initial_size * 1 % 2 ^ 32)) idx
