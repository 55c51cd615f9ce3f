-- ===== src/Util.antt =====
-- src/util.c and include/sdb/sdb.h: the hash of strings. A string is the list of its bytes.
pub mod Bounds
use Prim.Native.Nat.{bit_xor}
use sdb.Base.{ℕ, ◌+◌, ◌-◌, ◌*◌, ◌%◌, ◌^◌, List, [], ◌∷◌, ltb, ◌==◌, if◌then◌else◌}

-- `CDB_HASHSTART`
abbrev pub hash_start : ℕ
hash_start = 5381

-- A `char` as an `unsigned int`, where `char` is signed.
unfoldable pub widen_char : ℕ → ℕ
widen_char c = if ltb c 128 then c else c + (2 ^ 32 - 256)

-- `h = (h + (h << 5)) ^ *s++`
unfoldable pub hash_step : ℕ → ℕ → ℕ
hash_step h c = bit_xor ((h + h * 2 ^ 5 % 2 ^ 32) % 2 ^ 32) (widen_char c)

-- The hash of what follows and the number of its characters.
unfoldable pub hash_loop : ℕ → ℕ → List ℕ → ℕ × ℕ
hash_loop h count [] = (h, count)
hash_loop h count (c ∷ s) =
    let rest = hash_loop (hash_step h c) (count + 1) s in if c == 0 then (h, count) else rest

unfoldable pub sdb_hash_len : List ℕ → ℕ × ℕ
sdb_hash_len s = hash_loop hash_start 0 s

unfoldable pub sdb_hash : List ℕ → ℕ
sdb_hash s = (sdb_hash_len s).0
