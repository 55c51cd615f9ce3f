-- ===== src/Num.antt =====
-- src/num.c: numbers in the store, spelled in the base of the value that a key has.
pub mod Counters
use sdb.Base.{
  ℕ, ◌+◌, ◌-◌, ◌%◌, ◌^◌, Bool, true, false, not, ◌&&◌, ◌||◌, List, [], ◌∷◌, Option, none, some,
  and_then, ltb, ◌==◌, if◌then◌else◌, get_or, codes, str_eq,
}
use sdb.Ht.{Heap}
use sdb.Core.{Sdb, Value, or_empty, sdb_set}
use sdb.Core.Read.{sdb_const_get_len, sdb_get, str_of}
use sdb.Core.Ops.{cas_of, sdb_add}
use sdb.Numbers.{
  Spelled, refused, spelled, overrun, sdb_itoa, sdb_num_base, sdb_num_bufsz, is_decimal, sdb_atoi,
}

-- What `sdb_itoa` hands on. For the bases that `sdb_num_base` gives, `overrun` does not come up.
abbrev pub spelling : Spelled → Option (List ℕ)
spelling refused = none
spelling (spelled t) = some t
spelling overrun = none

-- The number in the base of a value.
unfoldable pub num_text : Option Value → ℕ → Option (List ℕ)
num_text o v = spelling (sdb_itoa v (sdb_num_base (str_of o)) sdb_num_bufsz)

unfoldable pub sdb_num_parse : Option (List ℕ) → ℕ
sdb_num_parse none = 0
sdb_num_parse (some v) = if get_or v 0 0 == b'-' then 0 else sdb_atoi (some v)

abbrev pub starts_decimal : Option (List ℕ) → Bool
starts_decimal none = false
starts_decimal (some o) = is_decimal (get_or o 0 0)

-- The version asked for is not the one that is there.
abbrev pub conflicts : ℕ → Option Value → Bool
conflicts cas o = not (cas == 0) && not (cas_of o == cas)

module _ ⦃heap : Heap⦄ where
  unfoldable pub sdb_num_exists : Sdb → ℕ → List ℕ → Option (Sdb × Bool)
  sdb_num_exists s now key =
      and_then (sdb_const_get_len s now (some key)) (λ r. some (r.0, starts_decimal (str_of r.1)))

  -- The number and the version.
  unfoldable pub sdb_num_get : Sdb → ℕ → List ℕ → Option (Sdb × (ℕ × ℕ))
  sdb_num_get s now key =
      and_then (sdb_const_get_len s now (some key))
        (λ r. some (r.0, (sdb_num_parse (str_of r.1), cas_of r.1)))

  unfoldable pub sdb_num_add : Sdb → ℕ → List ℕ → ℕ → ℕ → Option (Sdb × Bool)
  sdb_num_add s now key v cas =
      and_then (sdb_const_get_len s now (some key))
        (λ r. sdb_add r.0 (some key) (num_text r.1 v) cas)

  unfoldable pub sdb_num_set : Sdb → ℕ → List ℕ → ℕ → ℕ → Option (Sdb × Bool)
  sdb_num_set s now key v cas =
      and_then (sdb_const_get_len s now (some key))
        (λ r. sdb_set r.0 (some key) (num_text r.1 v) cas)

  -- A sum that wraps around is refused. What the set answers is not looked at.
  unfoldable pub sdb_num_inc : Sdb → ℕ → List ℕ → ℕ → ℕ → Option (Sdb × ℕ)
  sdb_num_inc s now key n2 cas = and_then (sdb_num_get s now key) (λ r.
      let n = r.1.0 in
      let res = (n + n2) % 2 ^ 64 in
      if (not (cas == 0) && not (r.1.1 == cas)) || ltb res n
      then some (r.0, 0)
      else and_then (sdb_num_set r.0 now key res cas) (λ t. some (t.0, res)))

  -- A difference below 0 stores 0.
  unfoldable pub sdb_num_dec : Sdb → ℕ → List ℕ → ℕ → ℕ → Option (Sdb × ℕ)
  sdb_num_dec s now key n2 cas = and_then (sdb_num_get s now key) (λ r.
      let n = r.1.0 in
      if not (cas == 0) && not (r.1.1 == cas)
      then some (r.0, 0)
      else (if ltb n n2
          then and_then (sdb_set r.0 (some key) (some (codes "0")) cas) (λ t. some (t.0, 0))
          else and_then (sdb_num_set r.0 now key (n - n2) cas) (λ t. some (t.0, n - n2))))

  unfoldable pub sdb_num_min : Sdb → ℕ → List ℕ → ℕ → ℕ → Option (Sdb × Bool)
  sdb_num_min db now k n cas = and_then (sdb_const_get_len db now (some k)) (λ r.
      let smaller : Bool = elim (str_of r.1) [ none ↦ true | some a ↦ ltb n (sdb_atoi (some a)) ] in
      if conflicts cas r.1
      then some (r.0, false)
      else (if smaller then sdb_num_set r.0 now k n cas else some (r.0, false)))

  unfoldable pub sdb_num_max : Sdb → ℕ → List ℕ → ℕ → ℕ → Option (Sdb × Bool)
  sdb_num_max db now k n cas = and_then (sdb_const_get_len db now (some k)) (λ r.
      let larger : Bool = elim (str_of r.1) [ none ↦ true | some a ↦ ltb (sdb_atoi (some a)) n ] in
      if conflicts cas r.1
      then some (r.0, false)
      else (if larger then sdb_num_set r.0 now k n cas else some (r.0, false)))

  unfoldable pub sdb_bool_set : Sdb → List ℕ → Bool → ℕ → Option (Sdb × Bool)
  sdb_bool_set db str v cas =
      sdb_set db (some str) (some (if v then codes "true" else codes "false")) cas

  unfoldable pub sdb_bool_get : Sdb → ℕ → List ℕ → Option (Sdb × Bool)
  sdb_bool_get db now str = and_then (sdb_const_get_len db now (some str)) (λ r.
      let yes : Bool = elim (str_of r.1) [
        | none ↦ false
        | some b ↦ str_eq b (codes "1") || str_eq b (codes "true")
      ] in
      some (r.0, yes))

-- Keys that are numbers: src/sdb.c spells them in hexadecimal.
unfoldable pub number_key : ℕ → Option (List ℕ)
number_key nkey = spelling (sdb_itoa nkey 16 sdb_num_bufsz)

module _ ⦃heap : Heap⦄ where
  unfoldable pub sdb_nget : Sdb → ℕ → ℕ → Option (Sdb × Option (List ℕ))
  sdb_nget s now nkey = sdb_get s now (number_key nkey)

  unfoldable pub sdb_nset : Sdb → ℕ → Option (List ℕ) → ℕ → Option (Sdb × Bool)
  sdb_nset s nkey val cas = sdb_set s (number_key nkey) val cas

  unfoldable pub sdb_nadd : Sdb → ℕ → Option (List ℕ) → ℕ → Option (Sdb × Bool)
  sdb_nadd s nkey val cas = sdb_add s (number_key nkey) val cas

  unfoldable pub sdb_nunset : Sdb → ℕ → ℕ → Option (Sdb × Bool)
  sdb_nunset s nkey cas = sdb_nset s nkey (some []) cas

  -- `sdb_itoa` spells every number in hexadecimal, so there always is a key.
  unfoldable pub sdb_num_nset : Sdb → ℕ → ℕ → ℕ → ℕ → Option (Sdb × Bool)
  sdb_num_nset s now nkey nval cas = sdb_num_set s now (or_empty (number_key nkey)) nval cas

  unfoldable pub sdb_num_nget : Sdb → ℕ → ℕ → Option (Sdb × (ℕ × ℕ))
  sdb_num_nget s now nkey = sdb_num_get s now (or_empty (number_key nkey))
