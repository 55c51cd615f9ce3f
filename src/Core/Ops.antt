-- ===== src/Core/Ops.antt =====
-- src/sdb.c: the operations that are made of a lookup and a set. `strlen`, `strstr` and the copies
-- are written out; a version of 0 asks for none.
use sdb.Base.{
  ℕ, zero, suc, ◌+◌, Bool, true, false, not, ◌&&◌, ◌||◌, List, [], ◌∷◌, ◌++◌, Option, none, some,
  and_then, ◌==◌, if◌then◌else◌, length, take, c_string,
}
use sdb.Ht.{Heap}
use sdb.Core.{Sdb, Value, is_empty, sdb_set, sdb_set_owned, sdb_unset}
use sdb.Core.Read.{sdb_const_get_len, sdb_get, sdb_exists}

-- The version that a lookup stores through its pointer.
abbrev pub cas_of : Option Value → ℕ
cas_of none = 0
cas_of (some v) = v.cas

-- What stands behind a prefix, if the text starts with it.
unfoldable pub strip : List ℕ → List ℕ → Option (List ℕ)
strip [] t = some t
strip (c ∷ p) [] = none
strip (c ∷ p) (d ∷ t) = let rest = strip p t in if c == d then rest else none

-- `strstr (v, value)` and the `memmove`: the text without its first occurrence.
unfoldable pub cut_out : List ℕ → List ℕ → Option (List ℕ)
cut_out value [] = strip value []
cut_out value (c ∷ v) =
    let here = strip value (c ∷ v) in
    let later = cut_out value v in
    elim here [
      | some rest ↦ some rest
      | none ↦ elim later [ none ↦ none | some rest ↦ some (c ∷ rest) ]
    ]

-- The loop, with what it keeps in `mod`. `none` is fuel that ran out.
unfoldable pub uncat_loop : ℕ → Bool → List ℕ → List ℕ → Option (Bool × List ℕ)
uncat_loop zero changed value v = none
uncat_loop (suc fuel) changed value v = elim (cut_out value v) [
  | none ↦ some (changed, v)
  | some rest ↦ uncat_loop fuel true value rest
]

-- An empty value is not looked for.
unfoldable pub uncat : List ℕ → List ℕ → Option (Bool × List ℕ)
uncat value v =
    if is_empty value then some (false, v) else uncat_loop (suc (length v)) false value v

-- The first `kl` bytes at a string, and a text behind them.
abbrev pub concat_text : Value → List ℕ → List ℕ
concat_text p value = c_string (take p.vlen (p.str ++ 0 ∷ []) ++ value)

module _ ⦃heap : Heap⦄ where
  unfoldable pub sdb_add : Sdb → Option (List ℕ) → Option (List ℕ) → ℕ → Option (Sdb × Bool)
  sdb_add s key val cas = if sdb_exists s key then some (s, false) else sdb_set s key val cas

  -- The two steps on the store, once the old key has a value.
  abbrev rename_value : Sdb → List ℕ → List ℕ → List ℕ → ℕ → Option (Sdb × Bool)
  rename_value s oldkey newkey value cas =
      and_then (sdb_unset s (some oldkey) cas)
        (λ r. if r.1 then sdb_set_owned r.0 (some newkey) (some value) 0 else some (r.0, false))

  unfoldable pub sdb_rename : Sdb → ℕ → Option (List ℕ) → Option (List ℕ) → ℕ → Option (Sdb × Bool)
  sdb_rename s now none newkey cas = some (s, false)
  sdb_rename s now (some oldkey) none cas = some (s, false)
  sdb_rename s now (some oldkey) (some newkey) cas = and_then (sdb_get s now (some oldkey)) (λ r.
      elim r.1 [ none ↦ some (r.0, false) | some value ↦ rename_value r.0 oldkey newkey value cas ])

  -- The value behind one that is there.
  abbrev concat_value : Sdb → List ℕ → List ℕ → Value → ℕ → Option (Sdb × Bool)
  concat_value s key value p cas =
      if heap.grants (p.vlen + length value + 1)
      then sdb_set_owned s (some key) (some (concat_text p value)) cas
      else some (s, false)

  unfoldable pub sdb_concat : Sdb → ℕ → Option (List ℕ) → Option (List ℕ) → ℕ → Option (Sdb × Bool)
  sdb_concat s now none value cas = some (s, false)
  sdb_concat s now (some key) none cas = some (s, false)
  sdb_concat s now (some key) (some value) cas =
      if is_empty key || is_empty value
      then some (s, false)
      else and_then (sdb_const_get_len s now (some key)) (λ r. elim r.1 [
        | none ↦ sdb_set r.0 (some key) (some value) cas
        | some p ↦ concat_value r.0 key value p cas
      ])

  abbrev uncat_value : Sdb → List ℕ → List ℕ → List ℕ → ℕ → Option (Sdb × Bool)
  uncat_value s key value v cas =
      and_then (uncat value v)
        (λ u. if u.0 then sdb_set_owned s (some key) (some u.1) cas else some (s, false))

  unfoldable pub sdb_uncat : Sdb → ℕ → Option (List ℕ) → Option (List ℕ) → ℕ → Option (Sdb × Bool)
  sdb_uncat s now none value cas = some (s, false)
  sdb_uncat s now (some key) none cas =
      and_then (sdb_const_get_len s now (some key)) (λ r. some (r.0, false))
  sdb_uncat s now (some key) (some value) cas = and_then (sdb_const_get_len s now (some key)) (λ r.
      elim r.1 [
        | none ↦ some (r.0, false)
        | some p ↦
            if not (cas == 0) && not (p.cas == cas)
            then some (r.0, false)
            else uncat_value r.0 key value p.str cas
      ])
