-- ===== src/Num/Counters.antt =====
-- The numbers of src/num.c: what is stored is read back, and counting goes up until it would wrap
-- around.
use native.Mathlib.Nat.{mod-eq_of_lt}
use mathlib.Core.Path.{subst}
use sdb.Base.{
  ℕ, suc, ◌+◌, ◌-◌, ◌%◌, ◌^◌, ◌≤◌, ◌<◌, ◌≡◌, ◌⊎◌, refl, ◌∙◌, Bool, true, false, not, ◌&&◌, List, [],
  ◌∷◌, Option, none, some, ltb, ◌==◌, if◌then◌else◌, length, get_or, arith, Bool-cases, inl, inr,
}
use sdb.Ht.{Heap}
use sdb.Ht.Entries.{same}
use sdb.Ht.State.{view}
use sdb.Ht.Insert.{IsReady}
use sdb.SdbHt.{record_options}
use sdb.SdbHt.Laws.{record_laws}
use sdb.Core.{Sdb, sdb_ksz, sdb_vsz, sdb_set}
use sdb.Core.Read.{str_of}
use sdb.Core.Lookups.{non_empty, reads, forgets, expired_record, sdb_set_internal-reads}
use sdb.Core.Answers.{sdb_const_get_len-live, sdb_const_get_len-found}
use sdb.Core.Ops.{cas_of}
use sdb.Numbers.{spelled, sdb_itoa, sdb_num_base, sdb_num_bufsz, sdb_atoi, strtoull}
use sdb.Numbers.Spelling.{IsShort, sdb_itoa-IsShort}
use sdb.Numbers.Reading.{sdb_itoa-sdb_atoi}
use sdb.Num.{num_text, sdb_num_parse, sdb_num_get, sdb_num_set, sdb_num_inc}

-- What a set of a live key leaves: the store that every other key reads from as before.
abbrev pub Stored : ⦃heap : Heap⦄ → Sdb → ℕ → List ℕ → List ℕ → Sdb → Type 0
Stored s now key val r =
    IsReady r.ht
    × ((q : List ℕ)
        → str_of (reads r now q)
          ≡ (if same record_options q key then non_empty val else str_of (reads s now q)))

sdb_num_base-known :
    (o : Option (List ℕ))
    → (sdb_num_base o == 8) ≡ false
    → (sdb_num_base o ≡ 10) ⊎ (sdb_num_base o ≡ 16)
unfolding sdb_num_base
sdb_num_base-known none h = inr refl
sdb_num_base-known (some s) h = elim (Bool-cases (get_or s 0 0 == b'0' && get_or s 1 0 == b'x')) [
  | inl hexadecimal ↦ inr (rw hexadecimal refl)
  | inr other ↦ elim (Bool-cases (get_or s 0 0 == b'0' && not (get_or s 1 0 == 0))) [
    | inl octal ↦ cc (rw (other, octal) at h)
    | inr decimal ↦ inl (rw (other, decimal) refl)
  ]
]

num_parse-atoi : (t : List ℕ) → sdb_num_parse (some t) ≡ sdb_atoi (some t)
unfolding sdb_num_parse sdb_atoi
num_parse-atoi t = elim (Bool-cases (get_or t 0 0 == b'-')) [
  | inl minus ↦ rw minus refl
  | inr other ↦ rw other refl
]

strtoull-lt : (s : List ℕ) → strtoull s < 2 ^ 64
unfolding strtoull
strtoull-lt [] = omega arith
strtoull-lt (c ∷ s) = ground (arith, strtoull-lt s)

num_parse-lt : (o : Option (List ℕ)) → sdb_num_parse o < 2 ^ 64
unfolding sdb_num_parse sdb_atoi
num_parse-lt none = omega arith
num_parse-lt (some v) = ground (arith, strtoull-lt v)

-- What is spelled for a base that is read back.
abbrev IsWritten : ℕ → ℕ → List ℕ → Type 0
IsWritten n base t =
    (sdb_itoa n base sdb_num_bufsz ≡ spelled t)
    × (non_empty t ≡ some t)
    × (length t < sdb_vsz)
    × (sdb_num_parse (some t) ≡ n)

written :
    (n : ℕ) (o : Option (List ℕ))
    → n < 2 ^ 64
    → (sdb_num_base o == 8) ≡ false
    → (t : List ℕ) × IsWritten n (sdb_num_base o) t
written n o fits base =
    let (c, t, run, back) = sdb_itoa-sdb_atoi n (sdb_num_base o) fits (sdb_num_base-known o base) in
    let room : suc (length t) < sdb_num_bufsz =
      subst (λ r. IsShort sdb_num_bufsz r) run
        (sdb_itoa-IsShort n (sdb_num_base o) sdb_num_bufsz) in
    (c ∷ t, (run, refl, omega arith, num_parse-atoi (c ∷ t) ∙ back))

module _ ⦃heap : Heap⦄ (grants : (n : ℕ) → heap.grants n ≡ true) (s : Sdb) (now : ℕ) (key : List ℕ)
    (ready : IsReady s.ht) (small : s.ht.size < 2 ^ 31) (small_key : length key < sdb_ksz)
    (kept_there : forgets s key ≡ false) (live : expired_record s now (view s.ht key) ≡ false) where
  -- A number of 64 bits that is stored over a value that is not in octal is read back, and
  -- every other key reads as before. The key's record has not expired, the disk does not make
  -- the store forget the key, the table is ready and its size is below 2^31, the key is shorter
  -- than SDB_KSZ, no version is asked for, and every allocation is granted.
  pub sdb_num_set-sdb_num_get :
      (v : ℕ)
      → v < 2 ^ 64
      → (sdb_num_base (str_of (reads s now key)) == 8) ≡ false
      → (r : Sdb) × (ok : Bool) × (cas : ℕ) × (sdb_num_set s now key v 0 ≡ some (r, ok))
        × (sdb_num_get r now key ≡ some (r, (v, cas)))
        × ((q : List ℕ)
            → same record_options q key ≡ false
            → str_of (reads r now q) ≡ str_of (reads s now q))
  unfolding sdb_num_set sdb_num_get num_text sdb_set
  sdb_num_set-sdb_num_get v fits base =
      let (t, (run, some_text, short, back)) = written v (str_of (reads s now key)) fits base in
      let (r, n, set, ready', all) =
        sdb_set_internal-reads grants s now key t false ready small small_key short kept_there
          live in
      let here : str_of (reads r now key) ≡ some t =
        all key ∙ rw (record_laws.same_refl key) some_text in
      (
        r,
        not (n == 0),
        cas_of (reads r now key),
        rw (sdb_const_get_len-live s now key ready live, run, set) refl,
        rw (sdb_const_get_len-found r now key ready' t here, here, back) refl,
        (λ q other. all q ∙ rw other refl),
      )

  num_get-live :
      sdb_num_get s now key
      ≡ some (s, (sdb_num_parse (str_of (reads s now key)), cas_of (reads s now key)))
  unfolding sdb_num_get
  num_get-live = rw (sdb_const_get_len-live s now key ready live) refl

  -- An increment of the number that a key has, with no version asked for. Below 2^64 the sum is
  -- returned, stored and read back; from there on 0 is returned and the store is left as it is.
  -- The value is not in octal, the key's record has not expired, the disk does not make the
  -- store forget the key, the table is ready and its size is below 2^31, the key is shorter
  -- than SDB_KSZ, and every allocation is granted.
  pub sdb_num_inc-sum :
      (n2 : ℕ)
      → n2 < 2 ^ 64
      → (sdb_num_base (str_of (reads s now key)) == 8) ≡ false
      → let n = sdb_num_parse (str_of (reads s now key)) in
        (n + n2 < 2 ^ 64
          → (r : Sdb) × (cas : ℕ) × (sdb_num_inc s now key n2 0 ≡ some (r, n + n2))
            × (sdb_num_get r now key ≡ some (r, (n + n2, cas))))
        × (2 ^ 64 ≤ n + n2 → sdb_num_inc s now key n2 0 ≡ some (s, 0))
  unfolding sdb_num_inc
  sdb_num_inc-sum n2 small_n2 base =
      let n = sdb_num_parse (str_of (reads s now key)) in
      let bound : n < 2 ^ 64 = num_parse-lt (str_of (reads s now key)) in
      (
        (λ fits.
            let (r, ok, cas, set, get, _) = sdb_num_set-sdb_num_get (n + n2) fits base in
            let res : (n + n2) % 2 ^ 64 ≡ n + n2 = mod-eq_of_lt fits in
            let up : ltb (n + n2) n ≡ false = ground arith in
            (r, cas, rw (num_get-live, res, up, set) refl, get)),
        (λ wraps.
            let res : (n + n2) % 2 ^ 64 ≡ n + n2 - 2 ^ 64 = omega arith in
            let down : ltb (n + n2 - 2 ^ 64) n ≡ true = ground arith in
            rw (num_get-live, res, down) refl),
      )
