-- ===== src/Core/Appends.antt =====
-- `sdb_concat` and `sdb_uncat` of src/sdb.c, against what the key reads as.
use mathlib.Core.Bool.{true≢false}
use mathlib.Core.List.{append_assoc}
use sdb.Base.{
  ℕ, suc, ◌+◌, ◌^◌, ◌<◌, ◌≡◌, refl, ap, ◌∙◌, Bool, true, false, not, List, [], ◌∷◌, ◌++◌, Option,
  some, ◌==◌, if◌then◌else◌, length, take, All, c_string, length-append, take-append, arith,
  Bool-cases, inl, inr,
}
use sdb.Ht.{Heap}
use sdb.Ht.Entries.{same}
use sdb.Ht.State.{view}
use sdb.Ht.Insert.{IsReady}
use sdb.SdbHt.{record_options}
use sdb.Core.{Sdb, Value, is_empty, sdb_ksz, sdb_vsz, sdb_set_owned}
use sdb.Core.Read.{str_of}
use sdb.Core.Lookups.{non_empty, reads, forgets, expired_record, sdb_set_internal-reads}
use sdb.Core.Answers.{same_key, reads-live, sdb_const_get_len-found}
use sdb.Core.Ops.{concat_text, sdb_concat, sdb_uncat}
use sdb.Core.Uncat.{CutDown, Occurs, CutDown-length, uncat-Emptied}

abbrev pub Nonzero : List ℕ → Type 0
Nonzero = All (λ c. 0 < c)

pub c_string-Nonzero : (s : List ℕ) → Nonzero s → c_string s ≡ s
unfolding c_string
c_string-Nonzero [] all = refl
c_string-Nonzero (c ∷ s) (h, all) =
    let e : (c == 0) ≡ false = ground arith in
    rw e (ap (λ (t : List ℕ). c ∷ t) (c_string-Nonzero s all))

c_string-zero : (s t : List ℕ) → Nonzero s → c_string (s ++ 0 ∷ t) ≡ s
unfolding c_string
c_string-zero [] t all = refl
c_string-zero (c ∷ s) t (h, all) =
    let e : (c == 0) ≡ false = ground arith in
    rw e (ap (λ (u : List ℕ). c ∷ u) (c_string-zero s t all))

take-ended : (s : List ℕ) → take (suc (length s)) (s ++ 0 ∷ []) ≡ s ++ 0 ∷ []
take-ended [] = refl
take-ended (c ∷ s) = ap (λ (u : List ℕ). c ∷ u) (take-ended s)

-- A value whose length is that of its string is continued.
concat_text-whole :
    (p : Value) (value : List ℕ)
    → p.vlen ≡ length p.str
    → Nonzero (p.str ++ value)
    → concat_text p value ≡ p.str ++ value
concat_text-whole p value e all =
    rw (e, take-append p.str (0 ∷ [])) (c_string-Nonzero (p.str ++ value) all)

-- One whose length counts the terminating zero stays as it is.
concat_text-zero :
    (p : Value) (value : List ℕ)
    → p.vlen ≡ suc (length p.str)
    → Nonzero p.str
    → concat_text p value ≡ p.str
concat_text-zero p value e all =
    rw (e, take-ended p.str, append_assoc p.str (0 ∷ []) value) (c_string-zero p.str value all)

-- The key then reads as the text, and every other key as before.
abbrev pub LeavesText : Sdb → ℕ → List ℕ → Option (Sdb × Bool) → List ℕ → Type 0
LeavesText s now key o val =
    (r : Sdb) × (ok : Bool) × (o ≡ some (r, ok))
    × ((q : List ℕ)
        → str_of (reads r now q)
          ≡ (if same record_options q key then non_empty val else str_of (reads s now q)))

some-non_empty : (t : List ℕ) → is_empty t ≡ false → some t ≡ non_empty t
some-non_empty [] e = absurd (true≢false e)
some-non_empty (c ∷ t) e = refl

module _ ⦃heap : Heap⦄ (grants : (n : ℕ) → heap.grants n ≡ true) (s : Sdb) (now : ℕ) (c : ℕ)
    (cs : List ℕ) (ready : IsReady s.ht) (small : s.ht.size < 2 ^ 31)
    (small_key : length (c ∷ cs) < sdb_ksz) (kept_there : forgets s (c ∷ cs) ≡ false) where
  set_owned-reads :
      (val : List ℕ)
      → length val < sdb_vsz
      → expired_record s now (view s.ht (c ∷ cs)) ≡ false
      → (r : Sdb) × (ok : Bool) × (sdb_set_owned s (some (c ∷ cs)) (some val) 0 ≡ some (r, ok))
        × ((q : List ℕ)
            → str_of (reads r now q)
              ≡ (if same record_options q (c ∷ cs) then non_empty val else str_of (reads s now q)))
  unfolding sdb_set_owned
  set_owned-reads val small_val live =
      let (r, n, set, ready', all) =
        sdb_set_internal-reads grants s now (c ∷ cs) val true ready small small_key small_val
          kept_there live in
      (r, not (n == 0), rw set refl, all)

  concat-set :
      (v : Value) (x : ℕ) (xs : List ℕ)
      → reads s now (c ∷ cs) ≡ some v
      → sdb_concat s now (some (c ∷ cs)) (some (x ∷ xs)) 0
        ≡ sdb_set_owned s (some (c ∷ cs)) (some (concat_text v (x ∷ xs))) 0
  unfolding sdb_concat
  concat-set v x xs held =
      rw
        (
          sdb_const_get_len-found s now (c ∷ cs) ready v.str (rw held refl),
          held,
          grants (v.vlen + length (x ∷ xs) + 1),
        )
        refl

  -- A text that is put behind a value without a zero in it. Where the length of the value is
  -- that of its string, the key then reads as both; where it counts the terminating zero, the
  -- key reads as the value alone. Every other key reads as before. No version is asked for,
  -- neither key nor text is empty, the table is ready and its size is below 2^31, the key and
  -- the two texts together are shorter than SDB_KSZ and SDB_VSZ, the disk does not make the
  -- store forget the key, and every allocation is granted.
  pub sdb_concat-reads :
      (v : Value) (x : ℕ) (xs : List ℕ)
      → reads s now (c ∷ cs) ≡ some v
      → Nonzero (v.str ++ x ∷ xs)
      → Nonzero v.str
      → length (v.str ++ x ∷ xs) < sdb_vsz
      → (v.vlen ≡ length v.str
          → LeavesText s now
              (c ∷ cs)
              (sdb_concat s now (some (c ∷ cs)) (some (x ∷ xs)) 0)
              (v.str ++ x ∷ xs))
        × (v.vlen ≡ suc (length v.str)
            → LeavesText s now (c ∷ cs) (sdb_concat s now (some (c ∷ cs)) (some (x ∷ xs)) 0) v.str)
  sdb_concat-reads v x xs held both own short =
      let live = reads-live s now (c ∷ cs) ready v.str (rw held refl) in
      (
        (λ e.
            let (r, ok, run, all) = set_owned-reads (v.str ++ x ∷ xs) short live in
            (r, ok, concat-set v x xs held ∙ rw (concat_text-whole v (x ∷ xs) e both) run, all)),
        (λ e.
            let (r, ok, run, all) =
              set_owned-reads v.str (omega (arith, length-append v.str (x ∷ xs))) live in
            (r, ok, concat-set v x xs held ∙ rw (concat_text-zero v (x ∷ xs) e own) run, all)),
      )

  -- A value that is not empty is what the key reads as.
  unchanged-reads :
      (v : Value)
      → reads s now (c ∷ cs) ≡ some v
      → is_empty v.str ≡ false
      → (q : List ℕ)
      → str_of (reads s now q)
        ≡ (if same record_options q (c ∷ cs) then non_empty v.str else str_of (reads s now q))
  unchanged-reads v held some_text q = elim (Bool-cases (same record_options q (c ∷ cs))) [
    | inl hit ↦ rw (hit, same_key q (c ∷ cs) hit, held) (some-non_empty v.str some_text)
    | inr miss ↦ rw miss refl
  ]

  -- Taking a text that is not empty out of a value that is not empty ends. What is left comes
  -- from the value by cutting out one occurrence after another, and has none; the key then
  -- reads as what is left, and every other key as before. No version is asked for, neither key
  -- nor text is empty, the table is ready and its size is below 2^31, the key and the value are
  -- shorter than SDB_KSZ and SDB_VSZ, the disk does not make the store forget the key, and
  -- every allocation is granted.
  pub sdb_uncat-reads :
      (v : Value) (x : ℕ) (xs : List ℕ)
      → reads s now (c ∷ cs) ≡ some v
      → length v.str < sdb_vsz
      → is_empty v.str ≡ false
      → (w : List ℕ) × CutDown (x ∷ xs) v.str w
        × ¬ Occurs (x ∷ xs) w
        × LeavesText s now (c ∷ cs) (sdb_uncat s now (some (c ∷ cs)) (some (x ∷ xs)) 0) w
  unfolding sdb_uncat
  sdb_uncat-reads v x xs held short some_text =
      let live = reads-live s now (c ∷ cs) ready v.str (rw held refl) in
      let (m, w, run, down, none_left, _, same_text) = uncat-Emptied (x ∷ xs) v.str refl in
      let found = sdb_const_get_len-found s now (c ∷ cs) ready v.str (rw held refl) in
      (
        w,
        down,
        none_left,
        elim (Bool-cases m) [
          | inl some_cut ↦
              let fits = CutDown-length (x ∷ xs) down in
              let (r, ok, set, all) = set_owned-reads w (omega arith) live in
              (r, ok, rw (found, held, run, some_cut, set) refl, all)
          | inr no_cut ↦ (
            s,
            false,
            rw (found, held, run, no_cut) refl,
            rw (same_text no_cut) (unchanged-reads v held some_text),
          )
        ],
      )
