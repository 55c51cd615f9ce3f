-- ===== src/Core/Spec.antt =====
-- What a set of src/sdb.c makes of the record that its key has, by what the disk answers.
use sdb.Base.{
  ℕ, ◌≡◌, Bool, true, false, not, ◌&&◌, List, Option, none, some, ◌==◌, if◌then◌else◌, length,
  str_eq,
}
use sdb.Ht.{Kv}
use sdb.SdbHt.{SdbValue, record_options}
use sdb.Core.{Lookup, failed, absent, present, nextcas, with_value}

abbrev pub Record : Type 0
Record = Kv (List ℕ) SdbValue

-- The record that a key without one gets.
abbrev pub fresh_record : List ℕ → List ℕ → Bool → Record
fresh_record key val owned = record {
  key = key;
  val = record {
    text = if owned then some val else (if length val == 0 then none else some val);
    cas = 2;
    expire = 0;
  };
  key_len = length key;
  value_len = length val;
}

-- What `overwrite_record` leaves of a record, and returns.
abbrev pub overwritten : Record → List ℕ → List ℕ → ℕ → Record × ℕ
overwritten kv text val cas =
    if not (cas == 0) && not (kv.val.cas == cas)
    then (kv, 0)
    else (if length val == kv.value_len && str_eq text val
        then (kv, kv.val.cas)
        else (with_value kv val, nextcas kv.val.cas))

abbrev pub kept : Record × ℕ → Option Record × ℕ
kept (kv, cas) = (some kv, cas)

abbrev pub replaced : Lookup → Record → List ℕ → List ℕ → ℕ → Option Record × ℕ
replaced failed kv text val cas = kept (overwritten kv text val cas)
replaced absent kv text val cas = (none, nextcas kv.val.cas)
replaced (present d) kv text val cas = kept (overwritten kv text val cas)

-- The record that a key has after a set, and the version that the set returns.
abbrev pub set_spec : Lookup → Option Record → List ℕ → List ℕ → Bool → ℕ → Option Record × ℕ
set_spec look none key val owned cas = (some (fresh_record key val owned), 2)
set_spec look (some kv) key val owned cas = elim kv.val.text [
  | none ↦ (some (fresh_record key val owned), 2)
  | some text ↦ replaced look kv text val cas
]

-- The record of a key has a value.
abbrev pub has_value : Option Record → Bool
has_value none = false
has_value (some kv) = elim kv.val.text [ none ↦ false | some text ↦ true ]

module _ (look : Lookup) (kv : Record) (key val : List ℕ) (owned : Bool) (cas : ℕ) where
  pub set_spec-null :
      kv.val.text ≡ none
      → set_spec look (some kv) key val owned cas ≡ (some (fresh_record key val owned), 2)
  set_spec-null null = simp null

  pub set_spec-some :
      (text : List ℕ)
      → kv.val.text ≡ some text
      → set_spec look (some kv) key val owned cas ≡ replaced look kv text val cas
  set_spec-some text there = simp there

pub has_value-null : (kv : Record) → kv.val.text ≡ none → has_value (some kv) ≡ false
has_value-null kv null = simp null
