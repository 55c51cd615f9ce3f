-- ===== src/Dict/State.antt =====
-- When a dictionary of src/dict.c is well formed, and how a change of one bucket acts on it.
use sdb.Base.{
  ℕ, ◌≤◌, ◌<◌, ◌≡◌, ◌∙◌, false, List, none, some, ◌==◌, if◌then◌else◌, length, length-set, arith,
  Bool-cases, inl, inr,
}
use sdb.Dict.{Dictkv, Dict, dict_bucket, entries_at, with_entries, lookup, dict_getr}
use sdb.Dict.Entries.{occ}
use sdb.Ht.State.{get_or-set}

module _ {ℓ} {U : Type ℓ} where
  -- Every entry stands in the bucket of its key, no key occurs twice, and no key is 0.
  pub record IsValid (m : Dict U) : Type ℓ where
    pub wide : length m.table ≡ m.size
    pub placed : (q i : ℕ) → occ q (entries_at m i) ≤ (if i == dict_bucket m q then 1 else 0)
    pub nonzero : (i : ℕ) → occ 0 (entries_at m i) ≡ 0

  pub bucket-lt : (m : Dict U) (q : ℕ) → 0 < m.size → dict_bucket m q < m.size
  bucket-lt m q h = ground arith

  module _ (m : Dict U) (v : IsValid m) (b : ℕ) (kvs : List (Dictkv U)) (low : b < m.size) where
    pub entries_at-with :
        (i : ℕ) → entries_at (with_entries m b kvs) i ≡ (if b == i then kvs else entries_at m i)
    entries_at-with i = elim (Bool-cases (b == i)) [
      | inl hit ↦ rw (get_or-set m.table b i (some kvs) none (omega (arith, v.wide)), hit)
      | inr miss ↦ rw (get_or-set m.table b i (some kvs) none (omega (arith, v.wide)), miss)
    ]

    pub with_entries-IsValid :
        ((q : ℕ) → occ q kvs ≤ (if b == dict_bucket m q then 1 else 0))
        → occ 0 kvs ≡ 0
        → IsValid (with_entries m b kvs)
    with_entries-IsValid once zeros = record {
      wide = length-set m.table b (some kvs) ∙ v.wide;
      placed = λ q i. elim (Bool-cases (b == i)) [
        | inl hit ↦ let e : b ≡ i = ground arith in rw (entries_at-with i, hit, ← e) (once q)
        | inr miss ↦ rw (entries_at-with i, miss) (v.placed q i)
      ];
      nonzero = λ i. elim (Bool-cases (b == i)) [
        | inl hit ↦ rw (entries_at-with i, hit) zeros
        | inr miss ↦ rw (entries_at-with i, miss) (v.nonzero i)
      ];
    }

    pub dict_getr-with :
        (q : ℕ)
        → dict_getr (with_entries m b kvs) q
          ≡ (if b == dict_bucket m q then lookup q kvs else dict_getr m q)
    unfolding dict_getr
    dict_getr-with q =
        let full : (m.size == 0) ≡ false = ground arith in
        elim (Bool-cases (b == dict_bucket m q)) [
          | inl hit ↦ rw (full, entries_at-with (dict_bucket m q), hit)
          | inr miss ↦ rw (full, entries_at-with (dict_bucket m q), miss)
        ]
