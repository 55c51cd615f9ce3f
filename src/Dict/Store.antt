-- ===== src/Dict/Store.antt =====
-- `dict_set` of src/dict.c where it stores, and how the change of a bucket changes the map.
use sdb.Base.{
  ℕ, ◌+◌, ◌≤◌, ◌<◌, ◌≡◌, refl, sym, ap, ◌∙◌, true, false, ◌||◌, List, [], ◌∷◌, ◌++◌, Option, none,
  some, ◌==◌, if◌then◌else◌, length, get_or, arith, Bool-cases, Option-cases, inl, inr,
}
use sdb.Ht.{Heap}
use sdb.Dict.{
  Dictkv, Dict, dict_bucket, entries_at, with_entries, overwrite, lookup, dict_getr, set_entry,
  dict_set,
}
use sdb.Dict.Entries.{occ, occ-append_one, lookup-append, overwrite-none, overwrite-some}
use sdb.Dict.State.{IsValid, bucket-lt, with_entries-IsValid, dict_getr-with, entries_at-with}

module _ {ℓ} {U : Type ℓ} where
  -- What an operation leaves: a dictionary that is well formed, with the size of the one before,
  -- and finds entries so.
  pub record Gets (m r : Dict U) (f : ℕ → Option (Dictkv U)) : Type ℓ where
    pub valid : IsValid r
    pub sized : r.size ≡ m.size
    pub gets : (q : ℕ) → dict_getr r q ≡ f q

  pub getr-lookup :
      (m : Dict U) (q : ℕ) → 0 < m.size → dict_getr m q ≡ lookup q (entries_at m (dict_bucket m q))
  unfolding dict_getr
  getr-lookup m q h = let full : (m.size == 0) ≡ false = ground arith in rw full

  module _ (m : Dict U) (v : IsValid m) (k : ℕ) (pos : 0 < m.size) where
    abbrev b : ℕ
    b = dict_bucket m k

    -- Where a bucket changes under one key alone, so does the dictionary.
    pub Gets-with :
        (kvs : List (Dictkv U)) (x : Option (Dictkv U))
        → ((q : ℕ) → occ q kvs ≤ (if b == dict_bucket m q then 1 else 0))
        → occ 0 kvs ≡ 0
        → ((q : ℕ) → lookup q kvs ≡ (if q == k then x else lookup q (entries_at m b)))
        → Gets m (with_entries m b kvs) (λ q. if q == k then x else dict_getr m q)
    Gets-with kvs x once zeros found = record {
      valid = with_entries-IsValid m v b kvs (bucket-lt m k pos) once zeros;
      sized = refl;
      gets = λ q.
          dict_getr-with m v b kvs (bucket-lt m k pos) q
          ∙ elim (Bool-cases (b == dict_bucket m q)) [
            | inl hit ↦
                let e : b ≡ dict_bucket m q = ground arith in
                rw (hit, found q, getr-lookup m q pos, ← e) refl
            | inr miss ↦ elim (Bool-cases (q == k)) [
              | inl same ↦
                  let e : q ≡ k = ground arith in
                  absurd (let t : (b == dict_bucket m q) ≡ true = rw e (ground arith) in cc)
              | inr other ↦ rw (miss, other) refl
            ]
          ];
    }

    module _ ⦃heap : Heap⦄ (grants : (n : ℕ) → heap.grants n ≡ true) (nonzero : 0 < k) (w : ℕ)
        (u : U) where
      set_entry-Gets :
          (r : Dict U) × (set_entry m b k w u (entries_at m b) ≡ (r, true))
          × Gets m r (λ q. if q == k then some (record { k = k; v = w; u = u }) else dict_getr m q)
      unfolding set_entry
      set_entry-Gets =
          let kvs = entries_at m b in
          let new : Dictkv U = record { k = k; v = w; u = u } in
          elim (Option-cases (overwrite k w u kvs)) [
            | inl gone ↦
                let free = overwrite-none k w u kvs gone in
                (
                  with_entries m b (kvs ++ new ∷ []),
                  rw (gone, set_entry, grants (length kvs + 2)),
                  Gets-with (kvs ++ new ∷ []) (some new)
                      (λ q. elim (Bool-cases (k == q)) [
                        | inl same ↦
                            let e : k ≡ q = ground arith in
                            rw (← e) (rw (occ-append_one k kvs new, free) (ground arith))
                        | inr other ↦
                            let once = v.placed q b in
                            rw (occ-append_one q kvs new, other) (omega arith)
                      ])
                      (let z = v.nonzero b in rw (occ-append_one 0 kvs new) (ground arith))
                      (λ q. lookup-append q kvs new free),
                )
            | inr (r, run) ↦ (
              with_entries m b r,
              rw (run, set_entry),
              Gets-with r (some new) (λ q. rw ((overwrite-some k w u kvs r q run).0) (v.placed q b))
                  (rw ((overwrite-some k w u kvs r 0 run).0) (v.nonzero b))
                  (λ q. (overwrite-some k w u kvs r q run).1),
            )
          ]

      dict_set-some :
          (kvs : List (Dictkv U))
          → get_or m.table b none ≡ some kvs
          → dict_set m k w u ≡ set_entry m b k w u (entries_at m b)
      unfolding dict_set
      dict_set-some kvs e =
          let full : (m.size == 0 || k == 0) ≡ false = ground arith in rw (full, e)

  -- An array without entries in place of NULL changes nothing.
  claimed-same :
      (m : Dict U)
      → IsValid m
      → (k : ℕ) → 0 < m.size
      → get_or m.table (dict_bucket m k) none ≡ none
      → let m' = with_entries m (dict_bucket m k) [] in
        IsValid m'
        × (entries_at m' (dict_bucket m k) ≡ [])
        × ((q : ℕ) → dict_getr m' q ≡ dict_getr m q)
  unfolding occ lookup
  claimed-same m v k pos e =
      let b = dict_bucket m k in
      let low = bucket-lt m k pos in
      let own : (b == b) ≡ true = ground arith in
      (
        with_entries-IsValid m v b [] low (λ q. omega arith) refl,
        entries_at-with m v b [] low b ∙ rw own refl,
        λ q. dict_getr-with m v b [] low q ∙ elim (Bool-cases (b == dict_bucket m q)) [
          | inl hit ↦
              let same_index : b ≡ dict_bucket m q = ground arith in
              rw (hit, getr-lookup m q pos, ← same_index, e) refl
          | inr miss ↦ rw miss refl
        ],
      )

  module _ ⦃heap : Heap⦄ (grants : (n : ℕ) → heap.grants n ≡ true) where
    dict_set-none :
        (m : Dict U) (k w : ℕ) (u : U)
        → 0 < m.size
        → 0 < k
        → get_or m.table (dict_bucket m k) none ≡ none
        → dict_set m k w u
          ≡ set_entry (with_entries m (dict_bucket m k) []) (dict_bucket m k) k w u []
    unfolding dict_set
    dict_set-none m k w u pos nonzero e =
        let full : (m.size == 0 || k == 0) ≡ false = ground arith in
        rw (full, e, dict_set, grants 2)

    pub set-Gets :
        (m : Dict U) (k w : ℕ) (u : U)
        → IsValid m
        → 0 < m.size
        → 0 < k
        → (r : Dict U) × (dict_set m k w u ≡ (r, true))
          × Gets m r (λ q. if q == k then some (record { k = k; v = w; u = u }) else dict_getr m q)
    set-Gets m k w u v pos nonzero = elim (Option-cases (get_or m.table (dict_bucket m k) none)) [
      | inr (kvs, e) ↦
          let (r, run, g) = set_entry-Gets m v k pos grants nonzero w u in
          (r, dict_set-some m v k pos grants nonzero w u kvs e ∙ run, g)
      | inl e ↦
          let (v', arr, same) = claimed-same m v k pos e in
          let m' = with_entries m (dict_bucket m k) [] in
          let (r, run, g) = set_entry-Gets m' v' k pos grants nonzero w u in
          (
            r,
            dict_set-none m k w u pos nonzero e
                ∙ ap (λ (kvs : List (Dictkv U)). set_entry m' (dict_bucket m k) k w u kvs) (sym arr)
                ∙ run,
            record { valid = g.valid; sized = g.sized; gets = λ q. g.gets q ∙ rw (same q) refl },
          )
    ]
