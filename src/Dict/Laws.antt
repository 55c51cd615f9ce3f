-- ===== src/Dict/Laws.antt =====
-- The operations of src/dict.c against a map from numbers to entries.
use mathlib.Core.Path.{subst}
use sdb.Base.{
  ℕ, zero, suc, ◌<◌, ◌≡◌, refl, sym, ◌∙◌, true, false, not, ◌&&◌, ◌||◌, [], none, some, ltb, ◌==◌,
  if◌then◌else◌, replicate, length-replicate, get_or-replicate, arith, Bool-cases, Option-cases,
  inl, inr,
}
use sdb.Ht.{Heap}
use sdb.Ht.Laws.{is_some}
use sdb.Dict.{
  Dictkv, Dict, dict_bucket, entries_at, with_entries, lookup, remove_key, dict_getr, dict_del,
  dict_init, dict_set, dict_add,
}
use sdb.Dict.Entries.{occ, lookup-occ_zero, lookup-remove_key, occ-remove_key}
use sdb.Dict.State.{IsValid}
use sdb.Dict.Store.{Gets, getr-lookup, Gets-with, set-Gets}

module _ {ℓ} {U : Type ℓ} where
  module _ ⦃heap : Heap⦄ (grants : (n : ℕ) → heap.grants n ≡ true) where
    -- `dict_set` returns whether the dictionary has buckets and the key is not 0. Then it
    -- stores the value under the key, whether the key was there or not, and changes nothing
    -- else. The dictionary is well formed, and every allocation is granted.
    pub dict_set-Gets :
        (m : Dict U) (k w : ℕ) (u : U)
        → IsValid m
        → let ok = ltb 0 m.size && ltb 0 k in
          (r : Dict U) × (dict_set m k w u ≡ (r, ok))
          × Gets m r
              (λ q. if ok && q == k then some (record { k = k; v = w; u = u }) else dict_getr m q)
    unfolding dict_set
    dict_set-Gets m k w u v = elim (Bool-cases (ltb 0 m.size && ltb 0 k)) [
      | inl ok ↦ rw ok (set-Gets grants m k w u v (ground arith) (ground arith))
      | inr bad ↦ (
        m,
        (let t : (m.size == 0 || k == 0) ≡ true = ground arith in rw (t, bad)),
        rw bad (record { valid = v; sized = refl; gets = λ q. refl }),
      )
    ]

    -- `dict_add` stores the value under the key, and nothing else, where `dict_set` would and
    -- the key is not there. It returns whether that is so, and leaves the dictionary as it is
    -- if not. The dictionary is well formed, and every allocation is granted.
    pub dict_add-Gets :
        (m : Dict U) (k w : ℕ) (u : U)
        → IsValid m
        → let ok = not (is_some (dict_getr m k)) && (ltb 0 m.size && ltb 0 k) in
          (r : Dict U) × (dict_add m k w u ≡ (r, ok))
          × Gets m r
              (λ q. if ok && q == k then some (record { k = k; v = w; u = u }) else dict_getr m q)
    unfolding dict_add
    dict_add-Gets m k w u v = elim (Option-cases (dict_getr m k)) [
      | inl absent ↦
          let (r, run, g) = dict_set-Gets m k w u v in (r, rw (absent, dict_add) run, rw absent g)
      | inr (x, held) ↦
          (m, rw (held, dict_add), rw held (record { valid = v; sized = refl; gets = λ q. refl }))
    ]

  found-nonzero :
      (m : Dict U)
      → IsValid m
      → (k : ℕ) (x : Dictkv U) → lookup k (entries_at m (dict_bucket m k)) ≡ some x
      → (k == 0) ≡ false
  found-nonzero m v k x held = elim (Bool-cases (k == 0)) [
    | inl zero_key ↦
        let e : k ≡ 0 = ground arith in
        let b = dict_bucket m k in
        absurd (
          cc (
            held,
            lookup-occ_zero k (entries_at m b)
                (subst (λ (j : ℕ). occ j (entries_at m b) ≡ 0) (sym e) (v.nonzero b)),
          ))
    | inr other ↦ other
  ]

  -- `dict_del`, on a well-formed dictionary with buckets, returns whether the key was there. It
  -- takes the entry of the key out, if there is one, and changes nothing else.
  pub dict_del-Gets :
      (m : Dict U) (k : ℕ)
      → IsValid m
      → 0 < m.size
      → (r : Dict U) × (dict_del m k ≡ (r, is_some (dict_getr m k)))
        × Gets m r (λ q. if q == k then none else dict_getr m q)
  unfolding dict_del
  dict_del-Gets m k v pos =
      let b = dict_bucket m k in
      let kvs = entries_at m b in
      let find = getr-lookup m k pos in
      elim (Option-cases (lookup k kvs)) [
        | inl absent ↦ (
          m,
          elim (Bool-cases (k == 0)) [
            | inl zero_key ↦ rw (find, absent, zero_key)
            | inr other ↦ rw (find, absent, other)
          ],
          record {
            valid = v;
            sized = refl;
            gets = λ q. elim (Bool-cases (q == k)) [
              | inl same ↦ let e : q ≡ k = ground arith in rw (same, e) (find ∙ absent)
              | inr other ↦ rw other refl
            ];
          },
        )
        | inr (x, held) ↦ (
          with_entries m b (remove_key k kvs),
          rw (find, held, found-nonzero m v k x held),
          Gets-with m v k pos (remove_key k kvs) none
              (λ q. let once = v.placed q b in let fewer = occ-remove_key k q kvs in omega arith)
              (let zeros = v.nonzero b in let fewer = occ-remove_key k 0 kvs in omega arith)
              (λ q. lookup-remove_key k q kvs (let once = v.placed k b in ground arith)),
        )
      ]

  module _ ⦃heap : Heap⦄ (grants : (n : ℕ) → heap.grants n ≡ true) where
    -- A dictionary is made with as many buckets as it is asked for, is well formed, and finds
    -- nothing. Every allocation is granted.
    pub dict_init-Gets :
        (size : ℕ)
        → (r : Dict U) × (dict_init size ≡ (r, true))
          × IsValid r
          × (r.size ≡ size)
          × ((q : ℕ) → dict_getr r q ≡ none)
    unfolding dict_init dict_getr occ lookup
    dict_init-Gets zero = (
      record { table = []; size = 0 },
      refl,
      record { wide = refl; placed = λ q i. omega arith; nonzero = λ i. refl },
      refl,
      λ q. refl,
    )
    dict_init-Gets (suc n) = (
      record { table = replicate (suc n) none; size = suc n },
      (let t : ltb 0 (suc n) ≡ true = ground arith in rw (t, grants (suc n))),
      record {
        wide = length-replicate (suc n) none;
        placed = λ q i. rw get_or-replicate (omega arith);
        nonzero = λ i. rw get_or-replicate refl;
      },
      refl,
      λ q. (let t : (suc n == 0) ≡ false = ground arith in rw (get_or-replicate, t)),
    )
