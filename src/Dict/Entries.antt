-- ===== src/Dict/Entries.antt =====
-- The entries of one bucket of src/dict.c.
use sdb.Base.{
  ℕ, ◌+◌, ◌≤◌, ◌≡◌, refl, true, false, List, [], ◌∷◌, ◌++◌, none, some, ◌==◌, if◌then◌else◌, arith,
  Bool-cases, Option-cases, inl, inr,
}
use sdb.Dict.{Dictkv, overwrite, lookup, remove_key}

module _ {ℓ} {U : Type ℓ} where
  -- The number of entries under a key.
  unfoldable pub occ : ℕ → List (Dictkv U) → ℕ
  occ q [] = 0
  occ q (kv ∷ kvs) = (if kv.k == q then 1 else 0) + occ q kvs

  pub lookup-occ_zero : (q : ℕ) (kvs : List (Dictkv U)) → occ q kvs ≡ 0 → lookup q kvs ≡ none
  unfolding occ lookup
  lookup-occ_zero q [] h = refl
  lookup-occ_zero q (kv ∷ kvs) h = ground (arith, lookup-occ_zero q kvs)

  pub occ-append :
      (q : ℕ) (kvs more : List (Dictkv U)) → occ q (kvs ++ more) ≡ occ q kvs + occ q more
  unfolding occ
  occ-append q [] more = omega arith
  occ-append q (kv ∷ kvs) more = omega (arith, occ-append q kvs more)

  pub occ-append_one :
      (q : ℕ) (kvs : List (Dictkv U)) (new : Dictkv U)
      → occ q (kvs ++ new ∷ []) ≡ occ q kvs + (if new.k == q then 1 else 0)
  unfolding occ
  occ-append_one q kvs new = omega (arith, occ-append q kvs (new ∷ []))

  pub lookup-append :
      (q : ℕ) (kvs : List (Dictkv U)) (new : Dictkv U)
      → occ new.k kvs ≡ 0
      → lookup q (kvs ++ new ∷ []) ≡ (if q == new.k then some new else lookup q kvs)
  unfolding occ lookup
  lookup-append q [] new h = ground arith
  lookup-append q (kv ∷ kvs) new h = ground (arith, lookup-append q kvs new)

  module _ (k v : ℕ) (u : U) where
    pub overwrite-none : (kvs : List (Dictkv U)) → overwrite k v u kvs ≡ none → occ k kvs ≡ 0
    unfolding overwrite occ
    overwrite-none [] h = refl
    overwrite-none (kv ∷ kvs) h = ground (arith, overwrite-none kvs)

    overwrite-here :
        (kv : Dictkv U) (kvs : List (Dictkv U))
        → (kv.k == k) ≡ true
        → overwrite k v u (kv ∷ kvs) ≡ some ((record { k = k; v = v; u = u }) ∷ kvs)
    unfolding overwrite
    overwrite-here kv kvs hit = let e : kv.k ≡ k = ground arith in rw (hit, e) refl

    overwrite-there :
        (kv : Dictkv U) (kvs kvs' : List (Dictkv U))
        → (kv.k == k) ≡ false
        → overwrite k v u kvs ≡ some kvs'
        → overwrite k v u (kv ∷ kvs) ≡ some (kv ∷ kvs')
    unfolding overwrite
    overwrite-there kv kvs kvs' miss run = rw (miss, run) refl

    overwrite-nowhere :
        (kv : Dictkv U) (kvs : List (Dictkv U))
        → (kv.k == k) ≡ false
        → overwrite k v u kvs ≡ none
        → overwrite k v u (kv ∷ kvs) ≡ none
    unfolding overwrite
    overwrite-nowhere kv kvs miss run = rw (miss, run) refl

    -- An overwriting keeps the keys, and is what `k` is looked up as.
    pub overwrite-some :
        (kvs kvs' : List (Dictkv U)) (q : ℕ)
        → overwrite k v u kvs ≡ some kvs'
        → (occ q kvs' ≡ occ q kvs)
          × (lookup q kvs'
              ≡ (if q == k then some (record { k = k; v = v; u = u }) else lookup q kvs))
    unfolding overwrite occ lookup
    overwrite-some [] kvs' q h = absurd cc
    overwrite-some (kv ∷ kvs) kvs' q h = elim (Bool-cases (kv.k == k)) [
      | inl hit ↦
          let e : kvs' ≡ (record { k = k; v = v; u = u }) ∷ kvs =
            cc (overwrite-here kv kvs hit, h) in
          rw e (ground arith, ground arith)
      | inr miss ↦ elim (Option-cases (overwrite k v u kvs)) [
        | inl gone ↦ absurd (cc (overwrite-nowhere kv kvs miss gone, h))
        | inr (r, run) ↦
            let e : kvs' ≡ kv ∷ r = cc (overwrite-there kv kvs r miss run, h) in
            let (same_occ, found) = overwrite-some kvs r q run in
            rw (e, same_occ, found) (refl, ground arith)
      ]
    ]

  -- A removal takes one entry of the key away and leaves the others.
  pub lookup-remove_key :
      (k q : ℕ) (kvs : List (Dictkv U))
      → occ k kvs ≤ 1
      → lookup q (remove_key k kvs) ≡ (if q == k then none else lookup q kvs)
  unfolding occ lookup remove_key
  lookup-remove_key k q [] h = ground arith
  lookup-remove_key k q (kv ∷ kvs) h =
      ground (arith, lookup-remove_key k q kvs, lookup-occ_zero q kvs)

  pub occ-remove_key : (k q : ℕ) (kvs : List (Dictkv U)) → occ q (remove_key k kvs) ≤ occ q kvs
  unfolding occ remove_key
  occ-remove_key k q [] = omega arith
  occ-remove_key k q (kv ∷ kvs) = ground (arith, occ-remove_key k q kvs)
