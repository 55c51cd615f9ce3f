-- ===== src/Ht/Foreach.antt =====
-- `foreach` of src/ht.inc.c: a walk over the entries of all buckets.
use sdb.Base.{
  ◌≤◌, ◌≡◌, refl, sym, ap, ◌∙◌, Bool, List, [], ◌∷◌, ◌++◌, if◌then◌else◌, length, Bool-cases, inl,
  inr,
}
use sdb.Ht.{Options, Kv, Bucket, Ht, value_of, find, foreach_bucket, foreach_table, foreach}
use sdb.Ht.Entries.{find_in, occ}
use sdb.Ht.State.{IsValid}
use sdb.Ht.Insert.{find-view}
use sdb.Ht.Contents.{entries, find_in-entries, count-entries}

module _ {ℓ κ} {K V : Type ℓ} {S : Type κ} (callback : S → K → V → S × Bool) where
  -- The callback on one entry after the other, up to the first answer `false`.
  abbrev pub walk : List (Kv K V) → S → S
  walk [] user = user
  walk (kv ∷ es) user =
      let r = callback user kv.key kv.val in let rest = walk es r.0 in if r.1 then rest else r.0

  walk-bucket :
      (arr es : List (Kv K V)) (user : S)
      → walk (arr ++ es) user
        ≡ (let r = foreach_bucket callback arr user in if r.1 then walk es r.0 else r.0)
  unfolding foreach_bucket
  walk-bucket [] es user = refl
  walk-bucket (kv ∷ arr) es user = elim (Bool-cases (callback user kv.key kv.val).1) [
    | inl on ↦ rw (on, walk-bucket arr es (callback user kv.key kv.val).0)
    | inr off ↦ rw off
  ]

  foreach_table-walk :
      (table : List (Bucket K V)) (user : S)
      → foreach_table callback table user ≡ walk (entries table) user
  unfolding foreach_table entries
  foreach_table-walk [] user = refl
  foreach_table-walk (bt ∷ table) user =
      rw (foreach_table-walk table (foreach_bucket callback bt.arr user).0)
        (sym (walk-bucket bt.arr (entries table) user))

module _ {ℓ κ} {K V : Type ℓ} {S : Type κ} ⦃opt : Options K V⦄ where
  -- On a well-formed table `foreach` runs the callback over a list of entries, one after the
  -- other, up to the first answer `false`. The list has as many entries as the table counts,
  -- holds no key twice, and its entry for a key has the value that `find` returns.
  pub foreach-walk :
      (callback : S → K → V → S × Bool) (ht : Ht K V) (user : S)
      → IsValid ht
      → (foreach callback ht user ≡ walk callback (entries ht.table) user)
        × (length (entries ht.table) ≡ ht.count)
        × ((q : K)
            → (occ q (entries ht.table) ≤ 1)
              × (value_of (find_in q (entries ht.table)) ≡ find ht q))
  unfolding foreach
  foreach-walk callback ht user v = (
    foreach_table-walk callback ht.table user,
    count-entries ht v,
    λ q.
        let (once, found) = find_in-entries ht v q in
        (once, ap value_of found ∙ sym (find-view ht v q)),
  )
