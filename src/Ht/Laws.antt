-- ===== src/Ht/Laws.antt =====
-- The public operations of src/ht.inc.c against a map from keys to values, with every allocation
-- granted. What a key is to the table is up to the comparison of the options.
use sdb.Base.{
  ℕ, ◌+◌, ◌-◌, ◌^◌, ◌<◌, ◌≡◌, ◌⊎◌, refl, sym, ap, ◌∙◌, Bool, true, false, not, ◌&&◌, Option, none,
  some, if◌then◌else◌, arith, Bool-cases, Option-cases, inl, inr,
}
use sdb.Ht.{
  Options, Heap, Kv, Ht, bucketfn, value_of, find, remove_entry, delete, new_kv, insert, update,
  update_key, new_opt, prime,
}
use mathlib.Core.Option
use native.Mathlib.Nat.{add-zero}
use sdb.Ht.Entries.{same, KeyLaws}
use sdb.Ht.State.{view, blank, blank-IsValid, view-blank}
use sdb.Ht.Reserve.{find_index-view}
use sdb.Ht.Write.{removed-IsValid, view-removed, view_congr}
use sdb.Ht.Grow.{internal_ht_new-blank}
use sdb.Ht.Insert.{
  find-view, find_index-some, IsReady, Maps, insert_update-absent, insert_update-refused,
  insert_update-replaced,
}

abbrev pub is_some {ℓ} : {A : Type ℓ} → Option A → Bool
is_some none = false
is_some (some a) = true

abbrev pub to_nat : Bool → ℕ
to_nat true = 1
to_nat false = 0

-- What an operation leaves, for the client: a table that is ready for the next one, with so many
-- entries, in which `find` answers so.
pub record Finds {ℓ} {K V : Type ℓ} ⦃opt : Options K V⦄ (r : Ht K V) (n : ℕ) (f : K → Option V)
    : Type ℓ where
  pub ready : IsReady r
  pub count : r.count ≡ n
  pub finds : (q : K) → find r q ≡ f q

module _ {ℓ} {K V : Type ℓ} ⦃opt : Options K V⦄ where
  value_of-if :
      (b : Bool) (kv : Kv K V) (o : Option (Kv K V))
      → value_of (if b then some kv else o) ≡ (if b then some kv.val else value_of o)
  value_of-if true kv o = refl
  value_of-if false kv o = refl

  pub Finds-store :
      (ht r : Ht K V) (k : K) (kv : Kv K V) (n : ℕ)
      → IsReady ht
      → Maps r n (λ q. if same opt q k then some kv else view ht q)
      → Finds r n (λ q. if same opt q k then some kv.val else find ht q)
  Finds-store ht r k kv n ready m = record {
    ready = m.ready;
    count = m.count;
    finds = λ q.
        find-view r m.ready.valid q
        ∙ ap value_of (m.reads q)
        ∙ value_of-if (same opt q k) kv (view ht q)
        ∙ ap (λ (o : Option V). if same opt q k then some kv.val else o)
            (sym (find-view ht ready.valid q));
  }

  pub found_view :
      (ht : Ht K V)
      → IsReady ht
      → (k : K)
      → ((view ht k ≡ none) × (find ht k ≡ none))
        ⊎ ((e : Kv K V) × (view ht k ≡ some e) × (find ht k ≡ some e.val))
  found_view ht ready k = elim (Option-cases (view ht k)) [
    | inl absent ↦ inl (absent, find-view ht ready.valid k ∙ ap value_of absent)
    | inr (e, held) ↦ inr (e, held, find-view ht ready.valid k ∙ ap value_of held)
  ]

module _ {ℓ} {K V : Type ℓ} ⦃opt : Options K V⦄ ⦃heap : Heap⦄ (laws : KeyLaws opt)
    (grants : (n : ℕ) → heap.grants n ≡ true) where
  -- A new table is ready, has no entries, and finds nothing. The options keep the laws of keys,
  -- and every allocation is granted.
  pub new_opt-Finds : (r : Ht K V) × (new_opt ≡ some r) × Finds r 0 (λ q. none)
  unfolding new_opt
  new_opt-Finds =
      let v = blank-IsValid (prime 0) 0 (unfold prime in omega arith) (inl (omega arith, refl)) in
      (
        blank (prime 0) 0,
        internal_ht_new-blank laws grants (prime 0) 0,
        record {
          ready = record { valid = v; open_slots = unfold prime in omega arith };
          count = refl;
          finds = λ q. find-view (blank (prime 0) 0) v q ∙ ap value_of (view-blank (prime 0) 0 q);
        },
      )

  -- `insert` ends. Under a key that is not there it returns true, and stores a copy of the
  -- value there and changes nothing else; under a key that is there it returns false and leaves
  -- the table as it is. The table is ready and its size is below 2^31, the options keep the
  -- laws of keys, and every allocation is granted.
  pub insert-Finds :
      (ht : Ht K V) (k : K) (x : V)
      → IsReady ht
      → ht.size < 2 ^ 31
      → (r : Ht K V) × (insert ht k x ≡ some (r, not (is_some (find ht k))))
        × (if is_some (find ht k)
            then r ≡ ht
            else Finds r
                (ht.count + 1)
                (λ q. if same opt q k then some (opt.dupval x) else find ht q))
  unfolding insert
  insert-Finds ht k x ready small = elim (found_view ht ready k) [
    | inl (absent, no_find) ↦
        let (r, run, m) = insert_update-absent laws grants ht k x false ready small absent in
        (r, rw no_find run, rw no_find (Finds-store ht r k (new_kv k x) (ht.count + 1) ready m))
    | inr (e, held, hit) ↦
        (ht, rw hit (insert_update-refused laws grants ht k x e ready held), rw hit refl)
  ]

  -- `update` ends and returns true. It stores a copy of the value under the key, whether the
  -- key was there or not, and changes nothing else; a key that was not there is counted. The
  -- table is ready and its size is below 2^31, the options keep the laws of keys, and every
  -- allocation is granted.
  pub update-Finds :
      (ht : Ht K V) (k : K) (x : V)
      → IsReady ht
      → ht.size < 2 ^ 31
      → (r : Ht K V) × (update ht k x ≡ some (r, true))
        × Finds r
            (ht.count + to_nat (not (is_some (find ht k))))
            (λ q. if same opt q k then some (opt.dupval x) else find ht q)
  unfolding update
  update-Finds ht k x ready small = elim (found_view ht ready k) [
    | inl (absent, no_find) ↦
        let (r, run, m) = insert_update-absent laws grants ht k x true ready small absent in
        (r, run, rw no_find (Finds-store ht r k (new_kv k x) (ht.count + 1) ready m))
    | inr (e, held, hit) ↦
        let (r, run, m) = insert_update-replaced laws grants ht k x e ready held in
        (r, run, rw (hit, add-zero) (Finds-store ht r k (new_kv k x) ht.count ready m))
  ]

module _ {ℓ} {K V : Type ℓ} ⦃opt : Options K V⦄ (laws : KeyLaws opt) where
  value_of-if_none :
      (b : Bool) (o : Option (Kv K V))
      → value_of (if b then none else o) ≡ (if b then none else value_of o)
  value_of-if_none true o = refl
  value_of-if_none false o = refl

  find_congr : (ht : Ht K V) → IsReady ht → (a b : K) → same opt a b ≡ true → find ht a ≡ find ht b
  find_congr ht ready a b e =
      find-view ht ready.valid a
      ∙ ap value_of (view_congr laws ht ready.valid a b e)
      ∙ sym (find-view ht ready.valid b)

  still_absent :
      (ht : Ht K V)
      → IsReady ht
      → (k q : K) → find ht k ≡ none
      → find ht q ≡ (if same opt q k then none else find ht q)
  still_absent ht ready k q no_find = elim (Bool-cases (same opt q k)) [
    | inl hit ↦ rw hit (find_congr ht ready q k hit ∙ no_find)
    | inr miss ↦ rw miss
  ]

  -- `delete` returns whether the key was there. It takes the entry of the key out, if there is
  -- one, and changes nothing else. The table is ready, and the options keep the laws of keys.
  pub delete-Finds :
      (ht : Ht K V) (k : K)
      → IsReady ht
      → (r : Ht K V) × (delete ht k ≡ (r, is_some (find ht k)))
        × Finds r
            (ht.count - to_nat (is_some (find ht k)))
            (λ q. if same opt q k then none else find ht q)
  unfolding delete
  delete-Finds ht k ready = elim (found_view ht ready k) [
    | inl (absent, no_find) ↦ (
      ht,
      rw (find_index-view ht ready.valid k absent, delete, no_find),
      record {
        ready = ready;
        count = rw no_find (omega arith);
        finds = λ q. still_absent ht ready k q no_find;
      },
    )
    | inr (e, held, hit) ↦
        let (j, found) = find_index-some ht ready.valid k e held in
        let v' = removed-IsValid laws ht ready.valid k j found in
        (
          remove_entry ht (bucketfn ht k) j,
          rw (found, delete, hit),
          record {
            ready = record {
              valid = v';
              open_slots = unfold remove_entry in omega (arith, ready.open_slots);
            };
            count = rw hit (unfold remove_entry in refl);
            finds = λ q.
                find-view (remove_entry ht (bucketfn ht k) j) v' q
                ∙ ap value_of (view-removed laws ht ready.valid k j found q)
                ∙ value_of-if_none (same opt q k) (view ht q)
                ∙ ap (λ (o : Option V). if same opt q k then none else o)
                    (sym (find-view ht ready.valid q));
          },
        )
  ]

module _ {ℓ} {K V : Type ℓ} ⦃opt : Options K V⦄ ⦃heap : Heap⦄ (laws : KeyLaws opt)
    (grants : (n : ℕ) → heap.grants n ≡ true) where
  apart :
      (ht : Ht K V)
      → IsReady ht
      → (a b : K) (x : V) → find ht a ≡ some x
      → find ht b ≡ none
      → same opt a b ≡ false
  apart ht ready a b x hit no_find = elim (Bool-cases (same opt a b)) [
    | inl e ↦ let c = find_congr laws ht ready a b e in grind arith
    | inr e ↦ e
  ]

  -- `update_key` ends, and returns whether the old key was there and the new one was not. Then
  -- the value of the old key is copied to the new one, the old one is gone, no other key
  -- changes and the number of entries stays; otherwise the table is left as it is. The table is
  -- ready and its size is below 2^31, the options keep the laws of keys, and every allocation
  -- is granted.
  pub update_key-Finds :
      (ht : Ht K V) (old_key new_key : K)
      → IsReady ht
      → ht.size < 2 ^ 31
      → let moves = is_some (find ht old_key) && not (is_some (find ht new_key)) in
        (r : Ht K V) × (update_key ht old_key new_key ≡ some (r, moves))
        × (if moves
            then Finds r ht.count (λ q.
              if same opt q old_key
              then none
              else (if same opt q new_key
                  then Option.map opt.dupval (find ht old_key)
                  else find ht q))
            else r ≡ ht)
  unfolding update_key
  update_key-Finds ht old_key new_key ready small = elim (Option-cases (find ht old_key)) [
    | inl gone ↦ (ht, rw (gone, update_key), rw gone refl)
    | inr (x, hit) ↦ elim (found_view ht ready new_key) [
      | inr (e, held, hit2) ↦ (
        ht,
        rw (hit, update_key, insert_update-refused laws grants ht new_key x e ready held, hit2),
        rw (hit, hit2) refl,
      )
      | inl (absent, no_find) ↦
          let (r, run, m) =
            insert_update-absent laws grants ht new_key x false ready small absent in
          let stored' = Finds-store ht r new_key (new_kv new_key x) (ht.count + 1) ready m in
          let e = apart ht ready old_key new_key x hit no_find in
          let still : find r old_key ≡ some x = stored'.finds old_key ∙ rw e hit in
          let (s, drun, left) = delete-Finds laws r old_key stored'.ready in
          (
            s,
            rw (hit, update_key, run, drun, still, no_find),
            rw (hit, no_find)
                record {
                  ready = left.ready;
                  count = left.count ∙ rw (still, stored'.count) (omega arith);
                  finds = λ q.
                      left.finds q
                      ∙ ap (λ (o : Option V). if same opt q old_key then none else o)
                          (stored'.finds q);
                },
          )
    ]
  ]
