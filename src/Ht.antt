-- ===== src/Ht.antt =====
-- src/ht.inc.c: the generic hash table, over the callbacks of its options and the answers of the
-- allocator. An array is a list; `room` is the number of elements that the array was allocated
-- for, which the C keeps nowhere. The entries are moved and copied as values.
pub mod Sizes
pub mod Entries
pub mod State
pub mod Reserve
pub mod Write
pub mod Contents
pub mod Grow
pub mod Insert
pub mod Laws
pub mod Change
pub mod Foreach
pub mod Faults
use sdb.Base.{
  ℕ, zero, suc, ◌+◌, ◌-◌, ◌*◌, ◌%◌, ◌^◌, Bool, true, false, not, ◌&&◌, List, [], ◌∷◌, ◌++◌, Option,
  none, some, and_then, ltb, leb, ◌==◌, if◌then◌else◌, length, get_or, get_elem?, set, replicate,
}

-- `HT_(Options)`, with what the code puts in place of a callback that is not set. `equal` is
-- `key == kv->key || !cmp (key, kv->key)`. What `freefn` releases is not modelled.
pub record Options {ℓ} (K V : Type ℓ) : Type ℓ where
  pub equal : K → K → Bool
  pub hashfn : K → ℕ
  pub dupkey : K → K
  pub dupval : V → V
  pub calcsize_key : K → ℕ
  pub calcsize_val : V → ℕ

-- Whether an allocation of so many elements is granted.
pub record Heap : Type 0 where
  pub grants : ℕ → Bool

pub record Kv {ℓ} (K V : Type ℓ) : Type ℓ where
  pub key : K
  pub val : V
  pub key_len : ℕ
  pub value_len : ℕ

-- `count` is the length of `arr` and `lost` together: what a bucket without an array counts, entries
-- that were never there. `arr` is NULL where `room` is 0.
pub record Bucket {ℓ} (K V : Type ℓ) : Type ℓ where
  pub arr : List (Kv K V)
  pub size : ℕ
  pub room : ℕ
  pub lost : ℕ

pub record Ht {ℓ} (K V : Type ℓ) : Type ℓ where
  pub table : List (Bucket K V)
  pub size : ℕ
  pub count : ℕ
  pub prime_idx : ℕ

abbrev pub ht_primes_sizes : List ℕ
ht_primes_sizes =
    3 ∷ 7 ∷ 11 ∷ 17 ∷ 23 ∷ 29 ∷ 37 ∷ 47 ∷ 59 ∷ 71 ∷ 89 ∷ 107 ∷ 131 ∷ 163 ∷ 197 ∷ 239 ∷ 293 ∷ 353
    ∷ 431 ∷ 521 ∷ 631 ∷ 761 ∷ 919 ∷ 1103 ∷ 1327 ∷ 1597 ∷ 1931 ∷ 2333 ∷ 2801 ∷ 3371 ∷ 4049 ∷ 4861
    ∷ 5839 ∷ 7013 ∷ 8419 ∷ 10103 ∷ 12143 ∷ 14591 ∷ 17519 ∷ 21023 ∷ 25229 ∷ 30293 ∷ 36353 ∷ 43627
    ∷ 52361 ∷ 62851 ∷ 75431 ∷ 90523 ∷ 108631 ∷ 130363 ∷ 156437 ∷ 187751 ∷ 225307 ∷ 270371 ∷ 324449
    ∷ 389357 ∷ 467237 ∷ 560689 ∷ 672827 ∷ 807403 ∷ 968897 ∷ 1162687 ∷ 1395263 ∷ 1674319 ∷ 2009191
    ∷ 2411033 ∷ 2893249 ∷ 3471899 ∷ 4166287 ∷ 4999559 ∷ 5999471 ∷ 7199369 ∷ []

unfoldable pub prime : ℕ → ℕ
prime idx = get_or ht_primes_sizes idx 0

-- `S_ARRAY_SIZE (ht_primes_sizes)`
abbrev pub primes_count : ℕ
primes_count = 72

abbrev pub ut32_max : ℕ
ut32_max = 4294967295

unfoldable pub next_idx : ℕ → ℕ
next_idx idx = if not (idx == ut32_max) && ltb idx (primes_count - 1) then idx + 1 else ut32_max

-- `sz | 1` sets the lowest bit.
unfoldable pub compute_size : ℕ → ℕ → ℕ
compute_size idx sz =
    if not (idx == ut32_max) && ltb idx primes_count then prime idx else sz + (1 - sz % 2)

abbrev pub empty_bucket {ℓ} : {K V : Type ℓ} → Bucket K V
empty_bucket = record { arr = []; size = 0; room = 0; lost = 0 }

-- What `reserve_kv` hands out: NULL, the `j`-th entry of bucket `b`, the one behind the last of
-- bucket `b`, or what makes the C undefined, a slot outside the array or behind entries that were
-- never written.
pub data Slot : Type 0 where
  refused : Slot
  existing : ℕ → ℕ → Slot
  fresh : ℕ → Slot
  outside : Slot

module _ {ℓ} {K V : Type ℓ} ⦃heap : Heap⦄ where
  unfoldable pub internal_ht_new : ℕ → ℕ → Option (Ht K V)
  internal_ht_new size prime_idx =
      if heap.grants 1
      then (if heap.grants size
          then some (record {
            table = replicate size empty_bucket;
            size = size;
            count = 0;
            prime_idx = prime_idx;
          })
          else none)
      else none

  unfoldable pub new_opt : Option (Ht K V)
  new_opt = internal_ht_new (prime 0) 0

abbrev pub bucket_at {ℓ} : {K V : Type ℓ} → Ht K V → ℕ → Bucket K V
bucket_at ht b = get_or ht.table b empty_bucket

abbrev pub set_bucket {ℓ} : {K V : Type ℓ} → Ht K V → ℕ → Bucket K V → List (Bucket K V)
set_bucket ht b bt = set ht.table b bt

-- The value of an entry, or `HT_NULL_VALUE`.
abbrev pub value_of {ℓ} : {K V : Type ℓ} → Option (Kv K V) → Option V
value_of none = none
value_of (some kv) = some kv.val

-- `memcpy` and the assignments of the fields through the reserved pointer. The entry behind the
-- last one is there once `count` is raised.
unfoldable pub write_kv {ℓ} : {K V : Type ℓ} → Ht K V → Slot → Kv K V → Ht K V
write_kv ht refused kv = ht
write_kv ht outside kv = ht
write_kv ht (existing b j) kv =
    let bt = bucket_at ht b in
    record ht { table = set_bucket ht b (record bt { arr = set bt.arr j kv }) }
write_kv ht (fresh b) kv =
    let bt = bucket_at ht b in
    record ht { table = set_bucket ht b (record bt { arr = bt.arr ++ kv ∷ [] }) }

-- The entries before position `j` and those behind it, after the `memmove`.
abbrev pub remove_at {ℓ} : {A : Type ℓ} → List A → ℕ → List A
remove_at [] j = []
remove_at (x ∷ xs) zero = xs
remove_at (x ∷ xs) (suc j) = x ∷ remove_at xs j

module _ {ℓ} {K V : Type ℓ} ⦃opt : Options K V⦄ where
  abbrev pub bucketfn : Ht K V → K → ℕ
  bucketfn ht k = opt.hashfn k % ht.size

  -- The entry that `insert_update` fills in.
  abbrev pub new_kv : K → V → Kv K V
  new_kv key value = record {
    key = opt.dupkey key;
    val = opt.dupval value;
    key_len = opt.calcsize_key key;
    value_len = opt.calcsize_val value;
  }

  unfoldable pub is_kv_equal : K → ℕ → Kv K V → Bool
  is_kv_equal key key_len kv = key_len == kv.key_len && opt.equal key kv.key

  -- `BUCKET_FOREACH` up to the first entry that is equal.
  unfoldable pub find_index : K → ℕ → List (Kv K V) → Option ℕ
  find_index key key_len [] = none
  find_index key key_len (kv ∷ arr) =
      let rest = find_index key key_len arr in
      if is_kv_equal key key_len kv
      then some 0
      else elim rest [ none ↦ none | some j ↦ some (suc j) ]

  unfoldable pub find_kv : Ht K V → K → Option (Kv K V)
  find_kv ht key =
      let arr = (bucket_at ht (bucketfn ht key)).arr in
      elim (find_index key (opt.calcsize_key key) arr) [ none ↦ none | some j ↦ get_elem? arr j ]

  unfoldable pub find : Ht K V → K → Option V
  find ht key = value_of (find_kv ht key)

  -- The entry is taken out of its bucket.
  unfoldable pub remove_entry : Ht K V → ℕ → ℕ → Ht K V
  remove_entry ht b j =
      let bt = bucket_at ht b in
      record ht {
        table = set_bucket ht b (record bt { arr = remove_at bt.arr j });
        count = ht.count - 1;
      }

  unfoldable pub delete : Ht K V → K → Ht K V × Bool
  delete ht key =
      let b = bucketfn ht key in
      elim (find_index key (opt.calcsize_key key) (bucket_at ht b).arr) [
        | none ↦ (ht, false)
        | some j ↦ (remove_entry ht b j, true)
      ]

abbrev pub stored {ℓ} : {K V : Type ℓ} → Option (Ht K V) → Option (Ht K V × Bool)
stored none = none
stored (some ht) = some (ht, true)

-- How deep a growing table and the insertions into its new table may call one another.
abbrev pub ht_fuel : ℕ
ht_fuel = 1

module _ {ℓ} {K V : Type ℓ} ⦃opt : Options K V⦄ ⦃heap : Heap⦄ where
  -- A bucket with no room takes a larger array; its `size` is raised before the allocation is
  -- known to succeed. Without an array the first slot is at NULL, which is a refusal, once both
  -- counts are raised.
  unfoldable pub extend : Ht K V → ℕ → Ht K V × Slot
  extend ht b =
      let bt = bucket_at ht b in
      let n = length bt.arr + bt.lost in
      let size' = (n + 1) * 2 in
      if leb bt.size (n + 1)
      then (if heap.grants size'
          then (
            record ht {
              table = set_bucket ht b (record bt { size = size'; room = size' });
              count = ht.count + 1;
            },
            if bt.lost == 0 then fresh b else outside,
          )
          else (record ht { table = set_bucket ht b (record bt { size = size' }) }, refused))
      else (if ltb n bt.room
          then (record ht { count = ht.count + 1 }, fresh b)
          else (if n == 0
              then (
                record ht {
                  table = set_bucket ht b (record bt { lost = 1 });
                  count = ht.count + 1;
                },
                refused,
              )
              else (ht, outside)))

  unfoldable pub reserve_kv : Ht K V → K → ℕ → Bool → Ht K V × Slot
  reserve_kv ht key key_len update =
      let b = bucketfn ht key in
      elim (find_index key key_len (bucket_at ht b).arr) [
        | some j ↦ if update then (ht, existing b j) else (ht, refused)
        | none ↦ extend ht b
      ]

  -- The nested loops of `internal_ht_grow` over the buckets and their entries, with the insertion
  -- into the new table as an argument; an absent table means that the fuel ran out.
  unfoldable pub move_bucket :
      (Ht K V → Kv K V → Option (Ht K V × Bool)) → List (Kv K V) → Ht K V → Option (Ht K V)
  move_bucket insert [] ht2 = some ht2
  move_bucket insert (kv ∷ arr) ht2 = and_then (insert ht2 kv) (λ r. move_bucket insert arr r.0)

  unfoldable pub move_table :
      (Ht K V → Kv K V → Option (Ht K V × Bool)) → List (Bucket K V) → Ht K V → Option (Ht K V)
  move_table insert [] ht2 = some ht2
  move_table insert (bt ∷ table) ht2 =
      and_then (move_bucket insert bt.arr ht2) (move_table insert table)

  -- The table is left as it is where no larger one can be had.
  unfoldable pub internal_ht_grow :
      (Ht K V → Kv K V → Option (Ht K V × Bool)) → Ht K V → Option (Ht K V)
  internal_ht_grow insert ht =
      let idx = next_idx ht.prime_idx in
      elim (internal_ht_new {K = K} {V = V} (compute_size idx (ht.size * 2 % 2 ^ 32)) idx) [
        | none ↦ some ht
        | some ht2 ↦ move_table insert ht.table ht2
      ]

  unfoldable pub check_growing :
      (Ht K V → Kv K V → Option (Ht K V × Bool)) → Ht K V → Option (Ht K V)
  check_growing insert ht = if leb ht.size ht.count then internal_ht_grow insert ht else some ht

  -- Stores `kv` in the reserved slot, and grows the table if that filled it. Nothing is said of a
  -- store outside an array.
  unfoldable pub store :
      (Ht K V → Kv K V → Option (Ht K V × Bool)) → Ht K V × Slot → Kv K V → Option (Ht K V × Bool)
  store insert (ht, refused) kv = some (ht, false)
  store insert (ht, outside) kv = none
  store insert (ht, slot) kv = stored (check_growing insert (write_kv ht slot kv))

  -- `insert_kv` and `internal_ht_grow` call one another: the fuel bounds how deep.
  unfoldable pub insert_kv : ℕ → Ht K V → Kv K V → Bool → Option (Ht K V × Bool)
  insert_kv zero ht kv update = none
  insert_kv (suc fuel) ht kv update =
      store (λ h k. insert_kv fuel h k false) (reserve_kv ht kv.key kv.key_len update) kv

  unfoldable pub insert_update : ℕ → Ht K V → K → V → Bool → Option (Ht K V × Bool)
  insert_update fuel ht key value update =
      store (λ h k. insert_kv fuel h k false) (reserve_kv ht key (opt.calcsize_key key) update)
        (new_kv key value)

  unfoldable pub insert : Ht K V → K → V → Option (Ht K V × Bool)
  insert ht key value = insert_update ht_fuel ht key value false

  unfoldable pub update : Ht K V → K → V → Option (Ht K V × Bool)
  update ht key value = insert_update ht_fuel ht key value true

  unfoldable pub update_key : Ht K V → K → K → Option (Ht K V × Bool)
  update_key ht old_key new_key = elim (find ht old_key) [
    | none ↦ some (ht, false)
    | some value ↦
        and_then (insert_update ht_fuel ht new_key value false)
          (λ r. if r.1 then some (delete r.0 old_key) else some (r.0, false))
  ]

-- `Ht_(foreach)` over a callback that does not change the table: it carries a state along, and
-- stops the whole walk by answering `false`.
module _ {ℓ κ} {K V : Type ℓ} {S : Type κ} (callback : S → K → V → S × Bool) where
  unfoldable pub foreach_bucket : List (Kv K V) → S → S × Bool
  foreach_bucket [] user = (user, true)
  foreach_bucket (kv ∷ arr) user =
      let r = callback user kv.key kv.val in
      let rest = foreach_bucket arr r.0 in if r.1 then rest else (r.0, false)

  unfoldable pub foreach_table : List (Bucket K V) → S → S
  foreach_table [] user = user
  foreach_table (bt ∷ table) user =
      let r = foreach_bucket bt.arr user in
      let rest = foreach_table table r.0 in if r.1 then rest else r.0

  unfoldable pub foreach : Ht K V → S → S
  foreach ht user = foreach_table ht.table user
