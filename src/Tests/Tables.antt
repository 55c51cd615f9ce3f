-- ===== src/Tests/Tables.antt =====
-- The theorems on src/ht.inc.c, src/ht_pp.c and src/ht_up.c at a table of strings.
use mathlib.Core.Path.{subst}
use mathlib.Core.Option
use sdb.Base.{
  ℕ, ◌+◌, ◌-◌, ◌*◌, ◌%◌, ◌^◌, ◌≤◌, ◌<◌, ◌≡◌, refl, sym, ap, ◌∙◌, Bool, true, false, not, ◌&&◌, List,
  [], ◌∷◌, Option, none, some, if◌then◌else◌, length, codes, arith, inl,
}
use sdb.Ht.{
  Options, Heap, Kv, Bucket, Ht, empty_bucket, bucket_at, bucketfn, value_of, prime, find, insert,
  update, update_key, delete, new_opt, insert_kv, foreach,
}
use sdb.Ht.Entries.{same, KeyLaws, find_in, occ}
use sdb.Ht.State.{IsValid, view, blank, blank-IsValid}
use sdb.Ht.Contents.{entries}
use sdb.Ht.Grow.{internal_ht_grow-view}
use sdb.Ht.Insert.{IsReady}
use sdb.Ht.Laws.{is_some, Finds, insert-Finds, update-Finds, delete-Finds, update_key-Finds}
use sdb.Ht.Foreach.{walk, foreach-walk}
use sdb.Ht.Faults.{insert-miscounts}
use sdb.HtKeys.{string_options}
use sdb.HtKeys.Laws.{string_options-KeyLaws}

-- Numbers under strings.
instance abbrev pages : Options (List ℕ) ℕ
pages = string_options (λ n. n) (λ n. 0)

abbrev pages_laws : KeyLaws pages
pages_laws = string_options-KeyLaws (λ n. n) (λ n. 0)

instance abbrev generous : Heap
generous = record { grants = λ n. true }

abbrev empty_table : Ht (List ℕ) ℕ
empty_table = blank 3 0

empty_table-IsReady : IsReady empty_table
unfolding prime
empty_table-IsReady = record {
  valid = blank-IsValid 3 0 (omega arith) (inl (omega arith, refl));
  open_slots = omega arith;
}

abbrev one_entry : Ht (List ℕ) ℕ
one_entry = record (empty_table) {
  table =
      empty_bucket
      ∷ empty_bucket
      ∷ (record {
        arr = (record { key = codes "ant"; val = 7; key_len = 3; value_len = 0 }) ∷ [];
        size = 2;
        room = 2;
        lost = 0;
      })
      ∷ [];
  count = 1;
}

update-runs : update empty_table (codes "ant") 7 ≡ some (one_entry, true)
unfolding update sdb.Ht.insert_update sdb.Ht.reserve_kv sdb.Ht.find_index sdb.Ht.extend sdb.Ht.store
    sdb.Ht.write_kv sdb.Ht.check_growing sdb.Util.sdb_hash sdb.Util.sdb_hash_len sdb.Util.hash_loop
    sdb.Util.hash_step sdb.Util.widen_char
update-runs = refl

same_table :
    (a b : Ht (List ℕ) ℕ)
    → ◌≡◌ {A = Option (Ht (List ℕ) ℕ × Bool)} (some (a, true)) (some (b, true))
    → a ≡ b
same_table a b e = ap (λ (o : Option (Ht (List ℕ) ℕ × Bool)). elim o [ none ↦ a | some r ↦ r.0 ]) e

one_entry-IsReady : IsReady one_entry
one_entry-IsReady =
    let (r, run, left) =
      update-Finds pages_laws (λ n. refl) empty_table (codes "ant") 7 empty_table-IsReady
        (omega arith) in
    subst IsReady (same_table r one_entry (sym run ∙ update-runs)) left.ready

insert-Finds_example :
    (r : Ht (List ℕ) ℕ) × (insert one_entry (codes "bee") 9
      ≡ some (r, not (is_some (find one_entry (codes "bee")))))
    × (if is_some (find one_entry (codes "bee"))
        then r ≡ one_entry
        else Finds r 2 (λ q. if same pages q (codes "bee") then some 9 else find one_entry q))
insert-Finds_example =
    insert-Finds pages_laws (λ n. refl) one_entry (codes "bee") 9 one_entry-IsReady (omega arith)

update-Finds_example :
    (r : Ht (List ℕ) ℕ) × (update one_entry (codes "ant") 9 ≡ some (r, true))
    × Finds r 1 (λ q. if same pages q (codes "ant") then some 9 else find one_entry q)
unfolding find sdb.Ht.find_kv sdb.Ht.find_index sdb.Ht.is_kv_equal sdb.Base.str_eq sdb.Util.sdb_hash
    sdb.Util.sdb_hash_len sdb.Util.hash_loop sdb.Util.hash_step sdb.Util.widen_char
update-Finds_example =
    update-Finds pages_laws (λ n. refl) one_entry (codes "ant") 9 one_entry-IsReady (omega arith)

delete-Finds_example :
    (r : Ht (List ℕ) ℕ) × (delete one_entry (codes "ant")
      ≡ (r, is_some (find one_entry (codes "ant"))))
    × Finds r
        (1 - (if is_some (find one_entry (codes "ant")) then 1 else 0))
        (λ q. if same pages q (codes "ant") then none else find one_entry q)
unfolding find sdb.Ht.find_kv sdb.Ht.find_index sdb.Ht.is_kv_equal sdb.Base.str_eq sdb.Util.sdb_hash
    sdb.Util.sdb_hash_len sdb.Util.hash_loop sdb.Util.hash_step sdb.Util.widen_char
delete-Finds_example = delete-Finds pages_laws one_entry (codes "ant") one_entry-IsReady

update_key-Finds_example :
    let moves =
      is_some (find one_entry (codes "ant")) && not (is_some (find one_entry (codes "bee"))) in
    (r : Ht (List ℕ) ℕ) × (update_key one_entry (codes "ant") (codes "bee") ≡ some (r, moves))
    × (if moves
        then Finds r 1 (λ q.
          if same pages q (codes "ant")
          then none
          else (if same pages q (codes "bee")
              then Option.map (λ n. n) (find one_entry (codes "ant"))
              else find one_entry q))
        else r ≡ one_entry)
update_key-Finds_example =
    update_key-Finds pages_laws (λ n. refl) one_entry (codes "ant") (codes "bee") one_entry-IsReady
      (omega arith)

internal_ht_grow-view_example :
    (r : Ht (List ℕ) ℕ) × (sdb.Ht.internal_ht_grow (λ h k. insert_kv 1 h k false) one_entry
      ≡ some r)
    × IsValid r
    × (3 < r.size)
    × (r.count ≡ 1)
    × ((q : List ℕ) → view r q ≡ view one_entry q)
internal_ht_grow-view_example =
    internal_ht_grow-view pages_laws (λ n. refl) 0 one_entry one_entry-IsReady.valid (omega arith)
      (omega arith)

-- Stops at the first value over 5.
abbrev sum_up : ℕ → List ℕ → ℕ → ℕ × Bool
sum_up s k n = (s + n, sdb.Base.leb n 5)

foreach-walk_example :
    (foreach sum_up one_entry 1 ≡ walk sum_up (entries one_entry.table) 1)
    × (length (entries one_entry.table) ≡ 1)
    × ((q : List ℕ)
        → (occ q (entries one_entry.table) ≤ 1)
          × (value_of (find_in q (entries one_entry.table)) ≡ find one_entry q))
foreach-walk_example = foreach-walk sum_up one_entry 1 one_entry-IsReady.valid

-- No array of two entries is granted.
abbrev stingy : Heap
stingy = record { grants = λ n. sdb.Base.ltb 2 n }

insert-miscounts_example :
    (r : Ht (List ℕ) ℕ) × (s : Ht (List ℕ) ℕ) × (insert ⦃heap = stingy⦄ empty_table (codes "ant") 7
      ≡ some (r, false))
    × (r.count ≡ 0)
    × (insert ⦃heap = stingy⦄ r (codes "ant") 7 ≡ some (s, false))
    × (s.count ≡ 1)
    × ((q : List ℕ) → (find r q ≡ find empty_table q) × (find s q ≡ find empty_table q))
    × (insert ⦃heap = stingy⦄ s (codes "ant") 7 ≡ none)
unfolding sdb.Util.sdb_hash sdb.Util.sdb_hash_len sdb.Util.hash_loop sdb.Util.hash_step
    sdb.Util.widen_char
insert-miscounts_example =
    insert-miscounts ⦃heap = stingy⦄ empty_table (codes "ant") 7 (omega arith) refl refl refl
