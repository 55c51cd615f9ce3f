-- ===== src/Core/Change.antt =====
-- `sdb_set_internal` of src/sdb.c against a change of one record, given by a function of the record
-- that the key has and of what the disk answers.
use mathlib.Core.Bool.{false≢true}
use sdb.Base.{
  ℕ, ◌+◌, ◌^◌, ◌<◌, ◌≡◌, refl, ◌∙◌, Bool, true, false, not, ◌&&◌, List, Option, none, some, leb,
  ◌==◌, if◌then◌else◌, length, str_eq, arith, Bool-cases, Option-cases, inl, inr,
}
use sdb.Ht.{Heap, existing, bucketfn, write_kv}
use sdb.Ht.Entries.{same, IsKeyed}
use sdb.Ht.State.{view}
use sdb.Ht.Insert.{IsReady, find_kv-view, find_index-some}
use sdb.Ht.Change.{
  view-some, Changed, unchanged, delete-Changed, write_kv-Changed, insert_kv-Changed,
}
use sdb.SdbHt.{Records, record_options, sdb_ht_find_kvp, sdb_ht_delete, sdb_ht_insert_kvp}
use sdb.SdbHt.Laws.{record_laws}
use sdb.Core.{
  Lookup, failed, absent, present, Sdb, sdb_ksz, sdb_vsz, nextcas, or_empty, assign_kvp, sdbkv_new2,
  new_record, add_record, with_value, overwrite_record, replace_record, set_record,
}
use sdb.Core.Spec.{
  Record, fresh_record, overwritten, replaced, set_spec, has_value, set_spec-null, set_spec-some,
  has_value-null,
}

module _ ⦃heap : Heap⦄ (grants : (n : ℕ) → heap.grants n ≡ true) where
  sdbkv_new2-some :
      (key : List ℕ) (v : Option (List ℕ))
      → length key < sdb_ksz
      → length (or_empty v) < sdb_vsz
      → sdbkv_new2 key (length key) v (length (or_empty v))
        ≡ some (record {
          key = key;
          val = record { text = if length (or_empty v) == 0 then none else v; cas = 1; expire = 0 };
          key_len = length key;
          value_len = length (or_empty v);
        })
  unfolding sdbkv_new2 nextcas
  sdbkv_new2-some key none small_key small_val =
      let k : leb sdb_ksz (length key) ≡ false = ground arith in
      rw (k, grants 1, grants (length key + 1))
  sdbkv_new2-some key (some val) small_key small_val =
      let k : leb sdb_ksz (length key) ≡ false = ground arith in
      let v : leb sdb_vsz (length val) ≡ false = ground arith in
      elim (Bool-cases (length val == 0)) [
        | inl nothing ↦ rw (k, v, grants 1, grants (length key + 1), nothing)
        | inr something ↦
            rw (k, v, grants 1, grants (length key + 1), something, grants (length val + 1))
      ]

  new_record-fresh :
      (key val : List ℕ) (owned : Bool)
      → length key < sdb_ksz
      → length val < sdb_vsz
      → new_record key val owned ≡ some (fresh_record key val owned)
  unfolding new_record nextcas
  new_record-fresh key val true small_key small_val =
      rw (sdbkv_new2-some key none small_key (omega arith), new_record)
  new_record-fresh key val false small_key small_val =
      rw (new_record, sdbkv_new2-some key (some val) small_key small_val)

  add_record-Changed :
      (s : Sdb) (key val : List ℕ) (owned : Bool)
      → IsReady s.ht
      → s.ht.size < 2 ^ 31
      → length key < sdb_ksz
      → length val < sdb_vsz
      → (h : Records) × (add_record s key val owned ≡ some (record s { ht = h }, 2))
        × Changed s.ht h key (some (fresh_record key val owned))
  unfolding add_record sdb_ht_insert_kvp
  add_record-Changed s key val owned ready small small_key small_val =
      let kv = fresh_record key val owned in
      let (h, run, m) = insert_kv-Changed record_laws grants s.ht kv ready small (omega arith) in
      (h, rw (new_record-fresh key val owned small_key small_val, add_record, run), m)

-- The records of the table are as long as they say.
module _ (s : Sdb) (ready : IsReady s.ht) (key : List ℕ) where
  pub find_kvp-view : sdb_ht_find_kvp s.ht key ≡ view s.ht key
  unfolding sdb_ht_find_kvp
  find_kvp-view = find_kv-view s.ht ready.valid key

  assign_kvp-Changed :
      (kv e : Record)
      → view s.ht key ≡ some e
      → kv.key ≡ e.key
      → kv.key_len ≡ e.key_len
      → (h : Records) × (assign_kvp s.ht key kv ≡ h)
        × (h.size ≡ s.ht.size)
        × Changed s.ht h key (some kv)
  unfolding assign_kvp
  assign_kvp-Changed kv e held k l =
      let (j, found) = find_index-some s.ht ready.valid key e held in
      let (keyed, own) = view-some s.ht key e ready.valid held in
      let keyed' : IsKeyed kv = rw (k, l) keyed in
      let own' : same record_options key kv.key ≡ true = rw k own in
      (
        write_kv s.ht (existing (bucketfn s.ht key) j) kv,
        rw (found, assign_kvp),
        unfold write_kv in refl,
        write_kv-Changed record_laws s.ht key kv j ready keyed' own' found,
      )

  overwrite_record-Changed :
      (kv : Record) (text val : List ℕ) (cas : ℕ)
      → view s.ht key ≡ some kv
      → let after = overwritten kv text val cas in
        (h : Records) × (overwrite_record s key val kv text cas ≡ (record s { ht = h }, after.1))
        × (h.size ≡ s.ht.size)
        × Changed s.ht h key (some after.0)
  unfolding overwrite_record
  overwrite_record-Changed kv text val cas held =
      let same_table = unchanged record_laws s.ht key (some kv) ready held in
      elim (Bool-cases (not (cas == 0) && not (kv.val.cas == cas))) [
        | inl conflict ↦ (s.ht, rw conflict refl, refl, rw conflict same_table)
        | inr agree ↦ elim (Bool-cases (length val == kv.value_len && str_eq text val)) [
          | inl equal ↦ (s.ht, rw (agree, equal) refl, refl, rw (agree, equal) same_table)
          | inr differ ↦
              let (h, run, size, m) = assign_kvp-Changed (with_value kv val) kv held refl refl in
              (h, rw (agree, differ, run) refl, size, rw (agree, differ) m)
        ]
      ]

  replace_record-Changed :
      (kv : Record) (text val : List ℕ) (cas : ℕ)
      → view s.ht key ≡ some kv
      → let after = replaced (s.disk.find key) kv text val cas in
        (h : Records) × (replace_record s key val kv text cas ≡ (record s { ht = h }, after.1))
        × (h.size ≡ s.ht.size)
        × Changed s.ht h key after.0
  unfolding replace_record sdb_ht_delete
  replace_record-Changed kv text val cas held = go (s.disk.find key) refl
    where
      go :
          (look : Lookup)
          → s.disk.find key ≡ look
          → let after = replaced look kv text val cas in
            (h : Records) × (replace_record s key val kv text cas ≡ (record s { ht = h }, after.1))
            × (h.size ≡ s.ht.size)
            × Changed s.ht h key after.0
      go failed e =
          let (h, run, size, m) = overwrite_record-Changed kv text val cas held in
          (h, rw (replace_record, e) run, size, m)
      go absent e =
          let (h, run, size, m) = delete-Changed record_laws s.ht key ready in
          (h, rw (replace_record, e, run) refl, size, m)
      go (present d) e =
          let (h, run, size, m) = overwrite_record-Changed kv text val cas held in
          (h, rw (replace_record, e) run, size, m)

module _ ⦃heap : Heap⦄ (s : Sdb) (ready : IsReady s.ht) (kv : Record) (key val : List ℕ)
    (owned : Bool) (cas : ℕ) (held : view s.ht key ≡ some kv) where
  set_record-null : kv.val.text ≡ none → set_record s key val owned cas ≡ add_record s key val owned
  unfolding set_record
  set_record-null null = rw (find_kvp-view s ready key, held, set_record) (simp null)

  pub set_record-some :
      (text : List ℕ)
      → kv.val.text ≡ some text
      → set_record s key val owned cas ≡ some (replace_record s key val kv text cas)
  unfolding set_record
  set_record-some text there = rw (find_kvp-view s ready key, held, set_record) (simp there)

module _ ⦃heap : Heap⦄ (grants : (n : ℕ) → heap.grants n ≡ true) where
  -- A set changes the record of its key alone, as `set_spec` says, and a table that need not take a
  -- new record keeps its size.
  pub set_record-Changed :
      (s : Sdb) (key val : List ℕ) (owned : Bool) (cas : ℕ)
      → IsReady s.ht
      → s.ht.size < 2 ^ 31
      → length key < sdb_ksz
      → length val < sdb_vsz
      → let after = set_spec (s.disk.find key) (view s.ht key) key val owned cas in
        (h : Records) × (set_record s key val owned cas ≡ some (record s { ht = h }, after.1))
        × (has_value (view s.ht key) ≡ true → h.size ≡ s.ht.size)
        × Changed s.ht h key after.0
  unfolding set_record
  set_record-Changed s key val owned cas ready small small_key small_val =
      let look = s.disk.find key in
      elim (Option-cases (view s.ht key)) [
        | inl gone ↦
            let (h, run, m) =
              add_record-Changed grants s key val owned ready small small_key small_val in
            (
              h,
              rw (find_kvp-view s ready key, gone, set_record) run,
              (λ t. absurd (false≢true (rw gone at t))),
              rw gone m,
            )
        | inr (kv, held) ↦ elim (Option-cases kv.val.text) [
          | inl null ↦
              let (h, run, m) =
                add_record-Changed grants s key val owned ready small small_key small_val in
              let spec = set_spec-null look kv key val owned cas null in
              (
                h,
                set_record-null s ready kv key val owned cas held null ∙ rw (held, spec) run,
                (λ t. absurd (cc ((rw held at t), has_value-null kv null))),
                rw (held, spec) m,
              )
          | inr (text, there) ↦
              let (h, run, size, m) = replace_record-Changed s ready key kv text val cas held in
              let spec = set_spec-some look kv key val owned cas text there in
              (
                h,
                set_record-some s ready kv key val owned cas held text there
                    ∙ rw (held, spec, run) refl,
                (λ _. size),
                rw (held, spec) m,
              )
        ]
      ]
