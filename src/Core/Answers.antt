-- ===== src/Core/Answers.antt =====
-- The lookups of src/sdb.c end, and what they leave of the store.
use sdb.Base.{
  ℕ, ◌^◌, ◌<◌, ◌≡◌, refl, sym, ◌∙◌, true, false, ◌&&◌, List, [], ◌∷◌, Option, none, some, and_then,
  ◌==◌, length, str_eq, arith, Bool-cases, Option-cases, inl, inr,
}
use sdb.Ht.{Heap}
use sdb.Ht.Entries.{same}
use sdb.Ht.State.{view}
use sdb.Ht.Insert.{IsReady}
use sdb.HtKeys.Laws.{str_same}
use sdb.SdbHt.{record_options}
use sdb.Core.{
  Lookup, failed, absent, present, Sdb, Value, sdb_ksz, sdb_journal_log, sdb_set, sdb_unset,
}
use sdb.Core.Read.{disk_value, other_value, is_expired, memory_value, sdb_const_get_len, str_of}
use sdb.Core.Spec.{Record, replaced, set_spec, has_value, set_spec-some}
use sdb.Core.Change.{set_record-Changed, find_kvp-view}
use sdb.Core.Lookups.{
  text_value, record_value, record_value-some, expired_record, reads, set_internal-record,
}

none-ne-some : (t : List ℕ) → none ≡ some t → ⊥
none-ne-some t e = cc e

pub same_key : (q key : List ℕ) → same record_options q key ≡ true → q ≡ key
same_key = str_same (λ v. v) (record_options).calcsize_val

module _ (s : Sdb) (now : ℕ) (key : List ℕ) (gp : s.gp ≡ none) where
  pub other_value-absent : s.disk.find key ≡ absent → other_value s key ≡ none
  unfolding other_value disk_value
  other_value-absent e = elim (Bool-cases s.disk.opened) [
    | inl o ↦ simp (other_value, gp, o, e)
    | inr c ↦ simp (other_value, gp, c)
  ]

  -- A key with a value reads as nothing once it is unset.
  emptied-reads :
      (kv : Record) (x : ℕ) (xs : List ℕ) (look : Lookup)
      → s.disk.find key ≡ look
      → record_value s now key (replaced look kv (x ∷ xs) [] 0).0 ≡ none
  emptied-reads kv x xs failed e =
      let t : (length {A = ℕ} [] == kv.value_len && str_eq (x ∷ xs) []) ≡ false =
        unfold str_eq in ground arith in
      rw t
  emptied-reads kv x xs absent e = other_value-absent e
  emptied-reads kv x xs (present d) e =
      let t : (length {A = ℕ} [] == kv.value_len && str_eq (x ∷ xs) []) ≡ false =
        unfold str_eq in ground arith in
      rw t

module _ ⦃heap : Heap⦄ (s : Sdb) (now : ℕ) (key : List ℕ) (ready : IsReady s.ht) (kv : Record)
    (held : view s.ht key ≡ some kv) where
  get-record :
      (text : Option (List ℕ)) → kv.val.text ≡ text → reads s now key ≡ text_value s now kv text
  unfolding reads
  get-record text there = rw held (record_value-some s now key kv text there)

  get-null : kv.val.text ≡ none → sdb_const_get_len s now (some key) ≡ some (s, none)
  unfolding sdb_const_get_len memory_value
  get-null there =
      rw (find_kvp-view s ready key, held, sdb_const_get_len) (simp (memory_value, there))

  get-empty : kv.val.text ≡ some [] → sdb_const_get_len s now (some key) ≡ some (s, none)
  unfolding sdb_const_get_len memory_value
  get-empty there =
      rw (find_kvp-view s ready key, held, sdb_const_get_len) (simp (memory_value, there))

  get-live :
      (x : ℕ) (xs : List ℕ)
      → kv.val.text ≡ some (x ∷ xs)
      → is_expired s now kv ≡ false
      → sdb_const_get_len s now (some key) ≡ some (s, text_value s now kv (some (x ∷ xs)))
  unfolding sdb_const_get_len memory_value
  get-live x xs there live =
      rw (find_kvp-view s ready key, held, sdb_const_get_len) (simp (memory_value, there, live))

  get-expired :
      (x : ℕ) (xs : List ℕ)
      → kv.val.text ≡ some (x ∷ xs)
      → is_expired s now kv ≡ true
      → sdb_const_get_len s now (some key)
        ≡ and_then (sdb_unset s (some key) 0) (λ r. some (r.0, none))
  unfolding sdb_const_get_len memory_value
  get-expired x xs there over =
      rw (find_kvp-view s ready key, held, sdb_const_get_len) (simp (memory_value, there, over))

-- A lookup of a key whose record has not expired leaves the store as it is.
module _ ⦃heap : Heap⦄ (s : Sdb) (now : ℕ) (key : List ℕ) (ready : IsReady s.ht) where
  pub sdb_const_get_len-live :
      expired_record s now (view s.ht key) ≡ false
      → sdb_const_get_len s now (some key) ≡ some (s, reads s now key)
  unfolding reads sdb_const_get_len other_value
  sdb_const_get_len-live live = elim (Option-cases (view s.ht key)) [
    | inl gone ↦ rw (find_kvp-view s ready key, gone, sdb_const_get_len) refl
    | inr (kv, held) ↦ go kv kv.val.text held refl (rw held at live)
  ]
    where
      go :
          (kv : Record) (text : Option (List ℕ))
          → view s.ht key ≡ some kv
          → kv.val.text ≡ text
          → is_expired s now kv ≡ false
          → sdb_const_get_len s now (some key) ≡ some (s, reads s now key)
      go kv none held there live =
          get-null s now key ready kv held there
          ∙ rw (get-record s now key ready kv held none there) refl
      go kv (some []) held there live =
          get-empty s now key ready kv held there
          ∙ rw (get-record s now key ready kv held (some []) there) refl
      go kv (some (x ∷ xs)) held there live =
          get-live s now key ready kv held x xs there live
          ∙ rw (get-record s now key ready kv held (some (x ∷ xs)) there) refl

  pub reads-live :
      (t : List ℕ)
      → str_of (reads s now key) ≡ some t
      → expired_record s now (view s.ht key) ≡ false
  unfolding reads
  reads-live t e = go (view s.ht key) e
    where
      value :
          (kv : Record) (text : Option (List ℕ))
          → str_of (text_value s now kv text) ≡ some t
          → is_expired s now kv ≡ false
      value kv none e = absurd (none-ne-some t e)
      value kv (some []) e = absurd (none-ne-some t e)
      value kv (some (x ∷ xs)) e = elim (Bool-cases (is_expired s now kv)) [
        | inl over ↦ absurd (none-ne-some t (rw over at e))
        | inr live ↦ live
      ]

      go :
          (r : Option Record)
          → str_of (record_value s now key r) ≡ some t
          → expired_record s now r ≡ false
      go none e = refl
      go (some kv) e = value kv kv.val.text e

  pub sdb_const_get_len-found :
      (t : List ℕ)
      → str_of (reads s now key) ≡ some t
      → sdb_const_get_len s now (some key) ≡ some (s, reads s now key)
  sdb_const_get_len-found t e = sdb_const_get_len-live (reads-live t e)

-- What a lookup leaves, with what it answers.
abbrev pub Answers : ⦃heap : Heap⦄ → Sdb → ℕ → List ℕ → Type 0
Answers s now key =
    (r : Sdb) × (sdb_const_get_len s now (some key) ≡ some (r, reads s now key))
    × IsReady r.ht
    × (r.ht.size ≡ s.ht.size)
    × (s.gp ≡ none → (q : List ℕ) → reads r now q ≡ reads s now q)

module _ ⦃heap : Heap⦄ (grants : (n : ℕ) → heap.grants n ≡ true) (s : Sdb) (now : ℕ) (key : List ℕ)
    (ready : IsReady s.ht) (small : s.ht.size < 2 ^ 31) (small_key : length key < sdb_ksz) where
  Answers-same :
      (v : Option Value)
      → sdb_const_get_len s now (some key) ≡ some (s, v)
      → reads s now key ≡ v
      → Answers s now key
  Answers-same v run e = (s, run ∙ rw e refl, ready, refl, λ _ q. refl)

  Answers-expired :
      (kv : Record) (x : ℕ) (xs : List ℕ)
      → view s.ht key ≡ some kv
      → kv.val.text ≡ some (x ∷ xs)
      → is_expired s now kv ≡ true
      → Answers s now key
  unfolding sdb_journal_log reads is_expired other_value sdb_unset sdb_set
  Answers-expired kv x xs held there over =
      let s' = sdb_journal_log s key [] in
      let (h, run, size, m) =
        set_record-Changed grants s' key [] false 0 ready small small_key (omega arith) in
      let value : has_value (view s.ht key) ≡ true = rw held (simp there) in
      let nothing : reads s now key ≡ none =
        get-record s now key ready kv held (some (x ∷ xs)) there ∙ simp over in
      (
        record s' { ht = h },
        get-expired s now key ready kv held x xs there over
            ∙ rw (set_internal-record grants s key [] false 0 small_key (omega arith), run, nothing)
                refl,
        m.ready,
        size value,
        λ gp q. elim (Bool-cases (same record_options q key)) [
          | inl hit ↦
              let e : q ≡ key = same_key q key hit in
              let nothing_after : record_value s now key
                    (set_spec (s.disk.find key) (view s.ht key) key [] false 0).0
                  ≡ none =
                rw (held, set_spec-some (s.disk.find key) kv key [] false 0 (x ∷ xs) there)
                  (emptied-reads s now key gp kv x xs (s.disk.find key) refl) in
              rw (m.reads q, hit, e) (nothing_after ∙ sym nothing)
          | inr miss ↦ rw (m.reads q, miss) refl
        ],
      )

  -- A lookup ends. It answers what the key reads as, leaves a ready table of the same size,
  -- and, if no generated lookup is set, every key reads as before. The table is ready and its
  -- size is below 2^31, the key is shorter than SDB_KSZ, and every allocation is granted.
  pub sdb_const_get_len-reads : Answers s now key
  unfolding reads sdb_const_get_len other_value
  sdb_const_get_len-reads = elim (Option-cases (view s.ht key)) [
    | inl gone ↦
        Answers-same (other_value s key)
          (rw (find_kvp-view s ready key, gone, sdb_const_get_len) refl) (rw gone refl)
    | inr (kv, held) ↦ go kv kv.val.text held refl
  ]
    where
      go :
          (kv : Record) (text : Option (List ℕ))
          → view s.ht key ≡ some kv
          → kv.val.text ≡ text
          → Answers s now key
      go kv none held there =
          Answers-same none (get-null s now key ready kv held there)
            (get-record s now key ready kv held none there)
      go kv (some []) held there =
          Answers-same none (get-empty s now key ready kv held there)
            (get-record s now key ready kv held (some []) there)
      go kv (some (x ∷ xs)) held there = elim (Bool-cases (is_expired s now kv)) [
        | inl over ↦ Answers-expired kv x xs held there over
        | inr live ↦
            Answers-same (text_value s now kv (some (x ∷ xs)))
              (get-live s now key ready kv held x xs there live)
              (get-record s now key ready kv held (some (x ∷ xs)) there)
      ]
