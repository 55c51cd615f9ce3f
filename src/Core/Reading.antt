-- ===== src/Core/Reading.antt =====
-- What a key of src/sdb.c reads as, written out for each place where it is looked for.
use mathlib.Core.Path.{subst}
use sdb.Base.{
  ℕ, ◌^◌, ◌≤◌, ◌<◌, ◌≡◌, ◌⊎◌, ◌↔◌, refl, sym, ◌∙◌, true, false, ◌||◌, List, [], ◌∷◌, Option, none,
  some, ltb, leb, ◌==◌, length, c_string, arith, Bool-cases, Option-cases, inl, inr,
}
use sdb.Ht.{Heap}
use sdb.Ht.State.{view}
use sdb.Ht.Insert.{IsReady}
use sdb.SdbHt.{record_options}
use sdb.Core.{Lookup, failed, absent, present, Sdb, Value, sdb_ksz}
use sdb.Core.Read.{disk_value, other_value, is_expired, sdb_const_get_len}
use sdb.Core.Spec.{Record}
use sdb.Core.Lookups.{reads, text_value, record_value-some}
use sdb.Core.Answers.{sdb_const_get_len-reads}

-- The first place that has the key decides: the memory, then the generated lookup if there is
-- one, else the disk. A record in memory hides the others also where it has no value.
pub data Reads (s : Sdb) (now : ℕ) (key : List ℕ) : Option Value → Type 0 where
  null_text : (kv : Record) → view s.ht key ≡ some kv → kv.val.text ≡ none → Reads s now key none
  empty_text :
      (kv : Record) → view s.ht key ≡ some kv → kv.val.text ≡ some [] → Reads s now key none
  expired :
      (kv : Record) (x : ℕ) (xs : List ℕ)
      → view s.ht key ≡ some kv
      → kv.val.text ≡ some (x ∷ xs)
      → s.timestamped ≡ true
      → 0 < kv.val.expire
      → kv.val.expire < now
      → Reads s now key none
  live :
      (kv : Record) (x : ℕ) (xs : List ℕ)
      → view s.ht key ≡ some kv
      → kv.val.text ≡ some (x ∷ xs)
      → (s.timestamped ≡ false) ⊎ ((kv.val.expire ≡ 0) ⊎ (now ≤ kv.val.expire))
      → Reads s now key (some (record { str = x ∷ xs; vlen = kv.value_len; cas = kv.val.cas }))
  not_generated :
      (get : List ℕ → Option (List ℕ))
      → view s.ht key ≡ none
      → s.gp ≡ some get
      → get key ≡ none
      → Reads s now key none
  generated :
      (get : List ℕ → Option (List ℕ)) (t : List ℕ)
      → view s.ht key ≡ none
      → s.gp ≡ some get
      → get key ≡ some t
      → Reads s now key (some (record { str = t; vlen = 0; cas = 0 }))
  closed : view s.ht key ≡ none → s.gp ≡ none → s.disk.opened ≡ false → Reads s now key none
  off_disk :
      view s.ht key ≡ none
      → s.gp ≡ none
      → s.disk.opened ≡ true
      → (s.disk.find key ≡ failed) ⊎ (s.disk.find key ≡ absent)
      → Reads s now key none
  ill_sized :
      (d : List ℕ)
      → view s.ht key ≡ none
      → s.gp ≡ none
      → s.disk.opened ≡ true
      → s.disk.find key ≡ present d
      → (length d ≡ 0) ⊎ (0xffffff ≤ length d)
      → Reads s now key none
  on_disk :
      (d : List ℕ)
      → view s.ht key ≡ none
      → s.gp ≡ none
      → s.disk.opened ≡ true
      → s.disk.find key ≡ present d
      → 0 < length d
      → length d < 0xffffff
      → Reads s now key (some (record { str = c_string d; vlen = length d; cas = 0 }))

module _ (s : Sdb) (now : ℕ) (key : List ℕ) where
  not_expired :
      (kv : Record)
      → (s.timestamped ≡ false) ⊎ ((kv.val.expire ≡ 0) ⊎ (now ≤ kv.val.expire))
      → is_expired s now kv ≡ false
  unfolding is_expired
  not_expired kv (inl untimed) = rw untimed refl
  not_expired kv (inr (inl never)) = ground arith
  not_expired kv (inr (inr early)) = ground arith

  bad_size :
      (d : List ℕ)
      → (length d ≡ 0) ⊎ (0xffffff ≤ length d)
      → (ltb (length d) 1 || leb 0xffffff (length d)) ≡ true
  bad_size d (inl nothing) = ground arith
  bad_size d (inr long) = ground arith

  reads-other : view s.ht key ≡ none → reads s now key ≡ other_value s key
  unfolding reads
  reads-other gone = rw gone refl

  disk-other :
      view s.ht key ≡ none
      → s.gp ≡ none
      → s.disk.opened ≡ true
      → reads s now key ≡ disk_value (s.disk.find key)
  unfolding other_value
  disk-other gone gp opened = reads-other gone ∙ simp (other_value, gp, opened)

  get-other :
      (get : List ℕ → Option (List ℕ)) (t : Option (List ℕ))
      → view s.ht key ≡ none
      → s.gp ≡ some get
      → get key ≡ t
      → reads s now key
        ≡ elim t [ none ↦ none | some u ↦ some (record { str = u; vlen = 0; cas = 0 }) ]
  unfolding other_value
  get-other get t gone gp e = reads-other gone ∙ simp (other_value, gp, e)

  held-reads :
      (kv : Record) (text : Option (List ℕ))
      → view s.ht key ≡ some kv
      → kv.val.text ≡ text
      → reads s now key ≡ text_value s now kv text
  unfolding reads
  held-reads kv text held there = rw held (record_value-some s now key kv text there)

  Reads-reads : (v : Option Value) → Reads s now key v → reads s now key ≡ v
  unfolding is_expired disk_value other_value
  Reads-reads v (null_text kv held there) = held-reads kv none held there
  Reads-reads v (empty_text kv held there) = held-reads kv (some []) held there
  Reads-reads v (expired kv x xs held there timed set late) =
      let over : is_expired s now kv ≡ true = ground arith in
      held-reads kv (some (x ∷ xs)) held there ∙ rw over refl
  Reads-reads v (live kv x xs held there l) =
      held-reads kv (some (x ∷ xs)) held there ∙ rw (not_expired kv l) refl
  Reads-reads v (not_generated get gone gp e) = get-other get none gone gp e
  Reads-reads v (generated get t gone gp e) = get-other get (some t) gone gp e
  Reads-reads v (closed gone gp shut) = reads-other gone ∙ simp (other_value, gp, shut)
  Reads-reads v (off_disk gone gp opened (inl e)) = disk-other gone gp opened ∙ rw e refl
  Reads-reads v (off_disk gone gp opened (inr e)) = disk-other gone gp opened ∙ rw e refl
  Reads-reads v (ill_sized d gone gp opened e bad) =
      disk-other gone gp opened
      ∙ (let outside : (ltb (length d) 1 || leb 0xffffff (length d)) ≡ true = bad_size d bad in
          rw (e, outside) refl)
  Reads-reads v (on_disk d gone gp opened e some_bytes few) =
      disk-other gone gp opened
      ∙ (let inside : (ltb (length d) 1 || leb 0xffffff (length d)) ≡ false = ground arith in
          rw (e, inside) refl)

  -- What `reads` answers is what the key reads as.
  to_Reads : (v : Option Value) → Reads s now key v → Reads s now key (reads s now key)
  to_Reads v r = subst (λ w. Reads s now key w) (sym (Reads-reads v r)) r

  held-Reads :
      (kv : Record) (text : Option (List ℕ))
      → view s.ht key ≡ some kv
      → kv.val.text ≡ text
      → Reads s now key (reads s now key)
  held-Reads kv none held there = to_Reads none (null_text kv held there)
  held-Reads kv (some []) held there = to_Reads none (empty_text kv held there)
  held-Reads kv (some (x ∷ xs)) held there =
      let value : Value = record { str = x ∷ xs; vlen = kv.value_len; cas = kv.val.cas } in
      let valid : (s.timestamped ≡ false) ⊎ ((kv.val.expire ≡ 0) ⊎ (now ≤ kv.val.expire))
          → Reads s now key (reads s now key) =
        λ l. to_Reads (some value) (live kv x xs held there l) in
      elim (Bool-cases s.timestamped) [
        | inr untimed ↦ valid (inl untimed)
        | inl timed ↦ elim (Bool-cases (kv.val.expire == 0)) [
          | inl never ↦ valid (inr (inl (ground arith)))
          | inr set ↦ elim (Bool-cases (ltb kv.val.expire now)) [
            | inl late ↦
                to_Reads none (expired kv x xs held there timed (ground arith) (ground arith))
            | inr early ↦ valid (inr (inr (ground arith)))
          ]
        ]
      ]

  disk-Reads :
      (look : Lookup)
      → view s.ht key ≡ none
      → s.gp ≡ none
      → s.disk.opened ≡ true
      → s.disk.find key ≡ look
      → Reads s now key (reads s now key)
  disk-Reads failed gone gp opened e = to_Reads none (off_disk gone gp opened (inl e))
  disk-Reads absent gone gp opened e = to_Reads none (off_disk gone gp opened (inr e))
  disk-Reads (present d) gone gp opened e = elim (Bool-cases (length d == 0)) [
    | inl nothing ↦ to_Reads none (ill_sized d gone gp opened e (inl (ground arith)))
    | inr some_bytes ↦ elim (Bool-cases (leb 0xffffff (length d))) [
      | inl long ↦ to_Reads none (ill_sized d gone gp opened e (inr (ground arith)))
      | inr few ↦
          to_Reads (some (record { str = c_string d; vlen = length d; cas = 0 }))
            (on_disk d gone gp opened e (ground arith) (ground arith))
    ]
  ]

  other-Reads : view s.ht key ≡ none → Reads s now key (reads s now key)
  other-Reads gone = elim (Option-cases s.gp) [
    | inr (get, gp) ↦ elim (Option-cases (get key)) [
      | inl nothing ↦ to_Reads none (not_generated get gone gp nothing)
      | inr (t, e) ↦
          to_Reads (some (record { str = t; vlen = 0; cas = 0 })) (generated get t gone gp e)
    ]
    | inl gp ↦ elim (Bool-cases s.disk.opened) [
      | inl opened ↦ disk-Reads (s.disk.find key) gone gp opened refl
      | inr shut ↦ to_Reads none (closed gone gp shut)
    ]
  ]

  reads-Reads : Reads s now key (reads s now key)
  reads-Reads = elim (Option-cases (view s.ht key)) [
    | inl gone ↦ other-Reads gone
    | inr (kv, held) ↦ held-Reads kv kv.val.text held refl
  ]

-- What two stores read alike.
Reads-same :
    (r s : Sdb) (now : ℕ) (q : List ℕ)
    → reads r now q ≡ reads s now q
    → (v : Option Value) → Reads s now q v ↔ Reads r now q v
Reads-same r s now q e v = (
  (λ m. subst (λ w. Reads r now q w) (e ∙ Reads-reads s now q v m) (reads-Reads r now q)),
  (λ m. subst (λ w. Reads s now q w) (sym e ∙ Reads-reads r now q v m) (reads-Reads s now q)),
)

module _ ⦃heap : Heap⦄ (grants : (n : ℕ) → heap.grants n ≡ true) (s : Sdb) (now : ℕ) (key : List ℕ)
    (ready : IsReady s.ht) (small : s.ht.size < 2 ^ 31) (small_key : length key < sdb_ksz) where
  -- A lookup ends. It answers what the key reads as, and nothing else is what the key reads as;
  -- it leaves a ready table of the same size; and a generated lookup is set, or every key reads
  -- as before. What a key reads as is said by the memory if that has the key, else by the
  -- generated lookup if one is set, else by the disk: a value in memory that is not empty and
  -- has not expired, what the generated lookup gives, or a string on disk of 1 to 0xfffffe
  -- bytes. The table is ready and its size is below 2^31, the key is shorter than SDB_KSZ, and
  -- every allocation is granted.
  pub sdb_const_get_len-Reads :
      (r : Sdb) × (v : Option Value) × (sdb_const_get_len s now (some key) ≡ some (r, v))
      × ((w : Option Value) → Reads s now key w ↔ (w ≡ v))
      × IsReady r.ht
      × (r.ht.size ≡ s.ht.size)
      × (((get : List ℕ → Option (List ℕ)) × (s.gp ≡ some get))
          ⊎ ((q : List ℕ) (w : Option Value) → Reads s now q w ↔ Reads r now q w))
  sdb_const_get_len-Reads =
      let (r, run, ready', size, kept) =
        sdb_const_get_len-reads grants s now key ready small small_key in
      (
        r,
        reads s now key,
        run,
        (λ w. (
          (λ m. sym (Reads-reads s now key w m)),
          (λ e. subst (λ u. Reads s now key u) (sym e) (reads-Reads s now key)),
        )),
        ready',
        size,
        elim (Option-cases s.gp) [
          | inl nothing ↦ inr (λ q w. Reads-same r s now q (kept nothing q) w)
          | inr set ↦ inl set
        ],
      )
