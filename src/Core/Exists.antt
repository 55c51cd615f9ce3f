-- ===== src/Core/Exists.antt =====
-- `sdb_exists` of src/sdb.c against what a key reads as.
use sdb.Base.{
  ℕ, ◌≡◌, refl, Bool, true, false, not, ◌&&◌, ◌||◌, List, [], ◌∷◌, Option, none, some, ltb, leb,
  ◌==◌, if◌then◌else◌, length, get_or, arith, Bool-cases, inl, inr,
}
use sdb.Ht.{Heap}
use sdb.Ht.State.{view}
use sdb.Ht.Insert.{IsReady}
use sdb.Ht.Laws.{is_some}
use sdb.SdbHt.{record_options}
use sdb.Core.{Lookup, failed, absent, present, Disk, Sdb, sdb_vsz, is_empty}
use sdb.Core.Read.{disk_value, other_value, is_expired, disk_exists, sdb_exists}
use sdb.Core.Spec.{Record}
use sdb.Core.Change.{find_kvp-view}
use sdb.Core.Lookups.{text_value, record_value, expired_record, reads}

-- What the disk answers is a string with a byte in it, and no earlier answer is left behind.
abbrev pub is_sound : Bool → Lookup → Bool
is_sound stale failed = not stale
is_sound stale absent = true
is_sound stale (present d) = not (get_or d 0 0 == 0) && (ltb 0 (length d) && ltb (length d) sdb_vsz)

disk_exists-value :
    (disk : Disk) (look : Lookup)
    → is_sound disk.stale look ≡ true
    → disk_exists disk look ≡ is_some (disk_value look)
unfolding disk_exists disk_value
disk_exists-value disk failed sound = ground arith
disk_exists-value disk absent sound = refl
disk_exists-value disk (present d) sound =
    let size : (ltb (length d) 1 || leb sdb_vsz (length d)) ≡ false = ground arith in
    rw size (ground arith)

module _ ⦃heap : Heap⦄ (s : Sdb) (now : ℕ) (key : List ℕ) (ready : IsReady s.ht) where
  -- A key exists when it reads as a value: no generated lookup is set, what the disk answers
  -- for the key is sound, the key's record has not expired, and the table is ready.
  pub sdb_exists-reads :
      s.gp ≡ none
      → is_sound s.disk.stale (s.disk.find key) ≡ true
      → expired_record s now (view s.ht key) ≡ false
      → sdb_exists s (some key) ≡ is_some (reads s now key)
  unfolding sdb_exists reads other_value
  sdb_exists-reads gp sound live =
      rw (find_kvp-view s ready key, sdb_exists) (go (view s.ht key) live)
    where
      memory :
          (kv : Record) (text : Option (List ℕ))
          → is_expired s now kv ≡ false
          → (elim text [ none ↦ false | some t ↦ not (is_empty t) ])
            ≡ is_some (text_value s now kv text)
      memory kv none live = refl
      memory kv (some []) live = refl
      memory kv (some (x ∷ xs)) live = rw live refl

      go :
          (e : Option Record)
          → expired_record s now e ≡ false
          → (elim e [
            | some kv ↦ elim kv.val.text [ none ↦ false | some text ↦ not (is_empty text) ]
            | none ↦ if s.disk.opened then disk_exists s.disk (s.disk.find key) else false
          ])
            ≡ is_some (record_value s now key e)
      go none live = elim (Bool-cases s.disk.opened) [
        | inl o ↦ simp (o, gp, other_value, disk_exists-value s.disk (s.disk.find key) sound)
        | inr c ↦ simp (c, gp, other_value)
      ]
      go (some kv) live = memory kv kv.val.text live
