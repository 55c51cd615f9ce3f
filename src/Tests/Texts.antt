-- ===== src/Tests/Texts.antt =====
-- The theorems on src/text.c at a small text.
use sdb.Base.{
  ℕ, ◌<◌, ◌≡◌, refl, Bool, true, false, not, ◌&&◌, List, [], ◌∷◌, ◌==◌, some, length, All, codes,
  arith,
}
use sdb.Buffer.{Device}
use sdb.Text.{
  Tree, node, leaf, branch, text_save, save_records, save_kv_cb, write_value, write_key,
  starts_slash, write_path, write_tokens, escape_loop, escaped, escape_flush, write,
  sdb_text_save_fd,
}
use sdb.Text.Load.{Target, sdb_text_load_buf}
use sdb.Text.RoundTrip.{IsTextTree, restore_tree, sdb_text_load_buf-sdb_text_save_fd}
use sdb.Text.Tokens.{IsText}

instance abbrev disk : Device
disk = record { writes = λ n. true; seeks = λ n. true }

-- What was set, the last first.
abbrev Log : Type 0
Log = List (List (List ℕ) × List ℕ × List ℕ)

abbrev make : Log → List (List ℕ) → List ℕ → Log
make log path name = log

instance abbrev logged : Target Log
logged = record {
  sdb_ns = λ log path name. some (make log path name);
  sdb_set = λ log path key value. (path, key, value) ∷ log;
}

-- Whether no character is the zero.
abbrev nonzero : List ℕ → Bool
nonzero [] = true
nonzero (c ∷ s) = not (c == 0) && nonzero s

nonzero-All : (s : List ℕ) → nonzero s ≡ true → All (λ c. (c == 0) ≡ false) s
nonzero-All [] all = tt
nonzero-All (c ∷ s) all = (ground (arith, all), nonzero-All s (ground (arith, all)))

nonzero-IsText : (s : List ℕ) → 0 < length s → nonzero s ≡ true → IsText s
nonzero-IsText s full all = (full, nonzero-All s all)

abbrev small : Tree
small =
    node ((codes "/a=b", codes "one\ntwo\\") ∷ ((codes "k", codes "v") ∷ []))
      (branch (codes "x/y") (node ((codes "in", codes "side") ∷ []) leaf) leaf)

abbrev small-IsTextTree : IsTextTree small
small-IsTextTree = (
  (
    (
      nonzero-IsText (codes "/a=b") (omega arith) refl,
      nonzero-IsText (codes "one\ntwo\\") (omega arith) refl,
    ),
    (
      (
        nonzero-IsText (codes "k") (omega arith) refl,
        nonzero-IsText (codes "v") (omega arith) refl,
      ),
      tt,
    ),
  ),
  (
    nonzero-IsText (codes "x/y") (omega arith) refl,
    (
      (
        (
          nonzero-IsText (codes "in") (omega arith) refl,
          nonzero-IsText (codes "side") (omega arith) refl,
        ),
        tt,
      ),
      tt,
    ),
    tt,
  ),
)

small_saved :
    sdb_text_save_fd small [] ≡ (codes "/\n\\/a\\=b=one\\ntwo\\\\\nk=v\n\n/x\\/y\nin=side\n", true)
unfolding sdb_text_save_fd text_save save_records save_kv_cb write_value write_key starts_slash
    write_path write_tokens escape_loop escaped escape_flush write
small_saved = refl

sdb_text_load_buf-sdb_text_save_fd_example :
    (text : List ℕ) × (sdb_text_save_fd small [] ≡ (text, true))
    × (sdb_text_load_buf [] text ≡ restore_tree make [] small [])
sdb_text_load_buf-sdb_text_save_fd_example =
    sdb_text_load_buf-sdb_text_save_fd make (λ db path name. refl) (λ n. refl) small []
      small-IsTextTree
