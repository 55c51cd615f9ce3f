-- ===== src/Text/Saving.antt =====
-- The text that src/text.c writes.
use mathlib.Core.List.{append_assoc, append-nil}
use sdb.Base.{
  ℕ, ◌≡◌, refl, sym, ◌∙◌, Bool, true, false, List, [], ◌∷◌, ◌++◌, Option, none, some, ◌==◌,
  if◌then◌else◌, length, arith, Bool-cases, Option-cases, inl, inr,
}
use sdb.Buffer.{Device}
use sdb.Text.{
  Tree, node, Forest, leaf, branch, slash, backslash, newline, equals, write, escape_flush, escaped,
  escape_loop, write_tokens, write_path, starts_slash, write_key, write_value, save_kv_cb,
  save_records, text_save, save_forest,
}

-- A character, or the pair that stands for it.
abbrev pub or_itself : ℕ → Option (List ℕ) → List ℕ
or_itself c none = c ∷ []
or_itself c (some pair) = pair

abbrev pub escape : ℕ → List ℕ → List ℕ
escape ch [] = []
escape ch (c ∷ s) = or_itself c (escaped ch c) ++ escape ch s

abbrev pub key_text : List ℕ → List ℕ
key_text k = (if starts_slash k then backslash ∷ [] else []) ++ escape equals k

abbrev pub record_text : List ℕ × List ℕ → List ℕ
record_text (k, v) = key_text k ++ equals ∷ (escape 0 v ++ newline ∷ [])

abbrev pub records_text : List (List ℕ × List ℕ) → List ℕ
records_text [] = []
records_text (kv ∷ kvs) = record_text kv ++ records_text kvs

abbrev pub tokens_text : Bool → List (List ℕ) → List ℕ
tokens_text first [] = []
tokens_text first (token ∷ path) =
    (if first then [] else slash ∷ []) ++ (escape slash token ++ tokens_text false path)

abbrev mutual
  pub tree_text : List (List ℕ) → Tree → List ℕ
  tree_text path (node kvs namespaces) =
      slash ∷ (tokens_text true path ++ newline ∷ (records_text kvs ++ forest_text path namespaces))

  pub forest_text : List (List ℕ) → Forest → List ℕ
  forest_text path leaf = []
  forest_text path (branch name tree others) =
      newline ∷ (tree_text (path ++ name ∷ []) tree ++ forest_text path others)

module _ ⦃device : Device⦄ (writes : (n : ℕ) → device.writes n ≡ true) where
  write-all : (bytes out : List ℕ) → write bytes out ≡ (out ++ bytes, true)
  unfolding write
  write-all bytes out = rw (writes (length bytes)) refl

  escape_flush-all : (run out : List ℕ) → escape_flush run out ≡ (out ++ run, true)
  unfolding escape_flush
  escape_flush-all [] out = rw (append-nil out) refl
  escape_flush-all (c ∷ run) out =
      let e : (length (c ∷ run) == 0) ≡ false = ground arith in rw e (write-all (c ∷ run) out)

  escape_loop-all :
      (ch : ℕ) (run str out : List ℕ)
      → escape_loop ch run str out ≡ (out ++ (run ++ escape ch str), true)
  unfolding escape_loop
  escape_loop-all ch run [] out = rw (append-nil run) (escape_flush-all run out)
  escape_loop-all ch run (c ∷ str) out = elim (Option-cases (escaped ch c)) [
    | inl plain ↦
        rw (escape_loop, plain) (escape_loop-all ch (run ++ c ∷ []) str out ∙ simp append_assoc)
    | inr (pair, e) ↦
        rw (escape_loop, e, escape_flush-all, write-all)
          (escape_loop-all ch [] str ((out ++ run) ++ pair) ∙ simp append_assoc)
  ]

  write_tokens-all :
      (first : Bool) (path : List (List ℕ)) (out : List ℕ)
      → write_tokens first path out ≡ (out ++ tokens_text first path, true)
  unfolding write_tokens
  write_tokens-all first [] out = rw (append-nil out) refl
  write_tokens-all true (token ∷ path) out =
      rw (escape_loop-all)
        (write_tokens-all false path (out ++ escape slash token) ∙ simp append_assoc)
  write_tokens-all false (token ∷ path) out =
      rw (write-all, escape_loop-all)
        (write_tokens-all false path ((out ++ slash ∷ []) ++ escape slash token)
          ∙ simp append_assoc)

  write_key-all : (k out : List ℕ) → write_key k out ≡ (out ++ key_text k, true)
  unfolding write_key
  write_key-all k out = elim (Bool-cases (starts_slash k)) [
    | inl first ↦
        rw (first, write-all)
          (escape_loop-all equals [] k (out ++ backslash ∷ []) ∙ simp append_assoc)
    | inr other ↦ rw other (escape_loop-all equals [] k out)
  ]

  save_kv_cb-all :
      (kv : List ℕ × List ℕ) (out : List ℕ) → save_kv_cb kv out ≡ (out ++ record_text kv, true)
  unfolding save_kv_cb write_value
  save_kv_cb-all (k, v) out =
      rw (write_key-all, write-all, escape_loop-all, write-all) (simp append_assoc)

  save_records-all :
      (kvs : List (List ℕ × List ℕ)) (out : List ℕ) → save_records kvs out ≡ out ++ records_text kvs
  unfolding save_records
  save_records-all [] out = sym (append-nil out)
  save_records-all (kv ∷ kvs) out =
      rw save_kv_cb-all (save_records-all kvs (out ++ record_text kv) ∙ simp append_assoc)

  mutual
    unfolding text_save write_path

    pub text_save-all :
        (path : List (List ℕ)) (tree : Tree) (out : List ℕ)
        → text_save path tree out ≡ (out ++ tree_text path tree, true)
    text_save-all path (node kvs namespaces) out =
        rw
          (
            write-all,
            write_tokens-all,
            write-all,
            save_records-all,
            save_forest-all path namespaces,
          )
          (simp append_assoc)

    save_forest-all :
        (path : List (List ℕ)) (forest : Forest) (out : List ℕ)
        → save_forest path forest out ≡ (out ++ forest_text path forest, true)
    save_forest-all path leaf out = rw (append-nil out) refl
    save_forest-all path (branch name tree others) out =
        rw
          (
            write-all,
            text_save-all (path ++ name ∷ []) tree (out ++ newline ∷ []),
            save_forest-all path others,
          )
          (simp append_assoc)
