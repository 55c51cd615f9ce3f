-- ===== src/Text/RoundTrip.antt =====
-- Loading a text that src/text.c saved.
use mathlib.Core.List.{append_assoc, append-nil}
use sdb.Base.{
  ℕ, ◌≡◌, refl, sym, ap, ◌∙◌, true, false, List, [], ◌∷◌, ◌++◌, some, ◌==◌, length, c_string, All,
  arith,
}
use sdb.Buffer.{Device}
use sdb.Text.{Tree, node, Forest, leaf, branch, slash, newline, sdb_text_save_fd}
use sdb.Text.Load.{
  Target, state_path, LoadCtx, open_path, load_process_line, token_char, load_process_single_char,
  load_chars, load_process_final_line, sdb_text_load_buf,
}
use sdb.Text.Saving.{
  escape, record_text, records_text, tokens_text, tree_text, forest_text, text_save-all,
}
use sdb.Text.Tokens.{
  IsText, c_string-IsText, in_state, idle, load_chars-escape, load_chars-record_text,
}

-- The records have keys and values, and the databases under it have names.
abbrev mutual
  pub IsTextTree : Tree → Type 0
  IsTextTree (node kvs namespaces) =
      All (λ (kv : List ℕ × List ℕ). IsText kv.0 × IsText kv.1) kvs × IsTextForest namespaces

  pub IsTextForest : Forest → Type 0
  IsTextForest leaf = Unit {0}
  IsTextForest (branch name tree others) = IsText name × IsTextTree tree × IsTextForest others

All-snoc :
    (path : List (List ℕ)) (name : List ℕ)
    → All IsText path
    → IsText name
    → All IsText (path ++ name ∷ [])
All-snoc [] name all text = (text, tt)
All-snoc (x ∷ path) name (here, others) text = (here, All-snoc path name others text)

module _ {S : Type 0} ⦃target : Target S⦄ (make : S → List (List ℕ) → List ℕ → S) where
  -- The databases along a path are made.
  abbrev pub make_path : S → List (List ℕ) → List (List ℕ) → S
  make_path db cur [] = db
  make_path db cur (name ∷ path) = make_path (make db cur name) (cur ++ name ∷ []) path

  -- The records are set one after the other.
  abbrev pub set_all : S → List (List ℕ) → List (List ℕ × List ℕ) → S
  set_all db path [] = db
  set_all db path (kv ∷ kvs) = set_all (target.sdb_set db path kv.0 kv.1) path kvs

  -- Every database is made and its records are set, before those under it.
  abbrev mutual
    pub restore_tree : List (List ℕ) → Tree → S → S
    restore_tree path (node kvs namespaces) db =
        restore_forest path namespaces (set_all (make_path db [] path) path kvs)

    pub restore_forest : List (List ℕ) → Forest → S → S
    restore_forest path leaf db = db
    restore_forest path (branch name tree others) db =
        restore_forest path others (restore_tree (path ++ name ∷ []) tree db)

module _ {S : Type 0} ⦃target : Target S⦄ (make : S → List (List ℕ) → List ℕ → S)
    (makes : (db : S) (cur : List (List ℕ)) (name : List ℕ)
      → target.sdb_ns db cur name ≡ some (make db cur name)) where
  open_path-make_path :
      (db : S) (cur path : List (List ℕ))
      → All IsText path
      → open_path db cur path ≡ (make_path make db cur path, cur ++ path)
  unfolding open_path
  open_path-make_path db cur [] names = rw (append-nil cur) refl
  open_path-make_path db cur (name ∷ path) ((full, all), names) =
      let e : (length name == 0) ≡ false = ground arith in
      rw (c_string-IsText name all, e, makes, c_string-IsText name all)
        (open_path-make_path (make db cur name) (cur ++ name ∷ []) path names ∙ simp append_assoc)

  path_ends :
      (db : S) (cur ended : List (List ℕ)) (token : List ℕ)
      → load_process_single_char (in_state state_path false db cur [] token ended) newline
        ≡ (let opened = open_path db [] (ended ++ token ∷ []) in idle opened.0 opened.1)
  unfolding load_process_single_char load_process_line
  path_ends db cur ended token = refl

  path_goes_on :
      (db : S) (cur ended : List (List ℕ)) (token : List ℕ)
      → load_process_single_char (in_state state_path false db cur [] token ended) slash
        ≡ in_state state_path false db cur [] [] (ended ++ token ∷ [])
  unfolding load_process_single_char token_char
  path_goes_on db cur ended token = refl

  path_begins :
      (db : S) (cur : List (List ℕ))
      → load_process_single_char (idle db cur) slash ≡ in_state state_path false db cur [] [] []
  unfolding load_process_single_char
  path_begins db cur = refl

  blank_line :
      (db : S) (cur : List (List ℕ)) → load_process_single_char (idle db cur) newline ≡ idle db cur
  unfolding load_process_single_char load_process_line
  blank_line db cur = refl

  load_chars-tokens :
      (db : S) (cur ended : List (List ℕ)) (token rest : List ℕ) (path : List (List ℕ))
      → load_chars
          (in_state state_path false db cur [] token ended)
          (tokens_text false path ++ newline ∷ rest)
        ≡ (let opened = open_path db [] (ended ++ token ∷ path) in
            load_chars (idle opened.0 opened.1) rest)
  unfolding load_chars
  load_chars-tokens db cur ended token rest [] =
      ap (λ (x : LoadCtx S). load_chars x rest) (path_ends db cur ended token)
  load_chars-tokens db cur ended token rest (name ∷ path) =
      let tail = tokens_text false path ++ newline ∷ rest in
      let all : (escape slash name ++ tokens_text false path) ++ newline ∷ rest
          ≡ escape slash name ++ tail =
        append_assoc (escape slash name) (tokens_text false path) (newline ∷ rest) in
      ap
        (λ (x : LoadCtx S).
          load_chars x ((escape slash name ++ tokens_text false path) ++ newline ∷ rest))
        (path_goes_on db cur ended token)
      ∙ ap
          (λ (t : List ℕ).
            load_chars (in_state state_path false db cur [] [] (ended ++ token ∷ [])) t)
          all
      ∙ load_chars-escape db cur [] (ended ++ token ∷ []) state_path [] name tail tt
      ∙ load_chars-tokens db cur (ended ++ token ∷ []) name rest path
      ∙ rw (append_assoc ended (token ∷ []) (name ∷ path)) refl

  -- The line of a path makes the databases along it.
  load_chars-path :
      (db : S) (cur path : List (List ℕ)) (rest : List ℕ)
      → All IsText path
      → load_chars (idle db cur) (slash ∷ (tokens_text true path ++ newline ∷ rest))
        ≡ load_chars (idle (make_path make db [] path) path) rest
  unfolding load_chars
  load_chars-path db cur [] rest names =
      ap (λ (x : LoadCtx S). load_chars x (newline ∷ rest)) (path_begins db cur)
      ∙ load_chars-tokens db cur [] [] rest []
      ∙ (unfold open_path c_string in refl)
  load_chars-path db cur (name ∷ path) rest names =
      let tail = tokens_text false path ++ newline ∷ rest in
      let all = append_assoc (escape slash name) (tokens_text false path) (newline ∷ rest) in
      ap
        (λ (x : LoadCtx S).
          load_chars x ((escape slash name ++ tokens_text false path) ++ newline ∷ rest))
        (path_begins db cur)
      ∙ ap (λ (t : List ℕ). load_chars (in_state state_path false db cur [] [] []) t) all
      ∙ load_chars-escape db cur [] [] state_path [] name tail tt
      ∙ load_chars-tokens db cur [] name rest path
      ∙ rw (open_path-make_path db [] (name ∷ path) names) refl

  load_chars-blank :
      (db : S) (cur : List (List ℕ)) (rest : List ℕ)
      → load_chars (idle db cur) (newline ∷ rest) ≡ load_chars (idle db cur) rest
  load_chars-blank db cur rest =
      unfold load_chars in ap (λ (x : LoadCtx S). load_chars x rest) (blank_line db cur)

  load_chars-records :
      (db : S) (cur : List (List ℕ)) (kvs : List (List ℕ × List ℕ)) (rest : List ℕ)
      → All (λ (kv : List ℕ × List ℕ). IsText kv.0 × IsText kv.1) kvs
      → load_chars (idle db cur) (records_text kvs ++ rest)
        ≡ load_chars (idle (set_all make db cur kvs) cur) rest
  load_chars-records db cur [] rest texts = refl
  load_chars-records db cur ((k, v) ∷ kvs) rest ((text1, text2), texts) =
      ap (λ (t : List ℕ). load_chars (idle db cur) t)
        (append_assoc (record_text (k, v)) (records_text kvs) rest)
      ∙ load_chars-record_text db cur k v (records_text kvs ++ rest) text1 text2
      ∙ load_chars-records (target.sdb_set db cur k v) cur kvs rest texts

  mutual
    load_chars-tree :
        (path : List (List ℕ)) (tree : Tree) (db : S) (cur : List (List ℕ)) (rest : List ℕ)
        → All IsText path
        → IsTextTree tree
        → (cur' : List (List ℕ)) × (load_chars (idle db cur) (tree_text path tree ++ rest)
            ≡ load_chars (idle (restore_tree make path tree db) cur') rest)
    load_chars-tree path (node kvs namespaces) db cur rest names (texts, others) =
        let rest1 = forest_text path namespaces ++ rest in
        let rest2 = records_text kvs ++ rest1 in
        let db1 = make_path make db [] path in
        let db2 = set_all make db1 path kvs in
        let all : tree_text path (node kvs namespaces) ++ rest
            ≡ slash ∷ (tokens_text true path ++ newline ∷ rest2) =
          simp append_assoc in
        let (cur', run) = load_chars-forest path namespaces db2 path rest names others in
        (
          cur',
          rw all (
              load_chars-path db cur path rest2 names
              ∙ load_chars-records db1 path kvs rest1 texts
              ∙ run),
        )

    load_chars-forest :
        (path : List (List ℕ)) (forest : Forest) (db : S) (cur : List (List ℕ)) (rest : List ℕ)
        → All IsText path
        → IsTextForest forest
        → (cur' : List (List ℕ)) × (load_chars (idle db cur) (forest_text path forest ++ rest)
            ≡ load_chars (idle (restore_forest make path forest db) cur') rest)
    load_chars-forest path leaf db cur rest names texts = (cur, refl)
    load_chars-forest path (branch name tree others) db cur rest names (text, inner, outer) =
        let rest1 = forest_text path others ++ rest in
        let deeper = path ++ name ∷ [] in
        let (cur1, run1) =
          load_chars-tree deeper tree db cur rest1 (All-snoc path name names text) inner in
        let (cur2, run2) =
          load_chars-forest path others (restore_tree make deeper tree db) cur1 rest names outer in
        (
          cur2,
          load_chars-blank db cur ((tree_text deeper tree ++ forest_text path others) ++ rest)
              ∙ ap (λ (t : List ℕ). load_chars (idle db cur) t)
                  (append_assoc (tree_text deeper tree) (forest_text path others) rest)
              ∙ run1
              ∙ run2,
        )

  module _ ⦃device : Device⦄ (writes : (n : ℕ) → device.writes n ≡ true) where
    -- Saving a database with the databases under it as text ends and succeeds. Loading the
    -- text makes every database along its path from the root and sets its records there in
    -- their order, before those of the databases under it, and does nothing else. Keys,
    -- values and names are not empty and have no zero; a database can always be made, and
    -- every write is done.
    pub sdb_text_load_buf-sdb_text_save_fd :
        (tree : Tree) (db : S)
        → IsTextTree tree
        → (text : List ℕ) × (sdb_text_save_fd tree [] ≡ (text, true))
          × (sdb_text_load_buf db text ≡ restore_tree make [] tree db)
    unfolding sdb_text_save_fd sdb_text_load_buf load_process_final_line load_chars
    sdb_text_load_buf-sdb_text_save_fd tree db texts =
        let (cur, run) = load_chars-tree [] tree db [] [] tt texts in
        (
          tree_text [] tree,
          text_save-all writes [] tree [],
          ap (λ (x : LoadCtx S). load_process_final_line x)
              (ap (λ (t : List ℕ). load_chars (idle db []) t) (sym (append-nil (tree_text [] tree)))
                ∙ run),
        )
