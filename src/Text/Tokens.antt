-- ===== src/Text/Tokens.antt =====
-- Loading the names, keys and values that src/text.c escaped.
use mathlib.Core.List.{append_assoc, append-nil}
use sdb.Base.{
  ℕ, ◌<◌, ◌≡◌, ◌⊎◌, refl, ap, ◌∙◌, Bool, true, false, not, ◌&&◌, ◌||◌, List, [], ◌∷◌, ◌++◌, none,
  some, ◌==◌, length, c_string, All, arith, Bool-cases, inl, inr,
}
use sdb.Text.{slash, backslash, newline, carriage_return, equals, escaped, starts_slash}
use sdb.Text.Load.{
  Target, LoadState, state_newline, state_path, state_key, state_value, LoadCtx, unescape_raw_char,
  store_record, load_process_line, token_char, load_process_single_char, load_chars,
}
use sdb.Text.Saving.{or_itself, escape, key_text, record_text}

-- A string that is not empty.
abbrev pub IsText : List ℕ → Type 0
IsText s = (0 < length s) × All (λ c. (c == 0) ≡ false) s

pub c_string-IsText : (s : List ℕ) → All (λ c. (c == 0) ≡ false) s → c_string s ≡ s
unfolding c_string
c_string-IsText [] all = refl
c_string-IsText (c ∷ s) (here, others) = rw (here, c_string-IsText s others) refl

-- The character that is escaped in a token beside those that always are.
abbrev stop_of : LoadState → ℕ
stop_of state_newline = 0
stop_of state_path = slash
stop_of state_key = equals
stop_of state_value = 0

abbrev InToken : LoadState → Type 0
InToken state_newline = ⊥
InToken state_path = Unit {0}
InToken state_key = Unit {0}
InToken state_value = Unit {0}

abbrev is_break : ℕ → Bool
is_break c = c == newline || c == carriage_return

stop_of-plain :
    (st : LoadState)
    → (unescape_raw_char (stop_of st) ≡ stop_of st) × (is_break (stop_of st) ≡ false)
unfolding unescape_raw_char
stop_of-plain state_newline = (refl, refl)
stop_of-plain state_path = (refl, refl)
stop_of-plain state_key = (refl, refl)
stop_of-plain state_value = (refl, refl)

-- A character that stands for itself.
abbrev IsPlain : ℕ → ℕ → Type 0
IsPlain ch c =
    (escaped ch c ≡ none)
    × ((c == backslash) ≡ false)
    × (is_break c ≡ false)
    × ((not (ch == 0) && c == ch) ≡ false)

-- A character that stands behind a backslash for another.
abbrev StandsFor : ℕ → ℕ → Type 0
StandsFor ch c =
    (r : ℕ) × (escaped ch c ≡ some (backslash ∷ (r ∷ [])))
    × (unescape_raw_char r ≡ c)
    × (is_break r ≡ false)

escaped-cases :
    (ch c : ℕ) → unescape_raw_char ch ≡ ch → is_break ch ≡ false → StandsFor ch c ⊎ IsPlain ch c
unfolding escaped unescape_raw_char
escaped-cases ch c same calm = elim (Bool-cases (c == backslash)) [
  | inl e1 ↦ inl (backslash, rw (escaped, e1) refl, ground (arith, e1), refl)
  | inr e1 ↦ elim (Bool-cases (c == carriage_return)) [
    | inl e2 ↦ inl (b'r', rw (escaped, e1, e2) refl, ground (arith, e2), refl)
    | inr e2 ↦ elim (Bool-cases (c == newline)) [
      | inl e3 ↦ inl (b'n', rw (escaped, e1, e2, e3) refl, ground (arith, e3), refl)
      | inr e3 ↦ elim (Bool-cases (not (ch == 0) && c == ch)) [
        | inl e4 ↦
            let s : ch ≡ c = ground (arith, e4) in
            inl (ch, rw (escaped, e1, e2, e3, e4) refl, same ∙ s, calm)
        | inr e4 ↦ inr (rw (escaped, e1, e2, e3, e4) refl, e1, rw (e2, e3) refl, e4)
      ]
    ]
  ]
]

slash-plain :
    (c : ℕ)
    → c ≡ slash
    → (escaped equals c ≡ none) × (unescape_raw_char c ≡ c) × (is_break c ≡ false)
unfolding escaped unescape_raw_char
slash-plain c same = rw same (refl, refl, refl)

module _ {S : Type 0} ⦃target : Target S⦄ where
  abbrev pub in_state :
      LoadState → Bool → S → List (List ℕ) → List ℕ → List ℕ → List (List ℕ) → LoadCtx S
  in_state st esc db cur key token path = record {
    db = db;
    cur_db = cur;
    key = key;
    token = token;
    path = path;
    state = st;
    unescape = esc;
  }

  module _ (db : S) (cur : List (List ℕ)) (key : List ℕ) (path : List (List ℕ)) where
    after_backslash :
        (st : LoadState) (token : List ℕ)
        → InToken st
        → load_process_single_char (in_state st false db cur key token path) backslash
          ≡ in_state st true db cur key token path
    unfolding load_process_single_char token_char
    after_backslash state_newline token inside = absurd inside
    after_backslash state_path token inside = refl
    after_backslash state_key token inside = refl
    after_backslash state_value token inside = refl

    unescaped_char :
        (st : LoadState) (token : List ℕ) (c : ℕ)
        → InToken st
        → is_break c ≡ false
        → load_process_single_char (in_state st true db cur key token path) c
          ≡ in_state st false db cur key (token ++ unescape_raw_char c ∷ []) path
    unfolding load_process_single_char token_char
    unescaped_char state_newline token c inside plain = absurd inside
    unescaped_char state_path token c inside plain = rw plain refl
    unescaped_char state_key token c inside plain = rw plain refl
    unescaped_char state_value token c inside plain = rw plain refl

    plain_char :
        (st : LoadState) (token : List ℕ) (c : ℕ)
        → InToken st
        → IsPlain (stop_of st) c
        → load_process_single_char (in_state st false db cur key token path) c
          ≡ in_state st false db cur key (token ++ c ∷ []) path
    unfolding load_process_single_char token_char
    plain_char state_newline token c inside plain = absurd inside
    plain_char state_path token c inside (none_here, e1, e2, e3) = rw (e2, e1, e3) refl
    plain_char state_key token c inside (none_here, e1, e2, e3) = rw (e2, e1, e3) refl
    plain_char state_value token c inside (none_here, e1, e2, e3) = rw (e2, e1) refl

    -- A character that was escaped, or was not, is put behind the token.
    load_chars-or_itself :
        (st : LoadState) (token : List ℕ) (c : ℕ) (rest : List ℕ)
        → InToken st
        → load_chars
            (in_state st false db cur key token path)
            (or_itself c (escaped (stop_of st) c) ++ rest)
          ≡ load_chars (in_state st false db cur key (token ++ c ∷ []) path) rest
    unfolding load_chars
    load_chars-or_itself st token c rest inside =
        let (same, calm) = stop_of-plain st in
        elim (escaped-cases (stop_of st) c same calm) [
          | inl (r, e, back, quiet) ↦
              rw
                (
                  e,
                  load_chars,
                  after_backslash st token inside,
                  unescaped_char st token r inside quiet,
                  back,
                )
                refl
          | inr (e, e1, e2, e3) ↦
              rw (e, load_chars, plain_char st token c inside (e, e1, e2, e3)) refl
        ]

    pub load_chars-escape :
        (st : LoadState) (token s rest : List ℕ)
        → InToken st
        → load_chars (in_state st false db cur key token path) (escape (stop_of st) s ++ rest)
          ≡ load_chars (in_state st false db cur key (token ++ s) path) rest
    load_chars-escape st token [] rest inside = rw (append-nil token) refl
    load_chars-escape st token (c ∷ s) rest inside =
        ap (λ (t : List ℕ). load_chars (in_state st false db cur key token path) t)
          (append_assoc (or_itself c (escaped (stop_of st) c)) (escape (stop_of st) s) rest)
        ∙ load_chars-or_itself st token c (escape (stop_of st) s ++ rest) inside
        ∙ load_chars-escape st (token ++ c ∷ []) s rest inside
        ∙ rw (append_assoc token (c ∷ []) s) refl

  abbrev pub idle : S → List (List ℕ) → LoadCtx S
  idle db cur = in_state state_newline false db cur [] [] []

  module _ (db : S) (cur : List (List ℕ)) where
    first_backslash :
        load_process_single_char (idle db cur) backslash ≡ in_state state_key true db cur [] [] []
    unfolding load_process_single_char token_char
    first_backslash = refl

    first_plain :
        (c : ℕ)
        → IsPlain equals c
        → (c == slash) ≡ false
        → load_process_single_char (idle db cur) c ≡ in_state state_key false db cur [] (c ∷ []) []
    unfolding load_process_single_char token_char
    first_plain c (none_here, e1, e2, e3) other = rw (e2, other, e1, e3) refl

    load_chars-key_text :
        (k rest : List ℕ)
        → IsText k
        → load_chars (idle db cur) (key_text k ++ rest)
          ≡ load_chars (in_state state_key false db cur [] k []) rest
    unfolding load_chars starts_slash
    load_chars-key_text [] rest (full, all) = absurd (omega arith)
    load_chars-key_text (c ∷ k) rest text =
        let more = load_chars-escape db cur [] [] state_key (c ∷ []) k rest tt in
        let text_rest = escape equals k ++ rest in
        elim (Bool-cases (c == slash)) [
          | inl first ↦
              let s : c ≡ slash = ground (arith, first) in
              let (e, back, quiet) = slash-plain c s in
              rw
                (
                  first,
                  e,
                  load_chars,
                  first_backslash,
                  unescaped_char db cur [] [] state_key [] c tt quiet,
                  back,
                )
                more
          | inr other ↦
              let (same, calm) = stop_of-plain state_key in
              elim (escaped-cases equals c same calm) [
                | inl (r, e, back, quiet) ↦
                    rw
                      (
                        other,
                        e,
                        load_chars,
                        first_backslash,
                        unescaped_char db cur [] [] state_key [] r tt quiet,
                        back,
                      )
                      more
                | inr plain ↦ rw (other, plain.0, load_chars, first_plain c plain other) more
              ]
        ]

    key_ends :
        (k : List ℕ)
        → load_process_single_char (in_state state_key false db cur [] k []) equals
          ≡ in_state state_value false db cur k [] []
    unfolding load_process_single_char token_char
    key_ends k = refl

    value_ends :
        (k v : List ℕ)
        → IsText k
        → IsText v
        → load_process_single_char (in_state state_value false db cur k v []) newline
          ≡ idle (target.sdb_set db cur k v) cur
    unfolding load_process_single_char load_process_line store_record
    value_ends k v (full1, all1) (full2, all2) =
        let e1 : (length k == 0) ≡ false = ground arith in
        let e2 : (length v == 0) ≡ false = ground arith in
        simp (c_string-IsText k all1, c_string-IsText v all2, e1, e2)

    -- A record of the text is stored in the database of the last path.
    pub load_chars-record_text :
        (k v rest : List ℕ)
        → IsText k
        → IsText v
        → load_chars (idle db cur) (record_text (k, v) ++ rest)
          ≡ load_chars (idle (target.sdb_set db cur k v) cur) rest
    unfolding load_chars
    load_chars-record_text k v rest text1 text2 =
        let tail = newline ∷ rest in
        let all : record_text (k, v) ++ rest ≡ key_text k ++ equals ∷ (escape 0 v ++ tail) =
          simp append_assoc in
        rw all (
          load_chars-key_text k (equals ∷ (escape 0 v ++ tail)) text1
          ∙ ap (λ (x : LoadCtx S). load_chars x (escape 0 v ++ tail)) (key_ends k)
          ∙ load_chars-escape db cur k [] state_value [] v tail tt
          ∙ ap (λ (x : LoadCtx S). load_chars x rest) (value_ends k v text1 text2))
