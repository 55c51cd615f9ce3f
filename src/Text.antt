-- ===== src/Text.antt =====
-- src/text.c: the text format. The text of a token is a list of its own, where the code shifts it
-- inside the buffer; a database is the path of its names from the root.
pub mod Load
pub mod Saving
pub mod Tokens
pub mod RoundTrip
use sdb.Base.{
  ℕ, zero, suc, ◌+◌, Bool, true, false, not, ◌&&◌, ◌||◌, List, [], ◌∷◌, ◌++◌, Option, none, some,
  ltb, ◌==◌, if◌then◌else◌, length, take, c_string,
}
use sdb.Buffer.{Device}

-- What saving goes through: the records of a database and the databases under it.
mutual
  pub data Tree : Type 0 where
    node : List (List ℕ × List ℕ) → Forest → Tree

  pub data Forest : Type 0 where
    leaf : Forest
    branch : List ℕ → Tree → Forest → Forest

abbrev pub slash : ℕ
slash = b'/'

abbrev pub backslash : ℕ
backslash = 92

abbrev pub newline : ℕ
newline = 10

abbrev pub carriage_return : ℕ
carriage_return = 13

abbrev pub equals : ℕ
equals = b'='

-- A file so far, and whether all went well.
abbrev pub Written : Type 0
Written = List ℕ × Bool

-- A step that runs if all went well.
abbrev pub and_write : Written → (List ℕ → Written) → Written
and_write (out, true) next = next out
and_write (out, false) next = (out, false)

-- The two characters that stand for one that is escaped.
unfoldable pub escaped : ℕ → ℕ → Option (List ℕ)
escaped ch c =
    if c == backslash
    then some (backslash ∷ (backslash ∷ []))
    else (if c == carriage_return
        then some (backslash ∷ (b'r' ∷ []))
        else (if c == newline
            then some (backslash ∷ (b'n' ∷ []))
            else (if not (ch == 0) && c == ch then some (backslash ∷ (ch ∷ [])) else none)))

-- Whether a string starts with a slash.
unfoldable pub starts_slash : List ℕ → Bool
starts_slash [] = false
starts_slash (c ∷ k) = c == slash

module _ ⦃device : Device⦄ where
  -- Of a write that fails nothing is in the file.
  unfoldable pub write : List ℕ → List ℕ → Written
  write bytes out = if device.writes (length bytes) then (out ++ bytes, true) else (out, false)

  unfoldable pub escape_flush : List ℕ → List ℕ → Written
  escape_flush run out = if length run == 0 then (out, true) else write run out

  -- `run` stands between `p` and `n`.
  unfoldable pub escape_loop : ℕ → List ℕ → List ℕ → List ℕ → Written
  escape_loop ch run [] out = escape_flush run out
  escape_loop ch run (c ∷ str) out = elim (escaped ch c) [
    | none ↦ escape_loop ch (run ++ c ∷ []) str out
    | some pair ↦
        and_write (escape_flush run out)
          (λ o. and_write (write pair o) (λ o'. escape_loop ch [] str o'))
  ]

  unfoldable pub write_tokens : Bool → List (List ℕ) → List ℕ → Written
  write_tokens first [] out = (out, true)
  write_tokens first (token ∷ path) out =
      and_write (if first then (out, true) else write (slash ∷ []) out)
        (λ o. and_write (escape_loop slash [] token o) (λ o'. write_tokens false path o'))

  unfoldable pub write_path : List (List ℕ) → List ℕ → Written
  write_path path out = and_write (write (slash ∷ []) out) (λ o. write_tokens true path o)

  unfoldable pub write_key : List ℕ → List ℕ → Written
  write_key k out =
      and_write (if starts_slash k then write (backslash ∷ []) out else (out, true))
        (λ o. escape_loop equals [] k o)

  unfoldable pub write_value : List ℕ → List ℕ → Written
  write_value v out = escape_loop 0 [] v out

  unfoldable pub save_kv_cb : List ℕ × List ℕ → List ℕ → Written
  save_kv_cb (k, v) out = and_write (write_key k out) (λ o1.
      and_write (write (equals ∷ []) o1)
        (λ o2. and_write (write_value v o2) (λ o3. write (newline ∷ []) o3)))

  -- The records one behind the other, as with `sort`, whatever becomes of each.
  unfoldable pub save_records : List (List ℕ × List ℕ) → List ℕ → List ℕ
  save_records [] out = out
  save_records (kv ∷ kvs) out = save_records kvs (save_kv_cb kv out).0

  unfoldable mutual
    unfolding save_records write_path write

    pub text_save : List (List ℕ) → Tree → List ℕ → Written
    text_save path (node kvs namespaces) out = and_write (write_path path out) (λ o.
        and_write (write (newline ∷ []) o)
          (λ o'. save_forest path namespaces (save_records kvs o')))

    pub save_forest : List (List ℕ) → Forest → List ℕ → Written
    save_forest path leaf out = (out, true)
    save_forest path (branch name tree others) out =
        and_write (write (newline ∷ []) out)
          (λ o. save_forest path others (text_save (path ++ name ∷ []) tree o).0)

  unfoldable pub sdb_text_save_fd : Tree → List ℕ → Written
  sdb_text_save_fd tree out = text_save [] tree out
