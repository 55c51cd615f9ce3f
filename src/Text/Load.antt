-- ===== src/Text/Load.antt =====
-- src/text.c: loading the text format. The text of a token is a list of its own, where the code
-- shifts it inside the buffer; a database is the path of its names from the root.
use sdb.Base.{
  ℕ, Bool, true, false, not, ◌&&◌, ◌||◌, List, [], ◌∷◌, ◌++◌, Option, none, some, ltb, ◌==◌,
  if◌then◌else◌, length, take, c_string,
}
use sdb.Text.{slash, backslash, newline, carriage_return, equals}

-- Databases that hold others under names: `sdb_ns` with its creation, and `sdb_set` without a version.
pub record Target (S : Type 0) : Type 0 where
  pub sdb_ns : S → List (List ℕ) → List ℕ → Option S
  pub sdb_set : S → List (List ℕ) → List ℕ → List ℕ → S

pub data LoadState : Type 0 where
  state_newline state_path state_key state_value : LoadState

-- `token` is what stands from `token_begin` on, or in a key from `line_begin` on, and `key` the key
-- that ended; `path` are the tokens of a path that ended.
pub record LoadCtx (S : Type 0) : Type 0 where
  pub db : S
  pub cur_db : List (List ℕ)
  pub key : List ℕ
  pub token : List ℕ
  pub path : List (List ℕ)
  pub state : LoadState
  pub unescape : Bool

unfoldable pub unescape_raw_char : ℕ → ℕ
unescape_raw_char c =
    if c == b's'
    then 32
    else (if c == b'n'
        then newline
        else (if c == b'r' then carriage_return else (if c == b't' then 9 else c)))

abbrev is_path : LoadState → Bool
is_path state_path = true
is_path state_newline = false
is_path state_key = false
is_path state_value = false

abbrev is_key : LoadState → Bool
is_key state_key = true
is_key state_newline = false
is_key state_path = false
is_key state_value = false

module _ {S : Type 0} ⦃target : Target S⦄ where
  -- The database at a path, each one made when it is not there; the root if one cannot be made.
  unfoldable pub open_path : S → List (List ℕ) → List (List ℕ) → S × List (List ℕ)
  open_path db cur [] = (db, cur)
  open_path db cur (token ∷ path) =
      let rest = open_path db cur path in
      if length (c_string token) == 0 then rest else elim (target.sdb_ns db cur (c_string token)) [
        | none ↦ (db, [])
        | some db' ↦ open_path db' (cur ++ c_string token ∷ []) path
      ]

  unfoldable pub store_record : LoadCtx S → S
  store_record ctx =
      if length (c_string ctx.key) == 0 || length (c_string ctx.token) == 0
      then ctx.db
      else target.sdb_set ctx.db ctx.cur_db (c_string ctx.key) (c_string ctx.token)

  abbrev next_line : LoadCtx S → LoadCtx S
  next_line ctx = record ctx {
    key = [];
    token = [];
    path = [];
    state = state_newline;
    unescape = false;
  }

  unfoldable pub load_process_line : LoadCtx S → LoadCtx S
  load_process_line ctx = elim ctx.state [
    | state_path ↦
        let opened = open_path ctx.db [] (ctx.path ++ ctx.token ∷ []) in
        next_line (record ctx { db = opened.0; cur_db = opened.1 })
    | state_value ↦ next_line (record ctx { db = store_record ctx })
    | state_newline ↦ next_line ctx
    | state_key ↦ next_line ctx
  ]

  -- A character of a token.
  unfoldable pub token_char : LoadCtx S → ℕ → LoadCtx S
  token_char ctx c =
      if ctx.unescape
      then record ctx { token = ctx.token ++ unescape_raw_char c ∷ []; unescape = false }
      else (if c == backslash
          then record ctx { unescape = true }
          else (if is_path ctx.state && c == slash
              then record ctx { path = ctx.path ++ ctx.token ∷ []; token = [] }
              else (if is_key ctx.state && c == equals
                  then record ctx { key = ctx.token; token = []; state = state_value }
                  else record ctx { token = ctx.token ++ c ∷ [] })))

  unfoldable pub load_process_single_char : LoadCtx S → ℕ → LoadCtx S
  load_process_single_char ctx c =
      if c == newline || c == carriage_return then load_process_line ctx else elim ctx.state [
        | state_newline ↦
            if c == slash
            then record ctx { token = []; state = state_path }
            else token_char (record ctx { token = []; state = state_key }) c
        | state_path ↦ token_char ctx c
        | state_key ↦ token_char ctx c
        | state_value ↦ token_char ctx c
      ]

  unfoldable pub load_chars : LoadCtx S → List ℕ → LoadCtx S
  load_chars ctx [] = ctx
  load_chars ctx (c ∷ buf) = load_chars (load_process_single_char ctx c) buf

  -- The state of a line that has no end.
  unfoldable pub load_process_final_line : LoadCtx S → S
  load_process_final_line ctx = elim ctx.state [
    | state_newline ↦ ctx.db
    | state_path ↦ (load_process_line ctx).db
    | state_key ↦ (load_process_line ctx).db
    | state_value ↦ (load_process_line ctx).db
  ]

  abbrev pub load_ctx_init : S → LoadCtx S
  load_ctx_init db = record {
    db = db;
    cur_db = [];
    key = [];
    token = [];
    path = [];
    state = state_newline;
    unescape = false;
  }

  unfoldable pub sdb_text_load_buf : S → List ℕ → S
  sdb_text_load_buf db buf = load_process_final_line (load_chars (load_ctx_init db) buf)

-- The characters of `sdb_text_check`, before the first zero of the first 63.
unfoldable pub check_chars : Bool → Bool → Bool → List ℕ → Bool
check_chars is_ascii has_eq has_nl [] = is_ascii && (has_nl && has_eq)
check_chars is_ascii has_eq has_nl (c ∷ p) =
    if c == equals
    then check_chars is_ascii true has_nl p
    else (if c == newline
        then check_chars is_ascii has_eq true p
        else (if not has_eq && (ltb c 10 || ltb 126 c)
            then check_chars false has_eq has_nl p
            else check_chars is_ascii has_eq has_nl p))

-- Whether the beginning of a file looks like text.
unfoldable pub sdb_text_check : List ℕ → Bool
sdb_text_check file =
    ltb 4 (length (take 64 file)) && check_chars true false false (c_string (take 63 file))
