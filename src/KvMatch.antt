-- ===== src/KvMatch.antt =====
-- src/sdb.c: how a record is matched against an expression, `[^]key[$]=[^]value[$]`.
pub mod Anchors
use sdb.Base.{
  ℕ, zero, suc, ◌-◌, Bool, true, false, not, ◌&&◌, ◌||◌, List, [], ◌∷◌, Option, none, some,
  and_then, leb, ◌==◌, if◌then◌else◌, length, get_or, drop,
}
use sdb.Core.{is_empty}
use sdb.Core.Ops.{cut_out}
use sdb.Journal.{cut_line}

-- `lastChar`; an empty string gives its terminating zero.
unfoldable pub last_char : List ℕ → ℕ
last_char [] = 0
last_char (c ∷ []) = c
last_char (c ∷ d ∷ s) = last_char (d ∷ s)

-- `strncmp (a, b, n) == 0`
unfoldable pub strncmp_eq : ℕ → List ℕ → List ℕ → Bool
strncmp_eq zero a b = true
strncmp_eq (suc n) [] [] = true
strncmp_eq (suc n) [] (y ∷ b) = false
strncmp_eq (suc n) (x ∷ a) [] = false
strncmp_eq (suc n) (x ∷ a) (y ∷ b) = let rest = strncmp_eq n a b in x == y && rest

abbrev pub found : Option (List ℕ) → Bool
found none = false
found (some rest) = true

-- `match`
unfoldable pub match_expr : List ℕ → List ℕ → Bool
match_expr str expr =
    let starts_with = get_or expr 0 0 == b'^' in
    let ends_with = last_char expr == b'$' in
    let str_len = length str in
    let expr_len = length expr in
    if starts_with && ends_with
    then str_len == expr_len - 2 && strncmp_eq (expr_len - 2) str (drop 1 expr)
    else if starts_with
    then strncmp_eq (expr_len - 1) str (drop 1 expr)
    else if ends_with
    then (if leb str_len (expr_len - 1)
        then false
        else strncmp_eq (expr_len - 1) (drop (str_len - (expr_len - 1)) str) expr)
    else found (cut_out expr str)

-- A value that is NULL is read where the expression asks for one: that is the result `none`.
unfoldable pub sdbkv_match : List ℕ → Option (List ℕ) → List ℕ → Option Bool
sdbkv_match key value expr = elim (cut_line expr) [
  | none ↦ some (match_expr key expr)
  | some parts ↦
      let res = is_empty parts.0 || match_expr key parts.0 in
      if is_empty parts.1
      then some res
      else and_then value (λ v. some (res && match_expr v parts.1))
]
