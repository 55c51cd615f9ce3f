-- ===== src/Match.antt =====
-- src/match.c: the matcher of strings against patterns. A string is the list of its bytes; the
-- terminating zero is what stands behind the list, and decoded data may hold zeros of its own.
pub mod Glob
pub mod Substring
pub mod Pattern
pub mod Ends
pub mod Marks
use sdb.Base.{
  ℕ, zero, suc, ◌+◌, ◌-◌, ◌*◌, ◌≤◌, Bool, true, false, not, ◌&&◌, ◌||◌, List, [], ◌∷◌, Option, none,
  some, ltb, leb, ◌==◌, if◌then◌else◌, length, get_or, drop, take, codes, str_eq,
}
use sdb.Base64

-- `strncmp (a, b, n) == 0`
unfoldable pub strncmp_eq : ℕ → List ℕ → List ℕ → Bool
strncmp_eq zero a b = true
strncmp_eq (suc n) [] [] = true
strncmp_eq (suc n) [] (y ∷ ys) = y == 0
strncmp_eq (suc n) (x ∷ xs) [] = x == 0
strncmp_eq (suc n) (x ∷ xs) (y ∷ ys) = x == y && (x == 0 || strncmp_eq n xs ys)

-- `tolower` of an `unsigned char`, in the C locale.
unfoldable pub tolower : ℕ → ℕ
tolower c = if leb b'A' c && leb c b'Z' then c + 32 else c

unfoldable pub have_suffix : List ℕ → ℕ → List ℕ → Bool
have_suffix glob glob_len sfx =
    ltb (length sfx) glob_len && str_eq (drop (glob_len - length sfx) glob) sfx

unfoldable pub have_prefix : List ℕ → ℕ → List ℕ → Bool
have_prefix glob glob_len pfx = ltb (length pfx) glob_len && strncmp_eq (length pfx) glob pfx

-- The bits of `MatchFlag`.
pub record Flags : Type 0 where
  pub icase : Bool
  pub start : Bool
  pub finish : Bool
  pub base64 : Bool
  pub glob : Bool

abbrev pub chareq : Bool → ℕ → ℕ → Bool
unfolding tolower
chareq icase a b = if icase then tolower a == tolower b else a == b

abbrev pub star_char : ℕ
star_char = b'*'

unfoldable pub skip_stars : List ℕ → Bool
skip_stars [] = true
skip_stars (c ∷ b) = c == star_char && skip_stars b

-- The loop of `globmatch`: what is left of the text and of the pattern, and, once a star has been
-- seen, the pattern behind it and the text where its run ends (`star + 1` and `sa`). `none` means
-- that the fuel ran out.
unfoldable pub globmatch_loop : Bool → ℕ → List ℕ → List ℕ → Option (List ℕ × List ℕ) → Option Bool
globmatch_loop icase zero a b star = none
globmatch_loop icase (suc fuel) [] b star = some (skip_stars b)
globmatch_loop icase (suc fuel) (x ∷ a) [] none = some false
globmatch_loop icase (suc fuel) (x ∷ a) [] (some (sb, [])) = some false
globmatch_loop icase (suc fuel) (x ∷ a) [] (some (sb, y ∷ sa)) =
    globmatch_loop icase fuel sa sb (some (sb, sa))
globmatch_loop icase (suc fuel) (x ∷ a) (c ∷ b) none =
    let starred = globmatch_loop icase fuel (x ∷ a) b (some (b, x ∷ a)) in
    let same = globmatch_loop icase fuel a b none in
    if c == star_char then starred else if chareq icase c x then same else some false
globmatch_loop icase (suc fuel) (x ∷ a) (c ∷ b) (some (sb, [])) =
    let starred = globmatch_loop icase fuel (x ∷ a) b (some (b, x ∷ a)) in
    let same = globmatch_loop icase fuel a b (some (sb, [])) in
    if c == star_char then starred else if chareq icase c x then same else some false
globmatch_loop icase (suc fuel) (x ∷ a) (c ∷ b) (some (sb, y ∷ sa)) =
    let starred = globmatch_loop icase fuel (x ∷ a) b (some (b, x ∷ a)) in
    let same = globmatch_loop icase fuel a b (some (sb, y ∷ sa)) in
    let again = globmatch_loop icase fuel sa sb (some (sb, sa)) in
    if c == star_char then starred else if chareq icase c x then same else again

-- A bound on the rounds: each one shortens the pattern, or moves the end of a star's run.
abbrev pub glob_fuel : List ℕ → List ℕ → ℕ
glob_fuel a b = length a * (length b + 1) + length b + 1

unfoldable pub globmatch : List ℕ → List ℕ → Bool → Option Bool
globmatch a b icase = globmatch_loop icase (glob_fuel a b) a b none

-- The loop of `mycmp` from position `j` of `b`: `none` is its `return 0`.
unfoldable pub mycmp_loop : List ℕ → List ℕ → ℕ → Bool → ℕ → Option ℕ
mycmp_loop [] b n any j = some j
mycmp_loop (x ∷ a) b n any j =
    let next = mycmp_loop a b n any (j + 1) in
    let restart = mycmp_loop a b n any 0 in
    if x == 0 || get_or b j 0 == 0 || leb n j
    then some j
    else (if tolower x == tolower (get_or b j 0) then next else if any then restart else none)

-- The result as a truth value.
unfoldable pub mycmp : List ℕ → List ℕ → ℕ → Bool → Bool
mycmp a b n any = elim (mycmp_loop a b n any 0) [
  | none ↦ false
  | some j ↦ if any then not (j == n) else true
]

unfoldable pub strstr2_loop : List ℕ → List ℕ → ℕ → ℕ → ℕ
strstr2_loop [] b n j = j
strstr2_loop (x ∷ a) b n j =
    let rest = strstr2_loop a b n (if x == get_or b j 0 then j + 1 else 0) in
    if x == 0 || get_or b j 0 == 0 || leb n j then j else rest

unfoldable pub strstr2 : List ℕ → List ℕ → ℕ → Bool
strstr2 a b n = strstr2_loop a b n 0 == n

-- The comparison once `a` is known, with its length. The first `blen` bytes of `b` are the pattern.
unfoldable pub compare_plain : List ℕ → List ℕ → ℕ → Flags → Option Bool
compare_plain a b blen flags =
    let alen = length a in
    if flags.glob
    then globmatch a (take blen b) flags.icase
    else some (
        leb blen alen
        && (if flags.icase
            then (if flags.start && flags.finish
                then alen == blen && not (mycmp a b blen false)
                else (if flags.start
                    then not (mycmp a b blen false)
                    else (if flags.finish
                        then not (mycmp (drop (alen - blen) a) b blen false)
                        else not (mycmp a b blen true))))
            else (if flags.start && flags.finish
                then alen == blen && strncmp_eq blen a b
                else (if flags.start
                    then strncmp_eq blen a b
                    else (if flags.finish
                        then strncmp_eq blen (drop (alen - blen) a) b
                        else strstr2 a b blen)))))

unfoldable pub compare_string : List ℕ → List ℕ → ℕ → Flags → Option Bool
compare_string a b blen flags =
    if flags.base64
    then elim (Base64.decode (some a)) [
      | none ↦ some false
      | some aa ↦ compare_plain aa b blen flags
    ]
    else compare_plain a b blen flags

-- `memchr (b, '*', n)`
unfoldable pub has_star : ℕ → List ℕ → Bool
has_star zero b = false
has_star (suc n) [] = false
has_star (suc n) (c ∷ b) = c == star_char || has_star n b

-- What is left of the pattern after the flags are read off: `glob` and `glob_len`.
pub record Parsed : Type 0 where
  pub text : List ℕ
  pub len : ℕ
  pub flags : Flags

unfoldable pub parse_icase : List ℕ → Parsed
parse_icase glob =
    let glob_len = length glob in
    let icase = have_suffix glob glob_len (codes "?i") in
    record {
      text = glob;
      len = if icase then glob_len - 2 else glob_len;
      flags = record { icase = icase; start = false; finish = false; base64 = false; glob = false };
    }

unfoldable pub parse_base64 : Parsed → Parsed
parse_base64 p =
    if have_prefix p.text p.len (codes "%")
    then record {
      text = drop 1 p.text;
      len = p.len - 1;
      flags = record (p.flags) { base64 = true };
    }
    else p

unfoldable pub parse_start : Parsed → Parsed
parse_start p =
    if have_prefix p.text p.len (codes "^")
    then record { text = drop 1 p.text; len = p.len - 1; flags = record (p.flags) { start = true } }
    else p

unfoldable pub parse_end : Parsed → Parsed
parse_end p =
    if have_suffix p.text p.len (codes "$")
    then record p { len = p.len - 1; flags = record (p.flags) { finish = true } }
    else p

unfoldable pub parse_glob : Parsed → Parsed
parse_glob p =
    if has_star p.len p.text
    then (let hidden = not p.flags.finish && (ltb 0 p.len && get_or p.text (p.len - 1) 0 == b'$') in
        record p {
          len = if hidden then p.len - 1 else p.len;
          flags = record (p.flags) { glob = true };
        })
    else p

unfoldable pub parse_pattern : List ℕ → Parsed
unfolding parse_icase parse_base64 parse_start parse_end parse_glob have_suffix have_prefix
    strncmp_eq has_star str_eq
parse_pattern glob = parse_glob (parse_end (parse_start (parse_base64 (parse_icase glob))))

-- `sdb_match`; an absent string is NULL, and `none` means that the fuel of a glob ran out.
unfoldable pub sdb_match : Option (List ℕ) → Option (List ℕ) → Option Bool
unfolding compare_string compare_plain parse_pattern
sdb_match none glob = some false
sdb_match (some str) none = some false
sdb_match (some str) (some glob) =
    let p = parse_pattern glob in compare_string str p.text p.len p.flags
