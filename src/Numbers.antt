-- ===== src/Numbers.antt =====
-- src/util.c: numbers in strings, and the kind of a value. A base is given without its sign, which
-- only says where in the buffer the string is left.
pub mod Digits
pub mod Spelling
pub mod Reading
pub mod Octal
use sdb.Base.{
  ℕ, zero, suc, ◌+◌, ◌-◌, ◌*◌, ◌/◌, ◌%◌, ◌^◌, Bool, true, false, not, ◌&&◌, ◌||◌, List, [], ◌∷◌,
  ◌++◌, Option, none, some, ltb, leb, ◌==◌, if◌then◌else◌, length, get_or, drop, codes, str_eq,
}

-- `SDB_NUM_BASE` and `SDB_NUM_BUFSZ`
abbrev pub sdb_num_base_default : ℕ
sdb_num_base_default = 16

abbrev pub sdb_num_bufsz : ℕ
sdb_num_bufsz = 64

-- NULL, a string, or a write in front of the buffer.
pub data Spelled : Type 0 where
  refused : Spelled
  spelled : List ℕ → Spelled
  overrun : Spelled

abbrev pub digit_table : List ℕ
digit_table = codes "0123456789abcdef"

abbrev pub digit : ℕ → ℕ → ℕ
digit base d = if leb base 10 then d + b'0' else get_or digit_table d 0

-- The index below the digits, and the digits.
unfoldable pub itoa_loop : ℕ → ℕ → ℕ → List ℕ → ℕ × List ℕ
itoa_loop base zero n out = (zero, out)
itoa_loop base (suc i) n out =
    let rest = itoa_loop base i (n / base) (digit base (n % base) ∷ out) in
    if n == 0 then (suc i, out) else rest

-- The end of a loop that started at `imax`.
unfoldable pub itoa_end : ℕ → ℕ → ℕ × List ℕ → Spelled
itoa_end base imax (i, out) =
    if leb base 10
    then spelled out
    else (if i == imax
        then spelled (b'0' ∷ out)
        else (if i == 0 then overrun else spelled (b'0' ∷ b'x' ∷ out)))

-- A number into a buffer of `sl` bytes.
unfoldable pub sdb_itoa : ℕ → ℕ → ℕ → Spelled
sdb_itoa n base sl =
    let b = if base == 0 then sdb_num_base_default else base in
    if sl == 0
    then overrun
    else if ltb 16 b
    then refused
    else if n == 0
    then spelled (if leb 2 sl then b'0' ∷ [] else [])
    else if sl == 1
    then (if leb b 10 then spelled [] else overrun)
    else itoa_end b (sl - 2) (itoa_loop b (sl - 2) n [])

-- Into a buffer of its own.
unfoldable pub sdb_itoas : ℕ → ℕ → Spelled
sdb_itoas n base = sdb_itoa n base sdb_num_bufsz

unfoldable pub sdb_num_base : Option (List ℕ) → ℕ
sdb_num_base none = sdb_num_base_default
sdb_num_base (some s) =
    if get_or s 0 0 == b'0' && get_or s 1 0 == b'x'
    then 16
    else (if get_or s 0 0 == b'0' && not (get_or s 1 0 == 0) then 8 else 10)

abbrev pub is_decimal : ℕ → Bool
is_decimal c = leb b'0' c && leb c b'9'

-- What a character stands for in a base above it.
abbrev pub char_value : ℕ → ℕ
char_value c =
    if is_decimal c then c - b'0' else (if ltb c b'a' then c - b'A' + 10 else c - b'a' + 10)

abbrev pub is_digit_of : ℕ → ℕ → Bool
is_digit_of base c =
    ((is_decimal c || (leb b'A' c && leb c b'F')) || (leb b'a' c && leb c b'f'))
    && ltb (char_value c) base

-- The digits at the start of a text.
unfoldable pub scan_digits : ℕ → ℕ → List ℕ → ℕ
scan_digits base v [] = v
scan_digits base v (c ∷ s) =
    let rest = scan_digits base (v * base + char_value c) s in
    if is_digit_of base c then rest else v

-- The base is read off the text. What overflows is `ULLONG_MAX`.
unfoldable pub unsigned : List ℕ → ℕ
unsigned s =
    if get_or s 0 0 == b'0'
      && ((get_or s 1 0 == b'x' || get_or s 1 0 == b'X') && is_digit_of 16 (get_or s 2 0))
    then scan_digits 16 0 (drop 2 s)
    else (if get_or s 0 0 == b'0' then scan_digits 8 0 s else scan_digits 10 0 s)

abbrev pub max_u64 : ℕ
max_u64 = 2 ^ 64 - 1

abbrev is_space : ℕ → Bool
is_space c = c == b' ' || (leb 9 c && leb c 13)

-- `strtoull (s, &p, 0)` of the C library: spaces, a sign, a number.
unfoldable pub strtoull : List ℕ → ℕ
strtoull [] = 0
strtoull (c ∷ s) =
    let rest = strtoull s in
    if is_space c
    then rest
    else if c == b'-'
    then (if ltb max_u64 (unsigned s) then max_u64 else (2 ^ 64 - unsigned s) % 2 ^ 64)
    else (let n = unsigned (if c == b'+' then s else c ∷ s) in if ltb max_u64 n then max_u64 else n)

unfoldable pub sdb_atoi : Option (List ℕ) → ℕ
sdb_atoi none = 0
sdb_atoi (some s) = if get_or s 0 0 == b'-' then 0 else strtoull s

unfoldable pub sdb_isnum : List ℕ → Bool
sdb_isnum s = let vs = get_or s 0 0 in (vs == b'-' || vs == b'+') || is_decimal vs

abbrev pub is_open : ℕ → Bool
is_open c = c == b'[' || c == b'{'

abbrev pub is_close : ℕ → Bool
is_close c = c == b']' || c == b'}'

-- The rest of a text, at a level of brackets, in quotes or not.
unfoldable pub isjson_loop : ℕ → Bool → List ℕ → Bool
isjson_loop level quotes [] = not quotes && level == 0
isjson_loop level true (c ∷ k) =
    let out = isjson_loop level false k in
    let stay = isjson_loop level true k in if c == b'"' then out else stay
isjson_loop level false (c ∷ k) =
    let quoted = isjson_loop level true k in
    let deeper = isjson_loop (level + 1) false k in
    let shallower = isjson_loop (level - 1) false k in
    let same = isjson_loop level false k in
    if c == b'"'
    then quoted
    else if is_open c
    then deeper
    else if is_close c
    then (if level == 0 then false else shallower)
    else same

unfoldable pub sdb_isjson : Option (List ℕ) → Bool
sdb_isjson none = false
sdb_isjson (some []) = false
sdb_isjson (some (c ∷ k)) = if is_open c then isjson_loop 0 false (c ∷ k) else false

abbrev pub has_comma : List ℕ → Bool
has_comma [] = false
has_comma (c ∷ s) = let rest = has_comma s in if c == b',' then true else rest

unfoldable pub sdb_type : Option (List ℕ) → List ℕ
sdb_type none = codes "undefined"
sdb_type (some []) = codes "undefined"
sdb_type (some (c ∷ s)) =
    let k = c ∷ s in
    if sdb_isnum k
    then codes "number"
    else if sdb_isjson (some k)
    then codes "json"
    else if has_comma k
    then codes "array"
    else if str_eq k (codes "true") || str_eq k (codes "false")
    then codes "boolean"
    else codes "string"
