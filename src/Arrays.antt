-- ===== src/Arrays.antt =====
-- src/util.c: arrays in strings, a string whose elements are separated by `SDB_RS`, the comma. A
-- string is the list of its bytes before the terminating zero; indices are not negative.
pub mod Split
pub mod Slice
pub mod Compact
use sdb.Base.{
  ℕ, zero, suc, ◌+◌, Bool, true, false, not, ◌&&◌, List, [], ◌∷◌, Option, none, some, leb, ◌==◌,
  if◌then◌else◌, length,
}

-- `SDB_RS`
abbrev pub sdb_rs : ℕ
sdb_rs = b','

-- The first character is a comma.
abbrev pub at_rs : List ℕ → Bool
at_rs [] = false
at_rs (c ∷ s) = c == sdb_rs

-- How often `strchr` finds one more comma.
unfoldable pub alen_loop : ℕ → List ℕ → ℕ
alen_loop len [] = len
alen_loop len (c ∷ p) =
    let rest = alen_loop (len + 1) p in
    let same = alen_loop len p in if c == sdb_rs then rest else same

unfoldable pub sdb_alen : Option (List ℕ) → ℕ
sdb_alen none = 0
sdb_alen (some []) = 0
sdb_alen (some (c ∷ s)) = alen_loop 0 (c ∷ s) + 1

-- `while (*p == SDB_RS) p++`
unfoldable pub skip_rs : List ℕ → List ℕ
skip_rs [] = []
skip_rs (c ∷ p) = let rest = skip_rs p in if c == sdb_rs then rest else c ∷ p

-- The loop over the commas and the test behind it: `p` is where the last element starts, and the
-- list is what is left to search for the next comma.
unfoldable pub ignore_empty_loop : ℕ → List ℕ → List ℕ → ℕ
ignore_empty_loop len p [] = if length p == 0 then len else len + 1
ignore_empty_loop len p (c ∷ n) =
    let counted = ignore_empty_loop (len + 1) n n in
    let empty = ignore_empty_loop len n n in
    let next = ignore_empty_loop len p n in
    if c == sdb_rs then (if at_rs n then empty else counted) else next

unfoldable pub sdb_alen_ignore_empty : Option (List ℕ) → ℕ
sdb_alen_ignore_empty none = 0
sdb_alen_ignore_empty (some []) = 0
sdb_alen_ignore_empty (some (c ∷ s)) = let p = skip_rs (c ∷ s) in ignore_empty_loop 0 p p

-- `strchr (str, SDB_RS)`: what stands before the comma, and behind it if there is one.
unfoldable pub cut_rs : List ℕ → List ℕ × Option (List ℕ)
cut_rs [] = ([], none)
cut_rs (c ∷ s) = let rest = cut_rs s in if c == sdb_rs then ([], some s) else (c ∷ rest.0, rest.1)

-- The first element and the string of those behind it.
unfoldable pub sdb_anext : List ℕ → List ℕ × Option (List ℕ)
sdb_anext str = cut_rs str

unfoldable pub sdb_const_anext : List ℕ → Option (List ℕ)
sdb_const_anext str = (cut_rs str).1

-- From `str` to `end`.
unfoldable pub slice_end : ℕ → ℕ → List ℕ → List ℕ
slice_end idx to [] = []
slice_end idx to (c ∷ p) =
    let rest = slice_end (if c == sdb_rs then idx + 1 else idx) to p in
    if idx == to then [] else c ∷ rest

-- The search for `str`.
unfoldable pub slice_start : ℕ → ℕ → ℕ → List ℕ → Option (List ℕ)
slice_start idx from to [] = none
slice_start idx from to (c ∷ p) =
    let rest = slice_start (if c == sdb_rs then idx + 1 else idx) from to p in
    if idx == from then some (slice_end idx to (c ∷ p)) else (if idx == to then none else rest)

unfoldable pub sdb_aslice : List ℕ → ℕ → ℕ → Option (List ℕ)
sdb_aslice out from to = if leb to from then none else slice_start 0 from to out

-- One pass of the inner loop, with `changed`. The flag is whether `e` is running over the commas.
unfoldable pub compact_pass : Bool → List ℕ → Bool × List ℕ
compact_pass run [] = (false, [])
compact_pass true (c ∷ p) =
    let rest = compact_pass true p in
    let next = compact_pass false p in if c == sdb_rs then rest else (next.0, c ∷ next.1)
compact_pass false (c ∷ p) =
    let rest = compact_pass true p in
    let next = compact_pass false p in
    if c == sdb_rs && at_rs p then (true, c ∷ rest.1) else (next.0, c ∷ next.1)

-- Passes until one changes nothing. `none` is fuel that ran out.
unfoldable pub compact_loop : ℕ → List ℕ → Option (List ℕ)
compact_loop zero p = none
compact_loop (suc fuel) p =
    let pass = compact_pass false p in
    let rest = compact_loop fuel pass.1 in
    if pass.0 && not (length pass.1 == 0) then rest else some pass.1

unfoldable pub sdb_array_compact : List ℕ → Option (List ℕ)
sdb_array_compact p = compact_loop 2 p
