-- ===== src/Match/Ends.antt =====
-- How src/match.c reads the marks `$` and `?i` off the end of a pattern with a star in it.
use mathlib.Core.List.{append-nil}
use mathlib.Core.Bool.{true≢false}
use sdb.Base.{
  ℕ, zero, suc, ◌+◌, ◌-◌, ◌<◌, ◌≡◌, refl, sym, ◌∙◌, Bool, true, false, not, ◌&&◌, ◌||◌, List, [],
  ◌∷◌, ◌++◌, ltb, ◌==◌, length, get_or, drop, codes, str_eq, length-append, arith, Bool-cases, inl,
  inr,
}
use sdb.Match.{Parsed, star_char, have_suffix, has_star, parse_icase, parse_end, parse_glob}

-- The marks behind the glob.
abbrev pub ending : Bool → Bool → List ℕ
ending true true = codes "$?i"
ending true false = codes "$"
ending false true = codes "?i"
ending false false = []

-- Whether the text ends so.
abbrev pub ends_with : List ℕ → List ℕ → Bool
ends_with sfx [] = str_eq [] sfx
ends_with sfx (c ∷ text) = str_eq (c ∷ text) sfx || ends_with sfx text

abbrev pub parsed : List ℕ → ℕ → Bool → Bool → Bool → Bool → Bool → Parsed
parsed text len icase base64 start finish glob = record {
  text = text;
  len = len;
  flags = record { icase = icase; start = start; finish = finish; base64 = base64; glob = glob };
}

drop-ends_with :
    (sfx text : List ℕ) (n : ℕ) → str_eq (drop n text) sfx ≡ true → ends_with sfx text ≡ true
drop-ends_with sfx [] zero e = e
drop-ends_with sfx [] (suc n) e = e
drop-ends_with sfx (c ∷ text) zero e = rw e refl
drop-ends_with sfx (c ∷ text) (suc n) e = let k = drop-ends_with sfx text n e in ground (arith, k)

have_suffix-not :
    (text sfx : List ℕ) (len : ℕ) → ends_with sfx text ≡ false → have_suffix text len sfx ≡ false
unfolding have_suffix
have_suffix-not text sfx len none_there =
    elim (Bool-cases (str_eq (drop (len - length sfx) text) sfx)) [
      | inl same ↦
          absurd (true≢false (sym (drop-ends_with sfx text (len - length sfx) same) ∙ none_there))
      | inr other ↦ rw other (ground arith)
    ]

drop-behind : (x y : List ℕ) (k : ℕ) → drop (length x + k) (x ++ y) ≡ drop k y
drop-behind [] y k = let e : 0 + k ≡ k = omega arith in rw e refl
drop-behind (c ∷ x) y k =
    let e : suc (length x) + k ≡ suc (length x + k) = omega arith in rw e (drop-behind x y k)

get_or-behind : (x y : List ℕ) (k : ℕ) → get_or (x ++ y) (length x + k) 0 ≡ get_or y k 0
get_or-behind [] y k = let e : 0 + k ≡ k = omega arith in rw e refl
get_or-behind (c ∷ x) y k =
    let e : suc (length x) + k ≡ suc (length x + k) = omega arith in rw e (get_or-behind x y k)

pub get_or-before : (x y : List ℕ) (i : ℕ) → i < length x → get_or (x ++ y) i 0 ≡ get_or x i 0
get_or-before [] y i h = absurd (omega arith)
get_or-before (c ∷ x) y zero h = refl
get_or-before (c ∷ x) y (suc i) h = get_or-before x y i (omega arith)

last-ends_with :
    (x : List ℕ) → ends_with (codes "$") x ≡ false → (get_or x (length x - 1) 0 == b'$') ≡ false
unfolding str_eq
last-ends_with [] e = refl
last-ends_with (c ∷ []) e = ground arith
last-ends_with (c ∷ d ∷ x) e =
    let n : suc (suc (length x)) - 1 ≡ suc (suc (length x) - 1) = omega arith in
    rw n (last-ends_with (d ∷ x) (ground arith))

finish-ends_with : (x : List ℕ) → ends_with (codes "?i") (x ++ codes "$") ≡ false
unfolding str_eq
finish-ends_with [] = refl
finish-ends_with (c ∷ []) = ground arith
finish-ends_with (c ∷ d ∷ []) = ground arith
finish-ends_with (c ∷ d ∷ e ∷ x) = let k = finish-ends_with (d ∷ e ∷ x) in ground (arith, k)

icase-ends_with : (x : List ℕ) → ends_with (codes "$") (x ++ codes "?i") ≡ false
unfolding str_eq
icase-ends_with [] = refl
icase-ends_with (c ∷ []) = ground arith
icase-ends_with (c ∷ d ∷ x) = let k = icase-ends_with (d ∷ x) in ground (arith, k)

-- How many bytes the mark `$` takes.
abbrev pub one_if : Bool → ℕ
one_if true = 1
one_if false = 0

pub parse_icase-ending :
    (x : List ℕ) (finish icase : Bool)
    → 0 < length x
    → ends_with (codes "?i") x ≡ false
    → parse_icase (x ++ ending finish icase)
      ≡ parsed (x ++ ending finish icase) (length x + one_if finish) icase false false false false
unfolding parse_icase have_suffix str_eq
parse_icase-ending x true true full bare =
    let len = length-append x (codes "$?i") in
    let more : ltb 2 (length x + 3) ≡ true = ground arith in
    let n : length x + 3 - 2 ≡ length x + 1 = omega arith in
    rw (len, more, n, drop-behind x (codes "$?i") 1) refl
parse_icase-ending x true false full bare =
    rw
      (
        parse_icase,
        have_suffix-not (x ++ codes "$") (codes "?i") (length (x ++ codes "$"))
            (finish-ends_with x),
        length-append x (codes "$"),
      )
      refl
parse_icase-ending x false true full bare =
    let len = length-append x (codes "?i") in
    let more : ltb 2 (length x + 2) ≡ true = ground arith in
    let n : length x + 2 - 2 ≡ length x + 0 = omega arith in
    rw (len, more, n, drop-behind x (codes "?i") 0) refl
parse_icase-ending x false false full bare =
    let n : length x + 0 ≡ length x = omega arith in
    rw (append-nil x, parse_icase, have_suffix-not x (codes "?i") (length x) bare, n) refl

-- A `$` in front of `?i` is not seen here.
pub parse_end-ending :
    (x : List ℕ) (finish icase base64 start : Bool)
    → 0 < length x
    → ends_with (codes "$") x ≡ false
    → parse_end (
        parsed (x ++ ending finish icase) (length x + one_if finish) icase base64 start false false)
      ≡ parsed
          (x ++ ending finish icase)
          (length x + one_if (finish && icase))
          icase
          base64
          start
          (finish && not icase)
          false
unfolding parse_end have_suffix str_eq
parse_end-ending x true true base64 start full bare =
    let more : ltb 1 (length x + 1) ≡ true = ground arith in
    let n : length x + 1 - 1 ≡ length x + 0 = omega arith in
    rw (more, n, drop-behind x (codes "$?i") 0) refl
parse_end-ending x true false base64 start full bare =
    let more : ltb 1 (length x + 1) ≡ true = ground arith in
    let n : length x + 1 - 1 ≡ length x + 0 = omega arith in
    rw (more, n, drop-behind x (codes "$") 0) refl
parse_end-ending x false true base64 start full bare =
    rw (parse_end, have_suffix-not (x ++ codes "?i") (codes "$") (length x + 0) (icase-ends_with x))
      refl
parse_end-ending x false false base64 start full bare =
    rw (append-nil x, parse_end, have_suffix-not x (codes "$") (length x + 0) bare) refl

pub has_star-at :
    (pre post behind : List ℕ) (n : ℕ)
    → length pre < n
    → has_star n ((pre ++ star_char ∷ post) ++ behind) ≡ true
unfolding has_star
has_star-at pre post behind zero h = absurd (omega arith)
has_star-at [] post behind (suc n) h = refl
has_star-at (c ∷ pre) post behind (suc n) h =
    let k = has_star-at pre post behind n (omega arith) in ground (arith, k)

-- The `$` that was not seen is taken off here.
pub parse_glob-ending :
    (x : List ℕ) (finish icase base64 start : Bool)
    → 0 < length x
    → has_star (length x + one_if (finish && icase)) (x ++ ending finish icase) ≡ true
    → ends_with (codes "$") x ≡ false
    → parse_glob (
        parsed
          (x ++ ending finish icase)
          (length x + one_if (finish && icase))
          icase
          base64
          start
          (finish && not icase)
          false)
      ≡ parsed (x ++ ending finish icase) (length x) icase base64 start (finish && not icase) true
unfolding parse_glob
parse_glob-ending x true true base64 start full star bare =
    let n : length x + 1 - 1 ≡ length x + 0 = omega arith in
    let m : length x + 0 ≡ length x = omega arith in
    let some_bytes : ltb 0 (length x + 1) ≡ true = ground arith in
    rw (star, some_bytes, n, get_or-behind x (codes "$?i") 0, m) refl
parse_glob-ending x true false base64 start full star bare =
    let m : length x + 0 ≡ length x = omega arith in rw (star, m) refl
parse_glob-ending x false true base64 start full star bare =
    let m : length x + 0 ≡ length x = omega arith in
    let star' = rw m at star in
    let some_bytes : ltb 0 (length x) ≡ true = ground arith in
    rw
      (
        m,
        star',
        some_bytes,
        get_or-before x (codes "?i") (length x - 1) (omega arith),
        last-ends_with x bare,
      )
      refl
parse_glob-ending x false false base64 start full star bare =
    let m : length x + 0 ≡ length x = omega arith in
    let star' = rw (m, append-nil x) at star in
    let some_bytes : ltb 0 (length x) ≡ true = ground arith in
    rw (append-nil x, m, star', some_bytes, last-ends_with x bare) refl
