-- ===== src/Match/Marks.antt =====
-- How src/match.c reads the marks `%` and `^` off the front of a pattern with a star in it, and
-- what it then matches.
use sdb.Base.{
  ℕ, ◌+◌, ◌-◌, ◌<◌, ◌≡◌, ◌≢◌, refl, sym, ap, ◌∙◌, Bool, true, false, not, ◌&&◌, List, [], ◌∷◌, ◌++◌,
  some, ltb, ◌==◌, if◌then◌else◌, length, get_or, take, codes, str_eq, take-append, length-append,
  arith, Bool-cases, inl, inr,
}
use sdb.Base64
use sdb.Match.{
  Parsed, star_char, strncmp_eq, have_prefix, parse_icase, parse_base64, parse_start, parse_end,
  parse_glob, parse_pattern, sdb_match,
}
use sdb.Match.Pattern.{Decides, sdb_match-parsed}
use sdb.Match.Ends.{
  ending, ends_with, parsed, one_if, get_or-before, parse_icase-ending, parse_end-ending,
  has_star-at, parse_glob-ending,
}

-- A mark in front of the glob.
abbrev pub mark : Bool → ℕ → List ℕ → List ℕ
mark true c rest = c ∷ rest
mark false c rest = rest

-- The pattern with its marks.
abbrev pub marked : Bool → Bool → List ℕ → Bool → Bool → List ℕ
marked base64 start glob finish icase =
    mark base64 b'%' (mark start b'^' (glob ++ ending finish icase))

-- A glob of which no part is taken for a mark.
pub record IsBare (glob : List ℕ) : Type 0 where
  pub no_base64 : get_or glob 0 0 ≢ b'%'
  pub no_start : get_or glob 0 0 ≢ b'^'
  pub no_finish : ends_with (codes "$") glob ≡ false
  pub no_icase : ends_with (codes "?i") glob ≡ false

-- A mark in front is taken off, and nothing is where there is none.
parse_base64-mark :
    (rest : List ℕ) (len : ℕ) (icase base64 : Bool)
    → 0 < len
    → get_or rest 0 0 ≢ b'%'
    → parse_base64
        (parsed (mark base64 b'%' rest) (len + one_if base64) icase false false false false)
      ≡ parsed rest len icase base64 false false false
unfolding parse_base64 have_prefix strncmp_eq
parse_base64-mark rest len icase true full bare =
    let more : ltb 1 (len + 1) ≡ true = ground arith in
    let n : len + 1 - 1 ≡ len = omega arith in rw (more, n) refl
parse_base64-mark [] len icase false full bare =
    let n : len + 0 ≡ len = omega arith in
    rw n (elim (Bool-cases (ltb 1 len)) [ inl more ↦ rw more refl | inr less ↦ rw less refl ])
parse_base64-mark (c ∷ rest) len icase false full bare =
    let n : len + 0 ≡ len = omega arith in
    let other : (c == b'%') ≡ false = ground arith in
    rw n
      (elim (Bool-cases (ltb 1 len)) [ inl more ↦ rw (more, other) refl | inr less ↦ rw less refl ])

parse_start-mark :
    (rest : List ℕ) (len : ℕ) (icase base64 start : Bool)
    → 0 < len
    → get_or rest 0 0 ≢ b'^'
    → parse_start
        (parsed (mark start b'^' rest) (len + one_if start) icase base64 false false false)
      ≡ parsed rest len icase base64 start false false
unfolding parse_start have_prefix strncmp_eq
parse_start-mark rest len icase base64 true full bare =
    let more : ltb 1 (len + 1) ≡ true = ground arith in
    let n : len + 1 - 1 ≡ len = omega arith in rw (more, n) refl
parse_start-mark [] len icase base64 false full bare =
    let n : len + 0 ≡ len = omega arith in
    rw n (elim (Bool-cases (ltb 1 len)) [ inl more ↦ rw more refl | inr less ↦ rw less refl ])
parse_start-mark (c ∷ rest) len icase base64 false full bare =
    let n : len + 0 ≡ len = omega arith in
    let other : (c == b'^') ≡ false = ground arith in
    rw n
      (elim (Bool-cases (ltb 1 len)) [ inl more ↦ rw (more, other) refl | inr less ↦ rw less refl ])

length-mark :
    (on : Bool) (c : ℕ) (rest : List ℕ) → length (mark on c rest) ≡ length rest + one_if on
length-mark true c rest = omega arith
length-mark false c rest = omega arith

mark-append : (on : Bool) (c : ℕ) (x y : List ℕ) → mark on c x ++ y ≡ mark on c (x ++ y)
mark-append true c x y = refl
mark-append false c x y = refl

ends_with-mark :
    (on : Bool) (c : ℕ) (x : List ℕ)
    → c ≢ b'?'
    → ends_with (codes "?i") x ≡ false
    → ends_with (codes "?i") (mark on c x) ≡ false
unfolding str_eq
ends_with-mark true c x other e = ground arith
ends_with-mark false c x other e = e

module _ (pre post : List ℕ) (base64 start finish icase : Bool)
    (bare : IsBare (pre ++ star_char ∷ post)) where
  abbrev glob : List ℕ
  glob = pre ++ star_char ∷ post

  abbrev behind : List ℕ
  behind = glob ++ ending finish icase

  abbrev front : List ℕ
  front = mark base64 b'%' (mark start b'^' glob)

  wide : length pre < length glob
  wide = omega (arith, length-append pre (star_char ∷ post))

  front-behind : front ++ ending finish icase ≡ mark base64 b'%' (mark start b'^' behind)
  front-behind =
      mark-append base64 b'%' (mark start b'^' glob) (ending finish icase)
      ∙ rw (mark-append start b'^' glob (ending finish icase)) refl

  first_byte : get_or behind 0 0 ≡ get_or glob 0 0
  first_byte = get_or-before glob (ending finish icase) 0 (omega (arith, wide))

  not_percent : (on : Bool) → get_or (mark on b'^' behind) 0 0 ≢ b'%'
  not_percent true e = absurd (omega (arith, e))
  not_percent false e = bare.no_base64 (sym first_byte ∙ e)

  -- The marks are read off, and `?i` hides a `$` in front of it.
  parse_pattern-marked :
      parse_pattern (marked base64 start glob finish icase)
      ≡ parsed behind (length glob) icase base64 start (finish && not icase) true
  unfolding parse_pattern
  parse_pattern-marked =
      let long = wide in
      let n : length front + one_if finish
          ≡ length glob + one_if finish + one_if start + one_if base64 =
        omega
          (arith, length-mark base64 b'%' (mark start b'^' glob), length-mark start b'^' glob) in
      let ended : ends_with (codes "?i") front ≡ false =
        ends_with-mark base64 b'%' (mark start b'^' glob) (omega arith)
          (ends_with-mark start b'^' glob (omega arith) bare.no_icase) in
      let full : 0 < length front =
        omega
          (arith, length-mark base64 b'%' (mark start b'^' glob), length-mark start b'^' glob) in
      let first : parse_icase (marked base64 start glob finish icase)
          ≡ parsed (mark base64 b'%' (mark start b'^' behind))
              (length glob + one_if finish + one_if start + one_if base64) icase false false false
              false =
        rw (front-behind, n) at (parse_icase-ending front finish icase full ended) in
      let star =
        has_star-at pre post (ending finish icase) (length glob + one_if (finish && icase))
          (omega arith) in
      ap (λ (p : Parsed). parse_glob (parse_end (parse_start (parse_base64 p)))) first
      ∙ ap (λ (p : Parsed). parse_glob (parse_end (parse_start p)))
          (parse_base64-mark (mark start b'^' behind) (length glob + one_if finish + one_if start)
            icase base64 (omega arith) (not_percent start))
      ∙ ap (λ (p : Parsed). parse_glob (parse_end p))
          (parse_start-mark behind (length glob + one_if finish) icase base64 start (omega arith)
            (λ e. bare.no_start (sym first_byte ∙ e)))
      ∙ ap parse_glob (parse_end-ending glob finish icase base64 start (omega arith) bare.no_finish)
      ∙ parse_glob-ending glob finish icase base64 start (omega arith) star bare.no_finish

  -- A pattern with a star in it ends `sdb_match` with an answer: whether the glob between the
  -- marks matches the whole of the string, or with `%` of the data that its base64 decodes to,
  -- with `?i` whatever the case of the letters; with `%` a string that does not decode is not
  -- matched. The marks `^` and `$` change nothing, `$` also in front of `?i`. The glob begins
  -- with neither `%` nor `^` and ends with neither `$` nor `?i`.
  pub sdb_match-marked :
      (str : List ℕ)
      → Decides icase glob
          (if base64 then Base64.decode (some str) else some str)
          (sdb_match (some str) (some (marked base64 start glob finish icase)))
  sdb_match-marked str =
      let parse = parse_pattern-marked in
      let e : take (length glob) behind ≡ glob = take-append glob (ending finish icase) in
      rw (parse, e) at
        (sdb_match-parsed str (marked base64 start glob finish icase) (rw parse refl))
