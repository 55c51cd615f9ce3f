-- ===== src/KvMatch/Anchors.antt =====
-- What the anchors of an expression in src/sdb.c mean.
use mathlib.Core.Bool.{false≢true}
use sdb.Base.{
  ℕ, suc, ◌-◌, ◌<◌, ◌≡◌, ◌↔◌, refl, sym, ap, ◌∙◌, true, false, ◌&&◌, List, [], ◌∷◌, ◌++◌,
  append-nil, leb, ◌==◌, if◌then◌else◌, length, get_or, take, drop, length-append, length-drop,
  drop-append, take-append-drop, arith, Bool-cases, Option-cases, inl, inr,
}
use sdb.Core.Ops.{cut_out}
use sdb.Core.Uncat.{Occurs, cut_out-CutOut, cut_out-none}
use sdb.KvMatch.{last_char, strncmp_eq, found, match_expr}

last_char-append : (p : List ℕ) (c : ℕ) → last_char (p ++ c ∷ []) ≡ c
unfolding last_char
last_char-append [] c = refl
last_char-append (d ∷ []) c = refl
last_char-append (d ∷ e ∷ p) c = last_char-append (e ∷ p) c

abbrev pub Starts : List ℕ → List ℕ → Type 0
Starts p s = (rest : List ℕ) × (s ≡ p ++ rest)

strncmp-Starts : (p q s : List ℕ) → (strncmp_eq (length p) s (p ++ q) ≡ true) ↔ Starts p s
unfolding strncmp_eq
strncmp-Starts [] q s = ((λ e. (s, refl)), (λ h. refl))
strncmp-Starts (c ∷ p) q [] = ((λ e. absurd (false≢true e)), (λ (rest, e). cc e))
strncmp-Starts (c ∷ p) q (d ∷ s) = elim (Bool-cases (d == c)) [
  | inl same ↦
      let k : d ≡ c = ground arith in
      let (to, from) = strncmp-Starts p q s in
      (
        (λ e. let (rest, h) = to (rw same at e) in (rest, cc (h, k))),
        (λ (rest, e). rw same (from (rest, cc e))),
      )
  | inr other ↦ (
    (λ e. absurd (false≢true (rw other at e))),
    (λ (rest, e). let k : d ≡ c = cc e in absurd (ground arith)),
  )
]

length-ended : (p : List ℕ) (c : ℕ) → length (p ++ c ∷ []) ≡ suc (length p)
length-ended p c = omega (arith, length-append p (c ∷ []))

found-Occurs : (p s : List ℕ) → (found (cut_out p s) ≡ true) ↔ Occurs p s
found-Occurs p s = elim (Option-cases (cut_out p s)) [
  | inl nowhere ↦
      ((λ e. absurd (false≢true (rw nowhere at e))), (λ h. absurd (cut_out-none p s nowhere h)))
  | inr (rest, somewhere) ↦ (
    (λ _.
        let (before, after, whole, left) = cut_out-CutOut p s rest somewhere in
        (before, after, whole)),
    (λ _. rw somewhere refl),
  )
]

none_left : (p rest : List ℕ) → length (p ++ rest) ≡ length p → rest ≡ []
none_left p [] e = refl
none_left p (c ∷ rest) e = absurd (omega (arith, length-append p (c ∷ rest)))

-- Behind a text that is not empty.
abbrev pub Ends : List ℕ → List ℕ → Type 0
Ends p s = (before : List ℕ) × (0 < length before) × (s ≡ before ++ p)

module _ (p str : List ℕ) where
  whole-eq :
      ((length str == length p && strncmp_eq (length p) str (p ++ b'$' ∷ [])) ≡ true) ↔ (str ≡ p)
  whole-eq = (
    (λ e.
        let start : strncmp_eq (length p) str (p ++ b'$' ∷ []) ≡ true = ground arith in
        let size : length str ≡ length p = ground arith in
        let (rest, h) = (strncmp-Starts p (b'$' ∷ []) str).0 start in
        h ∙ rw (none_left p rest (sym (ap length h) ∙ size)) (append-nil p)),
    (λ e.
        let start = (strncmp-Starts p (b'$' ∷ []) str).1 ([], e ∙ sym (append-nil p)) in
        let size : (length str == length p) ≡ true = let k = ap length e in ground arith in
        rw (size, start) refl),
  )

  end-Ends :
      ((if leb (length str) (length p)
          then false
          else strncmp_eq (length p) (drop (length str - length p) str) (p ++ b'$' ∷ []))
        ≡ true)
      ↔ Ends p str
  end-Ends = (
    (λ e. elim (Bool-cases (leb (length str) (length p))) [
      | inl short ↦ absurd (false≢true (rw short at e))
      | inr long ↦
          let k = length str - length p in
          let (rest, h) = (strncmp-Starts p (b'$' ∷ []) (drop k str)).0 (rw long at e) in
          let tail : length (p ++ rest) ≡ length p =
            sym (ap length h) ∙ length-drop k str ∙ ground arith in
          let whole = take-append-drop k str in
          let sizes = length-append (take k str) (drop k str) in
          let all = ap length whole in
          let more : length p < length str = ground arith in
          let longer : 0 < length (take k str) = omega (arith, length-drop k str) in
          let last : drop k str ≡ p = h ∙ rw (none_left p rest tail) (append-nil p) in
          (take k str, longer, sym whole ∙ ap (λ (t : List ℕ). take k str ++ t) last)
    ]),
    (λ (before, some_text, e).
        let size = ap length e ∙ length-append before p in
        let long : leb (length str) (length p) ≡ false = ground arith in
        let k : length str - length p ≡ length before = omega arith in
        let start = (strncmp-Starts p (b'$' ∷ []) p).1 ([], sym (append-nil p)) in
        rw (long, k, e, drop-append before p) start),
  )

  last_char-anchor : (last_char p == b'$') ≡ false → (last_char (b'^' ∷ p) == b'$') ≡ false
  unfolding last_char
  last_char-anchor e = go p e
    where
      go : (t : List ℕ) → (last_char t == b'$') ≡ false → (last_char (b'^' ∷ t) == b'$') ≡ false
      go [] e = refl
      go (c ∷ t) e = e

  first-anchor : (get_or p 0 0 == b'^') ≡ false → (get_or (p ++ b'$' ∷ []) 0 0 == b'^') ≡ false
  first-anchor e = go p e
    where
      go :
          (t : List ℕ)
          → (get_or t 0 0 == b'^') ≡ false
          → (get_or (t ++ b'$' ∷ []) 0 0 == b'^') ≡ false
      go [] e = refl
      go (c ∷ t) e = e

  -- A text that neither starts with `^` nor ends with `$`: between both it matches itself
  -- alone, behind `^` what starts with it, before `$` what ends with it and is longer, and
  -- alone what it stands in.
  pub match_expr-Anchors :
      (get_or p 0 0 == b'^') ≡ false
      → (last_char p == b'$') ≡ false
      → ((match_expr str (b'^' ∷ p ++ b'$' ∷ []) ≡ true) ↔ (str ≡ p))
        × ((match_expr str (b'^' ∷ p) ≡ true) ↔ Starts p str)
        × ((match_expr str (p ++ b'$' ∷ []) ≡ true) ↔ Ends p str)
        × ((match_expr str p ≡ true) ↔ Occurs p str)
  unfolding match_expr
  match_expr-Anchors first last =
      let m : length (p ++ b'$' ∷ []) - 1 ≡ length p = omega (arith, length-ended p b'$') in
      let n : suc (length (p ++ b'$' ∷ [])) - 2 ≡ length p = omega (arith, length-ended p b'$') in
      let o : suc (length p) - 1 ≡ length p = omega arith in
      (
        rw (last_char-append (b'^' ∷ p) b'$', n) whole-eq,
        rw (last_char-anchor last, o) (rw (append-nil p) at (strncmp-Starts p [] str)),
        rw (first-anchor first, last_char-append p b'$', m) end-Ends,
        rw (first, last) (found-Occurs p str),
      )
