-- ===== src/Core/Uncat.antt =====
-- `sdb_uncat` of src/sdb.c: the loop ends, and leaves no occurrence.
use mathlib.Core.Bool.{true≢false}
use sdb.Base.{
  ℕ, zero, suc, ◌≤◌, ◌<◌, ◌≡◌, refl, sym, ap, ◌∙◌, Bool, true, false, List, [], ◌∷◌, ◌++◌, Option,
  none, some, ◌==◌, length, length-append, arith, Bool-cases, Option-cases, inl, inr,
}
use sdb.Core.{is_empty}
use sdb.Core.Ops.{strip, cut_out, uncat_loop, uncat}

strip-append : (p t r : List ℕ) → strip p t ≡ some r → t ≡ p ++ r
unfolding strip
strip-append [] t r e = cc e
strip-append (c ∷ p) [] r e = cc e
strip-append (c ∷ p) (d ∷ t) r e = elim (Bool-cases (c == d)) [
  | inl same ↦
      let h = strip-append p t r (rw same at e) in let k : c ≡ d = ground arith in cc (h, k)
  | inr other ↦ cc (rw other at e)
]

strip-same : (p r : List ℕ) → strip p (p ++ r) ≡ some r
unfolding strip
strip-same [] r = refl
strip-same (c ∷ p) r = let e : (c == c) ≡ true = ground arith in rw e (strip-same p r)

module _ (value : List ℕ) (c : ℕ) (v : List ℕ) where
  cut_out-here : (r : List ℕ) → strip value (c ∷ v) ≡ some r → cut_out value (c ∷ v) ≡ some r
  unfolding cut_out
  cut_out-here r here = rw (here, cut_out) refl

  cut_out-later :
      (r : List ℕ)
      → strip value (c ∷ v) ≡ none
      → cut_out value v ≡ some r
      → cut_out value (c ∷ v) ≡ some (c ∷ r)
  unfolding cut_out
  cut_out-later r missing later = rw (missing, later, cut_out) refl

  cut_out-nowhere :
      strip value (c ∷ v) ≡ none → cut_out value v ≡ none → cut_out value (c ∷ v) ≡ none
  unfolding cut_out
  cut_out-nowhere missing nowhere = rw (missing, nowhere, cut_out) refl

-- A text without the occurrence that it has somewhere.
abbrev pub CutOut : List ℕ → List ℕ → List ℕ → Type 0
CutOut value v r =
    (before : List ℕ) × (after : List ℕ) × (v ≡ before ++ (value ++ after)) × (r ≡ before ++ after)

-- What is cut out is an occurrence.
pub cut_out-CutOut : (value v r : List ℕ) → cut_out value v ≡ some r → CutOut value v r
unfolding cut_out
cut_out-CutOut value [] r e = ([], r, strip-append value [] r e, refl)
cut_out-CutOut value (c ∷ v) r e = elim (Option-cases (strip value (c ∷ v))) [
  | inr (rest, here) ↦
      let k : rest ≡ r = cc (cut_out-here value c v rest here, e) in
      ([], r, strip-append value (c ∷ v) r (here ∙ ap (λ (t : List ℕ). some t) k), refl)
  | inl missing ↦ elim (Option-cases (cut_out value v)) [
    | inl nowhere ↦ cc (cut_out-nowhere value c v missing nowhere, e)
    | inr (rest, later) ↦
        let k : c ∷ rest ≡ r = cc (cut_out-later value c v rest missing later, e) in
        let (before, after, whole, left) = cut_out-CutOut value v rest later in
        (
          c ∷ before,
          after,
          ap (λ (t : List ℕ). c ∷ t) whole,
          sym k ∙ ap (λ (t : List ℕ). c ∷ t) left,
        )
  ]
]

-- The value stands somewhere in the text.
abbrev pub Occurs : List ℕ → List ℕ → Type 0
Occurs value v = (before : List ℕ) × (after : List ℕ) × (v ≡ before ++ (value ++ after))

found_at_start : (value v after : List ℕ) → v ≡ value ++ after → cut_out value v ≡ some after
unfolding cut_out
found_at_start value [] after e = rw e (strip-same value after)
found_at_start value (c ∷ v) after e = cut_out-here value c v after (rw e (strip-same value after))

-- Where nothing is found, nothing stands.
pub cut_out-none : (value v : List ℕ) → cut_out value v ≡ none → ¬ Occurs value v
cut_out-none value v e ([], after, whole) = cc (found_at_start value v after whole, e)
cut_out-none value [] e (c ∷ before, after, whole) = cc whole
cut_out-none value (d ∷ v) e (c ∷ before, after, whole) =
    elim (Option-cases (strip value (d ∷ v))) [
      | inr (rest, here) ↦ cc (cut_out-here value d v rest here, e)
      | inl missing ↦ elim (Option-cases (cut_out value v)) [
        | inr (rest, later) ↦ cc (cut_out-later value d v rest missing later, e)
        | inl nowhere ↦ cut_out-none value v nowhere (before, after, (cc whole))
      ]
    ]

cut_out-shorter :
    (value v r : List ℕ) → is_empty value ≡ false → cut_out value v ≡ some r → length r < length v
cut_out-shorter [] v r some_value e = absurd (true≢false some_value)
cut_out-shorter (c ∷ value) v r some_value e =
    let (before, after, whole, left) = cut_out-CutOut (c ∷ value) v r e in
    let a = ap length whole in
    let b = ap length left in
    omega (
      arith,
      length-append before after,
      length-append before (c ∷ value ++ after),
      length-append value after,
    )

-- The results of cutting out a value again and again.
pub data CutDown (value : List ℕ) : List ℕ → List ℕ → Type 0 where
  stop : {v : List ℕ} → CutDown value v v
  cut : {v r w : List ℕ} → CutOut value v r → CutDown value r w → CutDown value v w

-- What the loop leaves: no occurrence, and the text as it was unless `mod` is set.
abbrev pub Emptied : List ℕ → List ℕ → Bool → Option (Bool × List ℕ) → Type 0
Emptied value v changed o =
    (m : Bool) × (w : List ℕ) × (o ≡ some (m, w))
    × CutDown value v w
    × ¬ Occurs value w
    × (changed ≡ true → m ≡ true)
    × (m ≡ false → w ≡ v)

uncat_loop-Emptied :
    (fuel : ℕ) (changed : Bool) (value v : List ℕ)
    → is_empty value ≡ false
    → length v < fuel
    → Emptied value v changed (uncat_loop fuel changed value v)
unfolding uncat_loop
uncat_loop-Emptied zero changed value v some_value enough = absurd (omega arith)
uncat_loop-Emptied (suc fuel) changed value v some_value enough =
    elim (Option-cases (cut_out value v)) [
      | inl nowhere ↦ (
        changed,
        v,
        (rw (nowhere, uncat_loop) refl),
        stop,
        cut_out-none value v nowhere,
        (λ e. e),
        (λ _. refl),
      )
      | inr (rest, found) ↦
          let shorter = cut_out-shorter value v rest some_value found in
          let (m, w, run, down, left, set, same) =
            uncat_loop-Emptied fuel true value rest some_value (omega arith) in
          (
            m,
            w,
            (rw (found, uncat_loop) run),
            cut (cut_out-CutOut value v rest found) down,
            left,
            (λ _. set refl),
            (λ e. absurd (true≢false (sym (set refl) ∙ e))),
          )
    ]

-- Taking a value that is not empty out of a text ends. What is left comes from the text by cutting
-- out one occurrence after another, has none, and is the text itself unless `mod` is set.
pub uncat-Emptied :
    (value v : List ℕ) → is_empty value ≡ false → Emptied value v false (uncat value v)
unfolding uncat
uncat-Emptied value v some_value =
    rw some_value (uncat_loop-Emptied (suc (length v)) false value v some_value (omega arith))

pub CutDown-length : (value : List ℕ) {v w : List ℕ} → CutDown value v w → length w ≤ length v
CutDown-length value stop = omega arith
CutDown-length value (cut (before, after, whole, left) more) =
    let a = ap length whole in
    let b = ap length left in
    omega (
      arith,
      CutDown-length value more,
      length-append before after,
      length-append before (value ++ after),
      length-append value after,
    )
