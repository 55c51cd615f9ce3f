-- ===== src/Match/Glob.antt =====
-- `globmatch` of src/match.c against a recursive definition of what a glob matches, and an
-- inductive one.
use sdb.Base.{
  ℕ, zero, suc, ◌+◌, ◌*◌, ◌≤◌, ◌<◌, ◌≡◌, ◌↔◌, inl, inr, refl, ◌∙◌, ap, Bool, true, false, ◌&&◌,
  ◌||◌, List, [], ◌∷◌, none, some, ◌==◌, if◌then◌else◌, length, arith, Bool-cases,
}
use native.Mathlib.Nat.{le_refl}
use sdb.Match.{chareq, star_char, skip_stars, globmatch_loop, glob_fuel, globmatch}

-- A star stands for any run; every other character for one that it equals.
pub data Matches (icase : Bool) : List ℕ → List ℕ → Type 0 where
  finished : Matches icase [] []
  one :
      {c x : ℕ} {b a : List ℕ}
      → (c == star_char) ≡ false
      → chareq icase c x ≡ true
      → Matches icase b a
      → Matches icase (c ∷ b) (x ∷ a)
  stop :
      {c : ℕ} {b a : List ℕ} → (c == star_char) ≡ true → Matches icase b a → Matches icase (c ∷ b) a
  skip :
      {c x : ℕ} {b a : List ℕ}
      → (c == star_char) ≡ true
      → Matches icase (c ∷ b) a
      → Matches icase (c ∷ b) (x ∷ a)

glob_spec : Bool → List ℕ → List ℕ → Bool
glob_spec icase [] [] = true
glob_spec icase [] (x ∷ a) = false
glob_spec icase (c ∷ b) [] = c == star_char && glob_spec icase b []
glob_spec icase (c ∷ b) (x ∷ a) =
    if c == star_char
    then glob_spec icase b (x ∷ a) || glob_spec icase (c ∷ b) a
    else chareq icase c x && glob_spec icase b a

-- The pattern matches what is left of the text after one or more characters.
later : Bool → List ℕ → List ℕ → Bool
unfolding glob_spec
later icase b [] = false
later icase b (y ∷ a) = glob_spec icase b a || later icase b a

-- The text `a` and the pattern `b` are reached from `sa` and `sb` by characters that are equal.
data Linked (icase : Bool) (sb sa : List ℕ) : List ℕ → List ℕ → Type 0 where
  here : Linked icase sb sa sb sa
  step :
      {c x : ℕ} {b a : List ℕ}
      → (c == star_char) ≡ false
      → chareq icase c x ≡ true
      → Linked icase sb sa (c ∷ b) (x ∷ a)
      → Linked icase sb sa b a

module _ (icase : Bool) where
  later_tail_spec :
      (c : ℕ) (b a : List ℕ)
      → (c == star_char) ≡ false
      → glob_spec icase (c ∷ b) a ≡ true
      → later icase b a ≡ true
  unfolding later
  later_tail_spec c b [] h e = ground arith
  later_tail_spec c b (x ∷ a) h e = ground arith

  later_tail :
      (c x : ℕ) (b a : List ℕ)
      → (c == star_char) ≡ false
      → later icase (c ∷ b) (x ∷ a) ≡ true
      → later icase b a ≡ true
  unfolding later
  later_tail c x b [] h e = ground (arith, later_tail_spec c b [] h)
  later_tail c x b (y ∷ a) h e = ground (arith, later_tail_spec c b (y ∷ a) h, later_tail c y b a h)

  -- A later match of the whole segment is a later match of what is left of it.
  later-Linked :
      {sb sa b a : List ℕ}
      → Linked icase sb sa b a
      → later icase sb sa ≡ true
      → later icase b a ≡ true
  later-Linked here e = e
  later-Linked (step {c} {x} {b} {a} h m l) e = later_tail c x b a h (later-Linked l e)

  later_star :
      (c : ℕ) (b a : List ℕ)
      → (c == star_char) ≡ true
      → later icase (c ∷ b) a ≡ true
      → glob_spec icase (c ∷ b) a ≡ true
  unfolding later
  later_star c b [] h e = cc
  later_star c b (x ∷ a) h e = ground (arith, later_star c b a h)

  spec_star :
      (c : ℕ) (b a : List ℕ)
      → (c == star_char) ≡ true
      → glob_spec icase (c ∷ b) a ≡ (glob_spec icase b a || later icase b a)
  unfolding later
  spec_star c b [] h = ground arith
  spec_star c b (x ∷ a) h = ground (arith, spec_star c b a h)

  spec-skip_stars : (b : List ℕ) → glob_spec icase b [] ≡ skip_stars b
  unfolding glob_spec skip_stars
  spec-skip_stars [] = refl
  spec-skip_stars (c ∷ b) = rw (spec-skip_stars b)

  length-Linked : {sb sa b a : List ℕ} → Linked icase sb sa b a → length a ≤ length sa
  length-Linked here = omega arith
  length-Linked (step h m l) = omega (arith, length-Linked l)

  later-cons :
      (b : List ℕ) (y : ℕ) (a : List ℕ)
      → later icase b (y ∷ a) ≡ (glob_spec icase b a || later icase b a)
  unfolding later
  later-cons b y a = refl

  later-nil : (b : List ℕ) → later icase b [] ≡ false
  unfolding later
  later-nil b = refl

  spec_end : (x : ℕ) (a : List ℕ) → glob_spec icase [] (x ∷ a) ≡ false
  unfolding glob_spec
  spec_end x a = refl

  module _ (c x : ℕ) (b a : List ℕ) (plain : (c == star_char) ≡ false) where
    spec_same : chareq icase c x ≡ true → glob_spec icase (c ∷ b) (x ∷ a) ≡ glob_spec icase b a
    unfolding glob_spec
    spec_same e = rw (plain, e)

    spec_other : chareq icase c x ≡ false → glob_spec icase (c ∷ b) (x ∷ a) ≡ false
    unfolding glob_spec
    spec_other e = rw (plain, e)

  fuel_star : (p q n k f : ℕ) → p ≤ q → q * (n + 1) + suc k < suc f → p * (n + 1) + k < f
  fuel_star p q n k f h e = grind arith

  star_or : (g h l : Bool) → g ≡ h → (l ≡ true → g ≡ true) → h ≡ (g || l)
  star_or g h l e i = ground arith

  -- The loop with a star: it answers whether the pattern matches from here, or behind a longer run
  -- of the star.
  loop_star :
      (fuel n : ℕ) (a b sb sa : List ℕ)
      → length sa * (n + 1) + length b < fuel
      → length b ≤ n
      → length sb ≤ n
      → Linked icase sb sa b a
      → globmatch_loop icase fuel a b (some (sb, sa))
        ≡ some (glob_spec icase b a || later icase sb sa)
  unfolding globmatch_loop
  loop_star zero n a b sb sa h hb hs l = absurd (omega arith)
  loop_star (suc fuel) n [] b sb sa h hb hs l =
      ground (arith, spec-skip_stars b, later-Linked l, later-nil b)
  loop_star (suc fuel) n (x ∷ a) b sb [] h hb hs l = absurd (omega (arith, length-Linked l))
  loop_star (suc fuel) n (x ∷ a) [] sb (y ∷ sa) h hb hs l =
      rw (spec_end, later-cons) (loop_star fuel n sa sb sb sa (omega arith) hs hs here)
  loop_star (suc fuel) n (x ∷ a) (c ∷ b) sb (y ∷ sa) h hb hs l =
      elim (Bool-cases (c == star_char)) [
        | inl star ↦
            rw
              (
                star,
                loop_star fuel n (x ∷ a) b b (x ∷ a)
                    (fuel_star _ _ n (length b) fuel (length-Linked l) h) (omega arith)
                    (omega arith) here,
              )
              (ap some (
                star_or _ _ _ (spec_star c b (x ∷ a) star)
                  (λ e. later_star c b (x ∷ a) star (later-Linked l e))))
        | inr plain ↦ elim (Bool-cases (chareq icase c x)) [
          | inl same ↦
              rw (spec_same c x b a plain same, plain, same)
                (loop_star fuel n a b sb (y ∷ sa) (omega arith) (omega arith) hs
                  (step plain same l))
          | inr other ↦
              rw (spec_other c x b a plain other, later-cons, plain, other)
                (loop_star fuel n sa sb sb sa (omega arith) hs hs here)
        ]
      ]

  -- The loop before the first star.
  loop_none :
      (fuel n : ℕ) (a b : List ℕ)
      → length a * (n + 1) + length b < fuel
      → length b ≤ n
      → globmatch_loop icase fuel a b none ≡ some (glob_spec icase b a)
  unfolding globmatch_loop
  loop_none zero n a b h hb = absurd (omega arith)
  loop_none (suc fuel) n [] b h hb = ground (arith, spec-skip_stars b)
  loop_none (suc fuel) n (x ∷ a) [] h hb = rw spec_end
  loop_none (suc fuel) n (x ∷ a) (c ∷ b) h hb = elim (Bool-cases (c == star_char)) [
    | inl star ↦ rw (
      spec_star c b (x ∷ a) star,
      star,
      loop_star fuel n (x ∷ a) b b (x ∷ a)
          (fuel_star _ _ n (length b) fuel (le_refl (suc (length a))) h) (omega arith) (omega arith)
          here,
    )
    | inr plain ↦ elim (Bool-cases (chareq icase c x)) [
      | inl same ↦
          rw (spec_same c x b a plain same, plain, same)
            (loop_none fuel n a b (omega arith) (omega arith))
      | inr other ↦ rw (spec_other c x b a plain other, plain, other)
    ]
  ]

  globmatch-spec : (a b : List ℕ) → globmatch a b icase ≡ some (glob_spec icase b a)
  unfolding globmatch
  globmatch-spec a b = loop_none (glob_fuel a b) (length b) a b (omega arith) (omega arith)

  spec→Matches : (b a : List ℕ) → glob_spec icase b a ≡ true → Matches icase b a
  unfolding glob_spec
  spec→Matches [] [] e = finished
  spec→Matches [] (x ∷ a) e = absurd (cc)
  spec→Matches (c ∷ b) [] e = stop (ground arith) (spec→Matches b [] (ground arith))
  spec→Matches (c ∷ b) (x ∷ a) e = elim (Bool-cases (c == star_char)) [
    | inl star ↦ elim (Bool-cases (glob_spec icase b (x ∷ a))) [
      | inl now ↦ stop star (spec→Matches b (x ∷ a) now)
      | inr no_match ↦ skip star (spec→Matches (c ∷ b) a (ground arith))
    ]
    | inr plain ↦ one plain (ground arith) (spec→Matches b a (ground arith))
  ]

  Matches→spec : {b a : List ℕ} → Matches icase b a → glob_spec icase b a ≡ true
  Matches→spec finished = unfold glob_spec in refl
  Matches→spec (one {c} {x} {b} {a} plain same m) = spec_same c x b a plain same ∙ Matches→spec m
  Matches→spec (stop {c} {b} {a} star m) = rw (spec_star c b a star, Matches→spec m)
  Matches→spec (skip {c} {x} {b} {a} star m) =
      rw (spec_star c b (x ∷ a) star, later-cons)
        (ground (arith, spec_star c b a star, Matches→spec m))

-- The loop of `globmatch` ends within its fuel on every text and pattern, and answers whether the
-- pattern matches the whole text, where a star stands for any run of characters and any other
-- character for one that it equals, up to case if `icase` is set.
pub globmatch-Matches :
    (a b : List ℕ) (icase : Bool)
    → (answer : Bool) × (globmatch a b icase ≡ some answer) × ((answer ≡ true) ↔ Matches icase b a)
globmatch-Matches a b icase =
    (glob_spec icase b a, globmatch-spec icase a b, (spec→Matches icase b a, Matches→spec icase))
