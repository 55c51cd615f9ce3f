-- ===== src/Match/Pattern.antt =====
-- `sdb_match` of src/match.c on the patterns that hold a star: the marks at their ends are taken
-- off, and what is left is matched as a glob.
use sdb.Base.{
  ℕ, ◌≡◌, ◌↔◌, refl, ◌∙◌, Bool, true, false, List, Option, none, some, if◌then◌else◌, take,
}
use mathlib.Core.Path.{subst}
use sdb.Base64
use sdb.Match.{Flags, globmatch, compare_plain, compare_string, parse_pattern, sdb_match}
use sdb.Match.Glob.{Matches, globmatch-Matches}

-- The string that is compared: the subject, or what its base64 text decodes to.
abbrev pub subject : Flags → List ℕ → Option (List ℕ)
subject flags str = if flags.base64 then Base64.decode (some str) else some str

-- The answer says whether the glob matches the subject, if there is one.
abbrev pub Decides : Bool → List ℕ → Option (List ℕ) → Option Bool → Type 0
Decides icase pat subject result =
    (answer : Bool) × (result ≡ some answer)
    × ((answer ≡ true) ↔ ((text : List ℕ) × (subject ≡ some text) × Matches icase pat text))

module _ (b : List ℕ) (blen : ℕ) (flags : Flags) (g : flags.glob ≡ true) where
  compare_plain-glob :
      (a : List ℕ) → compare_plain a b blen flags ≡ globmatch a (take blen b) flags.icase
  unfolding compare_plain
  compare_plain-glob a = rw g

  Decides-some :
      (a : List ℕ) → Decides flags.icase (take blen b) (some a) (compare_plain a b blen flags)
  Decides-some a =
      let (answer, run, both) = globmatch-Matches a (take blen b) flags.icase in
      (
        answer,
        compare_plain-glob a ∙ run,
        (
          (λ t. (a, refl, both.0 t)),
          (λ m.
              let e : m.0 ≡ a = cc in
              both.1 (subst (λ t. Matches flags.icase (take blen b) t) e m.2)),
        ),
      )

  Decides-none : Decides flags.icase (take blen b) none (some false)
  Decides-none = (false, refl, ((λ t. cc), (λ m. cc (m.1))))

  Decides-decode :
      (o : Option (List ℕ))
      → Decides flags.icase
          (take blen b)
          o
          (elim o [ none ↦ some false | some aa ↦ compare_plain aa b blen flags ])
  Decides-decode none = Decides-none
  Decides-decode (some a) = Decides-some a

  Decides-subject :
      (str : List ℕ) (d : Bool)
      → flags.base64 ≡ d
      → Decides flags.icase (take blen b) (subject flags str) (compare_string str b blen flags)
  unfolding compare_string
  Decides-subject str true e = simp e (Decides-decode (Base64.decode (some str)))
  Decides-subject str false e = simp e (Decides-some str)

-- On a pattern that is read as a glob `sdb_match` answers, for every string, whether the glob
-- matches the whole of the string, or of the data that it decodes to; a string that does not
-- decode is not matched.
pub sdb_match-parsed :
    (str glob : List ℕ)
    → (parse_pattern glob).flags.glob ≡ true
    → let p = parse_pattern glob in
      (answer : Bool) × (sdb_match (some str) (some glob) ≡ some answer)
      × ((answer ≡ true) ↔ (
          (text : List ℕ) × (subject p.flags str ≡ some text)
          × Matches p.flags.icase (take p.len p.text) text))
unfolding sdb_match
sdb_match-parsed str glob g =
    let p = parse_pattern glob in Decides-subject p.text p.len p.flags g str p.flags.base64 refl
