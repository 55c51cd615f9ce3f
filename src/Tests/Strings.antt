-- ===== src/Tests/Strings.antt =====
-- The theorems on src/base64.c and src/match.c at concrete inputs.
use sdb.Base.{
  ℕ, ◌≡◌, ◌↔◌, refl, Bool, true, false, not, List, [], ◌∷◌, ◌++◌, some, take, codes, arith,
}
use sdb.Base64.{encode, decode}
use sdb.Base64.RoundTrip.{decode-encode}
use sdb.Match.{Flags, globmatch, strstr2, compare_plain, star_char, sdb_match}
use sdb.Match.Glob.{Matches, globmatch-Matches}
use sdb.Match.Substring.{Occurs, strstr2-Occurs, strstr2-misses, fold_eq, compare_plain-icase_start}
use sdb.Match.Marks.{marked, IsBare, sdb_match-marked}

abbrev four_bytes : List ℕ
four_bytes = 0 ∷ 255 ∷ 16 ∷ 128 ∷ []

decode-encode_example : decode (encode (some four_bytes) (some 4)) ≡ some four_bytes
decode-encode_example =
    decode-encode four_bytes (omega arith, (omega arith, (omega arith, (omega arith, tt))))
      (omega arith) (omega arith)

-- A literal that matches only once the first star has taken more.
globmatch-Matches_example :
    (answer : Bool) × (globmatch (codes "aXbXc") (codes "a*xc") true ≡ some answer)
    × ((answer ≡ true) ↔ Matches true (codes "a*xc") (codes "aXbXc"))
globmatch-Matches_example = globmatch-Matches (codes "aXbXc") (codes "a*xc") true

abbrev file_pattern : List ℕ
file_pattern = codes "lib*.so$?i"

file_pattern-reads :
    file_pattern ≡ marked false false (codes "lib" ++ star_char ∷ codes ".so") true true
file_pattern-reads = refl

file_glob-IsBare : IsBare (codes "lib" ++ star_char ∷ codes ".so")
unfolding sdb.Base.str_eq
file_glob-IsBare = record {
  no_base64 = λ e. absurd (omega (arith, e));
  no_start = λ e. absurd (omega (arith, e));
  no_finish = refl;
  no_icase = refl;
}

sdb_match-marked_example :
    (answer : Bool) × (sdb_match (some (codes "LIBsdb.so")) (some file_pattern) ≡ some answer)
    × ((answer ≡ true) ↔ (
        (text : List ℕ) × (some (codes "LIBsdb.so") ≡ some text)
        × Matches true (codes "lib*.so") text))
sdb_match-marked_example =
    sdb_match-marked (codes "lib") (codes ".so") false false true true file_glob-IsBare
      (codes "LIBsdb.so")

strstr2-Occurs_example : Occurs (codes "sdb") (codes "libsdb.so")
unfolding strstr2 sdb.Match.strstr2_loop
strstr2-Occurs_example = strstr2-Occurs (codes "libsdb.so") (codes "sdb") 3 refl

strstr2-misses_example :
    Occurs (codes "ab") (codes "aab") × (strstr2 (codes "aab") (codes "ab") 2 ≡ false)
strstr2-misses_example = strstr2-misses 97 98 (omega arith) (omega arith) (omega arith)

abbrev start_icase : Flags
start_icase = record { icase = true; start = true; finish = false; base64 = false; glob = false }

compare_plain-icase_start_example :
    compare_plain (codes "Foo") (codes "fo") 2 start_icase
    ≡ some (not (fold_eq 2 (codes "Foo") (codes "fo")))
compare_plain-icase_start_example =
    compare_plain-icase_start (codes "Foo") (codes "fo") 2 start_icase refl refl refl refl
      (omega arith) (omega arith) (omega arith, (omega arith, (omega arith, tt)))
      (omega arith, (omega arith, tt))
