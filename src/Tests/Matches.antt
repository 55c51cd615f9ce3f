-- ===== src/Tests/Matches.antt =====
-- The theorem on the anchors of src/sdb.c at a short text.
use sdb.Base.{◌≡◌, ◌↔◌, refl, true, false, ◌==◌, ◌++◌, ◌∷◌, [], codes}
use sdb.Core.Uncat.{Occurs}
use sdb.KvMatch.{last_char, match_expr}
use sdb.KvMatch.Anchors.{Starts, Ends, match_expr-Anchors}

no_dollar : (last_char (codes "file") == b'$') ≡ false
unfolding last_char
no_dollar = refl

match_expr-Anchors_example :
    ((match_expr (codes "sdb.file") (b'^' ∷ codes "file" ++ b'$' ∷ []) ≡ true)
      ↔ (codes "sdb.file" ≡ codes "file"))
    × ((match_expr (codes "sdb.file") (b'^' ∷ codes "file") ≡ true)
        ↔ Starts (codes "file") (codes "sdb.file"))
    × ((match_expr (codes "sdb.file") (codes "file" ++ b'$' ∷ []) ≡ true)
        ↔ Ends (codes "file") (codes "sdb.file"))
    × ((match_expr (codes "sdb.file") (codes "file") ≡ true)
        ↔ Occurs (codes "file") (codes "sdb.file"))
match_expr-Anchors_example = match_expr-Anchors (codes "file") (codes "sdb.file") refl no_dollar
