-- ===== src/Tests/Arrays.antt =====
-- The theorems on the arrays of src/util.c at small arrays.
use sdb.Base.{◌-◌, ◌≡◌, refl, false, List, ℕ, some, take, drop, codes}
use sdb.Arrays.{sdb_alen, sdb_alen_ignore_empty, sdb_aslice, sdb_array_compact}
use sdb.Arrays.Split.{split, filled}
use sdb.Arrays.Slice.{pieces, joined, sdb_aslice-pieces}
use sdb.Arrays.Compact.{has_double, sdb_array_compact-filled}

sdb_aslice-pieces_example :
    sdb_aslice (codes "a,b,c") 1 2 ≡ joined (take (2 - 1) (drop 1 (pieces (codes "a,b,c"))))
sdb_aslice-pieces_example = sdb_aslice-pieces (codes "a,b,c") 1 2

slice_of_one : sdb_aslice (codes "a,b,c") 1 2 ≡ some (codes "b,")
unfolding sdb_aslice sdb.Arrays.slice_start sdb.Arrays.slice_end
slice_of_one = refl

sdb_array_compact-filled_example :
    (r : List ℕ) × (sdb_array_compact (codes ",a,b,") ≡ some r)
    × (has_double r ≡ false)
    × (filled (split r) ≡ filled (split (codes ",a,b,")))
sdb_array_compact-filled_example = sdb_array_compact-filled (codes ",a,b,")
