-- ===== src/Tests/Numbers.antt =====
-- The theorems on the numbers of src/util.c at small numbers.
use sdb.Base.{◌↔◌, ◌<◌, ◌≤◌, length, ℕ, ◌≡◌, ◌≢◌, refl, List, some, codes, arith, inr}
use sdb.Numbers.{overrun, spelled, sdb_itoa, sdb_atoi, sdb_num_bufsz}
use sdb.Numbers.Spelling.{sdb_itoa-overrun}
use sdb.Numbers.Reading.{ReadsBack, sdb_itoa-sdb_atoi}
use sdb.Numbers.Octal.{sdb_itoa-octal}

spelled_in_hexadecimal : sdb_itoa 255 16 sdb_num_bufsz ≡ spelled (codes "0xff")
unfolding sdb_itoa sdb.Numbers.itoa_end sdb.Numbers.itoa_loop
spelled_in_hexadecimal = refl

sdb_itoa-overrun_example :
    ((sdb_itoa 0xfff 16 5 ≡ overrun) ↔ ((10 < 16) × (256 ≤ 0xfff)))
    × ((t : List ℕ) → sdb_itoa 0xfff 16 5 ≡ spelled t → length t < 5)
sdb_itoa-overrun_example = sdb_itoa-overrun 0xfff 16 5 (omega arith) (omega arith) (omega arith)

sdb_itoa-sdb_atoi_example : ReadsBack 255 16
sdb_itoa-sdb_atoi_example = sdb_itoa-sdb_atoi 255 16 (omega arith) (inr refl)

sdb_itoa-octal_example :
    (t : List ℕ) × (sdb_itoa 9 8 sdb_num_bufsz ≡ spelled t) × (sdb_atoi (some t) ≢ 9)
sdb_itoa-octal_example = sdb_itoa-octal 9 (omega arith) (omega arith)
