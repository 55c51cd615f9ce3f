-- ===== src/Tests/Dicts.antt =====
-- The theorems on src/dict.c at a dictionary with three buckets.
use sdb.Base.{
  ◌≡◌, refl, Bool, true, false, List, [], ◌∷◌, none, some, ◌==◌, if◌then◌else◌, arith, replicate,
  get_or-replicate,
}
use sdb.Ht.{Heap}
use sdb.Ht.Laws.{is_some}
use sdb.Dict.{Dictkv, Dict, dict_getr, dict_set, dict_del, with_entries}
use sdb.Dict.Entries.{occ}
use sdb.Dict.State.{IsValid, with_entries-IsValid}
use sdb.Dict.Store.{Gets}
use sdb.Dict.Laws.{dict_set-Gets, dict_del-Gets}

instance abbrev granting : Heap
granting = record { grants = λ n. true }

abbrev no_entries : Dict Bool
no_entries = record { table = replicate 3 none; size = 3 }

abbrev two_entries : List (Dictkv Bool)
two_entries = (record { k = 4; v = 40; u = true }) ∷ (record { k = 7; v = 70; u = false }) ∷ []

-- Two keys in one bucket.
abbrev shared_bucket : Dict Bool
shared_bucket = with_entries no_entries 1 two_entries

no_entries-IsValid : IsValid no_entries
unfolding occ
no_entries-IsValid = record {
  wide = refl;
  placed = λ q i. rw get_or-replicate (omega arith);
  nonzero = λ i. rw get_or-replicate refl;
}

shared_bucket-IsValid : IsValid shared_bucket
unfolding occ
shared_bucket-IsValid =
    with_entries-IsValid no_entries no_entries-IsValid 1 two_entries (omega arith)
      (λ q. ground arith) refl

dict_set-Gets_example :
    (r : Dict Bool) × (dict_set shared_bucket 7 1 true ≡ (r, true))
    × Gets shared_bucket r (λ q.
      if q == 7 then some (record { k = 7; v = 1; u = true }) else dict_getr shared_bucket q)
dict_set-Gets_example = dict_set-Gets (λ n. refl) shared_bucket 7 1 true shared_bucket-IsValid

dict_del-Gets_example :
    (r : Dict Bool) × (dict_del shared_bucket 4 ≡ (r, is_some (dict_getr shared_bucket 4)))
    × Gets shared_bucket r (λ q. if q == 4 then none else dict_getr shared_bucket q)
dict_del-Gets_example = dict_del-Gets shared_bucket 4 shared_bucket-IsValid (omega arith)
