-- ===== src/Journal.antt =====
-- src/journal.c: the log of the sets, read back line by line. The file is the list of its bytes,
-- and reading it does not fail.
pub mod Replay
use sdb.Base.{
  ℕ, ◌+◌, ◌%◌, ◌^◌, Bool, true, false, ◌||◌, List, [], ◌∷◌, ◌++◌, Option, none, some, and_then, leb,
  ◌==◌, if◌then◌else◌, length, take, c_string,
}
use sdb.Ht.{Heap}
use sdb.Core.{Sdb, sdb_set}

-- The lines that a newline ends; `line` is what has been read of the first.
unfoldable pub journal_lines : List ℕ → List ℕ → List (List ℕ)
journal_lines line [] = []
journal_lines line (c ∷ s) =
    let next = journal_lines [] s in
    let same = journal_lines (line ++ c ∷ []) s in if c == b'\n' then line ∷ next else same

-- A line is cut at its first `=`.
unfoldable pub cut_line : List ℕ → Option (List ℕ × List ℕ)
cut_line [] = none
cut_line (c ∷ s) =
    let rest = cut_line s in
    if c == b'=' then some ([], s) else and_then rest (λ r. some (c ∷ r.0, r.1))

module _ ⦃heap : Heap⦄ where
  -- The sets, with `changes`. What a set answers is not looked at.
  unfoldable pub load_loop : Sdb → ℕ → List (List ℕ) → Option (Sdb × ℕ)
  load_loop s changes [] = some (s, changes)
  load_loop s changes (line ∷ lines) = elim (cut_line line) [
    | none ↦ load_loop s changes lines
    | some kv ↦
        and_then (sdb_set s (some kv.0) (some kv.1) 0) (λ r. load_loop r.0 (changes + 1) lines)
  ]

  -- `sz` is an `int`, which a size of 2^31 or more does not fit: so many of its low 32 bits as the
  -- bytes that are read, and a negative number where the highest of them is set. The lines are
  -- those of the log before the load; each set is logged once more.
  unfoldable pub sdb_journal_load : Sdb → Option (Sdb × ℕ)
  sdb_journal_load s = elim s.journal [
    | none ↦ some (s, 0)
    | some log ↦
        let sz = length log % 2 ^ 32 in
        if sz == 0 || leb (2 ^ 31) sz
        then some (s, 0)
        else (if heap.grants (sz + 1)
            then load_loop s 0 (journal_lines [] (c_string (take sz log)))
            else some (s, 0))
  ]

-- `sdb_journal_clear`, which answers whether there is a log.
unfoldable pub sdb_journal_clear : Sdb → Sdb × Bool
sdb_journal_clear s = elim s.journal [
  | none ↦ (s, false)
  | some log ↦ (record s { journal = some [] }, true)
]
