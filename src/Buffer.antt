-- ===== src/Buffer.antt =====
-- src/buffer.inc.c: bytes that wait in a buffer for a file.
pub mod Stream
use sdb.Base.{
  ℕ, zero, suc, ◌+◌, ◌-◌, Bool, List, [], ◌∷◌, ◌++◌, Option, none, some, and_then, ltb, ◌==◌,
  if◌then◌else◌, length, take, drop,
}

-- Whether a write of so many bytes is done in full, and whether a position can be sought.
pub record Device : Type 0 where
  pub writes : ℕ → Bool
  pub seeks : ℕ → Bool

-- `x` holds the `p` bytes that wait, `n` is the size, and `file` what the file has from where the
-- descriptor stood at first.
pub record Buffer : Type 0 where
  pub x : List ℕ
  pub n : ℕ
  pub file : List ℕ

abbrev pub buffer_initialize : ℕ → Buffer
buffer_initialize len = record { x = []; n = len; file = [] }

module _ ⦃device : Device⦄ where
  unfoldable pub allwrite : Buffer → List ℕ → Option Buffer
  allwrite s buf =
      if length buf == 0
      then some s
      else (if device.writes (length buf) then some (record s { file = s.file ++ buf }) else none)

  unfoldable pub buffer_flush : Buffer → Option Buffer
  buffer_flush s = allwrite (record s { x = [] }) s.x

  -- The loop on fuel; `none` is a result of 0, or fuel that ran out.
  unfoldable pub putalign_loop : ℕ → Buffer → List ℕ → Option Buffer
  putalign_loop zero s buf = none
  putalign_loop (suc fuel) s buf =
      let room = s.n - length s.x in
      let full = record s { x = s.x ++ take room buf } in
      let rest = and_then (buffer_flush full) (λ s'. putalign_loop fuel s' (drop room buf)) in
      if ltb room (length buf) then rest else some (record s { x = s.x ++ buf })

  unfoldable pub buffer_putalign : Buffer → List ℕ → Option Buffer
  buffer_putalign s buf = putalign_loop (length buf + 2) s buf

  unfoldable pub buffer_putflush : Buffer → List ℕ → Option Buffer
  buffer_putflush s buf = and_then (buffer_flush s) (λ s'. allwrite s' buf)
