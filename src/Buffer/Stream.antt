-- ===== src/Buffer/Stream.antt =====
-- A buffer of src/buffer.inc.c against the stream of the bytes that were put into it.
use mathlib.Core.List.{append_assoc, append-nil}
use sdb.Base.{
  ℕ, zero, suc, ◌+◌, ◌-◌, ◌≤◌, ◌<◌, ◌≡◌, refl, sym, ◌∙◌, true, false, List, [], ◌∷◌, ◌++◌, Option,
  some, ltb, ◌==◌, length, take, drop, length-append, take-append-drop, length-drop, arith,
  Bool-cases, inl, inr,
}
use sdb.Buffer.{Device, Buffer, allwrite, buffer_flush, putalign_loop, buffer_putalign}

-- What was put into the buffer.
abbrev pub stream : Buffer → List ℕ
stream s = s.file ++ s.x

-- There is room for something, and what waits fits.
abbrev pub IsSound : Buffer → Type 0
IsSound s = (0 < s.n) × (length s.x ≤ s.n)

-- What it means that bytes were put into a buffer.
abbrev pub Puts : Buffer → List ℕ → Option Buffer → Type 0
Puts s buf o = (r : Buffer) × (o ≡ some r) × IsSound r × (r.n ≡ s.n) × (stream r ≡ stream s ++ buf)

module _ ⦃device : Device⦄ (writes : (n : ℕ) → device.writes n ≡ true) where
  pub allwrite-some :
      (s : Buffer) (buf : List ℕ) → allwrite s buf ≡ some (record s { file = s.file ++ buf })
  unfolding allwrite
  allwrite-some s [] = rw (append-nil s.file) refl
  allwrite-some s (c ∷ buf) =
      let e : (length (c ∷ buf) == 0) ≡ false = ground arith in
      rw (e, writes (length (c ∷ buf))) refl

  -- Flushing keeps the stream, and leaves nothing waiting.
  pub buffer_flush-stream :
      (s : Buffer) → buffer_flush s ≡ some (record s { x = []; file = stream s })
  unfolding buffer_flush
  buffer_flush-stream s = allwrite-some (record s { x = [] }) s.x

  -- Every round but the first moves a byte at least.
  putalign_loop-stream :
      (fuel : ℕ) (s : Buffer) (buf : List ℕ)
      → IsSound s
      → length buf < fuel + (s.n - length s.x)
      → 0 < fuel
      → Puts s buf (putalign_loop fuel s buf)
  unfolding putalign_loop
  putalign_loop-stream zero s buf sound enough some_fuel = absurd (omega arith)
  putalign_loop-stream (suc fuel) s buf (n, fits) enough some_fuel =
      let room = s.n - length s.x in
      let full = record s { x = s.x ++ take room buf } in
      elim (Bool-cases (ltb room (length buf))) [
        | inl long ↦
            let more : room < length buf = ground arith in
            let s' = record full { x = []; file = stream full } in
            let (r, run, sound, same, all) =
              putalign_loop-stream fuel s' (drop room buf) (n, omega arith)
                (omega (arith, length-drop room buf)) (omega (arith, length-drop room buf)) in
            (
              r,
              rw (long, buffer_flush-stream full, run) refl,
              sound,
              same,
              all ∙ simp (append-nil, append_assoc, take-append-drop room buf),
            )
        | inr short ↦ (
          record s { x = s.x ++ buf },
          rw short refl,
          (n, let h : length buf ≤ room = ground arith in omega (arith, length-append s.x buf)),
          refl,
          sym (append_assoc s.file s.x buf),
        )
      ]

  -- Putting bytes into a buffer ends and succeeds. What the file has and what waits in the
  -- buffer, one behind the other, then ends with the bytes and is the same before them, and
  -- what waits still fits. The buffer has room for a byte at least and what waits in it fits;
  -- every write is done.
  pub buffer_putalign-stream :
      (s : Buffer) (buf : List ℕ) → IsSound s → Puts s buf (buffer_putalign s buf)
  unfolding buffer_putalign
  buffer_putalign-stream s buf sound =
      putalign_loop-stream (length buf + 2) s buf sound (omega arith) (omega arith)
