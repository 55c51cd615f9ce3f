-- ===== src/Cdb/Bytes.antt =====
-- What stands where in a file, and how src/cdb.c reads it.
use mathlib.Core.List.{append_assoc}
use sdb.Base.{
  ℕ, zero, suc, ◌+◌, ◌-◌, ◌^◌, ◌≤◌, ◌<◌, ◌≡◌, refl, sym, ap, ◌∙◌, Bool, true, false, ◌||◌, List, [],
  ◌∷◌, ◌++◌, none, some, ltb, ◌==◌, if◌then◌else◌, length, take, drop, str_eq, length-append,
  length-drop, take-append, drop-append, take-append-drop, arith, Bool-cases, inl, inr,
}
use sdb.Cdb.{add32, cdb_read, Comparison, unread, differs, agrees, compare_key}

-- The bytes stand at the position of the file.
abbrev pub At : List ℕ → ℕ → List ℕ → Type 0
At map pos bytes =
    (before : List ℕ) × (after : List ℕ) × (length before ≡ pos)
    × (map ≡ before ++ (bytes ++ after))

module _ (map : List ℕ) (pos : ℕ) where
  pub At-first : (a b : List ℕ) → At map pos (a ++ b) → At map pos a
  At-first a b (before, after, p, e) =
      (before, b ++ after, p, e ∙ ap (λ (t : List ℕ). before ++ t) (append_assoc a b after))

  pub At-second : (a b : List ℕ) → At map pos (a ++ b) → At map (pos + length a) b
  At-second a b (before, after, p, e) =
      (before ++ a, after, length-append before a ∙ omega arith, e ∙ simp append_assoc)

  pub At-length : (bytes : List ℕ) → At map pos bytes → pos + length bytes ≤ length map
  At-length bytes (before, after, p, e) =
      let m = ap length e in
      omega (arith, length-append before (bytes ++ after), length-append bytes after)

  -- A read of bytes that stand there.
  pub cdb_read-At :
      (bytes : List ℕ) → At map pos bytes → cdb_read map (length bytes) pos ≡ some bytes
  unfolding cdb_read
  cdb_read-At bytes (before, after, p, e) =
      let m = At-length bytes (before, after, p, e) in
      let fits : (ltb (length map) pos || ltb (length map - pos) (length bytes)) ≡ false =
        ground arith in
      let tail : drop pos map ≡ bytes ++ after =
        rw (e, sym p) (drop-append before (bytes ++ after)) in
      rw (fits, tail) (ap (λ (t : List ℕ). some t) (take-append bytes after))

  -- What stands there is read with what follows it.
  pub drop-At : (bytes : List ℕ) → At map pos bytes → take (length bytes) (drop pos map) ≡ bytes
  drop-At bytes (before, after, p, e) =
      let tail : drop pos map ≡ bytes ++ after =
        rw (e, sym p) (drop-append before (bytes ++ after)) in
      rw tail (take-append bytes after)

pub str_eq-append :
    (n : ℕ) (a b : List ℕ)
    → length a ≡ length b
    → str_eq a b ≡ (if str_eq (take n a) (take n b) then str_eq (drop n a) (drop n b) else false)
unfolding str_eq
str_eq-append zero a b same = refl
str_eq-append (suc n) [] [] same = refl
str_eq-append (suc n) [] (y ∷ b) same = absurd (omega arith)
str_eq-append (suc n) (x ∷ a) [] same = absurd (omega arith)
str_eq-append (suc n) (x ∷ a) (y ∷ b) same = ground (arith, str_eq-append n a b (omega arith))

abbrev pub compared : Bool → Comparison
compared true = agrees
compared false = differs

length-take : (n : ℕ) (a : List ℕ) → n ≤ length a → length (take n a) ≡ n
length-take zero a h = refl
length-take (suc n) [] h = absurd (omega arith)
length-take (suc n) (c ∷ a) h = omega (arith, length-take n a (omega arith))

module _ (map bytes : List ℕ) (pos n : ℕ) (at : At map pos bytes) (fits : n ≤ length bytes) where
  At-split : At map pos (take n bytes ++ drop n bytes)
  At-split = rw (take-append-drop n bytes) at

  pub cdb_read-take : cdb_read map n pos ≡ some (take n bytes)
  cdb_read-take =
      let e =
        cdb_read-At map pos (take n bytes)
          (At-first map pos (take n bytes) (drop n bytes) At-split) in
      rw (length-take n bytes fits) at e

  pub At-drop : At map (pos + n) (drop n bytes)
  At-drop =
      let e = At-second map pos (take n bytes) (drop n bytes) At-split in
      rw (length-take n bytes fits) at e

module _ (fuel : ℕ) (map key bytes : List ℕ) (pos : ℕ) (same : length key ≡ length bytes) where
  compare_run :
      (n : ℕ)
      → cdb_read map n pos ≡ some (take n bytes)
      → compare_key fuel map (drop n key) (add32 pos n)
        ≡ compared (str_eq (drop n bytes) (drop n key))
      → (elim (cdb_read map n pos) [
        | none ↦ unread
        | some buf ↦
            if str_eq buf (take n key)
            then compare_key fuel map (drop n key) (add32 pos n)
            else differs
      ])
        ≡ compared (str_eq bytes key)
  compare_run n read rest =
      rw (read, rest, str_eq-append n bytes key (sym same))
        (elim (Bool-cases (str_eq (take n bytes) (take n key))) [
          | inl e ↦ rw e refl
          | inr e ↦ rw e refl
        ])

-- The comparison with a key as long as the bytes that stand there is that of the two strings.
pub compare_key-At :
    (fuel : ℕ) (map key bytes : List ℕ) (pos : ℕ)
    → length key ≤ fuel
    → length key ≡ length bytes
    → pos + length bytes < 2 ^ 32
    → At map pos bytes
    → compare_key fuel map key pos ≡ compared (str_eq bytes key)
unfolding compare_key
compare_key-At zero map [] [] pos enough same small at = unfold str_eq in refl
compare_key-At zero map [] (b ∷ bytes) pos enough same small at = absurd (omega arith)
compare_key-At zero map (k ∷ key) bytes pos enough same small at = absurd (omega arith)
compare_key-At (suc fuel) map [] [] pos enough same small at = unfold str_eq in refl
compare_key-At (suc fuel) map [] (b ∷ bytes) pos enough same small at = absurd (omega arith)
compare_key-At (suc fuel) map (k ∷ key) bytes pos enough same small at =
    let full : (length (k ∷ key) == 0) ≡ false = ground arith in
    let n = if ltb (length (k ∷ key)) 32 then length (k ∷ key) else 32 in
    let low : 1 ≤ n = ground arith in
    let high : n ≤ length (k ∷ key) = ground arith in
    let p : add32 pos n ≡ pos + n = omega arith in
    let rest =
      compare_key-At fuel map (drop n (k ∷ key)) (drop n bytes) (pos + n)
        (omega (arith, length-drop n (k ∷ key)))
        (omega (arith, length-drop n (k ∷ key), length-drop n bytes))
        (omega (arith, length-drop n bytes)) (At-drop map bytes pos n at (omega arith)) in
    rw full (
      compare_run fuel map (k ∷ key) bytes pos same n
        (cdb_read-take map bytes pos n at (omega arith)) (rw p rest))
