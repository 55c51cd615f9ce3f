-- ===== src/CdbMake/Scatter.antt =====
-- How `cdb_make_finish` of src/cdb_make.c puts the entries of one table side by side.
use sdb.Base.{
  ℕ, zero, suc, ◌+◌, ◌-◌, ◌%◌, ◌^◌, ◌≤◌, ◌<◌, ◌≡◌, ◌≢◌, ◌⊎◌, refl, sym, ap, ◌∙◌, List, [], ◌∷◌, ltb,
  ◌==◌, if◌then◌else◌, length, get_or, set, take, drop, replicate, length-set, get_or-set_self,
  get_or-set_ne, length-replicate, arith, Bool-cases, inl, inr,
}
use sdb.Cdb.{add32}
use sdb.CdbMake.{Hp, empty_hp, running, scatter}

-- The entries of a table among entries that stand the newest first, the oldest first.
abbrev pub pick : ℕ → List Hp → List Hp → List Hp
pick i older [] = older
pick i older (e ∷ es) = pick i (if e.h % 256 == i then e ∷ older else older) es

-- Their number.
abbrev pub count_in : ℕ → List Hp → ℕ
count_in i [] = 0
count_in i (e ∷ es) = (if e.h % 256 == i then 1 else 0) + count_in i es

abbrev pub sum : List ℕ → ℕ
sum [] = 0
sum (n ∷ ns) = n + sum ns

-- The sum of the first so many.
abbrev pub prefix : List ℕ → ℕ → ℕ
prefix [] i = 0
prefix (n ∷ ns) zero = 0
prefix (n ∷ ns) (suc i) = n + prefix ns i

pub length-pick :
    (i : ℕ) (older es : List Hp) → length (pick i older es) ≡ length older + count_in i es
length-pick i older [] = omega arith
length-pick i older (e ∷ es) = ground (arith, length-pick i (e ∷ older) es, length-pick i older es)

pub prefix-sum : (ns : List ℕ) (i : ℕ) → prefix ns i + get_or ns i 0 ≤ sum ns
prefix-sum [] i = omega arith
prefix-sum (n ∷ ns) zero = omega arith
prefix-sum (n ∷ ns) (suc i) = omega (arith, prefix-sum ns i)

prefix_mono : (ns : List ℕ) (i j : ℕ) → i < j → prefix ns i + get_or ns i 0 ≤ prefix ns j
prefix_mono [] i j h = omega arith
prefix_mono (n ∷ ns) i zero h = absurd (omega arith)
prefix_mono (n ∷ ns) zero (suc j) h = omega arith
prefix_mono (n ∷ ns) (suc i) (suc j) h = omega (arith, prefix_mono ns i j (omega arith))

running-prefix :
    (u : ℕ) (ns : List ℕ) (i : ℕ)
    → u + sum ns < 2 ^ 32
    → i < length ns
    → get_or (running u ns) i 0 ≡ u + prefix ns i + get_or ns i 0
unfolding running
running-prefix u [] i small h = absurd (omega arith)
running-prefix u (n ∷ ns) zero small h = omega arith
running-prefix u (n ∷ ns) (suc i) small h =
    let e : add32 u n ≡ u + n = omega arith in
    rw e (omega (arith, running-prefix (u + n) ns i (omega arith) (omega arith)))

length-running : (u : ℕ) (ns : List ℕ) → length (running u ns) ≡ length ns
unfolding running
length-running u [] = refl
length-running u (n ∷ ns) = ap suc (length-running (add32 u n) ns)

module _ {ℓ} {A : Type ℓ} where
  take-set_first :
      (xs : List A) (p n : ℕ) (v : A)
      → p < length xs
      → take (suc n) (drop p (set xs p v)) ≡ v ∷ take n (drop (suc p) xs)
  take-set_first [] p n v h = absurd (omega arith)
  take-set_first (x ∷ xs) zero n v h = refl
  take-set_first (x ∷ xs) (suc p) n v h = take-set_first xs p n v (omega arith)

  take-set_after : (xs : List A) (p n : ℕ) (v : A) → n ≤ p → take n (set xs p v) ≡ take n xs
  take-set_after xs p zero v h = refl
  take-set_after [] p (suc n) v h = refl
  take-set_after (x ∷ xs) zero (suc n) v h = absurd (omega arith)
  take-set_after (x ∷ xs) (suc p) (suc n) v h =
      ap (λ (t : List A). x ∷ t) (take-set_after xs p n v (omega arith))

  -- A run that a change does not touch.
  take-set_outside :
      (xs : List A) (p s n : ℕ) (v : A)
      → (p < s) ⊎ (s + n ≤ p)
      → take n (drop s (set xs p v)) ≡ take n (drop s xs)
  take-set_outside xs p zero n v out = take-set_after xs p n v (ground arith)
  take-set_outside [] p (suc s) n v out = refl
  take-set_outside (x ∷ xs) zero (suc s) n v out = refl
  take-set_outside (x ∷ xs) (suc p) (suc s) n v out = take-set_outside xs p s n v (ground arith)

scatter-next :
    (e : Hp) (es split : List Hp) (start : List ℕ) (w : ℕ)
    → get_or start (e.h % 256) 0 - 1 ≡ w
    → scatter (e ∷ es) start split ≡ scatter es (set start (e.h % 256) w) (set split w e)
unfolding scatter
scatter-next e es split start w at =
    ap (λ (v : ℕ). scatter es (set start (e.h % 256) v) (set split v e)) at

module _ (base total : ℕ → ℕ) (size : ℕ) (inside : (j : ℕ) → base j + total j ≤ size)
    (apart : (i j : ℕ) → i ≢ j → (base i + total i ≤ base j) ⊎ (base j + total j ≤ base i)) where
  -- Each table still lacks the entries that are to come.
  abbrev Lacks : List Hp → List ℕ → Type 0
  Lacks es start =
      (j : ℕ) → j < 256 → (get_or start j 0 ≡ base j + count_in j es) × (count_in j es ≤ total j)

  Lacks-set :
      (e : Hp) (es : List Hp) (start : List ℕ)
      → length start ≡ 256
      → Lacks (e ∷ es) start
      → Lacks es (set start (e.h % 256) (base (e.h % 256) + count_in (e.h % 256) es))
  Lacks-set e es start len lacks j h = elim (Bool-cases (e.h % 256 == j)) [
    | inl same ↦
        let s : e.h % 256 ≡ j = ground arith in
        rw s (
          get_or-set_self start j (base j + count_in j es) 0 (omega arith),
          let l = (lacks j h).1 in ground arith,
        )
    | inr other ↦
        let l = lacks j h in
        let n =
          get_or-set_ne start (e.h % 256) j (base (e.h % 256) + count_in (e.h % 256) es) 0
            (λ s. absurd (ground arith)) in
        (n ∙ ground arith, ground arith)
  ]

  scatter-run :
      (i : ℕ) (es older : List Hp) (start : List ℕ) (split : List Hp)
      → i < 256
      → length start ≡ 256
      → length split ≡ size
      → Lacks es start
      → length older + count_in i es ≡ total i
      → take (length older) (drop (get_or start i 0) split) ≡ older
      → take (total i) (drop (get_or (scatter es start split).0 i 0) (scatter es start split).1)
        ≡ pick i older es
  scatter-run i [] older start split h len size_eq lacks all done =
      let t : total i ≡ length older = omega (arith, all) in unfold scatter in rw t done
  scatter-run i (e ∷ es) older start split h len size_eq lacks all done =
      let b = e.h % 256 in
      let w = base b + count_in b es in
      let l = lacks b (omega arith) in
      let at : get_or start b 0 ≡ w + 1 = ground (arith, l.0) in
      let here : get_or start b 0 - 1 ≡ w = omega (arith, at) in
      let low : w < length split = ground (arith, l.1, inside b) in
      let next = Lacks-set e es start len lacks in
      rw (scatter-next e es split start w here) (elim (Bool-cases (b == i)) [
        | inl same ↦
            let s : b ≡ i = ground arith in
            rw same (
              scatter-run i es (e ∷ older) (set start b w) (set split w e) h
                (length-set start b w ∙ len) (length-set split w e ∙ size_eq) next (ground arith)
                (let g : get_or (set start b w) i 0 ≡ w =
                    rw (sym s) (get_or-set_self start b w 0 (omega arith)) in
                  let at' : get_or start i 0 ≡ suc w =
                    (let v : get_or start i 0 ≡ get_or start b 0 = rw s refl in
                      omega (arith, v, at)) in
                  rw g (
                    take-set_first split w (length older) e low
                    ∙ ap (λ (t : List Hp). e ∷ t) (rw at' at done))))
        | inr other ↦ rw other (
            scatter-run i es older (set start b w) (set split w e) h (length-set start b w ∙ len)
              (length-set split w e ∙ size_eq) next (ground arith)
              (let ne : b ≢ i = λ q. absurd (ground arith) in
                let g = get_or-set_ne start b i w 0 ne in
                let own = (lacks i h).0 in
                let out = apart b i ne in
                rw g (
                  take-set_outside split w (get_or start i 0) (length older) e (ground arith)
                  ∙ done)))
      ])

-- What the tables of a state have after the entries are scattered.
pub scatter-pick :
    (es : List Hp) (count : List ℕ) (n i : ℕ)
    → i < 256
    → length count ≡ 256
    → ((j : ℕ) → j < 256 → get_or count j 0 ≡ count_in j es)
    → sum count ≡ n
    → n < 2 ^ 32
    → (let s = scatter es (running 0 count) (replicate n empty_hp) in
        take (get_or count i 0) (drop (get_or s.0 i 0) s.1))
      ≡ pick i [] es
scatter-pick es count n i h len counts total small =
    let apart : (j k : ℕ)
        → j ≢ k
        → (prefix count j + get_or count j 0 ≤ prefix count k)
          ⊎ (prefix count k + get_or count k 0 ≤ prefix count j) =
      λ j k ne. elim (Bool-cases (ltb j k)) [
        | inl less ↦ inl (prefix_mono count j k (ground arith))
        | inr more ↦ inr (
            prefix_mono count k j (elim (Bool-cases (j == k)) [
              | inl q ↦ absurd (ne (ground arith))
              | inr q ↦ ground arith
            ]))
      ] in
    scatter-run (prefix count) (λ j. get_or count j 0) n
      (λ j. omega (arith, prefix-sum count j, total)) apart i es [] (running 0 count)
      (replicate n empty_hp) h (length-running 0 count ∙ len) (length-replicate n empty_hp)
      (λ j low. (
        omega (
          arith,
          running-prefix 0 count j (omega (arith, total)) (omega (arith, len)),
          counts j low,
        ),
        omega (arith, counts j low),
      ))
      (omega (arith, counts i h)) refl
