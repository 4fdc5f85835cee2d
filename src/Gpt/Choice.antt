-- ===== src/Gpt/Choice.antt =====
-- free_root_range: the range that the installer takes for the new partition.
use e5_linux.Base.{
  ℕ, ◌≤◌, ◌<◌, ◌≡◌, ◌⊎◌, inl, inr, refl, sym, true, false, leb, ltb, ◌==◌, ◌&&◌, ◌||◌, Option, none,
  some, List, [], ◌∷◌, All, arith, Bool-cases, Option-cases, subst, leb_false→lt,
}
use e5_linux.Gpt.{Space, is_nil, larger, best, candidates, usable_gaps, free_root_range}

-- The pair is one of the list.
abbrev pub In : ℕ × ℕ → List (ℕ × ℕ) → Type 0
In x [] = ⊥
In x (g ∷ gs) = (x ≡ g) ⊎ In x gs

-- A (size, start) pair that comes no later than another in the order of Python's tuples.
abbrev pub AtMost : ℕ × ℕ → ℕ × ℕ → Type 0
AtMost c d = (c.0 < d.0) ⊎ ((c.0 ≡ d.0) × (c.1 ≤ d.1))

AtMost-larger : (c d : ℕ × ℕ) → AtMost c (larger c d) × AtMost d (larger c d)
AtMost-larger (n, a) (m, b) = ground arith

AtMost-trans : (c d e : ℕ × ℕ) → AtMost c d → AtMost d e → AtMost c e
AtMost-trans c d e h k = ground arith

larger-cases : (c d : ℕ × ℕ) → (larger c d ≡ c) ⊎ (larger c d ≡ d)
larger-cases (n, a) (m, b) = elim (Bool-cases (ltb n m || (n == m && ltb a b))) [
  | inl t ↦ inr (rw t)
  | inr f ↦ inl (rw f)
]

All-AtMost :
    (cs : List (ℕ × ℕ)) (d e : ℕ × ℕ)
    → AtMost d e
    → All (λ c. AtMost c d) cs
    → All (λ c. AtMost c e) cs
All-AtMost [] d e h k = tt
All-AtMost (c ∷ cs) d e h (kc, k) = (AtMost-trans c d e kc h, All-AtMost cs d e h k)

best_step : (c d : ℕ × ℕ) (cs : List (ℕ × ℕ)) → best cs ≡ some d → best (c ∷ cs) ≡ some (larger c d)
unfolding best
best_step c d cs e = rw e

best_last : (c : ℕ × ℕ) (cs : List (ℕ × ℕ)) → best cs ≡ none → best (c ∷ cs) ≡ some c
unfolding best
best_last c cs e = rw e

best-eq-none : (cs : List (ℕ × ℕ)) → best cs ≡ none → [] ≡ cs
best-eq-none [] e = refl
best-eq-none (c ∷ cs) e = elim (Option-cases (best cs)) [
  | inl n ↦ cc (best_last c cs n)
  | inr (d, s) ↦ cc (best_step c d cs s)
]

-- The maximum is one of the candidates, and none comes after it.
best-eq-some :
    (cs : List (ℕ × ℕ)) (d : ℕ × ℕ) → best cs ≡ some d → In d cs × All (λ c. AtMost c d) cs
best-eq-some [] d e = unfold best in cc
best-eq-some (c ∷ cs) d e = elim (Option-cases (best cs)) [
  | inl n ↦
      let same : c ≡ d = some-path c d (best_last c cs n) e in
      let nothing : [] ≡ cs = best-eq-none cs n in
      subst (λ (x : ℕ × ℕ). In x (c ∷ cs) × All (λ y. AtMost y x) (c ∷ cs)) same
        (inl refl, (ground arith, subst (All (λ y. AtMost y c)) nothing tt))
  | inr (m, s) ↦
      let same : larger c m ≡ d = some-path (larger c m) d (best_step c m cs s) e in
      let (found, most) = best-eq-some cs m s in
      let (one, two) = AtMost-larger c m in
      subst (λ (x : ℕ × ℕ). In x (c ∷ cs) × All (λ y. AtMost y x) (c ∷ cs)) same
        (pick (larger-cases c m) found, (one, All-AtMost cs m (larger c m) two most))
]
  where
    some-path : (x y : ℕ × ℕ) → best (c ∷ cs) ≡ some x → best (c ∷ cs) ≡ some y → x ≡ y
    some-path x y h k = cc

    pick : {m : ℕ × ℕ} → (larger c m ≡ c) ⊎ (larger c m ≡ m) → In m cs → In (larger c m) (c ∷ cs)
    pick (inl same) found = inl same
    pick (inr same) found = inr (subst (λ (x : ℕ × ℕ). In x cs) (sym same) found)

abbrev swapped : ℕ × ℕ → ℕ × ℕ
swapped c = (c.1, c.0)

candidates-In :
    (need : ℕ) (gs : List (ℕ × ℕ)) (c : ℕ × ℕ)
    → In c (candidates need gs)
    → In (swapped c) gs × (need ≤ c.0)
unfolding candidates
candidates-In need [] c h = absurd h
candidates-In need ((a, n) ∷ gs) c h = elim (Bool-cases (leb need n)) [
  | inl fits ↦ elim (rw fits at h) [
    | inl same ↦ (inl (ground (arith, same)), ground (arith, same, fits))
    | inr more ↦ let (found, le) = candidates-In need gs c more in (inr found, le)
  ]
  | inr small ↦ let (found, le) = candidates-In need gs c (rw small at h) in (inr found, le)
]

candidates-All :
    (P : ℕ × ℕ → Type 0) (need : ℕ) (gs : List (ℕ × ℕ))
    → All P (candidates need gs)
    → All (λ g. need ≤ g.1 → P (swapped g)) gs
unfolding candidates
candidates-All P need [] h = tt
candidates-All P need ((a, n) ∷ gs) h = elim (Bool-cases (leb need n)) [
  | inl fits ↦
      let both : P (n, a) × All P (candidates need gs) = rw fits at h in
      (λ le. both.0, candidates-All P need gs both.1)
  | inr small ↦ (
    λ le. absurd (omega (arith, leb_false→lt need n small)),
    candidates-All P need gs (rw small at h),
  )
]

candidates-nil : (need : ℕ) (gs : List (ℕ × ℕ)) → [] ≡ candidates need gs → All (λ g. g.1 < need) gs
unfolding candidates
candidates-nil need [] e = tt
candidates-nil need ((a, n) ∷ gs) e = elim (Bool-cases (leb need n)) [
  | inl fits ↦ cc (rw fits at e)
  | inr small ↦ (leb_false→lt need n small, candidates-nil need gs (rw small at e))
]

-- What the answer says: a gap that is large enough and after which no other such gap comes by size
-- and then by start; or that the table is full, or no gap is large enough.
abbrev Picks : Space → ℕ → Option ℕ → Type 0
Picks info need none = (is_nil info.empty ≡ true) ⊎ All (λ g. g.1 < need) (usable_gaps info)
Picks info need (some a) =
    (is_nil info.empty ≡ false)
    × ((n : ℕ) × In (a, n) (usable_gaps info)
        × (need ≤ n)
        × All (λ g. need ≤ g.1 → AtMost (swapped g) (n, a)) (usable_gaps info))

-- free_root_range returns the start of a largest usable gap that holds `need` sectors (of equally
-- large ones the last), and returns nothing exactly when the table has no unused entry or every
-- usable gap is too small.
free_root_range-Picks : (info : Space) (need : ℕ) → Picks info need (free_root_range info need)
unfolding free_root_range
free_root_range-Picks info need = elim (Bool-cases (is_nil info.empty)) [
  | inl full ↦ rw full (inl full)
  | inr room ↦ elim (Option-cases (best (candidates need (usable_gaps info)))) [
    | inl none_fits ↦
        rw (room, none_fits)
          (inr (candidates-nil need (usable_gaps info) (best-eq-none _ none_fits)))
    | inr ((n, a), found) ↦
        let (here, most) = best-eq-some (candidates need (usable_gaps info)) (n, a) found in
        let (held, le) = candidates-In need (usable_gaps info) (n, a) here in
        rw (room, found)
          (room, (n, held, le, candidates-All (λ c. AtMost c (n, a)) need (usable_gaps info) most))
  ]
]
