-- ===== src/Gpt/Gaps.antt =====
-- The scan of gpt_space over the sorted entries: its gaps are free and aligned, and no aligned free
-- range is missed.
use e5_linux.Base.{
  ℕ, ◌+◌, ◌-◌, ◌*◌, ◌/◌, ◌%◌, ◌≤◌, ◌<◌, ◌≡◌, ◌⊎◌, inl, inr, true, false, ltb, if◌then◌else◌, List,
  [], ◌∷◌, ◌++◌, All, arith, Bool, Bool-cases, lt→ltb, ltb→lt, subst,
}
use e5_linux.Base.Result.{ok, raise_if-eq-ok, >>=-eq-ok}
use e5_linux.Gpt.{overlapping, gap_loop}

-- A range (start, size) that does not meet an extent (first, last).
abbrev pub Clear : ℕ × ℕ → ℕ × ℕ → Type 0
Clear g r = (g.0 + g.1 ≤ r.0) ⊎ (r.1 < g.0)

-- Some gap holds the range (start, size).
abbrev pub Holds : ℕ × ℕ → List (ℕ × ℕ) → Type 0
Holds x [] = ⊥
Holds x (g ∷ gs) = ((g.0 ≤ x.0) × (x.0 + x.1 ≤ g.0 + g.1)) ⊎ Holds x gs

-- What is true of each gap that the scan from `at` finds among the extents `rs`.
pub record IsGap (at : ℕ) (rs : List (ℕ × ℕ)) (g : ℕ × ℕ) : Type 0 where
  pub aligned : g.0 % 2048 ≡ 0
  pub whole : g.1 % 2048 ≡ 0
  pub some_room : 0 < g.1
  pub from_at : at ≤ g.0
  pub clear : All (Clear g) rs

-- Extents in order, each behind the one before it, from `at` on.
abbrev pub IsApart : ℕ → List (ℕ × ℕ) → Type 0
IsApart at [] = Unit
IsApart at (r ∷ rs) = (at ≤ r.0) × IsApart (r.1 + 1) rs

-- An entry has its first sector before its last; the sentinel lacks that by one.
abbrev pub IsExtent : ℕ × ℕ → Type 0
IsExtent r = r.0 ≤ r.1 + 1

gap_loop-nil : (at : ℕ) (gs : List (ℕ × ℕ)) → gap_loop at [] ≡ ok gs → [] ≡ gs
unfolding gap_loop
gap_loop-nil at gs e = cc

-- One step of the loop, taken apart.
gap_loop_step :
    (at start end : ℕ) (rest gs : List (ℕ × ℕ))
    → gap_loop at ((start, end) ∷ rest) ≡ ok gs
    → (more : List (ℕ × ℕ)) × (at ≤ start)
      × (gap_loop (end + 1) rest ≡ ok more)
      × (gs ≡ (
          if ltb ((at + 2047) / 2048 * 2048) (start / 2048 * 2048)
          then ((at + 2047) / 2048 * 2048, start / 2048 * 2048 - (at + 2047) / 2048 * 2048) ∷ more
          else more))
unfolding gap_loop
gap_loop_step at start end rest gs e =
    let (order, e') = raise_if-eq-ok (ltb start at) overlapping _ e in
    let (more, found, built) = >>=-eq-ok (gap_loop (end + 1) rest) _ e' in
    (more, ground (arith, order), found, cc)

pub gap_loop-IsApart : (at : ℕ) (rs gs : List (ℕ × ℕ)) → gap_loop at rs ≡ ok gs → IsApart at rs
gap_loop-IsApart at [] gs e = tt
gap_loop-IsApart at (r ∷ rs) gs e =
    let (more, le, e', eq) = gap_loop_step at r.0 r.1 rs gs e in
    (le, gap_loop-IsApart (r.1 + 1) rs more e')

-- Behind `at` all that lies apart is clear of a range that ends there.
IsApart-Clear :
    (g : ℕ × ℕ) (at : ℕ) (rs : List (ℕ × ℕ))
    → g.0 + g.1 ≤ at
    → All IsExtent rs
    → IsApart at rs
    → All (Clear g) rs
IsApart-Clear g at [] h w a = tt
IsApart-Clear g at (r ∷ rs) h (w, ws) (a, b) =
    (inl (omega arith), IsApart-Clear g (r.1 + 1) rs (omega arith) ws b)

IsGap-weaken :
    (at end : ℕ) (r : ℕ × ℕ) (rs gs : List (ℕ × ℕ))
    → at ≤ r.1 + 1
    → All (IsGap (r.1 + 1) rs) gs
    → All (IsGap at (r ∷ rs)) gs
IsGap-weaken at end r rs [] h gs = tt
IsGap-weaken at end r rs (g ∷ gs) h (i, is) = (
  record {
    aligned = i.aligned;
    whole = i.whole;
    some_room = i.some_room;
    from_at = omega (arith, i.from_at);
    clear = (inr (omega (arith, i.from_at)), i.clear);
  },
  IsGap-weaken at end r rs gs h is,
)

-- The gap before one extent.
first-IsGap :
    (at : ℕ) (r : ℕ × ℕ) (rs : List (ℕ × ℕ))
    → ltb ((at + 2047) / 2048 * 2048) (r.0 / 2048 * 2048) ≡ true
    → All IsExtent (r ∷ rs)
    → IsApart at (r ∷ rs)
    → IsGap at (r ∷ rs) ((at + 2047) / 2048 * 2048, r.0 / 2048 * 2048 - (at + 2047) / 2048 * 2048)
first-IsGap at r rs t (w, ws) (a, b) =
    let lt : (at + 2047) / 2048 * 2048 < r.0 / 2048 * 2048 = ground (arith, t) in
    record {
      aligned = omega arith;
      whole = omega arith;
      some_room = omega arith;
      from_at = omega arith;
      clear = (
        inl (omega arith),
        IsApart-Clear ((at + 2047) / 2048 * 2048, r.0 / 2048 * 2048 - (at + 2047) / 2048 * 2048)
            (r.1 + 1) rs (omega arith) ws b,
      );
    }

pub gap_loop-IsGap :
    (at : ℕ) (rs gs : List (ℕ × ℕ))
    → All IsExtent rs
    → gap_loop at rs ≡ ok gs
    → All (IsGap at rs) gs
gap_loop-IsGap at [] gs w e = subst (All (IsGap at [])) (gap_loop-nil at gs e) tt
gap_loop-IsGap at (r ∷ rs) gs w e =
    let (more, le, e', eq) = gap_loop_step at r.0 r.1 rs gs e in
    let apart : IsApart at (r ∷ rs) = gap_loop-IsApart at (r ∷ rs) gs e in
    let later : All (IsGap at (r ∷ rs)) more =
      IsGap-weaken at r.1 r rs more (omega arith) (gap_loop-IsGap (r.1 + 1) rs more w.1 e') in
    elim (Bool-cases (ltb ((at + 2047) / 2048 * 2048) (r.0 / 2048 * 2048))) [
      | inl t ↦ rw (eq, t) (first-IsGap at r rs t w apart, later)
      | inr f ↦ rw (eq, f) later
    ]

-- A range that some later gap holds is held by what the loop returns here.
Holds-keep :
    (x g : ℕ × ℕ) (more gs : List (ℕ × ℕ)) (t : Bool)
    → gs ≡ (if t then g ∷ more else more)
    → Holds x more
    → Holds x gs
Holds-keep x g more gs true e h = rw e (inr h)
Holds-keep x g more gs false e h = rw e h

-- A range that lies before one extent is held by the gap found there.
first-IsGap-Holds :
    (at : ℕ) (r x : ℕ × ℕ) (more gs : List (ℕ × ℕ))
    → gs ≡ (
        if ltb ((at + 2047) / 2048 * 2048) (r.0 / 2048 * 2048)
        then ((at + 2047) / 2048 * 2048, r.0 / 2048 * 2048 - (at + 2047) / 2048 * 2048) ∷ more
        else more)
    → x.0 % 2048 ≡ 0
    → x.1 % 2048 ≡ 0
    → 0 < x.1
    → at ≤ x.0
    → x.0 + x.1 ≤ r.0
    → Holds x gs
first-IsGap-Holds at r x more gs eq a n room lo hi =
    let open_gap : ltb ((at + 2047) / 2048 * 2048) (r.0 / 2048 * 2048) ≡ true =
      lt→ltb _ _ (omega arith) in
    rw (eq, open_gap) (inl (omega arith, omega arith))

-- Every aligned range from `at` on that ends before the sentinel and meets no extent lies in a gap.
pub gap_loop_complete :
    (at : ℕ) (rs : List (ℕ × ℕ)) (stop x : ℕ × ℕ) (gs : List (ℕ × ℕ))
    → gap_loop at (rs ++ (stop ∷ [])) ≡ ok gs
    → x.0 % 2048 ≡ 0
    → x.1 % 2048 ≡ 0
    → 0 < x.1
    → at ≤ x.0
    → x.0 + x.1 ≤ stop.0
    → All (Clear x) rs
    → Holds x gs
gap_loop_complete at [] stop x gs e a n room lo hi c =
    let (more, le, e', eq) = gap_loop_step at stop.0 stop.1 [] gs e in
    first-IsGap-Holds at stop x more gs eq a n room lo hi
gap_loop_complete at (r ∷ rs) stop x gs e a n room lo hi (c, cs) =
    let (more, le, e', eq) = gap_loop_step at r.0 r.1 (rs ++ (stop ∷ [])) gs e in
    elim c [
      | inl before ↦ first-IsGap-Holds at r x more gs eq a n room lo before
      | inr after ↦
          Holds-keep x _ more gs _ eq
            (gap_loop_complete (r.1 + 1) rs stop x more e' a n room (omega arith) hi cs)
    ]

IsApart-stop :
    (at : ℕ) (rs : List (ℕ × ℕ)) (stop : ℕ × ℕ)
    → All IsExtent (rs ++ (stop ∷ []))
    → IsApart at (rs ++ (stop ∷ []))
    → at ≤ stop.0
IsApart-stop at [] stop w a = a.0
IsApart-stop at (r ∷ rs) stop (w, ws) (a, b) = omega (arith, IsApart-stop (r.1 + 1) rs stop ws b)

-- The gap before one extent, if there is one, ends where the extent begins.
ends_first :
    (at start stop : ℕ) (more gs : List (ℕ × ℕ))
    → start ≤ stop
    → gs ≡ (
        if ltb ((at + 2047) / 2048 * 2048) (start / 2048 * 2048)
        then ((at + 2047) / 2048 * 2048, start / 2048 * 2048 - (at + 2047) / 2048 * 2048) ∷ more
        else more)
    → All (λ g. g.0 + g.1 ≤ stop) more
    → All (λ g. g.0 + g.1 ≤ stop) gs
ends_first at start stop more gs le eq h =
    elim (Bool-cases (ltb ((at + 2047) / 2048 * 2048) (start / 2048 * 2048))) [
      | inl t ↦
          let lt : (at + 2047) / 2048 * 2048 < start / 2048 * 2048 = ltb→lt _ _ t in
          rw (eq, t) (omega arith, h)
      | inr f ↦ rw (eq, f) h
    ]

-- No gap reaches past the first sector of the sentinel.
pub gap_loop-ends :
    (at : ℕ) (rs : List (ℕ × ℕ)) (stop : ℕ × ℕ) (gs : List (ℕ × ℕ))
    → All IsExtent (rs ++ (stop ∷ []))
    → gap_loop at (rs ++ (stop ∷ [])) ≡ ok gs
    → All (λ g. g.0 + g.1 ≤ stop.0) gs
gap_loop-ends at [] stop gs w e =
    let (more, le, e', eq) = gap_loop_step at stop.0 stop.1 [] gs e in
    let nothing : [] ≡ more = gap_loop-nil (stop.1 + 1) more e' in
    ends_first at stop.0 stop.0 more gs (omega arith) eq
      (subst (All (λ g. g.0 + g.1 ≤ stop.0)) nothing tt)
gap_loop-ends at (r ∷ rs) stop gs (w, ws) e =
    let (more, le, e', eq) = gap_loop_step at r.0 r.1 (rs ++ (stop ∷ [])) gs e in
    let apart : IsApart (r.1 + 1) (rs ++ (stop ∷ [])) = gap_loop-IsApart (r.1 + 1) _ more e' in
    ends_first at r.0 stop.0 more gs (omega (arith, IsApart-stop (r.1 + 1) rs stop ws apart)) eq
      (gap_loop-ends (r.1 + 1) rs stop more ws e')
