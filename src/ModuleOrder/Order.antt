-- ===== src/ModuleOrder/Order.antt =====
-- Where dependencies have no cycle, `visit` of boot/gen-module-order.py lists a module behind its
-- dependencies.
use e5_linux.Base.{
  ℕ, zero, suc, ◌<◌, ◌≡◌, refl, sym, true, some, List, [], ◌∷◌, ◌++◌, arith, Bool-cases, inl, inr,
}
use e5_linux.Base.Text.{String, ◌==◌, eq_iff, eq_refl}
use e5_linux.Base.Assoc.{Dict, contains}
use e5_linux.ModuleOrder.{Walk, deps_of, each, finish, visit}
use e5_linux.ModuleOrder.Lists.{and_then-eq-some, IsDepsFirst, IsDepsFirst-snoc}
use e5_linux.ModuleOrder.Walks.{IsSound, IsVisited, each-IsVisited, visit-IsVisited}

module _ (deps : Dict (List String)) where
  module _ (rank : String → ℕ) where
    -- The dependencies have no cycle: each ranks below what needs it.
    abbrev pub IsRanked : Type 0
    IsRanked = (k d : String) → contains d (deps_of deps k) ≡ true → rank d < rank k

    abbrev pub IsAbove : List String → String → Type 0
    IsAbove stack ko = (k : String) → contains k stack ≡ true → rank ko < rank k

    abbrev pub IsFirst : Walk → Type 0
    IsFirst w = IsDepsFirst (deps_of deps) [] w.ordered

    module _ (ranked : IsRanked) where
      each-IsFirst :
          (stack : List String) (n : ℕ)
          → ((d : String) (w u : Walk)
              → IsSound deps stack w
              → IsAbove stack d
              → IsFirst w
              → visit n deps stack d w ≡ some u
              → IsFirst u)
          → (ds : List String) (w u : Walk) → IsSound deps stack w
          → ((d : String) → contains d ds ≡ true → IsAbove stack d)
          → IsFirst w
          → each (visit n deps stack) ds w ≡ some u
          → IsFirst u
      unfolding each contains
      each-IsFirst stack n h [] w u s above first e = let same : w ≡ u = cc in rw (sym same) first
      each-IsFirst stack n h (d ∷ ds) w u s above first e =
          let (v, e1, e2) =
            and_then-eq-some (visit n deps stack d w) (each (visit n deps stack) ds) e in
          each-IsFirst stack n h ds v u (visit-IsVisited deps n stack d w v s e1).sound
            (λ k later. above k (ground arith)) (h d w v s (above d (rw (eq_refl d) refl)) first e1)
            e2

      finish-IsFirst :
          (ko : String) (v u : Walk)
          → IsFirst v
          → ((d : String) → contains d (deps_of deps ko) ≡ true → contains d v.ordered ≡ true)
          → finish ko v ≡ some u
          → IsFirst u
      unfolding finish contains
      finish-IsFirst ko v u first here e =
          let same : v.ordered ++ (ko ∷ []) ≡ u.ordered = cc in
          rw (sym same) (
            IsDepsFirst-snoc (deps_of deps) [] ko v.ordered first
              (λ d dep. ground (arith, here d dep)))

      pub visit-IsFirst :
          (n : ℕ) (stack : List String) (ko : String) (w u : Walk)
          → IsSound deps stack w
          → IsAbove stack ko
          → IsFirst w
          → visit n deps stack ko w ≡ some u
          → IsFirst u
      unfolding visit contains
      visit-IsFirst zero stack ko w u s above first e = cc
      visit-IsFirst (suc n) stack ko w u s above first e = elim (Bool-cases (contains ko w.seen)) [
        | inl seen ↦ let same : w ≡ u = cc (rw seen at e) in rw (sym same) first
        | inr new ↦ elim (Bool-cases (contains ko stack)) [
          | inl on ↦ let same : w ≡ u = cc (rw (new, on) at e) in rw (sym same) first
          | inr off ↦
              let (v, e1, e2) = and_then-eq-some _ (finish ko) (rw (new, off) at e) in
              let s' : IsSound deps (ko ∷ stack) w = record {
                same = s.same;
                distinct = s.distinct;
                closed = λ k d here dep. ground (arith, s.closed k d here dep);
              } in
              let higher : (d : String)
                  → contains d (deps_of deps ko) ≡ true
                  → IsAbove (ko ∷ stack) d =
                λ d dep k on. elim (Bool-cases (ko == k)) [
                  | inl same ↦
                      let km : ko ≡ k = (eq_iff ko k).0 same in rw (sym km) (ranked ko d dep)
                  | inr other ↦
                      let lt : rank ko < rank k = above k (ground arith) in
                      omega (arith, ranked ko d dep)
                ] in
              let c : IsVisited deps (ko ∷ stack) (deps_of deps ko) w v =
                each-IsVisited deps (ko ∷ stack) (visit n deps (ko ∷ stack))
                  (λ d. visit-IsVisited deps n (ko ∷ stack) d) (deps_of deps ko) w v s' e1 in
              let first' : IsFirst v =
                each-IsFirst (ko ∷ stack) n (λ d. visit-IsFirst n (ko ∷ stack) d) (deps_of deps ko)
                  w v s' higher first e1 in
              let here : (d : String)
                  → contains d (deps_of deps ko) ≡ true
                  → contains d v.ordered ≡ true =
                λ d dep. elim (Bool-cases (contains d (ko ∷ stack))) [
                  | inl on ↦ absurd (omega (arith, higher d dep d on))
                  | inr free ↦ ground (arith, c.listed d dep)
                ] in
              finish-IsFirst ko v u first' here e2
        ]
      ]
