-- ===== src/ModuleOrder/Walks.antt =====
-- What a call of `visit` in boot/gen-module-order.py keeps and adds.
use e5_linux.Base.{
  ℕ, zero, suc, ◌≡◌, refl, sym, true, false, ◌||◌, Option, some, List, [], ◌∷◌, ◌++◌, arith,
  Bool-cases, inl, inr,
}
use e5_linux.Base.Text.{String, ◌==◌, eq_iff, eq_refl}
use e5_linux.Base.Assoc.{Dict, contains, append_new}
use e5_linux.ModuleOrder.{Walk, deps_of, each, finish, visit}
use e5_linux.ModuleOrder.Lists.{
  and_then-eq-some, contains_snoc, append_new_fresh, NoDup, NoDup-snoc,
}

-- A module is in the list or is being visited.
abbrev pub InEither : String → List String → List String → Type 0
InEither k xs stack = (contains k xs || contains k stack) ≡ true

module _ (deps : Dict (List String)) where
  -- The set and the list agree, nothing stands twice, and dependencies are listed or being visited.
  pub record IsSound (stack : List String) (w : Walk) : Type 0 where
    pub same : w.seen ≡ w.ordered
    pub distinct : NoDup w.ordered
    pub closed :
        (k d : String)
        → contains k w.ordered ≡ true
        → contains d (deps_of deps k) ≡ true
        → InEither d w.ordered stack

  -- Between two walks nothing is lost, and no module that is being visited is listed.
  pub record IsMove (stack : List String) (w u : Walk) : Type 0 where
    pub grows : (k : String) → contains k w.ordered ≡ true → contains k u.ordered ≡ true
    pub spares :
        (k : String)
        → contains k stack ≡ true
        → contains k w.ordered ≡ false
        → contains k u.ordered ≡ false

  IsMove-refl : (stack : List String) (w : Walk) → IsMove stack w w
  IsMove-refl stack w = record { grows = λ k h. h; spares = λ k s h. h }

  IsMove-trans :
      (stack : List String) (w u v : Walk) → IsMove stack w u → IsMove stack u v → IsMove stack w v
  IsMove-trans stack w u v f g = record {
    grows = λ k h. g.grows k (f.grows k h);
    spares = λ k s h. g.spares k s (f.spares k s h);
  }

  -- Sound, moved, and the given modules are listed or being visited.
  pub record IsVisited (stack mods : List String) (w u : Walk) : Type 0 where
    pub sound : IsSound stack u
    pub move : IsMove stack w u
    pub listed : (k : String) → contains k mods ≡ true → InEither k u.ordered stack

  -- A step that visits one module.
  abbrev pub Visits : List String → (String → Walk → Option Walk) → Type 0
  Visits stack f =
      (d : String) (w u : Walk) → IsSound stack w → f d w ≡ some u → IsVisited stack (d ∷ []) w u

  either_grows :
      (k : String) (stack : List String) (u v : Walk)
      → IsMove stack u v
      → InEither k u.ordered stack
      → InEither k v.ordered stack
  either_grows k stack u v m h = elim (Bool-cases (contains k u.ordered)) [
    | inl here ↦ rw (m.grows k here) refl
    | inr other ↦ ground arith
  ]

  pub each-IsVisited :
      (stack : List String) (f : String → Walk → Option Walk)
      → Visits stack f
      → (ds : List String) (w u : Walk) → IsSound stack w
      → each f ds w ≡ some u
      → IsVisited stack ds w u
  unfolding each contains
  each-IsVisited stack f h [] w u s e =
      let same : w ≡ u = cc in
      rw (sym same) (record { sound = s; move = IsMove-refl stack w; listed = λ k absurdity. cc })
  each-IsVisited stack f h (d ∷ ds) w u s e =
      let (v, e1, e2) = and_then-eq-some (f d w) (each f ds) e in
      let first : IsVisited stack (d ∷ []) w v = h d w v s e1 in
      let rest : IsVisited stack ds v u = each-IsVisited stack f h ds v u first.sound e2 in
      record {
        sound = rest.sound;
        move = IsMove-trans stack w v u first.move rest.move;
        listed = λ k here. elim (Bool-cases (contains k ds)) [
          | inl later ↦ rest.listed k later
          | inr now ↦ either_grows k stack v u rest.move (first.listed k (ground arith))
        ];
      }

  module _ (stack : List String) (ko : String) (w u : Walk) where
    -- Listing a module whose dependencies have been visited.
    finish-IsVisited :
        (v : Walk)
        → contains ko w.ordered ≡ false
        → contains ko stack ≡ false
        → IsVisited (ko ∷ stack) (deps_of deps ko) w u
        → finish ko u ≡ some v
        → IsVisited stack (ko ∷ []) w v
    unfolding finish contains
    finish-IsVisited v fresh off c e =
        let gone : contains ko u.ordered ≡ false = c.move.spares ko (rw (eq_refl ko) refl) fresh in
        let done : Walk = record {
          seen = append_new ko u.seen;
          ordered = u.ordered ++ (ko ∷ []);
        } in
        let r : done ≡ v = cc in
        let snoc : (k : String) → contains k done.ordered ≡ (contains k u.ordered || ko == k) =
          λ k. contains_snoc k ko u.ordered in
        rw (sym r) (record {
          sound = record {
            same = rw (c.sound.same, append_new_fresh ko u.ordered gone) refl;
            distinct = NoDup-snoc ko u.ordered c.sound.distinct gone;
            closed = λ k d here dep. elim (Bool-cases (contains k u.ordered)) [
              | inl old ↦ ground (arith, snoc d, c.sound.closed k d old dep)
              | inr new ↦
                  let same : ko == k ≡ true = ground (arith, snoc k, here) in
                  let km : ko ≡ k = (eq_iff ko k).0 same in
                  ground (arith, snoc d, c.listed d (rw km dep))
            ];
          };
          move = record {
            grows = λ k h. ground (arith, snoc k, c.move.grows k h);
            spares =
                λ k on h. ground (arith, snoc k, eq_iff ko k, c.move.spares k (ground arith) h);
          };
          listed = λ k here. ground (arith, snoc k, here);
        })

  pub visit-IsVisited :
      (n : ℕ) (stack : List String) (ko : String) (w u : Walk)
      → IsSound stack w
      → visit n deps stack ko w ≡ some u
      → IsVisited stack (ko ∷ []) w u
  unfolding visit contains
  visit-IsVisited zero stack ko w u s e = cc
  visit-IsVisited (suc n) stack ko w u s e = elim (Bool-cases (contains ko w.seen)) [
    | inl seen ↦
        let same : w ≡ u = cc (rw seen at e) in
        rw (sym same) (record {
          sound = s;
          move = IsMove-refl stack w;
          listed = λ k here. ground (arith, eq_iff ko k, rw s.same at seen);
        })
    | inr new ↦ elim (Bool-cases (contains ko stack)) [
      | inl on ↦
          let same : w ≡ u = cc (rw (new, on) at e) in
          rw (sym same) (record {
            sound = s;
            move = IsMove-refl stack w;
            listed = λ k here. ground (arith, eq_iff ko k);
          })
      | inr off ↦
          let (v, e1, e2) = and_then-eq-some _ (finish ko) (rw (new, off) at e) in
          let s' : IsSound (ko ∷ stack) w = record {
            same = s.same;
            distinct = s.distinct;
            closed = λ k d here dep. ground (arith, s.closed k d here dep);
          } in
          finish-IsVisited stack ko w v u (rw s.same at new) off
            (each-IsVisited (ko ∷ stack) (visit n deps (ko ∷ stack))
              (λ d. visit-IsVisited n (ko ∷ stack) d) (deps_of deps ko) w v s' e1)
            e2
    ]
  ]
