-- ===== src/ModuleOrder/Fuel.antt =====
-- The recursion of `visit` in boot/gen-module-order.py ends: the stack grows by a module of
-- modules.dep at each level, so one more level than there are modules is enough.
use e5_linux.Base.{
  ℕ, zero, suc, ◌+◌, ◌<◌, ◌≤◌, ◌≡◌, refl, false, if◌then◌else◌, Option, none, some, List, [], ◌∷◌,
  arith, Bool-cases, Option-cases, inl, inr, length,
}
use e5_linux.Base.Text.{String, ◌==◌, eq_iff}
use e5_linux.Base.Assoc.{Dict, lookup, contains}
use e5_linux.ModuleOrder.{Walk, deps_of, each, finish, visit}

-- How many keys are not on the stack.
unfoldable pub waiting : List String → Dict (List String) → ℕ
waiting stack [] = 0
waiting stack ((k, ds) ∷ deps) =
    let rest = waiting stack deps in if contains k stack then rest else rest + 1

pub waiting-le-length :
    (stack : List String) (deps : Dict (List String)) → waiting stack deps ≤ length deps
unfolding waiting
waiting-le-length stack [] = omega arith
waiting-le-length stack ((k, ds) ∷ deps) = ground (arith, waiting-le-length stack deps)

waiting_cons :
    (ko : String) (stack : List String) (deps : Dict (List String))
    → waiting (ko ∷ stack) deps ≤ waiting stack deps
unfolding waiting contains
waiting_cons ko stack [] = omega arith
waiting_cons ko stack ((k, ds) ∷ deps) = ground (arith, waiting_cons ko stack deps)

-- A key that goes on the stack no longer waits.
waiting_less :
    (ko : String) (stack : List String) (deps : Dict (List String)) (ds : List String)
    → lookup ko deps ≡ some ds
    → contains ko stack ≡ false
    → waiting (ko ∷ stack) deps < waiting stack deps
unfolding waiting contains lookup
waiting_less ko stack [] ds e off = cc
waiting_less ko stack ((k, es) ∷ deps) ds e off = elim (Bool-cases (k == ko)) [
  | inl same ↦
      let km : k ≡ ko = (eq_iff k ko).0 same in
      ground (arith, eq_iff k ko, eq_iff ko k, waiting_cons ko stack deps)
  | inr other ↦
      ground (arith, eq_iff k ko, eq_iff ko k, waiting_less ko stack deps ds (rw other at e) off)
]

abbrev pub Ends : Option Walk → Type 0
Ends o = (u : Walk) × (o ≡ some u)

each-Ends :
    (f : String → Walk → Option Walk)
    → ((d : String) (w : Walk) → Ends (f d w))
    → (ds : List String) (w : Walk) → Ends (each f ds w)
unfolding each
each-Ends f h [] w = (w, refl)
each-Ends f h (d ∷ ds) w = let (v, e) = h d w in rw e (each-Ends f h ds v)

deps_of_missing :
    (deps : Dict (List String)) (ko : String) → lookup ko deps ≡ none → deps_of deps ko ≡ []
unfolding deps_of
deps_of_missing deps ko e = rw (e, deps_of) refl

-- More units of fuel than keys off the stack are enough.
pub visit-Ends :
    (n : ℕ) (deps : Dict (List String)) (stack : List String) (ko : String) (w : Walk)
    → waiting stack deps < n
    → Ends (visit n deps stack ko w)
unfolding visit each finish
visit-Ends zero deps stack ko w lt = absurd (omega arith)
visit-Ends (suc n) deps stack ko w lt = elim (Bool-cases (contains ko w.seen)) [
  | inl seen ↦ rw seen (w, refl)
  | inr new ↦ elim (Bool-cases (contains ko stack)) [
    | inl on ↦ rw (new, on) (w, refl)
    | inr off ↦
        let (v, e) : Ends (each (visit n deps (ko ∷ stack)) (deps_of deps ko) w) =
          elim (Option-cases (lookup ko deps)) [
            | inl gone ↦ rw (deps_of_missing deps ko gone) (w, refl)
            | inr (ds, here) ↦
                each-Ends (visit n deps (ko ∷ stack))
                  (λ d x.
                    visit-Ends n deps (ko ∷ stack) d x
                      (omega (arith, waiting_less ko stack deps ds here off)))
                  (deps_of deps ko) w
          ] in
        rw (new, off, e) (_, refl)
  ]
]
