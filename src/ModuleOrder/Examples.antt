-- ===== src/ModuleOrder/Examples.antt =====
-- A modules.dep of three modules, one of them with two dependencies, and a seed that is not built.
use e5_linux.Base.{
  ℕ, ◌<◌, ◌≡◌, refl, true, false, ◌||◌, if◌then◌else◌, some, List, subst, Bool-cases, inl, inr, [],
  ◌∷◌, arith,
}
use e5_linux.Base.Text.{String, ◌==◌, eq_iff}
use e5_linux.Base.Assoc.{lookup, insert, contains, append_new}
use e5_linux.ModuleOrder.{
  Walk, deps_of, each, finish, visit, visit_seeds, resolve, read_deps, read_present, read_bases,
  set_default, distinct, module_order,
}
use e5_linux.ModuleOrder.Lists.{IsDepsFirst}
use e5_linux.ModuleOrder.Order.{IsRanked}
use e5_linux.ModuleOrder.Seeds.{IsLoadOrder, module_order-IsLoadOrder, module_order-IsDepsFirst}

abbrev dep_lines : List (String × List String)
dep_lines = ("wifi", "cfg" ∷ "rfkill" ∷ []) ∷ ("cfg", "rfkill" ∷ []) ∷ ("rfkill", []) ∷ []

abbrev loaded : Walk
loaded = record { seen = "rfkill" ∷ "cfg" ∷ "wifi" ∷ []; ordered = "rfkill" ∷ "cfg" ∷ "wifi" ∷ [] }

order_run :
    module_order (λ x. x) (λ xs. xs) dep_lines ("wifi" ∷ "lost" ∷ []) ≡ some (loaded, "lost" ∷ [])
unfolding module_order visit_seeds visit each finish resolve read_deps read_present read_bases
    set_default distinct deps_of lookup insert contains append_new
order_run = refl

abbrev height : String → ℕ
height name = if name == "wifi" then 2 else (if name == "cfg" then 1 else 0)

low : (d : String) → "rfkill" == d ≡ true → height d < 1
low d e =
    let same : "rfkill" ≡ d = (eq_iff "rfkill" d).0 e in
    subst (λ (x : String). height x < 1) same (omega arith)

middle : (d : String) → "cfg" == d ≡ true → height d < 2
middle d e =
    let same : "cfg" ≡ d = (eq_iff "cfg" d).0 e in
    subst (λ (x : String). height x < 2) same (omega arith)

heights_at :
    (k d : String)
    → (if "wifi" == k
        then ("cfg" == d || ("rfkill" == d || false))
        else (if "cfg" == k then ("rfkill" == d || false) else false))
      ≡ true
    → height d < height k
heights_at k d e = elim (Bool-cases ("wifi" == k)) [
  | inl top ↦
      let same : "wifi" ≡ k = (eq_iff "wifi" k).0 top in
      subst (λ (x : String). height d < height x) same
        (elim (Bool-cases ("cfg" == d)) [
          | inl c ↦ middle d c
          | inr n ↦ let lt : height d < 1 = low d (ground (arith, rw top at e)) in omega arith
        ])
  | inr other ↦ elim (Bool-cases ("cfg" == k)) [
    | inl mid ↦
        let same : "cfg" ≡ k = (eq_iff "cfg" k).0 mid in
        subst (λ (x : String). height d < height x) same
          (low d (ground (arith, rw (other, mid) at e)))
    | inr bottom ↦ cc (rw (other, bottom) at e)
  ]
]

heights : IsRanked (read_deps dep_lines []) height
unfolding read_deps deps_of lookup insert contains
heights k d dep = heights_at k d (ground arith)

module_order-IsLoadOrder_example :
    (r : Walk × List String) × (module_order (λ x. x) (λ xs. xs) dep_lines ("wifi" ∷ "lost" ∷ [])
      ≡ some r)
    × IsLoadOrder
        (read_deps dep_lines [])
        (read_present dep_lines [])
        (read_bases (λ x. x) (read_present dep_lines []) [])
        ("wifi" ∷ "lost" ∷ [])
        r.0.ordered
        r.1
module_order-IsLoadOrder_example =
    module_order-IsLoadOrder (λ x. x) (λ xs. xs) dep_lines ("wifi" ∷ "lost" ∷ [])

module_order-IsDepsFirst_example :
    IsDepsFirst (deps_of (read_deps dep_lines [])) [] ("rfkill" ∷ "cfg" ∷ "wifi" ∷ [])
module_order-IsDepsFirst_example =
    module_order-IsDepsFirst (λ x. x) (λ xs. xs) dep_lines ("wifi" ∷ "lost" ∷ []) height heights
      (loaded, "lost" ∷ []) order_run
