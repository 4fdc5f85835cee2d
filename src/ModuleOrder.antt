-- ===== src/ModuleOrder.antt =====
-- The load order of kernel modules: boot/gen-module-order.py, from the lines of modules.dep, already
-- split into a module and its dependencies, and the seeds, to the list that is printed.
-- `Path(m).name` and the order in which Python walks a set are parameters.
pub mod Lists
pub mod Walks
pub mod Fuel
pub mod Order
pub mod Seeds
mod Examples
use e5_linux.Base.{
  ℕ, zero, suc, Bool, true, false, not, if◌then◌else◌, Option, none, some, List, [], ◌∷◌, ◌++◌,
  length,
}
use e5_linux.Base.Text.{String, ◌==◌}
use e5_linux.Base.Assoc.{Dict, lookup, insert, contains, append_new}

-- What `visit` changes: the set `seen` and the list `ordered`.
pub record Walk : Type 0 where
  pub seen : List String
  pub ordered : List String

-- deps.get(mod, [])
unfoldable pub deps_of : Dict (List String) → String → List String
deps_of deps ko = elim (lookup ko deps) [ none ↦ [] | some ds ↦ ds ]

-- The step after one that may have run out of fuel.
abbrev pub and_then {ℓ κ} : {A : Type ℓ} {B : Type κ} → Option A → (A → Option B) → Option B
and_then none rest = none
and_then (some a) rest = rest a

-- `for d in ds: visit(d, stack)`
unfoldable pub each : (String → Walk → Option Walk) → List String → Walk → Option Walk
each f [] w = some w
each f (d ∷ ds) w = and_then (f d w) (each f ds)

-- `seen.add(mod)`, then `ordered.append(mod)`
unfoldable pub finish : String → Walk → Option Walk
finish ko w = some (record { seen = append_new ko w.seen; ordered = w.ordered ++ (ko ∷ []) })

-- `visit`, with `ko` for `mod`; its calls are on a stack that holds `ko` as well.
unfoldable pub visit : ℕ → Dict (List String) → List String → String → Walk → Option Walk
visit zero deps stack ko w = none
visit (suc n) deps stack ko w =
    let children = each (visit n deps (ko ∷ stack)) (deps_of deps ko) w in
    if contains ko w.seen
    then some w
    else (if contains ko stack then some w else and_then children (finish ko))

-- The loop over the lines of modules.dep.
unfoldable pub read_deps : List (String × List String) → Dict (List String) → Dict (List String)
read_deps [] deps = deps
read_deps ((ko, ds) ∷ lines) deps = read_deps lines (insert ko ds deps)

unfoldable pub read_present : List (String × List String) → List String → List String
read_present [] present = present
read_present ((ko, ds) ∷ lines) present = read_present lines (append_new ko present)

-- `by_base.setdefault(Path(m).name, m)` for each module.
unfoldable pub set_default : String → String → Dict String → Dict String
set_default k v d = elim (lookup k d) [ none ↦ insert k v d | some w ↦ d ]

unfoldable pub read_bases : (String → String) → List String → Dict String → Dict String
read_bases name_of [] bases = bases
read_bases name_of (m ∷ ms) bases = read_bases name_of ms (set_default (name_of m) m bases)

-- by_base.get(s, s)
unfoldable pub resolve : Dict String → String → String
resolve bases s = elim (lookup s bases) [ none ↦ s | some m ↦ m ]

-- `list(dict.fromkeys(seeds))`
unfoldable pub distinct : List String → List String → List String
distinct found [] = found
distinct found (s ∷ seeds) = distinct (append_new s found) seeds

-- The loop over the seeds, with the list of missing ones.
unfoldable pub visit_seeds :
    ℕ
    → Dict (List String)
    → List String
    → Dict String
    → List String
    → Walk
    → List String
    → Option (Walk × List String)
visit_seeds fuel deps present bases [] w missing = some (w, missing)
visit_seeds fuel deps present bases (s ∷ seeds) w missing =
    let full = resolve bases s in
    if contains full present
    then and_then (visit fuel deps [] full w)
        (λ v. visit_seeds fuel deps present bases seeds v missing)
    else visit_seeds fuel deps present bases seeds w (missing ++ (s ∷ []))

-- From the lines and the seeds to `ordered` and `missing`; `walk_set` lists the set `present` in
-- Python's order. One more unit of fuel than there are modules.
unfoldable pub module_order :
    (String → String)
    → (List String → List String)
    → List (String × List String)
    → List String
    → Option (Walk × List String)
module_order name_of walk_set lines seeds =
    let deps = read_deps lines [] in
    let present = read_present lines [] in
    visit_seeds (suc (length deps)) deps present (read_bases name_of (walk_set present) [])
      (distinct [] seeds) (record { seen = []; ordered = [] }) []
