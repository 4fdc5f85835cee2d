-- ===== src/ModuleOrder/Seeds.antt =====
-- The list that boot/gen-module-order.py prints: complete, without repetition, and with every module
-- behind its dependencies.
use e5_linux.Base.{
  ℕ, suc, ◌≡◌, refl, sym, ◌∙◌, Bool, true, false, ◌||◌, ◌&&◌, not, some, List, [], ◌∷◌, ◌++◌, arith,
  Bool-cases, inl, inr, length,
}
use e5_linux.Base.Text.{String, ◌==◌, eq_iff, eq_refl}
use e5_linux.Base.Assoc.{Dict, contains, append_new}
use e5_linux.ModuleOrder.{
  Walk, deps_of, visit, visit_seeds, resolve, read_deps, read_present, read_bases, distinct,
  module_order,
}
use e5_linux.ModuleOrder.Lists.{and_then-eq-some, contains_snoc, NoDup, IsDepsFirst}
use e5_linux.ModuleOrder.Walks.{IsSound, IsVisited, visit-IsVisited}
use e5_linux.ModuleOrder.Fuel.{waiting-le-length, visit-Ends}
use e5_linux.ModuleOrder.Order.{IsRanked, IsFirst, visit-IsFirst}

-- What the tool promises for its two lists, with `bases` to resolve a seed: nothing stands twice,
-- every seed that is a module is listed and so is what a listed module needs, and the missing seeds
-- are those that are no modules.
pub record IsLoadOrder (deps : Dict (List String)) (present : List String) (bases : Dict String)
    (seeds : List String) (ordered missing : List String) : Type 0 where
  pub distinct_once : NoDup ordered
  pub listed :
      (s : String)
      → contains s seeds ≡ true
      → contains (resolve bases s) present ≡ true
      → contains (resolve bases s) ordered ≡ true
  pub closed :
      (k d : String)
      → contains k ordered ≡ true
      → contains d (deps_of deps k) ≡ true
      → contains d ordered ≡ true
  pub skipped :
      (s : String)
      → contains s missing ≡ (contains s seeds && not (contains (resolve bases s) present))

distinct-contains :
    (k : String) (found seeds : List String)
    → contains k (distinct found seeds) ≡ (contains k found || contains k seeds)
unfolding distinct contains append_new
distinct-contains k found [] = ground arith
distinct-contains k found (s ∷ seeds) = elim (Bool-cases (contains s found)) [
  | inl old ↦ rw old (distinct-contains k found seeds ∙ ground (arith, eq_iff s k))
  | inr new ↦
      rw new
        (distinct-contains k (found ++ (s ∷ [])) seeds ∙ ground (arith, contains_snoc k s found))
]

module _ (deps : Dict (List String)) (rank : String → ℕ) (ranked : IsRanked deps rank) where
  visit_seeds-IsFirst :
      (fuel : ℕ) (present : List String) (bases : Dict String) (seeds : List String) (w : Walk)
      (missing : List String) (r : Walk × List String)
      → IsSound deps [] w
      → IsFirst deps rank w
      → visit_seeds fuel deps present bases seeds w missing ≡ some r
      → IsFirst deps rank r.0
  unfolding visit_seeds contains
  visit_seeds-IsFirst fuel present bases [] w missing r s first e =
      let same : (w, missing) ≡ r = cc in rw (sym same) first
  visit_seeds-IsFirst fuel present bases (t ∷ seeds) w missing r s first e =
      elim (Bool-cases (contains (resolve bases t) present)) [
        | inl there ↦
            let (v, e1, e2) =
              and_then-eq-some (visit fuel deps [] (resolve bases t) w) _ (rw there at e) in
            visit_seeds-IsFirst fuel present bases seeds v missing r
              (visit-IsVisited deps fuel [] (resolve bases t) w v s e1).sound
              (visit-IsFirst deps rank ranked fuel [] (resolve bases t) w v s (λ k on. cc) first e1)
              e2
        | inr absent ↦
            visit_seeds-IsFirst fuel present bases seeds w (missing ++ (t ∷ [])) r s first
              (rw absent at e)
      ]

module _ (fuel : ℕ) (deps : Dict (List String)) (present : List String) (bases : Dict String) where
  abbrev pub Outcome : List String → Walk → List String → Walk × List String → Type 0
  Outcome seeds w missing r =
      IsSound deps [] r.0
      × ((k : String) → contains k w.ordered ≡ true → contains k r.0.ordered ≡ true)
      × ((s : String)
          → contains s seeds ≡ true
          → contains (resolve bases s) present ≡ true
          → contains (resolve bases s) r.0.ordered ≡ true)
      × ((s : String)
          → contains s r.1 ≡ (
              contains s missing || (contains s seeds && not (contains (resolve bases s) present))))

  visit_seeds-Outcome :
      (seeds : List String) (w : Walk) (missing : List String) (r : Walk × List String)
      → IsSound deps [] w
      → visit_seeds fuel deps present bases seeds w missing ≡ some r
      → Outcome seeds w missing r
  unfolding visit_seeds contains
  visit_seeds-Outcome [] w missing r s e =
      let same : (w, missing) ≡ r = cc in
      rw (sym same) (s, (λ k h. h), (λ k h. cc), (λ k. ground arith))
  visit_seeds-Outcome (t ∷ seeds) w missing r s e =
      elim (Bool-cases (contains (resolve bases t) present)) [
        | inl there ↦
            let (v, e1, e2) =
              and_then-eq-some (visit fuel deps [] (resolve bases t) w) _ (rw there at e) in
            let c : IsVisited deps [] (resolve bases t ∷ []) w v =
              visit-IsVisited deps fuel [] (resolve bases t) w v s e1 in
            let (s', grows, listed, gone) = visit_seeds-Outcome seeds v missing r c.sound e2 in
            (
              s',
              (λ k h. grows k (c.move.grows k h)),
              (λ k here is. elim (Bool-cases (contains k seeds)) [
                | inl later ↦ listed k later is
                | inr now ↦
                    let tk : t ≡ k = (eq_iff t k).0 (ground arith) in
                    rw (sym tk) (
                      grows (resolve bases t) (
                        ground (
                          arith,
                          c.listed (resolve bases t) (rw (eq_refl (resolve bases t)) refl),
                        )))
              ]),
              (λ k. elim (Bool-cases (t == k)) [
                | inl same ↦
                    let tk : t ≡ k = (eq_iff t k).0 same in
                    let there' : contains (resolve bases k) present ≡ true = rw (sym tk) there in
                    ground (arith, gone k)
                | inr other ↦ ground (arith, gone k)
              ]),
            )
        | inr absent ↦
            let (s', grows, listed, gone) =
              visit_seeds-Outcome seeds w (missing ++ (t ∷ [])) r s (rw absent at e) in
            (
              s',
              grows,
              (λ k here is. elim (Bool-cases (contains k seeds)) [
                | inl later ↦ listed k later is
                | inr now ↦
                    let tk : t ≡ k = (eq_iff t k).0 (ground arith) in
                    absurd (
                      let gone' : contains (resolve bases k) present ≡ false = rw (sym tk) absent in
                      cc)
              ]),
              (λ k. elim (Bool-cases (t == k)) [
                | inl same ↦
                    let tk : t ≡ k = (eq_iff t k).0 same in
                    let absent' : contains (resolve bases k) present ≡ false = rw (sym tk) absent in
                    ground (arith, gone k, contains_snoc k t missing)
                | inr other ↦ ground (arith, gone k, contains_snoc k t missing)
              ]),
            )
      ]

or_false : (b : Bool) → (b || false) ≡ true → b ≡ true
or_false true e = refl
or_false false e = e

-- The start of the walk.
abbrev pub nothing : Walk
nothing = record { seen = []; ordered = [] }

nothing-IsSound : (deps : Dict (List String)) → IsSound deps [] nothing
unfolding contains
nothing-IsSound deps = record { same = refl; distinct = tt; closed = λ k d here dep. cc }

visit_seeds_ends :
    (deps : Dict (List String)) (present : List String) (bases : Dict String) (seeds : List String)
    (w : Walk) (missing : List String)
    → (r : Walk × List String) × (visit_seeds (suc (length deps)) deps present bases seeds w missing
        ≡ some r)
unfolding visit_seeds
visit_seeds_ends deps present bases [] w missing = ((w, missing), refl)
visit_seeds_ends deps present bases (s ∷ seeds) w missing =
    let (v, e) =
      visit-Ends (suc (length deps)) deps [] (resolve bases s) w
        (omega (arith, waiting-le-length [] deps)) in
    elim (Bool-cases (contains (resolve bases s) present)) [
      | inl there ↦ rw (there, e) (visit_seeds_ends deps present bases seeds v missing)
      | inr absent ↦ rw absent (visit_seeds_ends deps present bases seeds w (missing ++ (s ∷ [])))
    ]

module _ (name_of : String → String) (walk_set : List String → List String)
    (lines : List (String × List String)) (seeds : List String) where
  -- The tool always ends with two lists: nothing stands twice in the load order, every seed that
  -- is a module is in it, and so is everything that a listed module needs; the missing seeds are
  -- those that are no modules. This holds also where dependencies form a cycle.
  pub module_order-IsLoadOrder :
      (r : Walk × List String) × (module_order name_of walk_set lines seeds ≡ some r)
      × IsLoadOrder
          (read_deps lines [])
          (read_present lines [])
          (read_bases name_of (walk_set (read_present lines [])) [])
          seeds
          r.0.ordered
          r.1
  unfolding module_order contains
  module_order-IsLoadOrder =
      let deps = read_deps lines [] in
      let present = read_present lines [] in
      let bases = read_bases name_of (walk_set present) [] in
      let (r, e) = visit_seeds_ends deps present bases (distinct [] seeds) nothing [] in
      let (sound, grows, listed, gone) =
        visit_seeds-Outcome (suc (length deps)) deps present bases (distinct [] seeds) nothing [] r
          (nothing-IsSound deps) e in
      let same : (s : String) → contains s (distinct [] seeds) ≡ contains s seeds =
        λ s. distinct-contains s [] seeds in
      (
        r,
        e,
        record {
          distinct_once = sound.distinct;
          listed = λ s here. listed s (same s ∙ here);
          closed = λ k d here dep. or_false _ (sound.closed k d here dep);
          skipped = λ s. rw (sym (same s)) (gone s);
        },
      )

  -- Where the dependencies have no cycle, every module of the load order stands behind all of its
  -- dependencies.
  pub module_order-IsDepsFirst :
      (rank : String → ℕ)
      → IsRanked (read_deps lines []) rank
      → (r : Walk × List String) → module_order name_of walk_set lines seeds ≡ some r
      → IsDepsFirst (deps_of (read_deps lines [])) [] r.0.ordered
  unfolding module_order
  module_order-IsDepsFirst rank ranked r e =
      visit_seeds-IsFirst (read_deps lines []) rank ranked _ _ _ _ nothing [] r
        (nothing-IsSound (read_deps lines [])) tt e
