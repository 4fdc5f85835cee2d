-- ===== src/Service/Run/Guard.antt =====
-- What run of installer/backend/service.py demands before the adapter may write: the run is the same
-- whatever `execute` would do, unless the device and its new plan are those of the record.
use e5_linux.Base.{
  ℕ, ◌==◌, ==_iff, ◌≡◌, ◌⊎◌, inl, inr, refl, ap, Bool, true, false, not, ◌||◌, Bool-cases,
  if◌then◌else◌, Option, some, List, same_option→≡, same_bool→≡, both_of_and, both_of_or_not,
}
use e5_linux.Base.Text.{String, eq_iff}
use e5_linux.Base.Result.{Result, ok, err}
use e5_linux.Plan.{
  Plan, PlanError, Target, misc, userdata_image, unallocated, userdata_shrink, device_at,
  plan_install,
}
use e5_linux.Plan.Safe.{IsSafePlan, plan_install-IsSafePlan}
use e5_linux.Service.{Ending, raised, Progress, Observation, is_update, operation_failed}
use e5_linux.Service.Running.{
  Order, Seen, Probe, seen, cut_off, refused, Look, Executed, is_uninstall, same_target, same_text,
  is_text,
}
use e5_linux.Service.Run.{
  and_then, same_plan, compare_plans, recheck, admit, carry_out, await_openwrt, resumes_wait,
  run_body, close_run, run,
}

-- The six keys that the user has confirmed.
pub record IsConfirmed (fresh plan : Plan) : Type 0 where
  pub wiped : fresh.wipe ≡ plan.wipe
  pub aimed : fresh.target ≡ plan.target
  pub sized : fresh.openwrt_bytes ≡ plan.openwrt_bytes
  pub left : fresh.android_bytes ≡ plan.android_bytes
  pub placed : fresh.gap_start ≡ plan.gap_start
  pub carded : fresh.target_identity ≡ plan.target_identity

same_text→≡ : (a b : String) → same_text a b ≡ true → a ≡ b
same_text→≡ a b h = (eq_iff a b).0 h

same_target→≡ : (a b : Target) → same_target a b ≡ true → a ≡ b
same_target→≡ (device_at a) (device_at b) h = ap device_at (same_text→≡ a b h)
same_target→≡ misc misc h = refl
same_target→≡ userdata_image userdata_image h = refl
same_target→≡ unallocated unallocated h = refl
same_target→≡ userdata_shrink userdata_shrink h = refl
same_target→≡ _ _ h = cc

same_number→≡ : (a b : ℕ) → (a == b) ≡ true → a ≡ b
same_number→≡ a b h = (==_iff a b).0 h

same_plan→IsConfirmed : (fresh plan : Plan) → same_plan fresh plan ≡ true → IsConfirmed fresh plan
unfolding same_plan
same_plan→IsConfirmed fresh plan h =
    let (wiped, h1) = both_of_and _ _ h in
    let (aimed, h2) = both_of_and _ _ h1 in
    let (sized, h3) = both_of_and _ _ h2 in
    let (left, h4) = both_of_and _ _ h3 in
    let (placed, carded) = both_of_and _ _ h4 in
    record {
      wiped = same_bool→≡ _ _ wiped;
      aimed = same_option→≡ same_target same_target→≡ _ _ aimed;
      sized = same_number→≡ _ _ sized;
      left = same_option→≡ (λ a b. a == b) same_number→≡ _ _ left;
      placed = same_option→≡ (λ a b. a == b) same_number→≡ _ _ placed;
      carded = same_option→≡ same_text same_text→≡ _ _ carded;
    }

module _ {N : Type 0} (order : Order N) (is_positive : N → Bool) (units : N → ℕ) where
  -- The device that is there now is the one of the record, and its new plan is the confirmed one.
  abbrev pub IsAdmitted : Probe → Type 0
  IsAdmitted probe =
      (d : Seen) × (fresh : Plan) × (probe ≡ seen d)
      × (d.cid ≡ some order.cid)
      × (d.slot ≡ some order.slot)
      × (plan_install is_positive units order.bundle d.device order.choices ≡ ok fresh)
      × IsConfirmed fresh order.plan
      × IsSafePlan order.bundle d.device order.choices.wipe fresh

  is_text→≡ : (a : Option String) (b : String) → is_text a b ≡ true → a ≡ some b
  is_text→≡ a b h = same_option→≡ same_text same_text→≡ a (some b) h

  IsRaised : Ending × Progress → Progress → Type 0
  IsRaised x p = (f : _) × (x ≡ (raised f, p))

  compare_plans-cases :
      (r : Result PlanError Plan) (p : Progress)
      → IsRaised (compare_plans order is_positive units r p) p
        ⊎ ((fresh : Plan) × (r ≡ ok fresh) × IsConfirmed fresh order.plan)
  unfolding compare_plans IsRaised
  compare_plans-cases (err e) p = inl (operation_failed, refl)
  compare_plans-cases (ok fresh) p = elim (Bool-cases (same_plan fresh order.plan)) [
    | inl same ↦ inr (fresh, refl, same_plan→IsConfirmed fresh order.plan same)
    | inr differs ↦ inl (operation_failed, rw differs refl)
  ]

  recheck-cases :
      (probe : Probe) (p : Progress)
      → IsRaised (recheck order is_positive units probe p) p ⊎ IsAdmitted probe
  unfolding recheck IsRaised
  recheck-cases cut_off p = inl (operation_failed, refl)
  recheck-cases (refused f) p = inl (f, refl)
  recheck-cases (seen d) p =
      elim (Bool-cases (not (is_text d.cid order.cid) || not (is_text d.slot order.slot))) [
        | inl differs ↦ inl (operation_failed, rw differs refl)
        | inr same ↦
            let (cid, slot) = both_of_or_not _ _ same in
            elim (compare_plans-cases
              (plan_install is_positive units order.bundle d.device order.choices) p) [
                | inl (f, e) ↦ inl (f, rw (same, e) refl)
                | inr (fresh, e, confirmed) ↦ inr (
                  d,
                  fresh,
                  refl,
                  is_text→≡ d.cid order.cid cid,
                  is_text→≡ d.slot order.slot slot,
                  e,
                  confirmed,
                  plan_install-IsSafePlan is_positive units order.bundle d.device order.choices
                      fresh e,
                )
              ]
      ]

  module _ (is_block is_boot_id : String → Bool) (removal : Progress → Ending × Progress) where
    and_then_raised :
        (x : Ending × Progress) (p : Progress) (k l : Progress → Ending × Progress)
        → IsRaised x p
        → and_then x k ≡ and_then x l
    unfolding IsRaised and_then
    and_then_raised x p k l (f, e) = rw (e) refl

    -- A run that installs anew either finds the device of the record again, in the same slot, with
    -- a plan made now that agrees with the confirmed plan on its six keys and is safe, or its
    -- outcome does not depend on the adapter's `execute`: what one would do and what another would
    -- do makes no difference, since the run ends before.
    pub run-IsAdmitted :
        (execute other_execute : ℕ → Progress → Executed × Progress) (looks : ℕ → List Look)
        (owned : Bool) (probe : Probe) (os : List Observation) (p : Progress)
        → p.legacy ≡ false
        → is_update order.choices.method ≡ false
        → (run order is_positive units is_block is_boot_id removal execute looks owned probe os p
            ≡ run order is_positive units is_block is_boot_id removal other_execute looks owned
                probe os p)
          ⊎ IsAdmitted probe
    unfolding run run_body admit IsRaised
    run-IsAdmitted execute other_execute looks owned probe os p legacy method =
        elim (recheck-cases probe p) [
          | inr admitted ↦ inr admitted
          | inl stopped ↦ inl (
              ap
                (λ (z : Ending × Progress).
                  close_run order is_positive units is_block is_boot_id removal (
                    if owned
                    then (raised operation_failed, p)
                    else if is_uninstall order.choices.method
                    then removal p
                    else if resumes_wait order is_positive units is_block is_boot_id removal p
                    then await_openwrt order is_positive units is_block is_boot_id removal os p
                    else z))
                (and_then_raised (admit order is_positive units probe (looks 0) p) p (rest execute)
                  (rest other_execute) (admit_raised stopped)))
        ]
      where
        rest : (ℕ → Progress → Executed × Progress) → Progress → Ending × Progress
        rest e q =
            and_then (carry_out order e looks q)
              (await_openwrt order is_positive units is_block is_boot_id removal os)

        admit_raised :
            IsRaised (recheck order is_positive units probe p) p
            → IsRaised (admit order is_positive units probe (looks 0) p) p
        admit_raised (f, e) = (f, simp (legacy, method) e)
