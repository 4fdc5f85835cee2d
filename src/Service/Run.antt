-- ===== src/Service/Run.antt =====
-- Service.run and Service.wait_android of installer/backend/service.py: what an installation checks
-- before the adapter writes, and how its record ends. The adapter's `execute` and the removal are
-- parameters, each a function of what the run has written so far; the n-th call of `execute` may do
-- as it likes.
pub mod Guard
pub mod Ends
use e5_linux.Base.{
  ℕ, Bool, true, false, ◌&&◌, ◌||◌, not, ◌==◌, if◌then◌else◌, Option, none, some, List, [], ◌∷◌,
  same_option, same_bool,
}
use e5_linux.Base.Text.{String}
use e5_linux.Base.Result.{Result, ok, err}
use e5_linux.Plan.{Method, Device, Choices, Plan, PlanError, plan_install}
use e5_linux.Service.{
  Fault, cancelled, recovery_required, operation_failed, Ending, waiting, completed, raised, Job,
  Progress, Observation, at_stage, is_update, openwrt_wait_stage, stop_behind, go_on, wait_openwrt,
}
use e5_linux.Service.Running.{
  Order, Seen, Probe, seen, cut_off, refused, Look, Executed, returned, awaiting, failed_with,
  is_uninstall, same_text, is_text, same_target, same_boot, job_of, installation_committed,
}

abbrev pub text_or : Option String → String → String
text_or none t = t
text_or (some s) t = s

-- The rest runs after a returned part, `completed`; it does not when that waits or has raised.
unfoldable pub and_then : Ending × Progress → (Progress → Ending × Progress) → Ending × Progress
and_then (completed, p) rest = rest p
and_then (e, p) rest = (e, p)

-- Python compares the six keys in this order, and any difference raises.
unfoldable pub same_plan : Plan → Plan → Bool
same_plan fresh plan =
    same_bool fresh.wipe plan.wipe
    && (same_option same_target fresh.target plan.target
        && (fresh.openwrt_bytes == plan.openwrt_bytes
            && (same_option (λ a b. a == b) fresh.android_bytes plan.android_bytes
                && (same_option (λ a b. a == b) fresh.gap_start plan.gap_start
                    && same_option same_text fresh.target_identity plan.target_identity))))

module _ {N : Type 0} (order : Order N) where
  unfoldable pub is_same_device : Seen → Bool
  is_same_device d = is_text d.cid order.cid && is_text d.profile order.profile

  -- A ready device is the end of the wait, unless it differs or has not been restarted in between.
  unfoldable pub look_ready : Seen → Progress → Ending × Progress
  unfolding is_same_device
  look_ready d p =
      if not (is_same_device d)
      then (raised recovery_required, p)
      else if order.plan.two_stage && same_boot order.boot_id d.boot_id
      then (waiting, at_stage "android_boot" "waiting_device" p)
      else (completed, at_stage "root_ready" "running" p)

  unfoldable pub look_at : Probe → Progress → Ending × Progress
  look_at (seen d) p =
      let readiness : String = text_or d.readiness "android_boot" in
      if is_text (some readiness) "ready" then look_ready d p else (
        waiting,
        at_stage readiness
            (if is_text (some readiness) "android_boot" then "waiting_device" else "waiting_user")
            p,
      )
  look_at cut_off p = (waiting, at_stage "android_boot" "waiting_device" p)
  look_at (refused fault) p = (raised fault, p)

  unfoldable pub android_round : Look → Progress → Ending × Progress
  android_round look p =
      if look.cancel then (raised cancelled, p) else stop_behind look.stopped (look_at look.probe p)

  unfoldable pub wait_android : List Look → Progress → Ending × Progress
  wait_android [] p = (waiting, p)
  wait_android (look ∷ looks) p = go_on (android_round look p) (wait_android looks)

  module _ (is_positive : N → Bool) (units : N → ℕ) where
    unfoldable pub compare_plans : Result PlanError Plan → Progress → Ending × Progress
    compare_plans (err e) p = (raised operation_failed, p)
    compare_plans (ok fresh) p =
        (if same_plan fresh order.plan then completed else raised operation_failed, p)

    -- The plan is made anew on the device that is there now.
    unfoldable pub recheck : Probe → Progress → Ending × Progress
    recheck (seen d) p =
        if not (is_text d.cid order.cid) || not (is_text d.slot order.slot)
        then (raised operation_failed, p)
        else compare_plans (plan_install is_positive units order.bundle d.device order.choices) p
    recheck cut_off p = (raised operation_failed, p)
    recheck (refused fault) p = (raised fault, p)

    -- Up to the stage `prepare`.
    unfoldable pub admit : Probe → List Look → Progress → Ending × Progress
    admit probe looks p =
        if p.legacy
        then wait_android looks p
        else if is_update order.choices.method
        then (completed, p)
        else recheck probe p

  module _ (execute : ℕ → Progress → Executed × Progress) (looks : ℕ → List Look) where
    -- A call of execute without `except Pending` around it.
    unfoldable pub unguarded : Executed × Progress → Ending × Progress
    unguarded (returned pending, p) = (completed, p)
    unguarded (awaiting, p) = (raised operation_failed, p)
    unguarded (failed_with fault, p) = (raised fault, p)

    -- `result.state == 'pending' and r.get('legacy')`: the third call.
    unfoldable pub follow_up : ℕ → Executed × Progress → Ending × Progress
    follow_up n (returned pending, p) =
        if pending && p.legacy
        then and_then (wait_android (looks n) p) (λ q. unguarded (execute n q))
        else (completed, p)
    follow_up n (awaiting, p) = (raised operation_failed, p)
    follow_up n (failed_with fault, p) = (raised fault, p)

    -- The first call, and the second behind Pending.
    unfoldable pub first_call : Executed × Progress → Ending × Progress
    first_call (returned pending, p) = follow_up 1 (returned pending, p)
    first_call (awaiting, p) = and_then (wait_android (looks 1) p) (λ q. follow_up 2 (execute 1 q))
    first_call (failed_with fault, p) = (raised fault, p)

    unfoldable pub carry_out : Progress → Ending × Progress
    carry_out p = first_call (execute 0 (at_stage "prepare" "running" p))

  module _ (is_positive : N → Bool) (units : N → ℕ) (is_block is_boot_id : String → Bool)
      (removal : Progress → Ending × Progress) where
    -- The last two lines of the `try` block.
    unfoldable pub await_openwrt : List Observation → Progress → Ending × Progress
    await_openwrt os p =
        wait_openwrt is_block is_boot_id (job_of order) os
          (openwrt_wait_stage (job_of order) false p)

    unfoldable pub resumes_wait : Progress → Bool
    resumes_wait p =
        is_text (some p.stage) "openwrt_boot"
        || is_text (some p.stage) "verify_capacity"
        || installation_committed order p.legacy

    -- The `try` block; `owned` says that another installer holds one of the two locks.
    unfoldable pub run_body :
        (ℕ → Progress → Executed × Progress)
        → (ℕ → List Look)
        → Bool
        → Probe
        → List Observation
        → Progress
        → Ending × Progress
    run_body execute looks owned probe os p =
        if owned
        then (raised operation_failed, p)
        else if is_uninstall order.choices.method
        then removal p
        else if resumes_wait p
        then await_openwrt os p
        else and_then (admit is_positive units probe (looks 0) p)
            (λ q. and_then (carry_out execute looks q) (await_openwrt os))

    -- The `except` clauses.
    unfoldable pub close_run : Ending × Progress → Ending × Progress
    close_run (raised cancelled, p) = (raised cancelled, at_stage p.stage "cancelled" p)
    close_run (raised fault, p) = (
      raised fault,
      at_stage p.stage "failed" (record p {
        error = some (fault, not p.unsafe || p.legacy || is_uninstall order.choices.method);
      }),
    )
    close_run (e, p) = (e, p)

    unfoldable pub run :
        (ℕ → Progress → Executed × Progress)
        → (ℕ → List Look)
        → Bool
        → Probe
        → List Observation
        → Progress
        → Ending × Progress
    unfolding close_run
    run execute looks owned probe os p = close_run (run_body execute looks owned probe os p)
