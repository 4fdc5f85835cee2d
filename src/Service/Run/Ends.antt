-- ===== src/Service/Run/Ends.antt =====
-- How run of installer/backend/service.py leaves the record.
use e5_linux.Base.{ℕ, ◌≡◌, refl, Bool, true, false, not, ◌||◌, if◌then◌else◌, some, List}
use e5_linux.Base.Text.{String}
use e5_linux.Service.{
  Fault, cancelled, recovery_required, capacity_mismatch, operation_failed, Ending, waiting,
  completed, raised, Progress, Observation, openwrt_wait_stage,
}
use e5_linux.Service.Completed.{IsProven, wait_openwrt-IsProven}
use e5_linux.Service.Running.{Order, Probe, Look, Executed, is_uninstall, job_of}
use e5_linux.Service.Run.{
  and_then, admit, carry_out, await_openwrt, resumes_wait, run_body, close_run, run,
}

-- The record says how the run ended.
abbrev pub IsEnd : {N : Type 0} → Order N → List Observation → Ending → Progress → Type 0
IsEnd order os waiting q = Unit {0}
IsEnd order os completed q = IsProven (job_of order) q os
IsEnd order os (raised cancelled) q = q.status ≡ "cancelled"
IsEnd order os (raised fault) q =
    (q.status ≡ "failed")
    × (q.error ≡ some (fault, not q.unsafe || q.legacy || is_uninstall order.choices.method))

module _ {N : Type 0} (order : Order N) (is_positive : N → Bool) (units : N → ℕ)
    (is_block is_boot_id : String → Bool) (removal : Progress → Ending × Progress) where
  IsSettled : List Observation → Ending × Progress → Type 0
  IsSettled os x = (q : Progress) → x ≡ (completed, q) → IsProven (job_of order) q os

  await_openwrt-IsSettled :
      (os : List Observation) (p : Progress)
      → IsSettled os (await_openwrt order is_positive units is_block is_boot_id removal os p)
  unfolding await_openwrt IsSettled
  await_openwrt-IsSettled os p q e =
      wait_openwrt-IsProven is_block is_boot_id (job_of order) os
        (openwrt_wait_stage (job_of order) false p) q e

  and_then-IsSettled :
      (os : List Observation) (x : Ending × Progress) (rest : Progress → Ending × Progress)
      → ((p : Progress) → IsSettled os (rest p))
      → IsSettled os (and_then x rest)
  unfolding and_then IsSettled
  and_then-IsSettled os (waiting, p) rest h q e = cc
  and_then-IsSettled os (completed, p) rest h q e = h p q e
  and_then-IsSettled os (raised f, p) rest h q e = cc

  raised-IsSettled : (os : List Observation) (f : Fault) (p : Progress) → IsSettled os (raised f, p)
  unfolding IsSettled
  raised-IsSettled os f p q e = cc

  if-IsSettled :
      (os : List Observation) (t : Bool) (x y : Ending × Progress)
      → IsSettled os x
      → IsSettled os y
      → IsSettled os (if t then x else y)
  if-IsSettled os true x y hx hy = hx
  if-IsSettled os false x y hx hy = hy

  run_body-IsSettled :
      (execute : ℕ → Progress → Executed × Progress) (looks : ℕ → List Look) (owned : Bool)
      (probe : Probe) (os : List Observation) (p : Progress)
      → is_uninstall order.choices.method ≡ false
      → IsSettled os (
          run_body order is_positive units is_block is_boot_id removal execute looks owned probe os
            p)
  unfolding run_body
  run_body-IsSettled execute looks owned probe os p kept = simp (kept) (
      if-IsSettled os owned _ _ (raised-IsSettled os operation_failed p) (
        if-IsSettled os (resumes_wait order is_positive units is_block is_boot_id removal p) _ _
          (await_openwrt-IsSettled os p)
          (and_then-IsSettled os (admit order is_positive units probe (looks 0) p) _ (λ q.
            and_then-IsSettled os (carry_out order execute looks q) _
              (await_openwrt-IsSettled os)))))

  close_run-IsEnd :
      (os : List Observation) (x : Ending × Progress)
      → IsSettled os x
      → (let y = close_run order is_positive units is_block is_boot_id removal x in
          IsEnd order os y.0 y.1)
  unfolding close_run IsSettled
  close_run-IsEnd os (waiting, p) h = tt
  close_run-IsEnd os (completed, p) h = h p refl
  close_run-IsEnd os (raised cancelled, p) h = refl
  close_run-IsEnd os (raised recovery_required, p) h = (refl, refl)
  close_run-IsEnd os (raised capacity_mismatch, p) h = (refl, refl)
  close_run-IsEnd os (raised operation_failed, p) h = (refl, refl)

  -- A run that does not remove OpenWrt either still waits, or leaves a record that says how it
  -- ended: complete, with a round of the wait that proves it; cancelled; or failed, with the code of
  -- the exception, and retryable unless an unfinished unsafe effect of an installation that is no
  -- legacy one may lie behind it. This holds whatever `execute` does.
  pub run-IsEnd :
      (execute : ℕ → Progress → Executed × Progress) (looks : ℕ → List Look) (owned : Bool)
      (probe : Probe) (os : List Observation) (p : Progress)
      → is_uninstall order.choices.method ≡ false
      → (let y =
            run order is_positive units is_block is_boot_id removal execute looks owned probe os
              p in
          IsEnd order os y.0 y.1)
  unfolding run
  run-IsEnd execute looks owned probe os p kept =
      close_run-IsEnd os _ (run_body-IsSettled execute looks owned probe os p kept)
