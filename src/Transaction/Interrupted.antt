-- ===== src/Transaction/Interrupted.antt =====
-- An operation of installer/backend/state.py that is not safe to repeat and was interrupted.
use e5_linux.Base.{
  ℕ, ◌≡◌, ◌≢◌, refl, ◌∙◌, true, false, Option, none, some, List, [], ◌∷◌, All, Bool-cases, inl, inr,
}
use e5_linux.Base.Text.{String, ◌==◌, eq_refl}
use e5_linux.Base.Assoc.{lookup, lookup-insert}
use e5_linux.Transaction.{
  Effect, started, done, Outcome, returned, raised, died, Tx, Sys, Moment, stamp, save, cancel_in,
  cancel_command, arrive, is_cancelled, begin_record, run_effect, try_effect, decide_effect,
  effect_in, effect, resume, stage_record, stage_in, stage,
}
use e5_linux.Transaction.Once.{Action, attempt, cancel, resumed, staged, step, run}

module _ {R : Type 0} where
  -- The operation of this name has started, has no result, and is not safe to repeat.
  abbrev pub IsOpen : String → Tx R → Type 0
  IsOpen name r = (r.unsafe ≡ true) × (t : ℕ) × (lookup name r.effects ≡ some (started t))

  abbrev OpenIn : String → Option (Tx R) → Type 0
  OpenIn name none = Unit {0}
  OpenIn name (some r) = IsOpen name r

  record IsStuck (name : String) (s : Sys R) : Type 0 where
    on_disk : IsOpen name s.disk
    in_memory : OpenIn name s.memory

  cancel_in-IsStuck :
      (name : String) (now : ℕ) (o : Option (Tx R)) (s : Sys R)
      → OpenIn name o
      → IsStuck name s
      → IsStuck name (cancel_in now o s)
  unfolding cancel_in save stamp
  cancel_in-IsStuck name now none s p h = h
  cancel_in-IsStuck name now (some r) s p h = record { on_disk = p; in_memory = p }

  arrive-IsStuck :
      (name : String) (o : Option ℕ) (s : Sys R) → IsStuck name s → IsStuck name (arrive o s)
  unfolding arrive cancel_command
  arrive-IsStuck name none s h = h
  arrive-IsStuck name (some now) s h = cancel_in-IsStuck name now s.memory s h.in_memory h

  stage_in-IsStuck :
      (name : String) (now saved : ℕ) (stage status : String) (tool : Option String)
      (o : Option (Tx R)) (s : Sys R)
      → OpenIn name o
      → IsStuck name s
      → IsStuck name (stage_in now saved stage status tool o s)
  unfolding stage_in save stamp stage_record
  stage_in-IsStuck name now saved stage status tool none s p h = h
  stage_in-IsStuck name now saved stage status tool (some r) s p h = record {
    on_disk = p;
    in_memory = p;
  }

  resume-IsStuck :
      (name : String) (now : ℕ) (s : Sys R) → IsStuck name s → IsStuck name (resume now s)
  unfolding resume stamp
  resume-IsStuck name now s h = elim (Bool-cases (s.disk.status == "completed")) [
    | inl over ↦ rw over h
    | inr left ↦ rw left (record { on_disk = h.on_disk; in_memory = h.on_disk })
  ]

  -- Another call is refused.
  effect_in-IsStuck :
      (name : String) (m : Moment) (outcome : Outcome R) (o : Option (Tx R)) (s : Sys R)
      → OpenIn name o
      → IsStuck name s
      → IsStuck name (effect_in name false m outcome o s).1
  unfolding effect_in decide_effect
  effect_in-IsStuck name m outcome none s p h = h
  effect_in-IsStuck name m outcome (some r) s (flag, t, e) h = rw e h

  -- Anything but a call of `effect`, or a call of this name that is not safe to repeat.
  abbrev pub IsSameWork : String → Action R → Type 0
  IsSameWork name (attempt n retry_safe m outcome) = (n ≡ name) × (retry_safe ≡ false)
  IsSameWork name (cancel now) = Unit {0}
  IsSameWork name (resumed now) = Unit {0}
  IsSameWork name (staged now saved stage status tool) = Unit {0}

  step-IsStuck :
      (name : String) (a : Action R) (s : Sys R)
      → IsSameWork name a
      → IsStuck name s
      → IsStuck name (step a s)
  unfolding step effect stage cancel_command
  step-IsStuck name (attempt n retry_safe m outcome) s (same, careful) h =
      rw (same, careful)
        (let early = arrive-IsStuck name m.cancel_before s h in
          effect_in-IsStuck name m outcome _ _ early.in_memory early)
  step-IsStuck name (cancel now) s q h = cancel_in-IsStuck name now s.memory s h.in_memory h
  step-IsStuck name (resumed now) s q h = resume-IsStuck name now s h
  step-IsStuck name (staged now saved stage status tool) s q h =
      stage_in-IsStuck name now saved stage status tool s.memory s h.in_memory h

  run-IsStuck :
      (name : String) (actions : List (Action R)) (s : Sys R)
      → All (IsSameWork name) actions
      → IsStuck name s
      → IsStuck name (run actions s)
  unfolding run
  run-IsStuck name [] s qs h = h
  run-IsStuck name (a ∷ actions) s (q, qs) h =
      run-IsStuck name actions (step a s) qs (step-IsStuck name a s q h)

  -- It raises, or the process dies in it.
  abbrev pub IsInterrupted : Outcome R → Type 0
  IsInterrupted (returned value) = ⊥
  IsInterrupted raised = Unit {0}
  IsInterrupted died = Unit {0}

  run_effect-IsStuck :
      (name : String) (m : Moment) (outcome : Outcome R) (r : Tx R) (s : Sys R)
      → IsInterrupted outcome
      → IsStuck name (run_effect name false m outcome r s).1
  unfolding run_effect save stamp begin_record
  run_effect-IsStuck name m outcome r s i = by_outcome outcome i
    where
      begun : Tx R
      begun = stamp m.saved (begin_record name false m.begun r)

      open_now : IsOpen name begun
      open_now = (refl, m.begun, rw lookup-insert (rw (eq_refl name) refl))

      running : Sys R
      running = record s { disk = begun; memory = some begun; ran = name ∷ s.ran }

      by_outcome :
          (outcome : Outcome R)
          → IsInterrupted outcome
          → IsStuck name (run_effect name false m outcome r s).1
      by_outcome (returned value) i = absurd i
      by_outcome raised i =
          arrive-IsStuck name m.cancel_during running
            (record { on_disk = open_now; in_memory = open_now })
      by_outcome died i = record { on_disk = open_now; in_memory = tt }

  try_effect-IsStuck :
      (name : String) (m : Moment) (outcome : Outcome R) (r : Tx R) (s : Sys R)
      → IsInterrupted outcome
      → (try_effect name false m outcome r s).1.ran ≢ s.ran
      → IsStuck name (try_effect name false m outcome r s).1
  unfolding try_effect
  try_effect-IsStuck name m outcome r s i starts = elim (Bool-cases (is_cancelled r s)) [
    | inl stop ↦ absurd (starts (rw stop refl))
    | inr on ↦ rw on (run_effect-IsStuck name m outcome r s i)
  ]

  decide_effect-IsStuck :
      (entry : Option (Effect R)) (name : String) (m : Moment) (outcome : Outcome R) (r : Tx R)
      (s : Sys R)
      → IsInterrupted outcome
      → (decide_effect entry name false m outcome r s).1.ran ≢ s.ran
      → IsStuck name (decide_effect entry name false m outcome r s).1
  unfolding decide_effect
  decide_effect-IsStuck (some (done at value)) name m outcome r s i starts = absurd (starts refl)
  decide_effect-IsStuck (some (started at)) name m outcome r s i starts = absurd (starts refl)
  decide_effect-IsStuck none name m outcome r s i starts =
      try_effect-IsStuck name m outcome r s i starts

  started-IsStuck :
      (name : String) (m : Moment) (outcome : Outcome R) (o : Option (Tx R)) (s : Sys R)
      → IsInterrupted outcome
      → (effect_in name false m outcome o s).1.ran ≢ s.ran
      → IsStuck name (effect_in name false m outcome o s).1
  unfolding effect_in
  started-IsStuck name m outcome none s i starts = absurd (starts refl)
  started-IsStuck name m outcome (some r) s i starts =
      decide_effect-IsStuck (lookup name r.effects) name m outcome r s i starts

  cancel_in-ran : (now : ℕ) (o : Option (Tx R)) (s : Sys R) → (cancel_in now o s).ran ≡ s.ran
  unfolding cancel_in save
  cancel_in-ran now none s = refl
  cancel_in-ran now (some r) s = refl

  arrive-ran : (o : Option ℕ) (s : Sys R) → (arrive o s).ran ≡ s.ran
  unfolding arrive cancel_command
  arrive-ran none s = refl
  arrive-ran (some now) s = cancel_in-ran now s.memory s

  -- When a call of `effect` starts an operation that is not safe to repeat, and it raises or the
  -- process dies in it, then through any later calls for the same operation, which are not safe to
  -- repeat either, and through any cancel and resume commands and stage reports, the file says that
  -- the transaction is unsafe and holds the entry of the operation as started.
  pub effect-IsOpen :
      (name : String) (m : Moment) (outcome : Outcome R) (s : Sys R) (actions : List (Action R))
      → IsInterrupted outcome
      → (effect name false m outcome s).1.ran ≢ s.ran
      → All (IsSameWork name) actions
      → IsOpen name (run actions (effect name false m outcome s).1).disk
  unfolding effect
  effect-IsOpen name m outcome s actions i starts same =
      let early : Sys R = arrive m.cancel_before s in
      let stuck =
        started-IsStuck name m outcome early.memory early i
          (λ e. starts (e ∙ arrive-ran m.cancel_before s)) in
      (run-IsStuck name actions _ same stuck).on_disk
