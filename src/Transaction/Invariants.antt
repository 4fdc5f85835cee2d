-- ===== src/Transaction/Invariants.antt =====
-- A property of records that every operation on a transaction keeps, on disk and in memory alike.
use e5_linux.Base.{ℕ, Bool, true, false, Option, none, some, List, [], ◌∷◌, Bool-cases, inl, inr}
use e5_linux.Base.Text.{String, ◌==◌}
use e5_linux.Base.Assoc.{lookup}
use e5_linux.Transaction.{
  Effect, started, done, Outcome, returned, raised, died, Tx, Sys, Moment, stamp, save, cancel_in,
  cancel_command, arrive, is_cancelled, begin_record, finish_record, finish_effect, run_effect,
  try_effect, decide_effect, effect_in, effect, resume, stage_record, stage_in, stage,
}
use e5_linux.Transaction.Once.{Action, attempt, cancel, resumed, staged, step, run}

-- The entry does not hold a result.
abbrev pub NotDone : {R : Type 0} → Option (Effect R) → Type 0
NotDone none = Unit {0}
NotDone (some (started t)) = Unit {0}
NotDone (some (done t v)) = ⊥

-- A property `P` of records that every change of a record keeps, where operations run only under
-- names with `Q`.
module _ {R : Type 0} (P : Tx R → Type 0) (Q : String → Type 0) where
  pub record IsKept : Type 0 where
    pub stamped : (now : ℕ) (r : Tx R) → P r → P (stamp now r)
    pub asked : (wish : Bool) (r : Tx R) → P r → P (record r { cancel_requested = wish })
    pub runs : (name : String) (r : Tx R) → P r → NotDone (lookup name r.effects) → Q name
    pub begun :
        (name : String) (retry_safe : Bool) (now : ℕ) (r : Tx R)
        → Q name
        → P r
        → P (begin_record name retry_safe now r)
    pub finished :
        (name : String) (value : R) (now : ℕ) (r : Tx R)
        → Q name
        → P r
        → P (finish_record name value now r)
    pub staged_on :
        (now : ℕ) (name status : String) (tool : Option String) (r : Tx R)
        → P r
        → P (stage_record now name status tool r)

  abbrev pub HeldIn : Option (Tx R) → Type 0
  HeldIn none = Unit {0}
  HeldIn (some r) = P r

  -- `P` of the file, and of the record in memory.
  pub record IsHeld (s : Sys R) : Type 0 where
    pub on_disk : P s.disk
    pub in_memory : HeldIn s.memory

  module _ (k : IsKept) where
    save-IsHeld : (now : ℕ) (r : Tx R) (s : Sys R) → P r → IsHeld (save now r s)
    unfolding save
    save-IsHeld now r s p = record { on_disk = k.stamped now r p; in_memory = k.stamped now r p }

    cancel_in-IsHeld :
        (now : ℕ) (o : Option (Tx R)) (s : Sys R) → HeldIn o → IsHeld s → IsHeld (cancel_in now o s)
    unfolding cancel_in
    cancel_in-IsHeld now none s p h = h
    cancel_in-IsHeld now (some r) s p h =
        save-IsHeld now (record r { cancel_requested = true }) (record s { cancel = true })
          (k.asked true r p)

    pub arrive-IsHeld : (o : Option ℕ) (s : Sys R) → IsHeld s → IsHeld (arrive o s)
    unfolding arrive cancel_command
    arrive-IsHeld none s h = h
    arrive-IsHeld (some now) s h = cancel_in-IsHeld now s.memory s h.in_memory h

    finish_effect-IsHeld :
        (name : String) (m : Moment) (value : R) (o : Option (Tx R)) (s : Sys R)
        → Q name
        → HeldIn o
        → IsHeld s
        → IsHeld (finish_effect name m value o s).1
    unfolding finish_effect
    finish_effect-IsHeld name m value none s q p h = h
    finish_effect-IsHeld name m value (some r) s q p h =
        save-IsHeld m.resaved (finish_record name value m.ended r) s
          (k.finished name value m.ended r q p)

    run_effect-IsHeld :
        (name : String) (retry_safe : Bool) (m : Moment) (outcome : Outcome R) (r : Tx R)
        (s : Sys R)
        → Q name
        → P r
        → IsHeld (run_effect name retry_safe m outcome r s).1
    unfolding run_effect
    run_effect-IsHeld name retry_safe m outcome r s q p =
        let saved : IsHeld (save m.saved (begin_record name retry_safe m.begun r) s) =
          save-IsHeld m.saved (begin_record name retry_safe m.begun r) s
            (k.begun name retry_safe m.begun r q p) in
        by_outcome outcome saved
      where
        running : Sys R
        running =
            let s' : Sys R = save m.saved (begin_record name retry_safe m.begun r) s in
            record s' { ran = name ∷ s'.ran }

        by_outcome :
            (outcome : Outcome R)
            → IsHeld (save m.saved (begin_record name retry_safe m.begun r) s)
            → IsHeld (run_effect name retry_safe m outcome r s).1
        by_outcome (returned value) h =
            let after =
              arrive-IsHeld m.cancel_during running
                (record { on_disk = h.on_disk; in_memory = h.in_memory }) in
            finish_effect-IsHeld name m value _ _ q after.in_memory after
        by_outcome raised h =
            arrive-IsHeld m.cancel_during running
              (record { on_disk = h.on_disk; in_memory = h.in_memory })
        by_outcome died h = record { on_disk = h.on_disk; in_memory = tt }

    try_effect-IsHeld :
        (name : String) (retry_safe : Bool) (m : Moment) (outcome : Outcome R) (r : Tx R)
        (s : Sys R)
        → Q name
        → P r
        → IsHeld s
        → IsHeld (try_effect name retry_safe m outcome r s).1
    unfolding try_effect
    try_effect-IsHeld name retry_safe m outcome r s q p h = elim (Bool-cases (is_cancelled r s)) [
      | inl stop ↦ rw stop h
      | inr on ↦ rw on (run_effect-IsHeld name retry_safe m outcome r s q p)
    ]

    decide_effect-IsHeld :
        (entry : Option (Effect R)) (name : String) (retry_safe : Bool) (m : Moment)
        (outcome : Outcome R) (r : Tx R) (s : Sys R)
        → (NotDone entry → Q name)
        → P r
        → IsHeld s
        → IsHeld (decide_effect entry name retry_safe m outcome r s).1
    unfolding decide_effect
    decide_effect-IsHeld (some (done at v)) name retry_safe m outcome r s q p h = h
    decide_effect-IsHeld (some (started at)) name true m outcome r s q p h =
        try_effect-IsHeld name true m outcome r s (q tt) p h
    decide_effect-IsHeld (some (started at)) name false m outcome r s q p h = h
    decide_effect-IsHeld none name retry_safe m outcome r s q p h =
        try_effect-IsHeld name retry_safe m outcome r s (q tt) p h

    effect_in-IsHeld :
        (name : String) (retry_safe : Bool) (m : Moment) (outcome : Outcome R) (o : Option (Tx R))
        (s : Sys R)
        → HeldIn o
        → IsHeld s
        → IsHeld (effect_in name retry_safe m outcome o s).1
    unfolding effect_in
    effect_in-IsHeld name retry_safe m outcome none s p h = h
    effect_in-IsHeld name retry_safe m outcome (some r) s p h =
        decide_effect-IsHeld (lookup name r.effects) name retry_safe m outcome r s (k.runs name r p)
          p h

    stage_in-IsHeld :
        (now saved : ℕ) (name status : String) (tool : Option String) (o : Option (Tx R))
        (s : Sys R)
        → HeldIn o
        → IsHeld s
        → IsHeld (stage_in now saved name status tool o s)
    unfolding stage_in
    stage_in-IsHeld now saved name status tool none s p h = h
    stage_in-IsHeld now saved name status tool (some r) s p h =
        save-IsHeld saved (stage_record now name status tool r) s
          (k.staged_on now name status tool r p)

    resume-IsHeld : (now : ℕ) (s : Sys R) → IsHeld s → IsHeld (resume now s)
    unfolding resume
    resume-IsHeld now s h = elim (Bool-cases (s.disk.status == "completed")) [
      | inl over ↦ rw over h
      | inr open_still ↦
          let loaded : P (stamp now s.disk) = k.stamped now s.disk h.on_disk in
          rw open_still
            (record { on_disk = loaded; in_memory = k.asked false (stamp now s.disk) loaded })
    ]

    step-IsHeld : (a : Action R) (s : Sys R) → IsHeld s → IsHeld (step a s)
    unfolding step effect stage cancel_command
    step-IsHeld (attempt name retry_safe m outcome) s h =
        let early = arrive-IsHeld m.cancel_before s h in
        effect_in-IsHeld name retry_safe m outcome _ _ early.in_memory early
    step-IsHeld (cancel now) s h = cancel_in-IsHeld now s.memory s h.in_memory h
    step-IsHeld (resumed now) s h = resume-IsHeld now s h
    step-IsHeld (staged now saved name status tool) s h =
        stage_in-IsHeld now saved name status tool s.memory s h.in_memory h

    pub run-IsHeld : (actions : List (Action R)) (s : Sys R) → IsHeld s → IsHeld (run actions s)
    unfolding run
    run-IsHeld [] s h = h
    run-IsHeld (a ∷ actions) s h = run-IsHeld actions (step a s) (step-IsHeld a s h)
