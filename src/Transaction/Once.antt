-- ===== src/Transaction/Once.antt =====
-- An operation that is not marked safe to repeat is started at most once, whatever happens between.
use e5_linux.Base.{
  ℕ, ◌+◌, ◌≤◌, ◌≡◌, ◌≢◌, refl, sym, ◌∙◌, ◌⊎◌, inl, inr, Bool, true, false, if◌then◌else◌, Option,
  none, some, List, [], ◌∷◌, All, arith, Bool-cases, Option-cases, subst,
}
use e5_linux.Base.Text.{String, ◌==◌, eq_iff}
use e5_linux.Base.Assoc.{Dict, lookup, insert, lookup-insert}
use e5_linux.Transaction.{
  Effect, started, done, Outcome, returned, raised, died, Tx, Sys, Moment, save, cancel_in,
  cancel_command, arrive, is_cancelled, begin_record, finish_record, finish_effect, run_effect,
  try_effect, decide_effect, effect_in, effect, resume, stage_record, stage_in, stage,
}

-- How often an operation of this name was started.
abbrev pub starts : String → List String → ℕ
starts name [] = 0
starts name (n ∷ ns) = if n == name then starts name ns + 1 else starts name ns

-- What can happen to a transaction: a call of `effect`, the commands, and a stage report.
pub data Action (R : Type 0) : Type 0 where
  attempt : String → Bool → Moment → Outcome R → Action R
  cancel resumed : ℕ → Action R
  staged : ℕ → ℕ → String → String → Option String → Action R

-- The operation of this name is never offered as safe to repeat.
abbrev pub IsCareful : {R : Type 0} → String → Action R → Type 0
IsCareful name (attempt n retry_safe m outcome) = n == name ≡ true → retry_safe ≡ false
IsCareful name (cancel now) = Unit {0}
IsCareful name (resumed now) = Unit {0}
IsCareful name (staged now saved stage status tool) = Unit {0}

module _ {R : Type 0} where
  unfoldable pub step : Action R → Sys R → Sys R
  step (attempt name retry_safe m outcome) s = (effect name retry_safe m outcome s).1
  step (cancel now) s = cancel_command now s
  step (resumed now) s = resume now s
  step (staged now saved name status tool) s = stage now saved name status tool s

  unfoldable pub run : List (Action R) → Sys R → Sys R
  unfolding step
  run [] s = s
  run (a ∷ actions) s = run actions (step a s)

  -- The record in memory has the entry of this name that the file has.
  abbrev pub Agrees : String → Option (Tx R) → Tx R → Type 0
  Agrees name none disk = Unit {0}
  Agrees name (some r) disk = lookup name r.effects ≡ lookup name disk.effects

  -- No operation of this name has started unless the file has its entry, and none has twice.
  pub record IsGuarded (name : String) (s : Sys R) : Type 0 where
    pub agrees : Agrees name s.memory s.disk
    pub fresh : lookup name s.disk.effects ≡ none → starts name s.ran ≡ 0
    pub once : starts name s.ran ≤ 1

  module _ (name : String) where
    -- Saving a record whose entry of this name is the file's.
    save-IsGuarded :
        (now : ℕ) (r : Tx R) (s : Sys R)
        → lookup name r.effects ≡ lookup name s.disk.effects
        → IsGuarded name s
        → IsGuarded name (save now r s)
    unfolding save
    save-IsGuarded now r s e g = record {
      agrees = refl;
      fresh = λ n. g.fresh (sym e ∙ n);
      once = g.once;
    }

    cancel_in-IsGuarded :
        (now : ℕ) (o : Option (Tx R)) (s : Sys R)
        → Agrees name o s.disk
        → IsGuarded name s
        → IsGuarded name (cancel_in now o s)
    unfolding cancel_in
    cancel_in-IsGuarded now none s e g = g
    cancel_in-IsGuarded now (some r) s e g =
        save-IsGuarded now (record r { cancel_requested = true }) (record s { cancel = true }) e
          (record { agrees = g.agrees; fresh = g.fresh; once = g.once })

    arrive-IsGuarded : (o : Option ℕ) (s : Sys R) → IsGuarded name s → IsGuarded name (arrive o s)
    unfolding arrive cancel_command
    arrive-IsGuarded none s g = g
    arrive-IsGuarded (some now) s g = cancel_in-IsGuarded now s.memory s g.agrees g

    stage_in-IsGuarded :
        (now saved : ℕ) (stage status : String) (tool : Option String) (o : Option (Tx R))
        (s : Sys R)
        → Agrees name o s.disk
        → IsGuarded name s
        → IsGuarded name (stage_in now saved stage status tool o s)
    unfolding stage_in stage_record
    stage_in-IsGuarded now saved stage status tool none s e g = g
    stage_in-IsGuarded now saved stage status tool (some r) s e g =
        save-IsGuarded saved (stage_record now stage status tool r) s e g

    resume-IsGuarded : (now : ℕ) (s : Sys R) → IsGuarded name s → IsGuarded name (resume now s)
    unfolding resume
    resume-IsGuarded now s g = elim (Bool-cases (s.disk.status == "completed")) [
      | inl over ↦ rw over g
      | inr open_still ↦ rw open_still (record { agrees = refl; fresh = g.fresh; once = g.once })
    ]

    -- A written entry is there.
    written_entry :
        (n : String) (v : Effect R) (d : Dict (Effect R))
        → n == name ≡ true
        → lookup name (insert n v d) ≡ some v
    written_entry n v d e = rw lookup-insert (rw e)

    other_entry :
        (n : String) (v : Effect R) (d : Dict (Effect R))
        → n == name ≡ false
        → lookup name (insert n v d) ≡ lookup name d
    other_entry n v d e = rw lookup-insert (rw e)

    -- Saving a record with an entry written into what memory held.
    write-IsGuarded :
        (now : ℕ) (n : String) (v : Effect R) (r r' : Tx R) (s : Sys R)
        → r'.effects ≡ insert n v r.effects
        → lookup name r.effects ≡ lookup name s.disk.effects
        → IsGuarded name s
        → IsGuarded name (save now r' s)
    unfolding save
    write-IsGuarded now n v r r' s w e g = record {
      agrees = refl;
      fresh = λ absent. elim (Bool-cases (n == name)) [
        | inl same ↦ cc (written_entry n v r.effects same, rw w at absent)
        | inr other ↦ g.fresh (sym e ∙ sym (other_entry n v r.effects other) ∙ rw w at absent)
      ];
      once = g.once;
    }

    finish_effect-IsGuarded :
        (n : String) (m : Moment) (value : R) (o : Option (Tx R)) (s : Sys R)
        → Agrees name o s.disk
        → IsGuarded name s
        → IsGuarded name (finish_effect n m value o s).1
    unfolding finish_effect
    finish_effect-IsGuarded n m value none s e g = g
    finish_effect-IsGuarded n m value (some r) s e g =
        write-IsGuarded m.resaved n (done m.ended value) r (finish_record n value m.ended r) s
          (unfold finish_record in refl) e g

    -- The operation starts: its entry is on disk first, and it is counted.
    begin-IsGuarded :
        (now saved : ℕ) (n : String) (retry_safe : Bool) (r : Tx R) (s : Sys R)
        → lookup name r.effects ≡ lookup name s.disk.effects
        → (n == name ≡ true → lookup name r.effects ≡ none)
        → IsGuarded name s
        → let s' : Sys R = save saved (begin_record n retry_safe now r) s in
          IsGuarded name (record s' { ran = n ∷ s'.ran })
    unfolding save begin_record
    begin-IsGuarded now saved n retry_safe r s e new g = elim (Bool-cases (n == name)) [
      | inl same ↦
          let zero_so_far : starts name s.ran ≡ 0 = g.fresh (sym e ∙ new same) in
          record {
            agrees = refl;
            fresh = λ absent. cc (written_entry n (started now) r.effects same, absent);
            once = rw same (omega arith);
          }
      | inr other ↦ record {
        agrees = refl;
        fresh = λ absent.
            rw other (g.fresh (sym e ∙ sym (other_entry n (started now) r.effects other) ∙ absent));
        once = rw other g.once;
      }
    ]

    run_effect-IsGuarded :
        (n : String) (retry_safe : Bool) (m : Moment) (outcome : Outcome R) (r : Tx R) (s : Sys R)
        → lookup name r.effects ≡ lookup name s.disk.effects
        → (n == name ≡ true → lookup name r.effects ≡ none)
        → IsGuarded name s
        → IsGuarded name (run_effect n retry_safe m outcome r s).1
    unfolding run_effect
    run_effect-IsGuarded n retry_safe m (returned value) r s e new g =
        let running = begin-IsGuarded m.begun m.saved n retry_safe r s e new g in
        let after = arrive-IsGuarded m.cancel_during _ running in
        finish_effect-IsGuarded n m value _ _ after.agrees after
    run_effect-IsGuarded n retry_safe m raised r s e new g =
        arrive-IsGuarded m.cancel_during _
          (begin-IsGuarded m.begun m.saved n retry_safe r s e new g)
    run_effect-IsGuarded n retry_safe m died r s e new g =
        let running = begin-IsGuarded m.begun m.saved n retry_safe r s e new g in
        record { agrees = tt; fresh = running.fresh; once = running.once }

    try_effect-IsGuarded :
        (n : String) (retry_safe : Bool) (m : Moment) (outcome : Outcome R) (r : Tx R) (s : Sys R)
        → lookup name r.effects ≡ lookup name s.disk.effects
        → (n == name ≡ true → lookup name r.effects ≡ none)
        → IsGuarded name s
        → IsGuarded name (try_effect n retry_safe m outcome r s).1
    unfolding try_effect
    try_effect-IsGuarded n retry_safe m outcome r s e new g = elim (Bool-cases (is_cancelled r s)) [
      | inl stop ↦ rw stop g
      | inr on ↦ rw on (run_effect-IsGuarded n retry_safe m outcome r s e new g)
    ]

    decide_effect-IsGuarded :
        (entry : Option (Effect R)) (n : String) (retry_safe : Bool) (m : Moment)
        (outcome : Outcome R) (r : Tx R) (s : Sys R)
        → lookup n r.effects ≡ entry
        → (n == name ≡ true → retry_safe ≡ false)
        → lookup name r.effects ≡ lookup name s.disk.effects
        → IsGuarded name s
        → IsGuarded name (decide_effect entry n retry_safe m outcome r s).1
    unfolding decide_effect
    decide_effect-IsGuarded (some (done at value)) n retry_safe m outcome r s found careful e g = g
    decide_effect-IsGuarded (some (started at)) n true m outcome r s found careful e g =
        try_effect-IsGuarded n true m outcome r s e (λ same. cc (careful same)) g
    decide_effect-IsGuarded (some (started at)) n false m outcome r s found careful e g = g
    decide_effect-IsGuarded none n retry_safe m outcome r s found careful e g =
        try_effect-IsGuarded n retry_safe m outcome r s e
          (λ same. subst (λ (k : String). lookup k r.effects ≡ none) ((eq_iff n name).0 same) found)
          g

    effect_in-IsGuarded :
        (n : String) (retry_safe : Bool) (m : Moment) (outcome : Outcome R) (o : Option (Tx R))
        (s : Sys R)
        → (n == name ≡ true → retry_safe ≡ false)
        → Agrees name o s.disk
        → IsGuarded name s
        → IsGuarded name (effect_in n retry_safe m outcome o s).1
    unfolding effect_in
    effect_in-IsGuarded n retry_safe m outcome none s careful e g = g
    effect_in-IsGuarded n retry_safe m outcome (some r) s careful e g =
        decide_effect-IsGuarded (lookup n r.effects) n retry_safe m outcome r s refl careful e g

    step-IsGuarded :
        (a : Action R) (s : Sys R) → IsCareful name a → IsGuarded name s → IsGuarded name (step a s)
    unfolding step effect stage cancel_command
    step-IsGuarded (attempt n retry_safe m outcome) s careful g =
        let early = arrive-IsGuarded m.cancel_before s g in
        effect_in-IsGuarded n retry_safe m outcome _ _ careful early.agrees early
    step-IsGuarded (cancel now) s careful g = cancel_in-IsGuarded now s.memory s g.agrees g
    step-IsGuarded (resumed now) s careful g = resume-IsGuarded now s g
    step-IsGuarded (staged now saved stage_name status tool) s careful g =
        stage_in-IsGuarded now saved stage_name status tool s.memory s g.agrees g

    run-IsGuarded :
        (actions : List (Action R)) (s : Sys R)
        → All (IsCareful name) actions
        → IsGuarded name s
        → IsGuarded name (run actions s)
    unfolding run
    run-IsGuarded [] s careful g = g
    run-IsGuarded (a ∷ actions) s (careful, rest) g =
        run-IsGuarded actions (step a s) rest (step-IsGuarded a s careful g)

  -- From a transaction whose operations have not started yet: whatever calls, cancel and resume
  -- commands, stage reports, failures and deaths of the process follow, an operation that is never
  -- offered as safe to repeat is started at most once, and none is started whose entry the file
  -- does not hold.
  pub effect_at_most_once :
      (name : String) (actions : List (Action R)) (s : Sys R)
      → s.ran ≡ []
      → Agrees name s.memory s.disk
      → All (IsCareful name) actions
      → (starts name (run actions s).ran ≤ 1)
        × ((lookup name (run actions s).disk.effects ≢ none)
            ⊎ (starts name (run actions s).ran ≡ 0))
  effect_at_most_once name actions s new agrees careful =
      let g : IsGuarded name (run actions s) =
        run-IsGuarded name actions s careful
          (record { agrees = agrees; fresh = λ n. rw new refl; once = rw new (omega arith) }) in
      (
        g.once,
        elim (Option-cases (lookup name (run actions s).disk.effects)) [
          | inl absent ↦ inr (g.fresh absent)
          | inr (v, there) ↦ inl (λ absent. cc (there, absent))
        ],
      )
