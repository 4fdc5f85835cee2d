-- ===== src/Transaction/Durable.antt =====
-- What the file keeps: a result that was returned once, and a revision that never falls.
use e5_linux.Base.{
  ℕ, ◌≤◌, ◌≡◌, ◌≢◌, refl, sym, ◌∙◌, Bool, true, false, Option, none, some, List, arith, Bool-cases,
  Option-cases, subst, inl, inr,
}
use e5_linux.Base.Text.{String, ◌==◌, eq_iff, eq_refl}
use e5_linux.Base.Assoc.{lookup, insert, lookup-insert}
use e5_linux.Transaction.{
  Effect, started, done, Outcome, returned, raised, died, result, Tx, Sys, Moment, stamp, save,
  cancel_in, cancel_command, arrive, is_cancelled, begin_record, finish_record, finish_effect,
  run_effect, try_effect, decide_effect, effect_in, effect, stage_record,
}
use e5_linux.Transaction.Once.{Action, run, Agrees}
use e5_linux.Transaction.Invariants.{NotDone, IsKept, HeldIn, IsHeld, arrive-IsHeld, run-IsHeld}

abbrev pub IsOther : String → String → Type 0
IsOther name n = n == name ≡ false

module _ {R : Type 0} where
  -- The entry of this name holds this result.
  abbrev pub IsDone : String → R → Tx R → Type 0
  IsDone name value r = (t : ℕ) × (lookup name r.effects ≡ some (done t value))

  keeps_entry :
      (name n : String) (v : Effect R) (value : R) (r : Tx R)
      → IsOther name n
      → IsDone name value r
      → (t : ℕ) × (lookup name (insert n v r.effects) ≡ some (done t value))
  keeps_entry name n v value r other (t, e) = (t, rw lookup-insert (rw other e))

  NotDone-IsOther :
      (name n : String) (value : R) (r : Tx R)
      → IsDone name value r
      → NotDone (lookup n r.effects)
      → IsOther name n
  NotDone-IsOther name n value r (t, e) nd = elim (Bool-cases (n == name)) [
    | inl same ↦ absurd (
        subst NotDone (e)
          (subst (λ (k : String). NotDone (lookup k r.effects)) ((eq_iff n name).0 same) nd))
    | inr other ↦ other
  ]

  IsDone-IsKept : (name : String) (value : R) → IsKept (IsDone name value) (IsOther name)
  unfolding stamp begin_record finish_record stage_record
  IsDone-IsKept name value = record {
    stamped = λ now r p. p;
    asked = λ wish r p. p;
    runs = λ n r p nd. NotDone-IsOther name n value r p nd;
    begun = λ n retry_safe now r other p. keeps_entry name n (started now) value r other p;
    finished = λ n v now r other p. keeps_entry name n (done now v) value r other p;
    staged_on = λ now n status tool r p. p;
  }

  -- A reply with a result comes with the result on disk.
  finish_effect-IsDone :
      (name : String) (m : Moment) (v value : R) (o : Option (Tx R)) (s : Sys R)
      → (finish_effect name m v o s).0 ≡ result value
      → IsHeld (IsDone name value) (IsOther name) (finish_effect name m v o s).1
  unfolding finish_effect
  finish_effect-IsDone name m v value none s e = cc
  finish_effect-IsDone name m v value (some r) s e =
      elim (Bool-cases (
        is_cancelled (finish_record name v m.ended r)
          (save m.resaved (finish_record name v m.ended r) s))) [
            | inl stop ↦ cc (rw stop at e)
            | inr on ↦
                let same : v ≡ value = cc (rw on at e) in
                let here : IsDone name value (finish_record name v m.ended r) =
                  (m.ended, unfold finish_record in rw lookup-insert (rw (eq_refl name, same))) in
                unfold save stamp in record { on_disk = here; in_memory = here }
          ]

  run_effect-IsDone :
      (name : String) (retry_safe : Bool) (m : Moment) (outcome : Outcome R) (value : R) (r : Tx R)
      (s : Sys R)
      → (run_effect name retry_safe m outcome r s).0 ≡ result value
      → IsHeld (IsDone name value) (IsOther name) (run_effect name retry_safe m outcome r s).1
  unfolding run_effect
  run_effect-IsDone name retry_safe m (returned v) value r s e =
      finish_effect-IsDone name m v value _ _ e
  run_effect-IsDone name retry_safe m raised value r s e = cc
  run_effect-IsDone name retry_safe m died value r s e = cc

  try_effect-IsDone :
      (name : String) (retry_safe : Bool) (m : Moment) (outcome : Outcome R) (value : R) (r : Tx R)
      (s : Sys R)
      → (try_effect name retry_safe m outcome r s).0 ≡ result value
      → IsHeld (IsDone name value) (IsOther name) (try_effect name retry_safe m outcome r s).1
  unfolding try_effect
  try_effect-IsDone name retry_safe m outcome value r s e = elim (Bool-cases (is_cancelled r s)) [
    | inl stop ↦ cc (rw stop at e)
    | inr on ↦ rw on (run_effect-IsDone name retry_safe m outcome value r s (rw on at e))
  ]

  decide_effect-IsDone :
      (entry : Option (Effect R)) (name : String) (retry_safe : Bool) (m : Moment)
      (outcome : Outcome R) (value : R) (r : Tx R) (s : Sys R)
      → lookup name r.effects ≡ entry
      → s.memory ≡ some r
      → lookup name r.effects ≡ lookup name s.disk.effects
      → (decide_effect entry name retry_safe m outcome r s).0 ≡ result value
      → IsHeld
          (IsDone name value)
          (IsOther name)
          (decide_effect entry name retry_safe m outcome r s).1
  unfolding decide_effect
  decide_effect-IsDone (some (done at v)) name retry_safe m outcome value r s found here agrees e =
      let same : v ≡ value = cc in
      let entry : lookup name r.effects ≡ some (done at value) = found ∙ rw same refl in
      record {
        on_disk = (at, sym agrees ∙ entry);
        in_memory = subst (HeldIn (IsDone name value) (IsOther name)) (sym here) (at, entry);
      }
  decide_effect-IsDone (some (started at)) name true m outcome value r s found here agrees e =
      try_effect-IsDone name true m outcome value r s e
  decide_effect-IsDone (some (started at)) name false m outcome value r s found here agrees e = cc
  decide_effect-IsDone none name retry_safe m outcome value r s found here agrees e =
      try_effect-IsDone name retry_safe m outcome value r s e

  effect_in-IsDone :
      (name : String) (retry_safe : Bool) (m : Moment) (outcome : Outcome R) (value : R)
      (o : Option (Tx R)) (s : Sys R)
      → s.memory ≡ o
      → Agrees name o s.disk
      → (effect_in name retry_safe m outcome o s).0 ≡ result value
      → IsHeld (IsDone name value) (IsOther name) (effect_in name retry_safe m outcome o s).1
  unfolding effect_in
  effect_in-IsDone name retry_safe m outcome value none s here agrees e = cc
  effect_in-IsDone name retry_safe m outcome value (some r) s here agrees e =
      decide_effect-IsDone (lookup name r.effects) name retry_safe m outcome value r s refl here
        agrees e

  cancel_in-Agrees :
      (name : String) (now : ℕ) (o : Option (Tx R)) (s : Sys R)
      → Agrees name s.memory s.disk
      → Agrees name (cancel_in now o s).memory (cancel_in now o s).disk
  unfolding cancel_in save stamp
  cancel_in-Agrees name now none s g = g
  cancel_in-Agrees name now (some r) s g = refl

  arrive-Agrees :
      (name : String) (o : Option ℕ) (s : Sys R)
      → Agrees name s.memory s.disk
      → Agrees name (arrive o s).memory (arrive o s).disk
  unfolding arrive cancel_command
  arrive-Agrees name none s g = g
  arrive-Agrees name (some now) s g = cancel_in-Agrees name now s.memory s g

  -- A done entry in memory answers a call.
  effect_in_skips :
      (name : String) (retry_safe : Bool) (m : Moment) (outcome : Outcome R) (value : R)
      (o : Option (Tx R)) (r : Tx R) (s : Sys R)
      → o ≡ some r
      → HeldIn (IsDone name value) (IsOther name) o
      → effect_in name retry_safe m outcome o s ≡ (result value, s)
  unfolding effect_in
  effect_in_skips name retry_safe m outcome value none r s e h = cc
  effect_in_skips name retry_safe m outcome value (some r') r s e (t, there) =
      rw there (unfold decide_effect in refl)

  cancel_in-memory :
      (now : ℕ) (o : Option (Tx R)) (s : Sys R)
      → s.memory ≡ o
      → o ≢ none
      → (r : Tx R) × ((cancel_in now o s).memory ≡ some r)
  unfolding cancel_in save
  cancel_in-memory now none s e n = absurd (n refl)
  cancel_in-memory now (some r) s e n = (stamp now (record r { cancel_requested = true }), refl)

  arrive-memory :
      (o : Option ℕ) (s : Sys R) → s.memory ≢ none → (r : Tx R) × ((arrive o s).memory ≡ some r)
  unfolding arrive cancel_command
  arrive-memory none s n = elim (Option-cases s.memory) [
    | inl gone ↦ absurd (n gone)
    | inr (r, here) ↦ (r, here)
  ]
  arrive-memory (some now) s n = cancel_in-memory now s.memory s refl n

  -- Once a call of `effect` has returned a result, then after any further calls, commands, stage
  -- reports, failures and deaths of the process, every call of that name by a process that holds
  -- the record returns the same result, starts no operation, and changes nothing but to take in a
  -- cancel command that arrives first.
  pub effect_never_repeats :
      (name : String) (first again : Bool) (m m' : Moment) (outcome outcome' : Outcome R)
      (value : R) (s : Sys R) (actions : List (Action R))
      → Agrees name s.memory s.disk
      → (effect name first m outcome s).0 ≡ result value
      → (run actions (effect name first m outcome s).1).memory ≢ none
      → let later : Sys R = run actions (effect name first m outcome s).1 in
        effect name again m' outcome' later ≡ (result value, arrive m'.cancel_before later)
  unfolding effect
  effect_never_repeats name first again m m' outcome outcome' value s actions agrees e alive =
      let early : Sys R = arrive m.cancel_before s in
      let once : IsHeld (IsDone name value) (IsOther name)
          (effect_in name first m outcome early.memory early).1 =
        effect_in-IsDone name first m outcome value early.memory early refl
          (arrive-Agrees name m.cancel_before s agrees) e in
      let kept =
        run-IsHeld (IsDone name value) (IsOther name) (IsDone-IsKept name value) actions _ once in
      let now =
        arrive-IsHeld (IsDone name value) (IsOther name) (IsDone-IsKept name value) m'.cancel_before
          _ kept in
      let (r, here) = arrive-memory m'.cancel_before _ alive in
      effect_in_skips name again m' outcome' value _ r _ here now.in_memory

  -- A record that is not older than revision `n`.
  abbrev pub AtLeast : ℕ → Tx R → Type 0
  AtLeast n r = n ≤ r.revision

  AtLeast-IsKept : (n : ℕ) → IsKept (AtLeast n) (λ name. Unit {0})
  unfolding stamp begin_record finish_record stage_record
  AtLeast-IsKept n = record {
    stamped = λ now r p. omega arith;
    asked = λ wish r p. p;
    runs = λ name r p nd. tt;
    begun = λ name retry_safe now r q p. p;
    finished = λ name v now r q p. p;
    staged_on = λ now name status tool r p. p;
  }

  -- If the record in memory, where there is one, is not older than the file, then whatever follows,
  -- the revision on disk does not fall below what it was.
  pub run-revision_mono :
      (s : Sys R) (actions : List (Action R))
      → HeldIn (AtLeast s.disk.revision) (λ name. Unit {0}) s.memory
      → s.disk.revision ≤ (run actions s).disk.revision
  run-revision_mono s actions h =
      (run-IsHeld (AtLeast s.disk.revision) (λ name. Unit {0}) (AtLeast-IsKept s.disk.revision)
        actions s (record { on_disk = omega arith; in_memory = h })).on_disk
