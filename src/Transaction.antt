-- ===== src/Transaction.antt =====
-- The persisted transaction of installer/backend/state.py: Store.save, Context.boundary,
-- Context.effect and Context.stage, with the cancel and resume commands of
-- installer/backend/service.py. One transaction is followed; its file is the field `disk`. Emitted
-- events and the debug log change no state and are left out.
pub mod Once
pub mod Invariants
pub mod Durable
pub mod Unsafe
pub mod Interrupted
mod Examples
use e5_linux.Base.Assoc.{Dict, lookup, insert, append_new}
use e5_linux.Base.{
  ℕ, ◌+◌, Bool, true, false, ◌&&◌, ◌||◌, not, if◌then◌else◌, Option, none, some, List, [], ◌∷◌,
}
use e5_linux.Base.Text.{String, ◌==◌}

-- An entry of record['effects']: its state with the time of writing and the result.
pub data Effect (R : Type 0) : Type 0 where
  started : ℕ → Effect R
  done : ℕ → R → Effect R

-- What `operation()` does: it returns, raises, or the process dies in it.
pub data Outcome (R : Type 0) : Type 0 where
  returned : R → Outcome R
  raised died : Outcome R

-- How a call of `effect` ends.
pub data Reply (R : Type 0) : Type 0 where
  result : R → Reply R
  recovery_required cancelled operation_failed process_gone : Reply R

-- The fields of a transaction record that these operations read or write; the times of `stage`
-- are absent where the key is.
pub record Tx (R : Type 0) : Type 0 where
  pub revision : ℕ
  pub updated : ℕ
  pub status : String
  pub stage_name : String
  pub tool : Option String
  pub stage_started_at : Option ℕ
  pub stage_finished_at : Option ℕ
  pub effects : Dict (Effect R)
  pub completed : List String
  pub unsafe : Bool
  pub cancel_requested : Bool

-- The file, the record in the memory of the process if one runs the transaction, the context's own
-- cancel flag, and a history of the operations that were started, newest first.
pub record Sys (R : Type 0) : Type 0 where
  pub disk : Tx R
  pub memory : Option (Tx R)
  pub cancel : Bool
  pub ran : List String

-- What surrounds one call: the clock's readings, and when a cancel command arrives, if one does,
-- before the call's first check and during the operation.
pub record Moment : Type 0 where
  pub begun : ℕ
  pub saved : ℕ
  pub ended : ℕ
  pub resaved : ℕ
  pub cancel_before : Option ℕ
  pub cancel_during : Option ℕ

-- `status in ('ready', 'failed', 'cancelled')`, and the two other sets that `stage` tests.
abbrev pub is_rest : String → Bool
is_rest status = status == "ready" || status == "failed" || status == "cancelled"

abbrev pub is_active : String → Bool
is_active status = status == "running" || status == "waiting_user" || status == "waiting_device"

abbrev pub is_end : String → Bool
is_end status = status == "completed" || status == "failed" || status == "cancelled"

-- `details.get('tool') == previous.get('details', {}).get('tool')`
abbrev pub same_tool : Option String → Option String → Bool
same_tool none none = true
same_tool (some x) (some y) = x == y
same_tool _ _ = false

module _ {R : Type 0} where
  -- Store.save: the revision grows and the file is replaced by the record.
  unfoldable pub stamp : ℕ → Tx R → Tx R
  stamp now r = record r { revision = r.revision + 1; updated = now }

  unfoldable pub save : ℕ → Tx R → Sys R → Sys R
  unfolding stamp
  save now r s = record s { disk = stamp now r; memory = some (stamp now r) }

  -- The cancel command of Service.dispatch, from the thread that serves commands.
  unfoldable pub cancel_in : ℕ → Option (Tx R) → Sys R → Sys R
  cancel_in now none s = s
  cancel_in now (some r) s =
      save now (record r { cancel_requested = true }) (record s { cancel = true })

  unfoldable pub cancel_command : ℕ → Sys R → Sys R
  cancel_command now s = cancel_in now s.memory s

  unfoldable pub arrive : Option ℕ → Sys R → Sys R
  arrive none s = s
  arrive (some now) s = cancel_command now s

  -- Context.boundary raises Cancelled.
  unfoldable pub is_cancelled : Tx R → Sys R → Bool
  is_cancelled r s = s.cancel || r.cancel_requested

  -- The record that is saved before the operation, and the one after it.
  unfoldable pub begin_record : String → Bool → ℕ → Tx R → Tx R
  begin_record name retry_safe now r = record r {
    effects = insert name (started now) r.effects;
    unsafe = not retry_safe;
  }

  unfoldable pub finish_record : String → R → ℕ → Tx R → Tx R
  finish_record name value now r = record r {
    effects = insert name (done now value) r.effects;
    unsafe = false;
    completed = append_new name r.completed;
  }

  -- From `result = operation()` on; the record in memory is read again, since a cancel command may
  -- have changed it.
  unfoldable pub finish_effect : String → Moment → R → Option (Tx R) → Sys R → Reply R × Sys R
  finish_effect name m value none s = (process_gone, s)
  finish_effect name m value (some r) s =
      let r' : Tx R = finish_record name value m.ended r in
      let s' : Sys R = save m.resaved r' s in
      (if is_cancelled r' s' then cancelled else result value, s')

  unfoldable pub run_effect : String → Bool → Moment → Outcome R → Tx R → Sys R → Reply R × Sys R
  run_effect name retry_safe m outcome r s =
      let s' : Sys R = save m.saved (begin_record name retry_safe m.begun r) s in
      let running : Sys R = record s' { ran = name ∷ s'.ran } in
      elim outcome [
        | returned value ↦
            let after : Sys R = arrive m.cancel_during running in
            finish_effect name m value after.memory after
        | raised ↦ (operation_failed, arrive m.cancel_during running)
        | died ↦ (process_gone, record running { memory = none })
      ]

  -- Past the test on the entry: the boundary, then the operation.
  unfoldable pub try_effect : String → Bool → Moment → Outcome R → Tx R → Sys R → Reply R × Sys R
  try_effect name retry_safe m outcome r s =
      if is_cancelled r s then (cancelled, s) else run_effect name retry_safe m outcome r s

  unfoldable pub decide_effect :
      Option (Effect R) → String → Bool → Moment → Outcome R → Tx R → Sys R → Reply R × Sys R
  decide_effect (some (done at value)) name retry_safe m outcome r s = (result value, s)
  decide_effect (some (started at)) name retry_safe m outcome r s =
      if retry_safe then try_effect name retry_safe m outcome r s else (recovery_required, s)
  decide_effect none name retry_safe m outcome r s = try_effect name retry_safe m outcome r s

  -- Context.effect
  unfoldable pub effect_in :
      String → Bool → Moment → Outcome R → Option (Tx R) → Sys R → Reply R × Sys R
  effect_in name retry_safe m outcome none s = (process_gone, s)
  effect_in name retry_safe m outcome (some r) s =
      decide_effect (lookup name r.effects) name retry_safe m outcome r s

  unfoldable pub effect : String → Bool → Moment → Outcome R → Sys R → Reply R × Sys R
  effect name retry_safe m outcome s =
      let s' : Sys R = arrive m.cancel_before s in effect_in name retry_safe m outcome s'.memory s'

  -- The start, resume and retry commands: a completed transaction is only shown; any other is
  -- loaded and saved once more, and then the request to cancel is dropped in memory only.
  unfoldable pub resume : ℕ → Sys R → Sys R
  unfolding stamp
  resume now s = if s.disk.status == "completed" then s else record s {
    disk = stamp now s.disk;
    memory = some (record (stamp now s.disk) { cancel_requested = false });
    cancel = false;
  }

  -- Context.stage, with the `tool` of its details: whether the clock of the stage starts anew, and
  -- the times that the record keeps.
  unfoldable pub restarts : String → String → Option String → Tx R → Bool
  restarts stage status tool r =
      ((not (stage == r.stage_name) || not (same_tool tool r.tool)) && not (stage == "complete"))
      || (is_rest r.status && is_active status)

  unfoldable pub stage_record : ℕ → String → String → Option String → Tx R → Tx R
  unfolding restarts
  stage_record now stage status tool r = record r {
    status = status;
    stage_name = stage;
    tool = tool;
    stage_started_at =
        if restarts stage status tool r
        then some now
        else elim r.stage_started_at [ none ↦ some r.updated | some t ↦ some t ];
    stage_finished_at = if is_end status then some now else none;
  }

  unfoldable pub stage_in : ℕ → ℕ → String → String → Option String → Option (Tx R) → Sys R → Sys R
  stage_in now saved name status tool none s = s
  stage_in now saved name status tool (some r) s =
      save saved (stage_record now name status tool r) s

  unfoldable pub stage : ℕ → ℕ → String → String → Option String → Sys R → Sys R
  stage now saved name status tool s = stage_in now saved name status tool s.memory s
