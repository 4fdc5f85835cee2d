-- ===== src/Transaction/Examples.antt =====
-- A transaction with one careful operation, tried, lost to a power cut, and tried again.
use e5_linux.Base.{ℕ, ◌≤◌, ◌≡◌, ◌≢◌, refl, ◌⊎◌, true, false, none, some, List, [], ◌∷◌}
use e5_linux.Base.Assoc.{lookup, insert}
use e5_linux.Transaction.{
  started, returned, raised, died, result, Tx, Sys, Moment, stamp, save, cancel_in, cancel_command,
  arrive, is_cancelled, begin_record, finish_record, finish_effect, run_effect, try_effect,
  decide_effect, effect_in, effect, resume,
}
use e5_linux.Transaction.Once.{
  Action, attempt, cancel, resumed, starts, run, step, effect_at_most_once,
}
use e5_linux.Transaction.Durable.{effect_never_repeats}
use e5_linux.Transaction.Unsafe.{IsFlagged, run-unsafe}
use e5_linux.Transaction.Interrupted.{IsOpen, effect-IsOpen}

abbrev record_1 : Tx ℕ
record_1 = record {
  revision = 1;
  updated = 100;
  status = "ready";
  stage_name = "plan";
  tool = none;
  stage_started_at = none;
  stage_finished_at = none;
  effects = [];
  completed = [];
  unsafe = false;
  cancel_requested = false;
}

abbrev system : Sys ℕ
system = record { disk = record_1; memory = some record_1; cancel = false; ran = [] }

abbrev moment : Moment
moment = record {
  begun = 101;
  saved = 102;
  ended = 103;
  resaved = 104;
  cancel_before = none;
  cancel_during = none;
}

-- The first write dies; the process comes back and tries the write again.
abbrev lost : List (Action ℕ)
lost =
    attempt "misc-trial" false moment died
    ∷ resumed 110
    ∷ attempt "misc-trial" false moment (returned 7)
    ∷ []

effect_at_most_once_example :
    (starts "misc-trial" (run lost system).ran ≤ 1)
    × ((lookup "misc-trial" (run lost system).disk.effects ≢ none)
        ⊎ (starts "misc-trial" (run lost system).ran ≡ 0))
effect_at_most_once_example =
    effect_at_most_once "misc-trial" lost system refl refl ((λ e. refl), (tt, ((λ e. refl), tt)))

-- The write returns; the user cancels, resumes, and the write is asked for again.
abbrev later : List (Action ℕ)
later = cancel 105 ∷ resumed 110 ∷ []

effect_never_repeats_example :
    effect "misc-trial" true moment raised
      (run later (effect "misc-trial" false moment (returned 7) system).1)
    ≡ (result 7, arrive none (run later (effect "misc-trial" false moment (returned 7) system).1))
unfolding effect arrive effect_in decide_effect try_effect run_effect finish_effect is_cancelled
    save stamp begin_record finish_record run step cancel_command cancel_in resume lookup
effect_never_repeats_example =
    effect_never_repeats "misc-trial" false true moment moment (returned 7) raised 7 system later
      refl refl (λ e. cc)

-- An interrupted careful write is on record when a read that is safe to repeat completes.
abbrev interrupted : Tx ℕ
interrupted = record record_1 { effects = ("root-image", started 50) ∷ []; unsafe = true }

abbrev after_crash : Sys ℕ
after_crash = record { disk = interrupted; memory = some interrupted; cancel = false; ran = [] }

-- Then the flag is not set any more, and the interrupted write is still there.
flag_lost :
    ((effect "probe" true moment (returned 7) after_crash).1.disk.unsafe ≡ false)
    × (lookup "root-image" (effect "probe" true moment (returned 7) after_crash).1.disk.effects
        ≡ some (started 50))
unfolding effect arrive effect_in decide_effect try_effect run_effect finish_effect is_cancelled
    save stamp begin_record finish_record lookup insert
flag_lost = (refl, refl)

flagged : IsFlagged interrupted
unfolding lookup
flagged = λ flag. ("root-image", 50, refl)

run-unsafe_example : IsFlagged (run (resumed 110 ∷ lost) after_crash).disk
run-unsafe_example = run-unsafe after_crash (resumed 110 ∷ lost) flagged flagged

-- The write dies, and comes back to be refused, with a cancel command behind it.
effect-IsOpen_example :
    IsOpen "misc-trial"
      (run
        (resumed 110 ∷ attempt "misc-trial" false moment (returned 7) ∷ cancel 120 ∷ [])
        (effect "misc-trial" false moment died system).1).disk
unfolding effect arrive effect_in decide_effect try_effect run_effect is_cancelled lookup
effect-IsOpen_example =
    effect-IsOpen "misc-trial" moment died system
      (resumed 110 ∷ attempt "misc-trial" false moment (returned 7) ∷ cancel 120 ∷ []) tt (λ e. cc)
      (tt, ((refl, refl), (tt, tt)))
