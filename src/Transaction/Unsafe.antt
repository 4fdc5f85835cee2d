-- ===== src/Transaction/Unsafe.antt =====
-- The flag `unsafe` of installer/backend/state.py, by which a failure is offered for a retry.
use e5_linux.Base.{ℕ, ◌≡◌, refl, true, some, List}
use e5_linux.Base.Text.{String, eq_refl}
use e5_linux.Base.Assoc.{lookup, lookup-insert}
use e5_linux.Transaction.{started, Tx, Sys, stamp, begin_record, finish_record, stage_record}
use e5_linux.Transaction.Once.{Action, run}
use e5_linux.Transaction.Invariants.{IsKept, HeldIn, run-IsHeld}

module _ {R : Type 0} where
  -- If the flag is set, an operation has started and its entry holds no result.
  abbrev pub IsFlagged : Tx R → Type 0
  IsFlagged r =
      r.unsafe ≡ true → (name : String) × (t : ℕ) × (lookup name r.effects ≡ some (started t))

  IsFlagged-IsKept : IsKept IsFlagged (λ name. Unit {0})
  unfolding stamp begin_record finish_record stage_record
  IsFlagged-IsKept = record {
    stamped = λ now r p. p;
    asked = λ wish r p. p;
    runs = λ name r p nd. tt;
    begun =
        λ name retry_safe now r q p flag. (name, now, rw lookup-insert (rw (eq_refl name) refl));
    finished = λ name v now r q p flag. absurd cc;
    staged_on = λ now name status tool r p. p;
  }

  -- Whatever calls of `effect`, commands, stage reports, failures and deaths of the process follow:
  -- if the file says that the transaction is unsafe, it also holds the entry of an operation that
  -- has started and has no result, so a transaction all of whose operations are done is never held
  -- back as unsafe. This is so from any record on, in the file and in memory, of which it is so; a
  -- new transaction is one, since its flag is not set.
  pub run-unsafe :
      (s : Sys R) (actions : List (Action R))
      → IsFlagged s.disk
      → HeldIn IsFlagged (λ name. Unit {0}) s.memory
      → IsFlagged (run actions s).disk
  run-unsafe s actions disk memory =
      (run-IsHeld IsFlagged (λ name. Unit {0}) IsFlagged-IsKept actions s
        (record { on_disk = disk; in_memory = memory })).on_disk
