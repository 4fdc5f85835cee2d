-- ===== src/Service/Dispatch/Quiet.antt =====
-- Service.dispatch of installer/backend/service.py while a worker is alive.
use e5_linux.Base.{ℕ, ◌≡◌, refl, Bool, true, false, not, if◌then◌else◌, Option, List}
use e5_linux.Base.Text.{String}
use e5_linux.Base.Bytes.{Bytes}
use e5_linux.Base.Result.{Result, ok, err}
use e5_linux.Service.Dispatch.{Server, Refusal, busy, Outcome, load, or_stay}
use e5_linux.Service.Dispatch.Commands.{
  Command, hello, snapshot, list, cancel, can_close, adb_connect, use_package, devices,
  probe_update, import_directory, another, verify_openwrt, diagnostics, export, adb_disconnect,
  probe, plan, run, Request, command_of, dispatch,
}
use e5_linux.Removal.Prepare.{Evidence}

-- The two commands that speak to the worker.
abbrev pub is_for_worker : {N : Type 0} → Command N → Bool
is_for_worker cancel = true
is_for_worker (verify_openwrt id host password) = true
is_for_worker c = false

or_stay-quiet :
    {A : Type 0} (s : Server) (r : Result Refusal A) (rest : A → Outcome)
    → ((a : A) → (rest a).1 ≡ s)
    → (or_stay s r rest).1 ≡ s
or_stay-quiet s (err e) rest stays = refl
or_stay-quiet s (ok a) rest stays = stays a

refused : (s : Server) (o : Outcome) → s.alive ≡ true → (if s.alive then (err busy, s) else o).1 ≡ s
refused s o alive = rw alive refl

guarded :
    (p o : Bool) (s : Server) (e f : Refusal) (done : Outcome)
    → done.1 ≡ s
    → (if not p then (err e, s) else if not o then (err f, s) else done).1 ≡ s
guarded false o s e f done stays = refl
guarded true false s e f done stays = refl
guarded true true s e f done stays = stays

module _ (sha : Bytes → Bytes) (crc32 : Bytes → ℕ) (decode : Bytes → Option (List ℕ))
    (numbers : Bytes → Option (String × ℕ)) (is_mapping : Bytes → Bool) (int : Bytes → Option ℕ)
    (digest : Evidence → Bytes) {N : Type 0} (is_positive : N → Bool) (units : N → ℕ) where
  command_of-quiet :
      (c : Command N) (q : Request N) (s : Server)
      → s.alive ≡ true
      → is_for_worker c ≡ false
      → (command_of sha crc32 decode numbers is_mapping int digest is_positive units c q s).1 ≡ s
  unfolding command_of
  command_of-quiet hello q s alive c = refl
  command_of-quiet snapshot q s alive c = refl
  command_of-quiet list q s alive c = refl
  command_of-quiet cancel q s alive c = cc
  command_of-quiet can_close q s alive c = refl
  command_of-quiet (verify_openwrt id host password) q s alive c = cc
  command_of-quiet (diagnostics id) q s alive c = or_stay-quiet s (load id s.disk) _ (λ r. refl)
  command_of-quiet adb_connect q s alive c = refl
  command_of-quiet (adb_disconnect w) q s alive c = refl
  command_of-quiet use_package q s alive c = refused s _ alive
  command_of-quiet devices q s alive c = refused s _ alive
  command_of-quiet (probe n) q s alive c = refused s _ alive
  command_of-quiet probe_update q s alive c = refused s _ alive
  command_of-quiet (plan p) q s alive c = refused s _ alive
  command_of-quiet (run p) q s alive c = refused s _ alive
  command_of-quiet (export id) q s alive c = refl
  command_of-quiet import_directory q s alive c = refused s _ alive
  command_of-quiet another q s alive c = refused s _ alive

  -- While a worker is alive, every request but cancel and verify_openwrt leaves the service as it
  -- is: its package, its records in memory and on disk, the prompt and the worker.
  pub dispatch-quiet :
      (q : Request N) (s : Server)
      → s.alive ≡ true
      → is_for_worker q.command ≡ false
      → (dispatch sha crc32 decode numbers is_mapping int digest is_positive units q s).1 ≡ s
  unfolding dispatch
  dispatch-quiet q s alive other =
      guarded q.protocol q.is_object s _ _ _ (command_of-quiet q.command q s alive other)
