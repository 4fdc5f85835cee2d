-- ===== src/Service.antt =====
-- How an installation ends: Service.openwrt_wait_stage and Service.wait_openwrt of
-- installer/backend/service.py. Each round of the loop meets an observation: what the user and the
-- network did in it. A run that has met all its observations is still waiting. The regular
-- expressions on device names are a parameter.
pub mod Verify
pub mod Completed
pub mod Patience
pub mod Running
pub mod Run
pub mod Dispatch
mod Examples
use e5_linux.Base.{
  ℕ, Bool, true, false, ◌&&◌, ◌||◌, not, if◌then◌else◌, Option, none, some, List, [], ◌∷◌,
}
use e5_linux.Base.Text.{String, ◌==◌}
use e5_linux.Base.Bytes.{Bytes}
use e5_linux.Base.Result.{Result, ok, err, ◌>>=◌, ◌>>◌, raise_if}
use e5_linux.Plan.{Method, part, reinstall, boot, update}
use e5_linux.Capacity.{
  CapacityError, not_ext4, bad_block_size, bad_capacity, differs, verify_ext4_capacity,
}

-- The codes of record['error'], and Cancelled.
pub data Fault : Type 0 where
  cancelled recovery_required capacity_mismatch operation_failed : Fault

-- One command over SSH: its output, a failed status (ValueError), or a lost connection.
pub data Reply (A : Type 0) : Type 0 where
  got : A → Reply A
  failed lost : Reply A

pub data Connection : Type 0 where
  connected denied unreachable : Connection

-- Why a round does not finish: Pending, RecoveryRequired, a ValueError, or the connection.
pub data Stop : Type 0 where
  not_yet foreign : Stop
  faulty : Fault → Stop
  no_login gone : Stop

-- How the loop ends.
pub data Ending : Type 0 where
  waiting completed : Ending
  raised : Fault → Ending

-- record['capacity_check']['status']
pub data Check : Type 0 where
  checking mismatch verified : Check

-- What a run reads of the record and does not write; `plan_grow` and `choice_grow` are the keys
-- `grow` of the plan and of the choices.
pub record Job : Type 0 where
  pub method : Method
  pub adapter : String
  pub cid : String
  pub openwrt_bytes : ℕ
  pub plan_grow : Option Bool
  pub choice_grow : Option Bool
  pub update_boot_id : Option String

-- What it writes.
pub record Progress : Type 0 where
  pub stage : String
  pub status : String
  pub host : Option String
  pub confirmed : Bool
  pub legacy : Bool
  pub unsafe : Bool
  pub check : Option Check
  pub outcome : Option ℕ
  pub error : Option (Fault × Bool)

-- One round: a wish to cancel, the user's confirmation with a host, the connection, the answers of
-- the commands in their order, and a stop of the program behind it.
pub record Observation : Type 0 where
  pub cancel : Bool
  pub request : Option String
  pub connection : Connection
  pub cid : Reply String
  pub boot_id : Reply String
  pub device : Reply String
  pub superblock : Reply Bytes
  pub usable : Reply (Unit {0})
  pub stopped : Bool

abbrev pub is_update : Method → Bool
is_update update = true
is_update _ = false

abbrev pub is_boot : Method → Bool
is_boot boot = true
is_boot _ = false

-- context.stage, of which only these two keys matter here
abbrev pub at_stage : String → String → Progress → Progress
at_stage stage status p = record p { stage = stage; status = status }

-- `error` says whether a message is given.
unfoldable pub openwrt_wait_stage : Job → Bool → Progress → Progress
openwrt_wait_stage job error p =
    let manual : Bool =
      not (is_update job.method)
      && not (job.adapter == "e5" && is_boot job.method)
      && not p.confirmed in
    at_stage "openwrt_boot" (if manual || error then "waiting_user" else "waiting_device") p

abbrev pub reply : {A : Type 0} → Reply A → Result Stop A
reply (got a) = ok a
reply failed = err (faulty operation_failed)
reply lost = err gone

unfoldable pub connect : Connection → Result Stop (Unit {0})
connect connected = ok tt
connect denied = err no_login
connect unreachable = err gone

-- `r['plan'].get('grow', r['choices'].get('grow', True))` for two methods, else True
abbrev pub or_else : Option Bool → Bool → Bool
or_else none b = b
or_else (some a) b = a

unfoldable pub grows : Job → Method → Bool
grows job part = or_else job.plan_grow (or_else job.choice_grow true)
grows job reinstall = or_else job.plan_grow (or_else job.choice_grow true)
grows job _ = true

unfoldable pub expected_bytes : Job → ℕ
expected_bytes job = if grows job job.method then job.openwrt_bytes else 0

-- The host of a request for this record is taken and the boot is confirmed.
unfoldable pub take_request : Job → Option String → Progress → Progress
unfolding openwrt_wait_stage
take_request job none p = p
take_request job (some host) p =
    openwrt_wait_stage job false (record p { host = some host; confirmed = true })

-- The `except` clauses: whether the loop goes on.
unfoldable pub settle : Job → Result Stop ℕ × Progress → Ending × Progress
settle job (ok capacity, p) =
    (completed, at_stage "complete" "completed" (record p { outcome = some capacity }))
settle job (err not_yet, p) = (waiting, openwrt_wait_stage job false p)
settle job (err foreign, p) = (waiting, openwrt_wait_stage job true p)
settle job (err (faulty f), p) = (raised f, p)
settle job (err no_login, p) = (waiting, openwrt_wait_stage job true p)
settle job (err gone, p) = (waiting, openwrt_wait_stage job false p)

-- A stop of the program behind a round raises Cancelled.
unfoldable pub stop_behind : Bool → Ending × Progress → Ending × Progress
stop_behind stopped (waiting, p) = (if stopped then raised cancelled else waiting, p)
stop_behind stopped (e, p) = (e, p)

unfoldable pub go_on : Ending × Progress → (Progress → Ending × Progress) → Ending × Progress
go_on (waiting, p) rest = rest p
go_on (e, p) rest = (e, p)

module _ (is_block is_boot_id : String → Bool) where
  -- The comparison with the boot before an update.
  unfoldable pub new_boot : Option String → Reply String → Result Stop (Unit {0})
  new_boot none answer = err (faulty operation_failed)
  new_boot (some before) answer = do
    raise_if (before == "") (faulty operation_failed)
    boot_id ← reply answer
    raise_if (not (is_boot_id boot_id)) (faulty operation_failed)
    raise_if (boot_id == before) not_yet

  -- Up to the stage verify_capacity.
  unfoldable pub identify : Job → Observation → Result Stop (Unit {0})
  unfolding connect new_boot
  identify job o = do
    connect o.connection
    cid ← reply o.cid
    raise_if (not (cid == job.cid)) foreign
    if is_update job.method then new_boot job.update_boot_id o.boot_id else ok tt

  -- The superblock of the root, and what the first call of verify_ext4_capacity says of it.
  unfoldable pub measure : Observation → Result Stop Bytes
  measure o = do
    device ← reply o.device
    raise_if (not (is_block device)) (faulty operation_failed)
    raw ← reply o.superblock
    elim (verify_ext4_capacity raw (some 0)) [
      | ok capacity ↦ ok raw
      | err e ↦ err (faulty operation_failed)
    ]

  -- The second call, with the expected size, and the last command.
  unfoldable pub conclude :
      Observation → Result CapacityError ℕ → Progress → Result Stop ℕ × Progress
  conclude o (err (differs actual wanted)) p =
      (err (faulty capacity_mismatch), record p { check = some mismatch })
  conclude o (err e) p = (err (faulty operation_failed), record p { check = some checking })
  conclude o (ok capacity) p =
      ((do u ← reply o.usable; ok capacity), record p { check = some verified })

  unfoldable pub compare_size :
      Job → Observation → Result Stop Bytes → Progress → Result Stop ℕ × Progress
  compare_size job o (err e) p = (err e, p)
  compare_size job o (ok raw) p =
      conclude o (verify_ext4_capacity raw (some (expected_bytes job))) p

  -- The `try` block.
  unfoldable pub attempt_from :
      Job → Observation → Result Stop (Unit {0}) → Progress → Result Stop ℕ × Progress
  attempt_from job o (err e) p = (err e, p)
  attempt_from job o (ok u) p =
      compare_size job o (measure o) (at_stage "verify_capacity" "running" p)

  -- One round.
  unfoldable pub round : Job → Observation → Progress → Ending × Progress
  round job o p =
      if o.cancel
      then (raised cancelled, p)
      else stop_behind o.stopped
          (settle job (attempt_from job o (identify job o) (take_request job o.request p)))

  unfoldable pub wait_openwrt : Job → List Observation → Progress → Ending × Progress
  wait_openwrt job [] p = (waiting, p)
  wait_openwrt job (o ∷ os) p = go_on (round job o p) (wait_openwrt job os)
