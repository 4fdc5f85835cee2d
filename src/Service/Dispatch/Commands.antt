-- ===== src/Service/Dispatch/Commands.antt =====
-- Service.dispatch of installer/backend/service.py: the order of its tests, and one command each.
-- What adb, a probe or a file answers beside the records is the argument `outside`. The order of the
-- listed records, newest first in the source, is left out.
use e5_linux.Base.{
  ℕ, Bool, true, false, ◌&&◌, not, ◌==◌, if◌then◌else◌, Option, none, some, List, length,
}
use e5_linux.Base.Text.{String}
use e5_linux.Base.Bytes.{Bytes}
use e5_linux.Base.Result.{Result, ok, err, ◌>>=◌, ◌>>◌, raise_if, or_raise}
use e5_linux.TwoStage.{all_hex}
use e5_linux.Service.Dispatch
use e5_linux.Service.Dispatch.{
  Bundle, Stored, Server, Refusal, bad_protocol, bad_parameters, bad_serial, owned, busy,
  no_package, not_listed, no_device, destination_exists, unsupported, Answer, flag, shown, listed,
  nothing, Outcome, find, load, save, or_stay, cancel_worker, connects, RunRequest, RunWorld, start,
}
use e5_linux.Service.Dispatch.Planning.{PlanWorld, PlanRequest}
use e5_linux.Service.Dispatch.Planning
use e5_linux.Removal.Prepare.{Evidence}

-- The commands with their parameters: the transaction, host and password of verify_openwrt, whether
-- the serial of adb_disconnect is that of a wireless device, whether that of probe is a text that is
-- not empty, and `run` for start, resume and retry.
pub data Command (N : Type 0) : Type 0 where
  hello snapshot list cancel can_close adb_connect use_package devices probe_update : Command N
  import_directory another : Command N
  verify_openwrt : Bytes → Bytes → Bytes → Command N
  diagnostics export : Bytes → Command N
  adb_disconnect probe : Bool → Command N
  plan : PlanRequest N → Command N
  run : RunRequest → Command N

-- A request: whether its protocol is 1 and its parameters are an object, and what it meets. `package`
-- is the inspected package, none where inspect_package raises; `imported` is the record in the
-- directory of an import, none where its version is not 1; `exists` says that the target of an export
-- is there.
pub record Request (N : Type 0) : Type 0 where
  pub protocol : Bool
  pub is_object : Bool
  pub command : Command N
  pub outside : Result Refusal Answer
  pub planning : PlanWorld
  pub running : RunWorld
  pub inspected : Option Bundle
  pub imported : Option Stored
  pub exists : Bool

-- Commands behind the test of the worker.
abbrev unless_alive : Server → Outcome → Outcome
unless_alive s o = if s.alive then (err busy, s) else o

-- The command package.
unfoldable pub take_package : Option Bundle → Server → Outcome
take_package none s = (err no_package, s)
take_package (some bundle) s = (ok nothing, record s { bundle = some bundle })

-- The command probe.
unfoldable pub probe_device : Bool → Result Refusal Answer → Server → Result Refusal Answer
probe_device is_named outside s = do
  bundle ← or_raise s.bundle no_package
  raise_if (not is_named) bad_serial
  outside

-- The command adb_disconnect.
unfoldable pub disconnect : Bool → Bool → Result Refusal Answer → Server → Result Refusal Answer
disconnect is_wireless locked outside s = do
  raise_if s.alive busy
  raise_if (not is_wireless) bad_serial
  raise_if locked owned
  outside

-- The command export.
unfoldable pub export_to : Bytes → Bool → Server → Result Refusal Answer
export_to id exists s = do r ← load id s.disk; raise_if exists destination_exists; ok nothing

-- The command import; the paths in the record are left out.
unfoldable pub import_checks : Option Stored → List Stored → Result Refusal Stored
unfolding find
import_checks imported disk = do
  r ← or_raise imported unsupported
  raise_if (not (length r.id == 32 && all_hex r.id)) not_listed
  raise_if (is_taken (find r.id disk)) destination_exists
  ok r
  where
    is_taken : Option Stored → Bool
    is_taken none = false
    is_taken (some r) = true

unfoldable pub import_record : Option Stored → Server → Outcome
import_record imported s = or_stay s (import_checks imported s.disk) λ r. (ok (shown r), save r s)

-- The command snapshot.
unfoldable pub current : Option Stored → Answer
current none = nothing
current (some r) = shown r

module _ (sha : Bytes → Bytes) (crc32 : Bytes → ℕ) (decode : Bytes → Option (List ℕ))
    (numbers : Bytes → Option (String × ℕ)) (is_mapping : Bytes → Bool) (int : Bytes → Option ℕ)
    (digest : Evidence → Bytes) {N : Type 0} (is_positive : N → Bool) (units : N → ℕ) where
  unfoldable pub command_of : Command N → Request N → Server → Outcome
  command_of hello q s = (ok (listed s.disk), s)
  command_of snapshot q s = (ok (current s.active), s)
  command_of list q s = (ok (listed s.disk), s)
  command_of cancel q s = cancel_worker s
  command_of can_close q s = (ok (flag (not s.alive)), s)
  command_of (verify_openwrt id host password) q s = Dispatch.verify_openwrt id host password s
  command_of (diagnostics id) q s = or_stay s (load id s.disk) λ r. (q.outside, s)
  command_of adb_connect q s = (if connects s then q.outside else err busy, s)
  command_of (adb_disconnect is_wireless) q s =
      (disconnect is_wireless q.running.locked q.outside s, s)
  command_of use_package q s = unless_alive s (take_package q.inspected s)
  command_of devices q s = unless_alive s (q.outside, s)
  command_of (probe is_named) q s = unless_alive s (probe_device is_named q.outside s, s)
  command_of probe_update q s = unless_alive s (q.outside, s)
  command_of (plan p) q s = unless_alive s (
      Planning.plan sha crc32 decode numbers is_mapping int digest is_positive units p q.planning s)
  command_of (run p) q s = unless_alive s (start p q.running s)
  command_of (export id) q s = (export_to id q.exists s, s)
  command_of import_directory q s = unless_alive s (import_record q.imported s)
  command_of another q s = unless_alive s (err unsupported, s)

  unfoldable pub dispatch : Request N → Server → Outcome
  dispatch q s =
      if not q.protocol
      then (err bad_protocol, s)
      else if not q.is_object
      then (err bad_parameters, s)
      else command_of q.command q s
