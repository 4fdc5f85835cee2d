-- ===== src/Service/Dispatch.antt =====
-- Service.dispatch of installer/backend/service.py: what the commands of the user interface work on,
-- the commands cancel, verify_openwrt and start, and rebind_uninstall. What the device and the
-- package answer in a command is its argument; ids and tokens are the texts that uuid and secrets
-- give. Events, revisions and secrets are left out.
mod Data
pub mod Planning
pub mod Commands
pub mod Quiet
pub mod Reset
pub mod Start
mod Examples
unfoldable pub use Data.*
use e5_linux.Base.{
  ℕ, ◌+◌, Bool, true, false, ◌&&◌, ◌||◌, not, ◌==◌, ltb, leb, if◌then◌else◌, Option, none, some,
  List, [], ◌∷◌, length, take,
}
use e5_linux.Base.Text.{String}
use e5_linux.Base.Bytes.{Bytes, eq_bytes}
use e5_linux.Base.Result.{Result, ok, err, ◌>>=◌, ◌>>◌, raise_if, or_raise}
use e5_linux.TwoStage.{all_hex}
use e5_linux.Identity
use e5_linux.Identity.{compatible}
use e5_linux.Plan
use e5_linux.Plan.{Method}
use e5_linux.BootImage.{Family}
use e5_linux.Service.Running.{is_text, same_text, is_uninstall}
use e5_linux.Removal
use e5_linux.Removal.Journal
use e5_linux.Removal.Journal.{Meta, Files}
use e5_linux.Removal.Prepare.{Reason, PrepareError}

-- The command cancel.
unfoldable pub cancel_worker : Server → Outcome
cancel_worker s = of_active s.active
  where
    of_active : Option Stored → Outcome
    of_active none = (ok declined, s)
    of_active (some r) = if not s.alive then (ok declined, s) else (
      ok (if r.unsafe then deferred else accepted),
      save (record r { cancel_requested = true })
          (record s { cancel = true; active = some (record r { cancel_requested = true }) }),
    )

-- re.fullmatch(r'[A-Za-z0-9][A-Za-z0-9.-]{0,252}', host)
abbrev pub is_alnum : ℕ → Bool
is_alnum c = (leb b'0' c && leb c b'9') || (leb b'A' c && leb c b'Z') || (leb b'a' c && leb c b'z')

unfoldable pub all_host : Bytes → Bool
all_host [] = true
all_host (c ∷ cs) = (is_alnum c || c == b'.' || c == b'-') && all_host cs

unfoldable pub is_host : Bytes → Bool
unfolding all_host
is_host [] = false
is_host (c ∷ cs) = is_alnum c && leb (length cs) 252 && all_host cs

abbrev pub is_waiting : String → Bool
is_waiting status = same_text status "waiting_user" || same_text status "waiting_device"

-- The command verify_openwrt.
unfoldable pub awaits : Bytes → Server → Option Stored → Bool
awaits id s none = false
awaits id s (some r) =
    s.alive
    && eq_bytes id r.id
    && not r.unsafe
    && same_text r.stage "openwrt_boot"
    && is_waiting r.status

unfoldable pub verify_openwrt : Bytes → Bytes → Bytes → Server → Outcome
verify_openwrt id host password s =
    if not (awaits id s s.active)
    then (err not_available, s)
    else if not (is_host host)
    then (err bad_host, s)
    else if ltb 4096 (length password)
    then (err bad_password, s)
    else (ok accepted, record s { request = some (id, host, password) })

-- The three stages of a worker at which ADB connections may change.
abbrev pub adb_stages : List String
adb_stages =
    "uninstall_offline" ∷ "android_boot" ∷ "android_setup" ∷ "usb_debugging" ∷ "debug_authorization"
    ∷ "magisk" ∷ "root_permission" ∷ []

unfoldable pub is_among : String → List String → Bool
is_among t [] = false
is_among t (x ∷ xs) = same_text t x || is_among t xs

unfoldable pub connects : Server → Bool
unfolding is_among
connects s = not s.alive || of_active s.active
  where
    of_active : Option Stored → Bool
    of_active none = false
    of_active (some r) = not r.unsafe && is_waiting r.status && is_among r.stage adb_stages

-- The parameters of start, resume and retry.
pub record RunRequest : Type 0 where
  pub is_start : Bool
  pub id : Bytes
  pub confirmed : Bool
  pub serial : Option String

-- What they meet: the package at hand, whether another installer holds the locks, and the device.
pub record RunWorld : Type 0 where
  pub current : Option Bundle
  pub locked : Bool
  pub device : Option Found
  pub serial_ok : Bool

abbrev pub same_slot : Option String → Option String → Bool
same_slot none none = true
same_slot (some a) (some b) = same_text a b
same_slot _ _ = false

-- rebind_uninstall; `serial_ok` is the test of the text: not empty, at most 512 characters, no NUL.
unfoldable pub rebind_uninstall : Stored → String → RunWorld → Result Refusal Stored
rebind_uninstall r serial w = do
  raise_if (not w.serial_ok) bad_serial
  raise_if w.locked owned
  actual ← or_raise w.device no_device
  raise_if (not (same_text actual.readiness "ready")) not_ready
  raise_if
      (not (same_text actual.cid r.cid)
        || not (same_text actual.profile r.profile)
        || not (same_slot actual.slot r.slot))
      other_device
  ok (record r { serial = serial; moved_from = r.serial ∷ r.moved_from })

-- A removal's plan of the first version that was never started.
unfoldable pub is_old_removal : Stored → Bool
is_old_removal r =
    is_uninstall r.method && same_text r.status "ready" && is_first r.removal_version && not r.armed
  where
    is_first : Option ℕ → Bool
    is_first none = false
    is_first (some v) = v == 1

abbrev pub accept : Identity.Package → Identity.Package → Result Refusal (Unit {0})
accept old new = elim (compatible old new) [ err e ↦ err incompatible | ok u ↦ ok u ]

-- Whether the request names another connection for a removal.
unfoldable pub rebound : Bool → Option String → RunWorld → Stored → Result Refusal Stored
rebound is_start none w r = ok r
rebound is_start (some serial) w r =
    if not is_start
      && is_uninstall r.method
      && not (same_text serial "" || same_text serial r.serial)
    then rebind_uninstall r serial w
    else ok r

-- The checks of start, resume and retry; the record comes out as it is saved and run.
unfoldable pub admit : RunRequest → RunWorld → Stored → Result Refusal Stored
admit q w r = do
  raise_if (is_old_removal r) old_removal
  current ← or_raise w.current no_package
  accept r.bundle.identity current.identity
  raise_if (q.is_start && not q.confirmed) unconfirmed
  raise_if (not q.is_start && same_text r.status "ready") unconfirmed
  rebound q.is_start q.serial w (record r { bundle = current })

-- The worker starts on a record; rebind_uninstall has saved it once before.
unfoldable pub launch : Stored → Server → Outcome
launch r s =
    let run : Stored = record r { cancel_requested = false; failed = false } in
    (
      ok (shown run),
      record s {
        disk = put r s.disk;
        active = some run;
        cancel = false;
        alive = true;
        request = none;
      },
    )

unfoldable pub start : RunRequest → RunWorld → Server → Outcome
start q w s = or_stay s (load q.id s.disk) λ r.
    if same_text r.status "completed"
    then (ok (shown r), s)
    else or_stay s (admit q w r) (λ r'. launch r' s)
