-- ===== src/Service/Dispatch/Data.antt =====
-- What Service.dispatch of installer/backend/service.py works on, with load and save of Store in
-- installer/backend/state.py.
use e5_linux.Base.{
  ℕ, Bool, ◌&&◌, not, ◌==◌, if◌then◌else◌, Option, none, some, List, [], ◌∷◌, length,
}
use e5_linux.Base.Text.{String}
use e5_linux.Base.Bytes.{Bytes, eq_bytes}
use e5_linux.Base.Result.{Result, ok, err, ◌>>◌, raise_if, or_raise}
use e5_linux.TwoStage.{all_hex}
use e5_linux.Identity
use e5_linux.Identity.{compatible}
use e5_linux.Plan
use e5_linux.Plan.{Method}
use e5_linux.BootImage.{Family}
use e5_linux.Removal
use e5_linux.Removal.Journal
use e5_linux.Removal.Journal.{Meta, Files}
use e5_linux.Removal.Prepare.{Reason, PrepareError}

-- An inspected package.
pub record Bundle : Type 0 where
  pub identity : Identity.Package
  pub family : Family
  pub sizes : Plan.Package

-- A probed device: the keys that are read here, those of the planner and those of a removal.
pub record Found : Type 0 where
  pub readiness : String
  pub cid : String
  pub serial : String
  pub slot : Option String
  pub profile : String
  pub sized : Plan.Device
  pub storage : Removal.Device

-- The plan of a record, with what persist adds for a removal.
pub data Planned : Type 0 where
  installing : Plan.Plan → Planned
  removing : Journal.Plan → Meta → Files → Planned

-- A transaction. `armed` says that the effect `uninstall-arm` has an entry, and `removal_version` is
-- record['uninstall']['version'].
pub record Stored : Type 0 where
  pub id : Bytes
  pub status : String
  pub stage : String
  pub method : Method
  pub bundle : Bundle
  pub cid : String
  pub serial : String
  pub slot : Option String
  pub profile : String
  pub plan : Planned
  pub armed : Bool
  pub removal_version : Option ℕ
  pub unsafe : Bool
  pub cancel_requested : Bool
  pub failed : Bool
  pub moved_from : List String

-- uninstall_reset_prompt
pub record Prompt : Type 0 where
  pub token : Bytes
  pub fingerprint : Bytes

-- The service: its package, the record of the active context with its cancel flag, whether the
-- worker is alive, the stored transactions, the prompt, and verification_request.
pub record Server : Type 0 where
  pub bundle : Option Bundle
  pub active : Option Stored
  pub cancel : Bool
  pub alive : Bool
  pub disk : List Stored
  pub prompt : Option Prompt
  pub request : Option (Bytes × Bytes × Bytes)

-- The exceptions of dispatch.
pub data Refusal : Type 0 where
  bad_protocol bad_parameters not_available bad_host bad_password : Refusal
  busy no_package not_listed incompatible unconfirmed old_removal : Refusal
  bad_serial owned not_ready other_device unknown_slot short_header removal_pending : Refusal
  no_device destination_exists unsupported : Refusal
  not_planned : Plan.PlanError → Refusal
  not_prepared : PrepareError → Refusal

-- What a command returns: a value, the record, or the question whether Android may be formatted.
pub data Answer : Type 0 where
  accepted deferred declined : Answer
  flag : Bool → Answer
  shown : Stored → Answer
  listed : List Stored → Answer
  read_only nothing : Answer
  format_android : Reason → Bytes → Answer

abbrev pub Outcome : Type 0
Outcome = Result Refusal Answer × Server

-- Store.load: an id of 32 hexadecimal digits, and the transaction of that id.
unfoldable pub find : Bytes → List Stored → Option Stored
find id [] = none
find id (r ∷ rs) = if eq_bytes r.id id then some r else find id rs

unfoldable pub load : Bytes → List Stored → Result Refusal Stored
unfolding find
load id disk = do
  raise_if (not (length id == 32 && all_hex id)) not_listed
  or_raise (find id disk) not_listed

-- Store.save: the file of the record is written.
unfoldable pub put : Stored → List Stored → List Stored
put r [] = r ∷ []
put r (x ∷ xs) = if eq_bytes x.id r.id then r ∷ xs else x ∷ put r xs

abbrev pub save : Stored → Server → Server
save r s = record s { disk = put r s.disk }

-- A failed check leaves the service as it is.
abbrev pub or_stay : {A : Type 0} → Server → Result Refusal A → (A → Outcome) → Outcome
or_stay s (err e) rest = (err e, s)
or_stay s (ok a) rest = rest a
