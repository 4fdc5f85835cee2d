-- ===== src/Service/Dispatch/Planning.antt =====
-- The command `plan` of Service.dispatch in installer/backend/service.py: a plan of plan_install, or
-- one of prepare, whose reset of Android needs the token of an earlier refusal.
use e5_linux.Base.{
  ℕ, Bool, false, ◌&&◌, ◌||◌, not, ◌==◌, if◌then◌else◌, Option, none, some, List, [], ◌∷◌, ◌++◌,
  length,
}
use e5_linux.Base.Text.{String}
use e5_linux.Base.Bytes.{Bytes, slice, eq_bytes}
use e5_linux.Base.Result.{Result, ok, err, ◌>>◌, raise_if}
use e5_linux.Base.Assoc.{Dict}
use e5_linux.Gpt.{Part, before_nul}
use e5_linux.BootImage.{emit, has_word, uninstall_option}
use e5_linux.Plan.{Method, update, Choices, PlanError, plan_install}
use e5_linux.Plan
use e5_linux.Service.Running.{is_text, same_text, is_uninstall}
use e5_linux.Removal.{Filesystem, VolumeAnswers}
use e5_linux.Removal.Journal.{Proof, Meta, Files}
use e5_linux.Removal.Journal
use e5_linux.Removal.Installed.{is_blank}
use e5_linux.Removal.Prepare.{Source, Evidence, PrepareError, unavailable, prepare}
use e5_linux.Service.Dispatch.{
  Bundle, Found, Planned, installing, removing, Stored, Prompt, Server, Refusal, no_package,
  no_device, unknown_slot, short_header, removal_pending, not_planned, not_prepared, shown,
  format_android, Outcome, save, or_stay,
}

-- What a plan meets: the device that a probe finds, the first eight sectors of the other slot's boot
-- partition, the text that secrets gives, the new id, and for a removal the answers that prepare
-- asks for.
pub record PlanWorld : Type 0 where
  pub device : Option Found
  pub header : Bytes
  pub token : Bytes
  pub id : Bytes
  pub equip : Filesystem → Option (Dict Bytes)
  pub answers : VolumeAnswers
  pub inspect : Part → Option Proof
  pub read : ℕ → ℕ → Bytes
  pub sources : List Source

-- The parameters: the choices, and reset_token.
pub record PlanRequest (N : Type 0) : Type 0 where
  pub choices : Choices N
  pub reset_token : Option Bytes

-- bytes.split()
unfoldable pub blank_split : Bytes → Bytes → List Bytes
blank_split word [] = emit word []
blank_split word (c ∷ cs) =
    let ended = emit word (blank_split [] cs) in
    let longer = blank_split (word ++ (c ∷ [])) cs in if is_blank c then ended else longer

unfoldable pub header_words : Bytes → List Bytes
unfolding blank_split
header_words header = blank_split [] (before_nul (slice 44 1580 header))

-- A stored removal of this device that is armed and not completed.
unfoldable pub any_pending : String → List Stored → Bool
any_pending cid [] = false
any_pending cid (r ∷ rs) =
    (is_uninstall r.method
      && same_text r.cid cid
      && not (same_text r.status "completed")
      && r.armed)
    || any_pending cid rs

abbrev pub is_slot : Option String → Bool
is_slot slot = is_text slot "_a" || is_text slot "_b"

-- The block on a device that is ready, unless it is updated.
unfoldable pub check_pending : Method → Found → Bytes → List Stored → Result Refusal (Unit {0})
check_pending update found header disk = ok tt
check_pending method found header disk =
    if not (same_text found.readiness "ready") then ok tt else (do
      raise_if (not (is_slot found.slot)) unknown_slot
      raise_if (not (length header == 4096)) short_header
      raise_if (any_pending found.cid disk || has_word uninstall_option (header_words header))
          removal_pending)

-- authorize_reset: the given token and the fingerprint are those of the prompt.
unfoldable pub authorizes : Option Prompt → Option Bytes → Bytes → Bool
authorizes none token fingerprint = false
authorizes (some expected) none fingerprint = false
authorizes (some expected) (some token) fingerprint =
    eq_bytes token expected.token && eq_bytes fingerprint expected.fingerprint

-- Store.create, with the plan.
unfoldable pub created : Bytes → Bundle → Method → Found → Planned → Stored
created id bundle method found plan = record {
  id = id;
  status = "ready";
  stage = "plan";
  method = method;
  bundle = bundle;
  cid = found.cid;
  serial = found.serial;
  slot = found.slot;
  profile = found.profile;
  plan = plan;
  armed = false;
  removal_version = version_of plan;
  unsafe = false;
  cancel_requested = false;
  failed = false;
  moved_from = [];
}
  where
    version_of : Planned → Option ℕ
    version_of (installing p) = none
    version_of (removing p m f) = some m.version

-- The record is stored and shown.
unfoldable pub store_new : Stored → Server → Outcome
store_new r s = (ok (shown r), save r s)

module _ (sha : Bytes → Bytes) (crc32 : Bytes → ℕ) (decode : Bytes → Option (List ℕ))
    (numbers : Bytes → Option (String × ℕ)) (is_mapping : Bytes → Bool) (int : Bytes → Option ℕ)
    (digest : Evidence → Bytes) where
  -- prepare, with the test of the token.
  unfoldable pub prepare_for :
      PlanWorld
      → Option Prompt
      → Option Bytes
      → Bundle
      → Found
      → Result PrepareError (Journal.Plan × Meta × Files)
  prepare_for w prompt token bundle found =
      prepare sha crc32 decode numbers is_mapping int digest (some (authorizes prompt token))
        w.equip w.answers w.inspect w.read w.sources bundle.family found.storage

  -- A refusal for want of preservation asks; the prompt is forgotten with a plan.
  unfoldable pub ask :
      PlanWorld
      → Bundle
      → Method
      → Found
      → Server
      → Result PrepareError (Journal.Plan × Meta × Files)
      → Outcome
  ask w bundle method found s (err (unavailable reason fingerprint)) = (
    ok (format_android reason w.token),
    record s { prompt = some (record { token = w.token; fingerprint = fingerprint }) },
  )
  ask w bundle method found s (err e) = (err (not_prepared e), s)
  ask w bundle method found s (ok (plan, meta, files)) =
      store_new (created w.id bundle method found (removing plan meta files))
        (record s { prompt = none })

  module _ {N : Type 0} (is_positive : N → Bool) (units : N → ℕ) where
    unfoldable pub plan_new :
        Bundle → Choices N → PlanWorld → Found → Server → Result PlanError Plan.Plan → Outcome
    plan_new bundle choices w found s (err e) = (err (not_planned e), s)
    plan_new bundle choices w found s (ok plan) =
        store_new (created w.id bundle choices.method found (installing plan)) s

    -- From the probed device on.
    unfoldable pub plan_found : PlanRequest N → PlanWorld → Server → Bundle → Found → Outcome
    plan_found q w s bundle found =
        or_stay s (check_pending q.choices.method found w.header s.disk) λ u.
          if is_uninstall q.choices.method
          then ask w bundle q.choices.method found s
              (prepare_for w s.prompt q.reset_token bundle found)
          else plan_new bundle q.choices w found s
              (plan_install is_positive units bundle.sizes found.sized q.choices)

    unfoldable pub plan_from :
        PlanRequest N → PlanWorld → Server → Option Bundle → Option Found → Outcome
    plan_from q w s none device = (err no_package, s)
    plan_from q w s (some bundle) none = (err no_device, s)
    plan_from q w s (some bundle) (some found) = plan_found q w s bundle found

    -- The command.
    unfoldable pub plan : PlanRequest N → PlanWorld → Server → Outcome
    plan q w s = plan_from q w s s.bundle w.device
