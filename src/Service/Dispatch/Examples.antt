-- ===== src/Service/Dispatch/Examples.antt =====
-- A transaction that is started, and a service whose worker is busy.
use e5_linux.Base.{ℕ, ◌≡◌, refl, true, false, none, some, [], ◌∷◌, replicate}
use e5_linux.Base.Bytes.{Bytes}
use e5_linux.Base.Result.{ok}
use e5_linux.BootImage.{e5}
use e5_linux.Plan
use e5_linux.Service.Dispatch.{Bundle, Stored, installing, Server, nothing, RunRequest, RunWorld}
use e5_linux.Service.Dispatch.Planning.{PlanWorld}
use e5_linux.Service.Dispatch.Commands.{Request, export, dispatch}
use e5_linux.Service.Dispatch.Quiet.{dispatch-quiet}
use e5_linux.Service.Dispatch.Start.{StartOutcome, start-outcomes}

abbrev bundle : Bundle
bundle = record {
  identity = record { values = []; payloads = [] };
  family = e5;
  sizes = record { adapter = "e5"; upload_sizes = [] };
}

abbrev id : Bytes
id = replicate 32 b'a'

abbrev ready : Stored
ready = record {
  id = id;
  status = "ready";
  stage = "plan";
  method = Plan.part;
  bundle = bundle;
  cid = "00112233445566778899aabbccddeeff";
  serial = "123";
  slot = some "_a";
  profile = "e5";
  plan = installing (record {
    method = Plan.part;
    wipe = false;
    two_stage = true;
    openwrt_bytes = 4_294_967_296;
    android_bytes = some 26_000_000_000;
    grow = false;
    target = some Plan.unallocated;
    target_identity = none;
    gap_start = some 4096;
    maximum_bytes = none;
    host = none;
    preserves_settings = false;
    temporary = false;
    experimental = false;
    offline = false;
  });
  armed = false;
  removal_version = none;
  unsafe = false;
  cancel_requested = false;
  failed = false;
  moved_from = [];
}

abbrev idle : Server
idle = record {
  bundle = some bundle;
  active = none;
  cancel = true;
  alive = false;
  disk = ready ∷ [];
  prompt = none;
  request = none;
}

abbrev busy : Server
busy = record idle { alive = true; active = some (record ready { status = "running" }) }

abbrev start_request : RunRequest
start_request = record { is_start = true; id = id; confirmed = true; serial = none }

abbrev run_world : RunWorld
run_world = record { current = some bundle; locked = false; device = none; serial_ok = true }

abbrev plan_world : PlanWorld
plan_world = record {
  device = none;
  header = [];
  token = [];
  id = [];
  equip = λ kind. none;
  answers = record { source = []; sectors = []; raw = [] };
  inspect = λ root. none;
  read = λ skip count. [];
  sources = [];
}

abbrev export_request : Request ℕ
export_request = record {
  protocol = true;
  is_object = true;
  command = export id;
  outside = ok nothing;
  planning = plan_world;
  running = run_world;
  inspected = none;
  imported = none;
  exists = false;
}

start-outcomes_example : StartOutcome start_request run_world idle
start-outcomes_example = start-outcomes start_request run_world idle

dispatch-quiet_example :
    (dispatch
      (λ x. x)
      (λ x. 0)
      (λ x. none)
      (λ x. none)
      (λ x. true)
      (λ x. none)
      (λ e. [])
      (λ (n : ℕ). true)
      (λ n. n)
      export_request
      busy).1
    ≡ busy
dispatch-quiet_example =
    dispatch-quiet (λ x. x) (λ x. 0) (λ x. none) (λ x. none) (λ x. true) (λ x. none) (λ e. [])
      (λ n. true) (λ n. n) export_request busy refl refl
