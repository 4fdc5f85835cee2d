-- ===== src/Service/Examples.antt =====
-- A boot of OpenWrt from Android's own partition: an outage, then a round that proves it.
use e5_linux.Base.{
  ℕ, ◌*◌, ◌≡◌, ◌⊎◌, inl, refl, Bool, true, false, none, some, List, [], ◌∷◌, ◌++◌, replicate,
}
use e5_linux.Base.Bytes.{Bytes, le_at, le_value, eq_bytes}
use e5_linux.Base.Text.{String}
use e5_linux.Plan.{part, Device, Plan, userdata_shrink, two_gib}
use e5_linux.Capacity.{ext_magic, verify_ext4_capacity, holds}
use e5_linux.Service.{
  Ending, waiting, completed, got, lost, connected, unreachable, Job, Progress, Observation,
  verified, wait_openwrt, round, go_on, stop_behind, settle, attempt_from, compare_size, conclude,
  measure, identify, connect, take_request, expected_bytes, grows, openwrt_wait_stage,
}
use e5_linux.Service.Completed.{IsProven, wait_openwrt-IsProven}
use e5_linux.Service.Patience.{IsKept, wait_openwrt-outages}
use e5_linux.Service.Running.{Order, Probe, seen, Look, Executed, returned}
use e5_linux.Service.Run.{run}
use e5_linux.Service.Run.Guard.{IsAdmitted, run-IsAdmitted}
use e5_linux.Service.Run.Ends.{IsEnd, run-IsEnd}

abbrev superblock : Bytes
superblock =
    replicate 5 0
    ++ (4 ∷ (replicate 18 0 ++ (2 ∷ (replicate 31 0 ++ (ext_magic ++ replicate 300 0)))))

abbrev accepts : String → Bool
accepts name = true

abbrev job : Job
job = record {
  method = part;
  adapter = "e5";
  cid = "c0ffee";
  openwrt_bytes = 4194304;
  plan_grow = some true;
  choice_grow = none;
  update_boot_id = none;
}

abbrev before : Progress
before = record {
  stage = "openwrt_boot";
  status = "waiting_device";
  host = none;
  confirmed = false;
  legacy = false;
  unsafe = false;
  check = none;
  outcome = none;
  error = none;
}

abbrev outage : Observation
outage = record {
  cancel = false;
  request = some "192.168.1.1";
  connection = unreachable;
  cid = lost;
  boot_id = lost;
  device = lost;
  superblock = lost;
  usable = lost;
  stopped = false;
}

abbrev proof : Observation
proof = record {
  cancel = false;
  request = none;
  connection = connected;
  cid = got "c0ffee";
  boot_id = lost;
  device = got "/dev/mmcblk0p9";
  superblock = got superblock;
  usable = got tt;
  stopped = false;
}

abbrev after : Progress
after = record {
  stage = "complete";
  status = "completed";
  host = some "192.168.1.1";
  confirmed = true;
  legacy = false;
  unsafe = false;
  check = some verified;
  outcome = some 4194304;
  error = none;
}

abbrev rounds : List Observation
rounds = outage ∷ proof ∷ []

wait_run : wait_openwrt accepts accepts job rounds before ≡ (completed, after)
unfolding wait_openwrt round go_on stop_behind settle attempt_from compare_size conclude measure
    identify connect take_request expected_bytes grows openwrt_wait_stage verify_ext4_capacity holds
    eq_bytes le_at le_value
wait_run = refl

wait_openwrt-IsProven_example : IsProven job after rounds
wait_openwrt-IsProven_example =
    wait_openwrt-IsProven accepts accepts job rounds before after wait_run

wait_openwrt-outages_example :
    (q : Progress) × IsKept before q
    × ((rest : List Observation)
        → wait_openwrt accepts accepts job ((outage ∷ []) ++ rest) before
          ≡ wait_openwrt accepts accepts job rest q)
wait_openwrt-outages_example =
    wait_openwrt-outages accepts accepts job (outage ∷ []) before ((refl, refl, inl refl), tt)

-- The same boot as a whole run, of an installation that shrinks userdata.
abbrev device : Device
device = record {
  is_ready = true;
  capacity = 0;
  userdata_bytes = 5 * two_gib;
  free_bytes = 4 * two_gib;
  encrypted = false;
  existing = false;
  card = none;
  card_bytes = 0;
  card_identity = none;
  root = "";
  root_size = 0;
  safe_gaps = [];
  empty = 9 ∷ [];
}

abbrev plan : Plan
plan = record {
  method = part;
  wipe = false;
  two_stage = false;
  openwrt_bytes = 2 * two_gib;
  android_bytes = some (3 * two_gib);
  grow = true;
  target = some userdata_shrink;
  target_identity = none;
  gap_start = none;
  maximum_bytes = none;
  host = none;
  preserves_settings = false;
  temporary = false;
  experimental = false;
  offline = true;
}

abbrev order : Order ℕ
order = record {
  bundle = record { adapter = "e5"; upload_sizes = [] };
  choices = record { method = part; size = 4; grow = true; wipe = false; host = "" };
  plan = plan;
  cid = "c0ffee";
  profile = "u30";
  slot = "_a";
  boot_id = none;
  update_boot_id = none;
  effects = [];
}

abbrev there : Probe
there = seen (record {
  cid = some "c0ffee";
  profile = some "u30";
  slot = some "_a";
  boot_id = none;
  readiness = some "ready";
  device = device;
})

abbrev planned : Progress
planned = record before { stage = "plan" }

abbrev is_any : ℕ → Bool
is_any n = true

abbrev quarters : ℕ → ℕ
quarters n = n * 256

abbrev writes : ℕ → Progress → Executed × Progress
writes n p = (returned false, p)

abbrev breaks : ℕ → Progress → Executed × Progress
breaks n p = (returned false, record p { unsafe = true })

abbrev no_looks : ℕ → List Look
no_looks n = []

abbrev no_removal : Progress → Ending × Progress
no_removal p = (waiting, p)

run-IsAdmitted_example :
    (run order is_any quarters accepts accepts no_removal writes no_looks false there rounds planned
      ≡ run order is_any quarters accepts accepts no_removal breaks no_looks false there rounds
          planned)
    ⊎ IsAdmitted order is_any quarters there
run-IsAdmitted_example =
    run-IsAdmitted order is_any quarters accepts accepts no_removal writes breaks no_looks false
      there rounds planned refl refl

run-IsEnd_example :
    let y =
      run order is_any quarters accepts accepts no_removal writes no_looks false there rounds
        planned in
    IsEnd order rounds y.0 y.1
run-IsEnd_example =
    run-IsEnd order is_any quarters accepts accepts no_removal writes no_looks false there rounds
      planned refl
