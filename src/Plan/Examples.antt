-- ===== src/Plan/Examples.antt =====
-- A device with ten GiB of userdata, two of them used, and an installation of four GiB.
use e5_linux.Base.{ℕ, ◌*◌, ◌≡◌, refl, Bool, true, false, ltb, none, some, [], ◌∷◌}
use e5_linux.Base.Result.{ok}
use e5_linux.Gpt.{Space, best, best_start}
use e5_linux.Plan.{
  part, Package, Device, Choices, Plan, userdata_shrink, two_gib, leaves_too_little, base_plan,
  plan_place, plan_partition, plan_sized, size_bytes, plan_method, plan_install, chosen_gap,
  gap_candidates,
}
use e5_linux.Plan.Safe.{IsSafePlan, plan_install-IsSafePlan}

abbrev full_device : Device
full_device = record {
  is_ready = true;
  capacity = 0;
  userdata_bytes = 5 * two_gib;
  free_bytes = 4 * two_gib;
  encrypted = false;
  existing = false;
  card = none;
  card_bytes = 0;
  card_identity = none;
  root = "";
  root_size = 0;
  safe_gaps = (2048, 4096) ∷ [];
  empty = 9 ∷ [];
}

abbrev shrink : Choices ℕ
shrink = record { method = part; size = 4; grow = true; wipe = false; host = "" }

abbrev bundle : Package
bundle = record { adapter = "e5"; upload_sizes = [] }

abbrev shrink_plan : Plan
shrink_plan = record {
  method = part;
  wipe = false;
  two_stage = false;
  openwrt_bytes = 2 * two_gib;
  android_bytes = some (3 * two_gib);
  grow = true;
  target = some userdata_shrink;
  target_identity = none;
  gap_start = none;
  maximum_bytes = none;
  host = none;
  preserves_settings = false;
  temporary = false;
  experimental = false;
  offline = true;
}

abbrev finite : ℕ → Bool
finite n = ltb 0 n

abbrev quarters : ℕ → ℕ
quarters n = n * 256

shrink_run : plan_install finite quarters bundle full_device shrink ≡ ok shrink_plan
unfolding plan_install plan_method plan_sized plan_partition plan_place base_plan size_bytes
    chosen_gap gap_candidates leaves_too_little best best_start
shrink_run = refl

plan_install-IsSafePlan_example : IsSafePlan bundle full_device false shrink_plan
plan_install-IsSafePlan_example =
    plan_install-IsSafePlan finite quarters bundle full_device shrink shrink_plan shrink_run

abbrev table : Space
table = record {
  front = 34;
  tail = 9000;
  parts = [];
  empty = 9 ∷ [];
  gaps = (2048, 4096) ∷ [];
  largest = 4096;
  safe_gaps = some ((2048, 4096) ∷ []);
}
