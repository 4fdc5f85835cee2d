-- ===== src/TwoStage/Examples.antt =====
-- A transaction whose partition is prepared: a write that is torn, and the run that completes it.
use e5_linux.Base.{◌≡◌, refl, inr, true, false, none, some, [], ◌∷◌, ◌++◌, replicate}
use e5_linux.Base.Bytes.{Bytes, eq_bytes}
use e5_linux.TwoStage.{
  awaiting_android, Region, State, Answers, World, marker_of, is_marked, check, all_hex, has_quote,
  validate_state, disk_of, verify_geometry, finish_boot, write_root, install, proceed, finish_in,
  finish, resume_all,
}
use e5_linux.TwoStage.Runs.{IsSafe, resume_all-IsSafe}
use e5_linux.TwoStage.Outcomes.{resume_all_unmarked}
use e5_linux.TwoStage.Completion.{IsCompleted, at_start, resume_all_completes}

-- 'mmcblk0p40' and 'mmcblk0p41', shortened.
abbrev user_data : Region
user_data = record { node = b'm' ∷ b'p' ∷ b'1' ∷ []; cid = 7 ∷ []; start = 4096; size = 8192 }

abbrev root : Region
root = record { node = b'm' ∷ b'p' ∷ b'2' ∷ []; cid = 7 ∷ []; start = 12288; size = 4096 }

abbrev token : Bytes
token = replicate 32 b'a'

abbrev state : State
state = record {
  version = 2;
  phase = awaiting_android;
  token = token;
  serial = 1 ∷ [];
  model = 2 ∷ [];
  data_region = record user_data { size = 12288 };
  target = 8192;
  need = 4096;
  raw_size = 1024;
  grow = 1;
  root_start = none;
  boot_sha = 3 ∷ [];
  image_sha = 4 ∷ [];
  apn = [];
  ssid = b'e' ∷ [];
  key = b'k' ∷ [];
}

abbrev answers : Answers
answers = record {
  serial = 1 ∷ [];
  model = 2 ∷ [];
  boot_sha = 3 ∷ [];
  image_sha = 4 ∷ [];
  user_data = some user_data;
  root_row = some root;
  preflight = true;
  marker = marker_of token ++ (0 ∷ []);
  pushed = true;
  wrote = true;
  final_boot = true;
  flashed = true;
  armed = true;
}

abbrev torn : Answers
torn = record answers { wrote = false }

abbrev blank : Answers
blank = record answers { marker = [] }

abbrev start : World
start = record { state = state; events = [] }

resume_all-IsSafe_example : IsSafe (resume_all (torn ∷ answers ∷ []) start)
resume_all-IsSafe_example =
    resume_all-IsSafe (torn ∷ answers ∷ []) start (record { sequenced = tt; promised = tt })

blank_unmarked : is_marked state blank ≡ false
unfolding is_marked eq_bytes
blank_unmarked = refl

resume_all_unmarked_example : resume_all (blank ∷ blank ∷ []) start ≡ start
resume_all_unmarked_example =
    resume_all_unmarked (blank ∷ blank ∷ []) start tt (blank_unmarked, (blank_unmarked, tt))

-- The write that was torn has destroyed the marker.
resume_all_completes_example :
    IsCompleted state (finish blank (resume_all (torn ∷ []) (at_start state)))
unfolding resume_all finish finish_in proceed check validate_state all_hex has_quote verify_geometry
    disk_of eq_bytes install is_marked write_root finish_boot
resume_all_completes_example =
    resume_all_completes (torn ∷ []) blank root state tt refl
      (record { pushed = refl; wrote = refl; final_boot = refl; flashed = refl; armed = refl })
      (inr tt)
