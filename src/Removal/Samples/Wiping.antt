-- ===== src/Removal/Samples/Wiping.antt =====
-- The command `plan` at the sample disk, where no tool can grow the volume and the token is repeated.
use e5_linux.Base.{ℕ, ◌≡◌, refl, true, false, none, some, [], ◌∷◌, replicate}
use e5_linux.Base.Bytes.{Bytes, slice, le_value, le_bytes, le_at, put_at, eq_bytes}
use e5_linux.Base.Result.{ok}
use e5_linux.Base.Text.{codes}
use e5_linux.BootImage.{e5, emit, has_word}
use e5_linux.TwoStage.{disk_of}
use e5_linux.Plan.{uninstall}
use e5_linux.Gpt.{
  Part, before_nul, sort_parts, gap_loop, largest_gap, header, gpt_backup_layout, read_entry,
  read_entries, space_of, read_table, gpt_space,
}
use e5_linux.Uninstall.{
  rows_named, partition, table, any_guid, is_unsupported, grown, freed_table, with_copy, with_table,
  free_rows, device_layout,
}
use e5_linux.Adapter.{offsets, has_filesystem, is_occupied, safe_of, read_gpt}
use e5_linux.Removal.{reset, f2fs, last_part, measure, android_volume, is_identified, eligible}
use e5_linux.Removal.Journal.{Nodes, Meta, Files, digits, decimal, expected_nodes}
use e5_linux.Removal.Journal
use e5_linux.Removal.Prepare.{
  Layout, Decision, no_tools, consistent, matches, layout_from, is_stale, volume_or, grown_tools,
  or_reset, decide, plan_of, hashes_of, meta_of, plan_layout, prepare,
}
use e5_linux.Service.Dispatch.{Bundle, Found, removing, Stored, Server, shown, put}
use e5_linux.Service.Dispatch.Planning.{
  PlanWorld, PlanRequest, blank_split, header_words, any_pending, check_pending, authorizes,
  created, store_new, prepare_for, ask, plan_found, plan_from, plan,
}
use e5_linux.Service.Dispatch.Reset.{IsConsent, plan-IsConsent}
use e5_linux.Removal.Samples.{
  checksum, decode_units, installed, read_disk, phone, volume_answers, as_number, is_mapping,
  proof_of, sum_of, no_numbers,
}

abbrev bundle : Bundle
bundle = record {
  identity = record { values = []; payloads = [] };
  family = e5;
  sizes = record { adapter = "e5"; upload_sizes = [] };
}

abbrev found : Found
found = record {
  readiness = "ready";
  cid = "00112233445566778899aabbccddeeff";
  serial = "123";
  slot = some "_a";
  profile = "e5";
  sized = record {
    is_ready = true;
    capacity = 0;
    userdata_bytes = 0;
    free_bytes = 0;
    encrypted = true;
    existing = true;
    card = none;
    card_bytes = 0;
    card_identity = none;
    root = "";
    root_size = 0;
    safe_gaps = [];
    empty = [];
  };
  storage = phone;
}

abbrev world : PlanWorld
world = record {
  device = some found;
  header = replicate 4096 0;
  token = 1 ∷ [];
  id = replicate 32 b'b';
  equip = λ kind. none;
  answers = volume_answers;
  inspect = proof_of;
  read = read_disk;
  sources = [];
}

abbrev request : PlanRequest ℕ
request = record {
  choices = record { method = uninstall; size = 0; grow = true; wipe = true; host = "" };
  reset_token = some (7 ∷ 7 ∷ []);
}

abbrev before : Server
before = record {
  bundle = some bundle;
  active = none;
  cancel = true;
  alive = false;
  disk = [];
  prompt = some (record { token = 7 ∷ 7 ∷ []; fingerprint = [] });
  request = none;
}

abbrev user_row : Part
user_row = record { n = 1; start = 4096; end = 8_392_703; name = codes "userdata" }

abbrev root_row : Part
root_row = record { n = 2; start = 4_198_400; end = 8_392_703; name = codes "e5root" }

abbrev files : Files
unfolding installed with_copy freed_table le_at le_value le_bytes put_at
files =
    let updated : Bytes = freed_table (slice 1024 2048 installed.0) 1 0 8_392_703 in
    record {
      before = installed;
      after = (
        with_copy checksum decode_units updated installed.0 512 1024,
        with_copy checksum decode_units updated installed.1 1024 0,
      );
    }

abbrev layout : Layout
unfolding files
layout = record {
  source = none;
  proof = proof_of root_row;
  after = files.after;
  user = user_row;
  root = root_row;
  expands = true;
}

abbrev decision : Decision
decision = record { action = reset; tools = []; reason = some no_tools }

abbrev wiping : Journal.Plan
unfolding layout plan_of disk_of decimal digits
wiping = plan_of phone e5 layout decision

-- The metadata of the plan.
abbrev meta : Meta
unfolding layout
meta = record {
  version = 3;
  action = reset;
  reset_authorized = some true;
  total = 16_000_000;
  front = 4;
  tail = 15_999_997;
  tool_hashes = [];
  root_start = 4_198_400;
  root_size = 4_194_304;
  nodes = some (record {
    user = codes "mmcblk0p1";
    root = codes "mmcblk0p2";
    misc = codes "mmcblk0p3";
    boot_a = codes "mmcblk0p4";
    boot_b = codes "mmcblk0p5";
  });
  volume = record {
    source = some (codes "/dev/block/mmcblk0p1");
    filesystem_bytes = 2_147_483_648;
    filesystem = f2fs;
    uuid = some (replicate 16 5);
    mapping_overhead = 0;
  };
  evidence = layout.proof;
}

abbrev stored : Stored
unfolding created files wiping meta
stored = created world.id bundle uninstall found (removing wiping meta files)

plan_run :
    plan sum_of checksum decode_units no_numbers is_mapping as_number
      (λ e. [])
      {N = ℕ}
      (λ n. true)
      (λ n. n)
      request
      world
      before
    ≡ (ok (shown stored), record before { disk = stored ∷ []; prompt = none })
unfolding plan plan_from plan_found check_pending any_pending header_words blank_split emit has_word
    authorizes prepare_for ask store_new put prepare plan_layout decide or_reset grown_tools
    eligible is_identified last_part volume_or android_volume measure is_stale layout_from
    consistent matches expected_nodes disk_of decimal digits device_layout free_rows with_table
    with_copy freed_table grown is_unsupported any_guid partition rows_named table read_gpt safe_of
    is_occupied offsets has_filesystem gpt_space gpt_backup_layout header read_table read_entries
    read_entry space_of sort_parts gap_loop largest_gap before_nul le_at le_value le_bytes put_at
    eq_bytes read_disk volume_answers plan_of meta_of hashes_of stored
plan_run = refl

plan-IsConsent_example :
    IsConsent (λ e. []) (some found) before.prompt request.reset_token meta files
unfolding stored
plan-IsConsent_example =
    plan-IsConsent sum_of checksum decode_units no_numbers is_mapping as_number (λ e. [])
      (λ n. true) (λ n. n) request world before
      (record before { disk = stored ∷ []; prompt = none }) stored wiping meta files plan_run refl
      refl
