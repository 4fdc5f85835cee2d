-- ===== src/Removal/Samples/Examples.antt =====
-- The removal at the sample disk: the scan, the plan, and the journal of that plan.
use e5_linux.Base.{ℕ, ◌≡◌, refl, true, none, some, List, [], ◌∷◌, All, replicate}
use e5_linux.Base.Bytes.{Bytes, slice, le_value, le_bytes, le_at, put_at, eq_bytes}
use e5_linux.Base.Result.{ok}
use e5_linux.Base.Assoc.{contains}
use e5_linux.BootImage.{e5}
use e5_linux.TwoStage.{disk_of, all_hex}
use e5_linux.Base.Text.{codes}
use e5_linux.Gpt.{
  Part, Space, before_nul, sort_parts, gap_loop, largest_gap, header, gpt_backup_layout, read_entry,
  read_entries, space_of, read_table, gpt_space,
}
use e5_linux.Gpt.FreeSpace.{IsFree}
use e5_linux.Uninstall.{
  Snapshots, rows_named, partition, table, any_guid, is_unsupported, grown, freed_table, with_copy,
  with_table, free_rows, device_layout,
}
use e5_linux.Adapter.{Scan, offsets, has_filesystem, is_occupied, safe_of, read_gpt}
use e5_linux.Adapter.Safe.{IsUnused, read_gpt-IsSafe}
use e5_linux.Removal.{
  Volume, f2fs, grow_f2fs, last_part, measure, android_volume, is_identified, eligible,
}
use e5_linux.Removal.Journal.{
  Nodes, Plan, Meta, Files, digits, decimal, all_digits, is_node_end, is_node, all_in, all_hashes,
  is_proof, lacks_evidence, check_growth, check_action, geometry_tests, expected_nodes,
  calculated_layout, check_geometry, validate_snapshots,
}
use e5_linux.Removal.Journal.Valid.{IsRemoval, validate_snapshots-IsRemoval}
use e5_linux.Removal.Prepare.{
  Layout, Decision, consistent, matches, layout_from, is_stale, volume_or, grown_tools, or_reset,
  decide, plan_of, hashes_of, meta_of, plan_layout, prepare,
}
use e5_linux.Removal.Prepare.Consent.{IsPlanned, prepare-IsPlanned}
use e5_linux.Removal.Samples.{
  checksum, decode_units, installed, read_disk, phone, volume_answers, as_number, is_mapping, equip,
  proof_of, sum_of, no_numbers,
}

abbrev user_row : Part
user_row = record { n = 1; start = 4096; end = 8_392_703; name = codes "userdata" }

abbrev root_row : Part
root_row = record { n = 2; start = 4_198_400; end = 8_392_703; name = codes "e5root" }

abbrev free_gap : ℕ × ℕ
free_gap = (8_392_704, 7_606_272)

abbrev space : Space
space = record {
  front = 4;
  tail = 15_999_997;
  parts =
      record { n = 1; start = 4096; end = 4_198_399; name = codes "userdata" }
      ∷ root_row
      ∷ record { n = 3; start = 100; end = 107; name = codes "misc" }
      ∷ record { n = 4; start = 200; end = 207; name = codes "boot_a" }
      ∷ record { n = 5; start = 300; end = 307; name = codes "boot_b" }
      ∷ [];
  empty = 5 ∷ 6 ∷ 7 ∷ [];
  gaps = (2048, 2048) ∷ free_gap ∷ [];
  largest = 7_606_272;
  safe_gaps = some ((2048, 2048) ∷ free_gap ∷ []);
}

abbrev scan : Scan
unfolding installed
scan = record { first = installed.0; last = installed.1; space = space }

scan_run : read_gpt read_disk checksum decode_units e5 16_000_000 ≡ ok scan
unfolding read_gpt safe_of is_occupied offsets has_filesystem gpt_space gpt_backup_layout header
    read_table read_entries read_entry space_of sort_parts gap_loop largest_gap before_nul le_at
    le_value le_bytes put_at eq_bytes read_disk scan
scan_run = refl

read_gpt-IsSafe_example :
    (info : Space) × (safe : List (ℕ × ℕ)) × (gpt_space checksum decode_units scan.first scan.last
        16_000_000
      ≡ ok info)
    × (scan.space.safe_gaps ≡ some safe)
    × All (λ g. IsFree info g × IsUnused read_disk e5 info.parts g) safe
read_gpt-IsSafe_example =
    read_gpt-IsSafe read_disk checksum decode_units e5 16_000_000 scan scan_run

-- The table without OpenWrt, and userdata over its range.
abbrev after : Snapshots
unfolding installed with_copy freed_table le_at le_value le_bytes put_at
after =
    let updated : Bytes = freed_table (slice 1024 2048 installed.0) 1 0 8_392_703 in
    (
      with_copy checksum decode_units updated installed.0 512 1024,
      with_copy checksum decode_units updated installed.1 1024 0,
    )

abbrev layout : Layout
unfolding after
layout = record {
  source = none;
  proof = proof_of root_row;
  after = after;
  user = user_row;
  root = root_row;
  expands = true;
}

abbrev decision : Decision
decision = record {
  action = grow_f2fs;
  tools = ("sbin/resize.f2fs", 1 ∷ 2 ∷ []) ∷ [];
  reason = none;
}

abbrev nodes : Nodes
nodes = record {
  user = codes "mmcblk0p1";
  root = codes "mmcblk0p2";
  misc = codes "mmcblk0p3";
  boot_a = codes "mmcblk0p4";
  boot_b = codes "mmcblk0p5";
}

abbrev volume : Volume
volume = record {
  source = some (codes "/dev/block/mmcblk0p1");
  filesystem_bytes = 2_147_483_648;
  filesystem = f2fs;
  uuid = some (replicate 16 5);
  mapping_overhead = 0;
}

abbrev plan : Plan
unfolding layout plan_of disk_of decimal digits
plan = plan_of phone e5 layout decision

abbrev meta : Meta
unfolding layout meta_of hashes_of
meta = meta_of sum_of phone space layout decision nodes volume

abbrev files : Files
unfolding installed layout
files = record { before = installed; after = layout.after }

plan_run :
    prepare sum_of checksum decode_units no_numbers is_mapping as_number
      (λ e. [])
      none
      equip
      volume_answers
      proof_of
      read_disk
      []
      e5
      phone
    ≡ ok (plan, meta, files)
unfolding prepare plan_layout decide or_reset grown_tools eligible is_identified last_part volume_or
    android_volume measure is_stale layout_from consistent matches expected_nodes disk_of decimal
    digits device_layout free_rows with_table with_copy freed_table grown is_unsupported any_guid
    partition rows_named table read_gpt safe_of is_occupied offsets has_filesystem gpt_space
    gpt_backup_layout header read_table read_entries read_entry space_of sort_parts gap_loop
    largest_gap before_nul le_at le_value le_bytes put_at eq_bytes read_disk scan plan meta files
    volume_answers plan_of meta_of hashes_of
plan_run = refl

prepare-IsPlanned_example :
    IsPlanned sum_of checksum decode_units no_numbers is_mapping as_number
      (λ e. [])
      none
      equip
      volume_answers
      proof_of
      read_disk
      []
      e5
      phone
      plan
      meta
      files
prepare-IsPlanned_example =
    prepare-IsPlanned sum_of checksum decode_units no_numbers is_mapping as_number (λ e. []) none
      equip volume_answers proof_of read_disk [] e5 phone plan meta files plan_run

-- The journal of this plan is accepted.
journal_run : validate_snapshots checksum decode_units e5 phone plan meta files ≡ ok tt
unfolding validate_snapshots check_geometry geometry_tests check_action check_growth eligible
    is_identified last_part calculated_layout lacks_evidence is_proof all_in all_hashes all_hex
    contains is_node is_node_end all_digits expected_nodes disk_of decimal digits device_layout
    free_rows with_table with_copy freed_table grown is_unsupported any_guid partition rows_named
    table gpt_space gpt_backup_layout header read_table read_entries read_entry space_of sort_parts
    gap_loop largest_gap before_nul le_at le_value le_bytes put_at eq_bytes plan meta files
journal_run = refl

validate_snapshots-IsRemoval_example : IsRemoval checksum decode_units e5 phone plan meta files
validate_snapshots-IsRemoval_example =
    validate_snapshots-IsRemoval checksum decode_units e5 phone plan meta files journal_run
