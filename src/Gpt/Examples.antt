-- ===== src/Gpt/Examples.antt =====
-- A disk of sixteen million sectors with one entry, and the theorems at it.
use e5_linux.Base.{
  ℕ, ◌+◌, ◌*◌, ◌%◌, ◌^◌, ◌≤◌, ◌≡◌, refl, false, Option, none, some, List, [], ◌∷◌, ◌++◌, All, arith,
  replicate, inr,
}
use e5_linux.Base.Bytes.{Bytes, le_value, le_bytes, le_at, put_at, eq_bytes}
use e5_linux.Base.Result.{ok}
use e5_linux.Gpt.{
  Space, efi_part, before_nul, sort_parts, gap_loop, largest_gap, best, candidates, usable_gaps,
  free_root_range, any_holds, any_named, header, gpt_backup_layout, read_entry, read_entries,
  space_of, read_table, gpt_space, root_entry, write_copy, gpt_add_root, is_nil,
}
use e5_linux.Gpt.Gaps.{Holds}
use e5_linux.Gpt.Sorting.{IsDisjoint}
use e5_linux.Gpt.FreeSpace.{first_usable, last_usable, IsInside, IsFree}
use e5_linux.Gpt.Ranges.{gpt_space_gaps, gpt_space_complete, gpt_space_entries}
use e5_linux.Gpt.NewRoot.{IsRoom, gpt_add_root_range}

-- A checksum in place of the CRC, and the decoding of text below U+10000 without surrogates.
abbrev checksum : Bytes → ℕ
checksum [] = 0
checksum (b ∷ bs) = (b + checksum bs) % 2 ^ 32

abbrev units : Bytes → List ℕ
units (lo ∷ hi ∷ bs) = (lo + 256 * hi) ∷ units bs
units _ = []

abbrev decode_units : Bytes → Option (List ℕ)
decode_units bs = some (units bs)

abbrev sectors : ℕ
sectors = 16_000_000

-- One entry from 4096 to 99999, named "u", and three unused ones.
abbrev used_entry : Bytes
unfolding le_bytes
used_entry =
    replicate 32 7
    ++ (le_bytes 8 4096 ++ (le_bytes 8 99_999 ++ (replicate 8 0 ++ (b'u' ∷ replicate 71 0))))

abbrev table : Bytes
table = used_entry ++ replicate 384 0

abbrev header_at : ℕ → ℕ → ℕ → Bytes
unfolding le_bytes put_at
header_at current alternate at =
    let blank : Bytes =
      efi_part
      ++ (replicate 4 0
          ++ (le_bytes 4 92
              ++ (replicate 8 0
                  ++ (le_bytes 8 current
                      ++ (le_bytes 8 alternate
                          ++ (le_bytes 8 3
                              ++ (le_bytes 8 15_999_000
                                  ++ (replicate 16 9
                                      ++ (le_bytes 8 at
                                          ++ (le_bytes 4 4
                                              ++ (le_bytes 4 128
                                                  ++ le_bytes 4 (checksum table)))))))))))) in
    put_at 16 (le_bytes 4 (checksum blank)) blank ++ replicate 420 0

abbrev first_copy : Bytes
unfolding header_at used_entry
first_copy = replicate 512 0 ++ (header_at 1 15_999_999 2 ++ table)

abbrev last_copy : Bytes
unfolding header_at used_entry
last_copy = table ++ header_at 15_999_999 1 15_999_998

abbrev expected : Space
expected = record {
  front = 3;
  tail = 15_999_998;
  parts = record { n = 1; start = 4096; end = 99_999; name = b'u' ∷ [] } ∷ [];
  empty = 1 ∷ 2 ∷ 3 ∷ [];
  gaps = (2048, 2048) ∷ (100_352, 15_898_624) ∷ [];
  largest = 15_898_624;
  safe_gaps = none;
}

scan_example : gpt_space checksum decode_units first_copy last_copy sectors ≡ ok expected
unfolding gpt_space gpt_backup_layout header read_table read_entries read_entry space_of sort_parts
    gap_loop largest_gap before_nul le_at le_value put_at eq_bytes first_copy last_copy
scan_example = refl

gpt_space_gaps_example : All (IsFree expected) expected.gaps
gpt_space_gaps_example =
    gpt_space_gaps checksum decode_units first_copy last_copy sectors expected scan_example

gpt_space_complete_example : Holds (1_024_000, 8192) expected.gaps
gpt_space_complete_example =
    gpt_space_complete checksum decode_units first_copy last_copy sectors expected scan_example
      (1_024_000, 8192) (omega arith) (omega arith) (omega arith)
      (unfold le_at le_value first_copy in omega arith)
      (unfold le_at le_value first_copy in omega arith) (inr (omega arith), tt)

gpt_space_entries_example :
    All (IsInside (first_usable first_copy) (last_usable first_copy)) expected.parts
    × IsDisjoint expected.parts
gpt_space_entries_example =
    gpt_space_entries checksum decode_units first_copy last_copy sectors expected scan_example

free_root_range_run : free_root_range expected 4_194_304 ≡ some 100_352
unfolding free_root_range candidates usable_gaps best
free_root_range_run = refl

abbrev guid : Bytes
guid = replicate 16 5

abbrev root_name : List ℕ
root_name = b'r' ∷ []

abbrev encoded : Bytes
encoded = b'r' ∷ 0 ∷ []

abbrev copies : Bytes × Bytes
unfolding root_entry write_copy le_at le_value le_bytes put_at first_copy last_copy
copies =
    let entry : Bytes = root_entry checksum decode_units guid encoded 102_400 4_194_304 in
    (
      write_copy checksum decode_units guid entry 1 first_copy 512 1024,
      write_copy checksum decode_units guid entry 1 last_copy 512 0,
    )

add_root_run :
    gpt_add_root checksum decode_units guid first_copy last_copy sectors 102_400 4_194_304 root_name
      encoded
    ≡ ok copies
unfolding gpt_add_root gpt_space gpt_backup_layout header read_table read_entries read_entry
    space_of sort_parts gap_loop largest_gap before_nul le_at le_value eq_bytes any_named any_holds
    copies
add_root_run = refl

gpt_add_root_range_example :
    ((info : Space) × (gpt_space checksum decode_units first_copy last_copy sectors ≡ ok info)
      × (is_nil info.empty ≡ false)
      × (4194304 ≤ 4_194_304)
      × (102_400 % 2048 ≡ 0)
      × (4_194_304 % 2048 ≡ 0)
      × IsRoom info 102_400 4_194_304)
    × ((info' : Space) × (gpt_space checksum decode_units copies.0 copies.1 sectors ≡ ok info'))
gpt_add_root_range_example =
    gpt_add_root_range checksum decode_units guid first_copy last_copy sectors 102_400 4_194_304
      root_name encoded copies add_root_run

abbrev new_entry : Bytes
unfolding root_entry le_bytes put_at
new_entry = root_entry checksum decode_units guid encoded 102_400 4_194_304
