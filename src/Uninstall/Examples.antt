-- ===== src/Uninstall/Examples.antt =====
-- A disk whose userdata was halved for OpenWrt: its table, the backup, and both ways back.
use e5_linux.Base.{
  ℕ, ◌+◌, ◌*◌, ◌%◌, ◌^◌, ◌≡◌, refl, Bool, true, ltb, ◌&&◌, both_of_and, ltb→lt, Option, some, List,
  [], ◌∷◌, ◌++◌, All, replicate,
}
use e5_linux.Base.Bytes.{Bytes, IsByte, le_value, le_bytes, le_at, put_at, eq_bytes}
use e5_linux.Base.Result.{ok}
use e5_linux.Gpt.{
  Part, Space, efi_part, linux_type, before_nul, sort_parts, gap_loop, largest_gap, any_named,
  header, gpt_backup_layout, read_entry, read_entries, space_of, read_table, gpt_space,
}
use e5_linux.Uninstall.{
  Snapshots, userdata, rows_named, partition, table, is_empty_entry, in_any_gap, any_guid,
  compare_entry, compare_entries, proven_origin, is_unsupported, is_other_disk, grown,
  restored_table, freed_table, with_copy, with_table, free_rows, device_layout, restore_rows,
  restore_scanned, restored_layout,
}
use e5_linux.Uninstall.Layout.{IsLayout, device_layout-IsLayout}
use e5_linux.Uninstall.Restored.{IsRestored, restored_layout-IsRestored}

-- A checksum in place of the CRC, and the decoding of text below U+10000 without surrogates.
abbrev checksum : Bytes → ℕ
checksum [] = 0
checksum (b ∷ bs) = (b + checksum bs) % 2 ^ 32

abbrev units : Bytes → List ℕ
units (lo ∷ hi ∷ bs) = (lo + 256 * hi) ∷ units bs
units _ = []

abbrev decode_units : Bytes → Option (List ℕ)
decode_units bs = some (units bs)

abbrev wide_text : List ℕ → Bytes
wide_text [] = []
wide_text (c ∷ cs) = c ∷ 0 ∷ wide_text cs

abbrev sectors : ℕ
sectors = 16_000_000

abbrev user_entry : ℕ → Bytes
unfolding le_bytes
user_entry end =
    replicate 32 7
    ++ (le_bytes 8 4096
        ++ (le_bytes 8 end ++ (replicate 8 0 ++ (wide_text userdata ++ replicate 56 0))))

abbrev openwrt_entry : Bytes
unfolding le_bytes
openwrt_entry =
    linux_type
    ++ (replicate 16 5
        ++ (le_bytes 8 4_198_400
            ++ (le_bytes 8 8_392_703 ++ (replicate 8 0 ++ (b'r' ∷ replicate 71 0)))))

abbrev halved : Bytes
unfolding user_entry openwrt_entry
halved = user_entry 4_198_399 ++ (openwrt_entry ++ replicate 256 0)

abbrev whole : Bytes
unfolding user_entry
whole = user_entry 8_392_703 ++ replicate 384 0

abbrev header_at : Bytes → ℕ → ℕ → ℕ → Bytes
unfolding le_bytes put_at
header_at entries current alternate at =
    let blank : Bytes =
      efi_part
      ++ (replicate 4 0
          ++ (le_bytes 4 92
              ++ (replicate 8 0
                  ++ (le_bytes 8 current
                      ++ (le_bytes 8 alternate
                          ++ (le_bytes 8 3
                              ++ (le_bytes 8 15_999_000
                                  ++ (replicate 16 9
                                      ++ (le_bytes 8 at
                                          ++ (le_bytes 4 4
                                              ++ (le_bytes 4 128
                                                  ++ le_bytes 4 (checksum entries)))))))))))) in
    put_at 16 (le_bytes 4 (checksum blank)) blank ++ replicate 420 0

abbrev disk : Bytes → Snapshots
unfolding header_at
disk entries = (
  replicate 512 0 ++ (header_at entries 1 15_999_999 2 ++ entries),
  entries ++ header_at entries 15_999_999 1 15_999_998,
)

abbrev now : Snapshots
unfolding disk halved
now = disk halved

abbrev backup : Snapshots
unfolding disk whole
backup = disk whole

abbrev user_row : Part
user_row = record { n = 1; start = 4096; end = 8_392_703; name = userdata }

abbrev root_row : Part
root_row = record { n = 2; start = 4_198_400; end = 8_392_703; name = b'r' ∷ [] }

abbrev outcome : Snapshots × Part × Part × Bool
unfolding backup
outcome = (backup, user_row, root_row, true)

device_run : device_layout checksum decode_units now sectors (b'r' ∷ []) ≡ ok outcome
unfolding device_layout free_rows with_table with_copy freed_table grown is_unsupported any_guid
    partition rows_named table gpt_space gpt_backup_layout header read_table read_entries read_entry
    space_of sort_parts gap_loop largest_gap before_nul le_at le_value le_bytes put_at eq_bytes now
    outcome
device_run = refl

device_layout-IsLayout_example :
    (info : Space) × (user : Part) × (gpt_space checksum decode_units now.0 now.1 sectors ≡ ok info)
    × (partition info userdata ≡ ok user)
    × (partition info (b'r' ∷ []) ≡ ok outcome.2)
    × IsLayout checksum decode_units now sectors user outcome
device_layout-IsLayout_example =
    device_layout-IsLayout checksum decode_units now sectors (b'r' ∷ []) outcome device_run

restored_run : restored_layout checksum decode_units backup now sectors (b'r' ∷ []) ≡ ok outcome
unfolding restored_layout restore_scanned restore_rows with_table with_copy restored_table
    is_other_disk is_empty_entry compare_entries compare_entry proven_origin in_any_gap any_named
    partition rows_named table gpt_space gpt_backup_layout header read_table read_entries read_entry
    space_of sort_parts gap_loop largest_gap before_nul le_at le_value le_bytes put_at eq_bytes now
    outcome
restored_run = refl

abbrev all_small : Bytes → Bool
all_small [] = true
all_small (x ∷ xs) = ltb x 256 && all_small xs

all_small_sound : (xs : Bytes) → all_small xs ≡ true → All IsByte xs
all_small_sound [] h = tt
all_small_sound (x ∷ xs) h =
    let (small, rest) = both_of_and (ltb x 256) (all_small xs) h in
    (ltb→lt x 256 small, all_small_sound xs rest)

backup_small : all_small backup.0 ≡ true
unfolding backup
backup_small = refl

restored_layout-IsRestored_example : IsRestored checksum decode_units backup sectors outcome.0
restored_layout-IsRestored_example =
    restored_layout-IsRestored checksum decode_units backup now sectors (b'r' ∷ []) outcome
      restored_run (all_small_sound backup.0 backup_small)
