-- ===== src/Capacity/Examples.antt =====
-- A superblock with 1024 blocks of 4 KiB, and the root that it describes.
use e5_linux.Base.{ℕ, ◌≡◌, refl, false, none, [], ◌∷◌, ◌++◌, replicate, bit_and, ◌==◌}
use e5_linux.Base.Bytes.{Bytes, eq_bytes, le_at, le_value}
use e5_linux.Base.Result.{ok}
use e5_linux.Capacity.{
  Layout, ext_magic, root_label, rstrip_nul, verify_ext4_capacity, holds, is_bad_extent,
  legacy_layout,
}
use e5_linux.Capacity.Extent.{IsHidden, legacy_layout-IsHidden, verify_ext4_capacity-legacy_layout}

abbrev zeros : ℕ → Bytes
zeros n = replicate n 0

abbrev superblock : Bytes
superblock =
    zeros 5
    ++ (4
        ∷ (zeros 18
            ++ (2
                ∷ (zeros 31
                    ++ (ext_magic
                        ++ (zeros 38 ++ (0x80 ∷ (zeros 23 ++ (root_label ++ zeros 895)))))))))

abbrev hidden : Layout
hidden = record {
  offset = 4194304;
  sectors = 8192;
  disk_sectors = 16418;
  limit = 0;
  partition_end = 4096;
  capacity = 4194304;
}

layout_run : legacy_layout 4194304 8192 16418 0 4096 [] superblock ≡ ok hidden
unfolding legacy_layout is_bad_extent holds eq_bytes le_at le_value rstrip_nul
layout_run = refl

legacy_layout-IsHidden_example : IsHidden hidden
legacy_layout-IsHidden_example =
    legacy_layout-IsHidden 4194304 8192 16418 0 4096 [] superblock hidden layout_run

wide : (bit_and (le_at 4 96 superblock) 0x80 == 0) ≡ false
unfolding le_at le_value
wide = refl

verify_ext4_capacity-legacy_layout_example : verify_ext4_capacity superblock none ≡ ok 4194304
verify_ext4_capacity-legacy_layout_example =
    verify_ext4_capacity-legacy_layout 4194304 8192 16418 0 4096 [] superblock hidden wide
      layout_run
