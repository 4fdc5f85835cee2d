-- ===== src/BootImage/Examples.antt =====
-- A small boot image with the two-stage installer, its footer, and the mark for a preparation.
use e5_linux.Base.{ℕ, ◌≡◌, ◌≢◌, refl, true, false, [], ◌∷◌, ◌++◌, replicate, take}
use e5_linux.Base.Bytes.{Bytes, eq_bytes, le_at, be_at, le_value, be_value_from}
use e5_linux.Base.Result.{ok}
use e5_linux.Gpt.{before_nul}
use e5_linux.BootImage.{
  e5, Installed, android, avb_footer, part_version, part_prepare, emit, split_from, words, has_word,
  any_starts, has_nul, is_ascii, is_recognized, inspect_linux_boot, boot_command,
}
use e5_linux.BootImage.Inspect.{IsInstalled, inspect_linux_boot-IsInstalled}
use e5_linux.BootImage.Mark.{boot_command_pending}

abbrev zeros : ℕ → Bytes
zeros n = replicate n 0

abbrev image : Bytes
image =
    android
    ++ (1
        ∷ 0
        ∷ 0
        ∷ 0
        ∷ 1
        ∷ 0
        ∷ 0
        ∷ 0
        ∷ 0
        ∷ 0
        ∷ 0
        ∷ 0
        ∷ 48
        ∷ 6
        ∷ 0
        ∷ 0
        ∷ (zeros 16 ++ (4 ∷ 0 ∷ 0 ∷ 0 ∷ (part_version ++ zeros 4041))))

abbrev tail : Bytes
tail =
    zeros 448
    ++ (avb_footer
        ++ (zeros 8
            ++ (0
                ∷ 0
                ∷ 0
                ∷ 0
                ∷ 0
                ∷ 0
                ∷ 48
                ∷ 0
                ∷ 0
                ∷ 0
                ∷ 0
                ∷ 0
                ∷ 0
                ∷ 0
                ∷ 48
                ∷ 0
                ∷ 0
                ∷ 0
                ∷ 0
                ∷ 0
                ∷ 0
                ∷ 0
                ∷ 0
                ∷ 1
                ∷ zeros 28)))

abbrev no_hash : Bytes → Bytes
no_hash raw = []

abbrev found : Installed
found = record { header_version = 4; kernel_bytes = 1; ramdisk_bytes = 1; header_sha256 = [] }

inspect_run : inspect_linux_boot no_hash image tail 0x4000000 e5 true ≡ ok found
unfolding inspect_linux_boot is_recognized eq_bytes le_at le_value be_at be_value_from before_nul
    has_nul is_ascii words split_from emit has_word any_starts
inspect_run = refl

inspect_linux_boot-IsInstalled_example : IsInstalled image tail 0x4000000 e5 found
inspect_linux_boot-IsInstalled_example =
    inspect_linux_boot-IsInstalled no_hash image tail 0x4000000 e5 true found inspect_run

-- 'e5.part_prepare=1'
abbrev option : Bytes
option = part_prepare ++ (b'1' ∷ [])

abbrev marked : Bytes
marked =
    android
    ++ (1
        ∷ 0
        ∷ 0
        ∷ 0
        ∷ 1
        ∷ 0
        ∷ 0
        ∷ 0
        ∷ 0
        ∷ 0
        ∷ 0
        ∷ 0
        ∷ 48
        ∷ 6
        ∷ 0
        ∷ 0
        ∷ (zeros 16 ++ (4 ∷ 0 ∷ 0 ∷ 0 ∷ (part_version ++ (32 ∷ (option ++ zeros 4023))))))

mark_run : boot_command image option ≡ ok marked
unfolding boot_command eq_bytes le_at le_value before_nul is_ascii words split_from emit has_word
    any_starts
mark_run = refl

no_nul : has_nul option ≡ false
unfolding has_nul
no_nul = refl

boot_command_pending_example :
    inspect_linux_boot no_hash (take 4096 marked) tail 0x4000000 e5 true ≢ ok found
unfolding eq_bytes
boot_command_pending_example =
    boot_command_pending image option marked no_nul refl refl mark_run no_hash tail 0x4000000 e5
      true found
