-- ===== src/BootControl/Examples.antt =====
-- A live block with slot a running, and the theorems at it.
use e5_linux.Base.{
  ℕ, ◌+◌, ◌%◌, ◌^◌, ◌<◌, ◌≡◌, ◌↔◌, refl, true, [], ◌∷◌, ◌++◌, All, replicate, arith,
}
use e5_linux.Base.Bytes.{IsByte, Bytes, le_value, le_bytes, le_at, put_at, eq_bytes}
use e5_linux.Base.Result.{ok}
use e5_linux.BootControl.{
  a, bcab, suffix_a, is_slot, slot_info, seal, with_slots, bootloader_control, is_invalid,
  is_unhealthy, trial_control,
}
use e5_linux.BootControl.Block.{IsControl}
use e5_linux.BootControl.Trial.{IsHealthy, written}
use e5_linux.BootControl.OneShot.{IsTrial, trial_control_iff, trial_control-IsTrial}
use e5_linux.BootControl.Restore.{
  slot_a, is_not_ready, is_pending, default_block, finish_control, IsReady, IsDefault,
  finish_control-IsDefault,
}
use e5_linux.BootControl.Build.{live_block, IsPair, bootloader_control-IsPair}

-- A checksum in place of the CRC.
abbrev checksum : Bytes → ℕ
checksum [] = 0
checksum (x ∷ xs) = (x + checksum xs) % 2 ^ 32

checksum_u32 : (l : Bytes) → checksum l < 2 ^ 32
checksum_u32 [] = omega arith
checksum_u32 (x ∷ xs) = omega arith

-- Slot a: priority 15, one try, successful. Slot b: priority 14, successful.
abbrev live : Bytes
unfolding seal le_bytes put_at
live = seal checksum (suffix_a ++ (bcab ++ (1 ∷ 2 ∷ 0 ∷ 0 ∷ 0x9f ∷ 0 ∷ 0x8e ∷ 0 ∷ replicate 16 0)))

abbrev armed : Bytes
unfolding live
armed = written checksum live a

arm_run : trial_control checksum live a ≡ ok armed
unfolding trial_control is_invalid is_unhealthy eq_bytes le_at le_value armed
arm_run = refl

live-IsByte : All IsByte live
unfolding live
live-IsByte = omega arith

trial_control_iff_example :
    ((y : Bytes) × (trial_control checksum live a ≡ ok y))
    ↔ ((is_slot a ≡ true) × IsControl checksum live × IsHealthy live a)
trial_control_iff_example = trial_control_iff checksum checksum_u32 live a live-IsByte

trial_control-IsTrial_example : IsTrial checksum live a armed
trial_control-IsTrial_example =
    trial_control-IsTrial checksum checksum_u32 live armed a live-IsByte arm_run

-- The same block with the running slot made the default.
abbrev settled : Bytes
unfolding live default_block
settled = default_block checksum live slot_a

finish_run : finish_control checksum live slot_a ≡ ok settled
unfolding finish_control is_not_ready is_pending eq_bytes le_at le_value settled
finish_run = refl

finish_control-IsDefault_example :
    IsReady checksum live slot_a × IsDefault checksum live slot_a settled
finish_control-IsDefault_example =
    finish_control-IsDefault checksum checksum_u32 live settled slot_a live-IsByte finish_run

abbrev misc_head : Bytes
unfolding live
misc_head = replicate 2048 0 ++ live

abbrev blocks : Bytes × Bytes
unfolding live with_slots slot_info
blocks = (
  with_slots checksum live suffix_a (slot_info 15 1 1) 0x8e,
  with_slots checksum live (b'_' ∷ b'b' ∷ 0 ∷ 0 ∷ []) (slot_info 14 1 1) (slot_info 15 2 0),
)

build_run : bootloader_control checksum misc_head ≡ ok blocks
unfolding bootloader_control blocks misc_head eq_bytes le_at le_value
build_run = refl

misc_head-IsByte : All IsByte misc_head
unfolding misc_head
misc_head-IsByte = omega arith

bootloader_control-IsPair_example :
    IsPair checksum checksum_u32 (live_block misc_head) blocks.0 blocks.1
bootloader_control-IsPair_example =
    bootloader_control-IsPair checksum checksum_u32 misc_head blocks.0 blocks.1 misc_head-IsByte
      (unfold misc_head in refl) (unfold misc_head in refl) build_run
