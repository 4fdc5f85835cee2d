-- ===== src/BootControl.antt =====
-- The 32-byte bootloader_control block of the misc partition: boot/build-boot-image.py
-- (slot_info, bootloader_control) and installer/backend/boot_image.py (trial_control).
-- zlib's CRC is the parameter `crc32`.
pub mod Block
pub mod Trial
pub mod OneShot
pub mod Restore
pub mod Build
mod Examples
use e5_linux.Base.{
  ℕ, ◌+◌, ◌*◌, Bool, true, false, ◌&&◌, ◌||◌, not, ◌==◌, ltb, if◌then◌else◌, bit_and, bit_or, List,
  [], ◌∷◌, length, set, take,
}
use e5_linux.Base.Bytes.{Bytes, byte, slice, eq_bytes, le_at, le_bytes, put_at}
use e5_linux.Base.Result.{Result, ok, err, ◌>>=◌, ◌>>◌, raise_if}

-- The argument `slot`: `other` is any string but "a" and "b".
pub data SlotName : Type 0 where
  a b other : SlotName

-- The three `raise ValueError` of trial_control, in order.
pub data TrialError : Type 0 where
  invalid_block unhealthy_slot pending_slot : TrialError

-- The ways in which bootloader_control ends early; `short_block` is struct.error.
pub data BuildError : Type 0 where
  no_magic short_block crc_mismatch : BuildError

-- b'BCAB'
abbrev pub bcab : Bytes
bcab = b'B' ∷ b'C' ∷ b'A' ∷ b'B' ∷ []

abbrev pub suffix_a : Bytes
suffix_a = b'_' ∷ b'a' ∷ 0 ∷ 0 ∷ []

abbrev pub suffix_b : Bytes
suffix_b = b'_' ∷ b'b' ∷ 0 ∷ 0 ∷ []

-- MISC_BC_OFFSET
abbrev pub misc_bc_offset : ℕ
misc_bc_offset = 0x800

abbrev pub is_slot : SlotName → Bool
is_slot other = false
is_slot _ = true

-- `current` and `opposite` of trial_control
abbrev pub current_at : SlotName → ℕ
current_at a = 12
current_at _ = 14

abbrev pub opposite_at : SlotName → ℕ
opposite_at a = 14
opposite_at _ = 12

abbrev pub trial_suffix : SlotName → Bytes
trial_suffix a = suffix_b
trial_suffix _ = suffix_a

-- `(prio & 0xf) | ((tries & 0x7) << 4) | ((successful & 1) << 7)`
unfoldable pub slot_info : ℕ → ℕ → ℕ → ℕ
slot_info prio tries successful =
    bit_or (bit_or (bit_and prio 0xf) (bit_and tries 0x7 * 16)) (bit_and successful 1 * 128)

module _ (crc32 : Bytes → ℕ) where
  -- `x[28:32] = struct.pack('<I', zlib.crc32(x[:28]))`
  unfoldable pub seal : Bytes → Bytes
  seal x = put_at 28 (le_bytes 4 (crc32 (take 28 x))) x

  -- The inner function with_slots of bootloader_control.
  unfoldable pub with_slots : Bytes → Bytes → ℕ → ℕ → Bytes
  with_slots bc suffix u v = seal (set (set (put_at 0 suffix bc) 12 u) 14 v)

  -- Python's `-1 & 0xf` is 15, so `(a_prio - 1) & 0xf` is `(a_prio + 15) & 0xf`.
  unfoldable pub bootloader_control : Bytes → Result BuildError (Bytes × Bytes)
  bootloader_control misc_head = do
    let bc = slice misc_bc_offset (misc_bc_offset + 32) misc_head
    raise_if (not (eq_bytes (slice 4 8 bc) bcab)) no_magic
    raise_if (not (length bc == 32)) short_block
    raise_if (not (crc32 (take 28 bc) == le_at 4 28 bc)) crc_mismatch
    let a_info = byte bc 12
    let b_info = byte bc 14
    let a_prio = bit_and a_info 0xf
    ok (
      with_slots bc suffix_a (slot_info a_prio 1 1) b_info,
      with_slots bc suffix_b (slot_info (bit_and (a_prio + 15) 0xf) 1 1) (slot_info 0xf 2 0),
    )

  -- The first test of trial_control.
  unfoldable pub is_invalid : Bytes → SlotName → Bool
  is_invalid before slot =
      not (is_slot slot)
      || not (length before == 32)
      || not (eq_bytes (slice 4 8 before) bcab)
      || not (byte before 8 == 1)
      || not (bit_and (byte before 9) 7 == 2)
      || not (le_at 4 28 before == crc32 (take 28 before))

  -- The second one.
  unfoldable pub is_unhealthy : Bytes → SlotName → Bool
  is_unhealthy before slot =
      bit_and (byte before (current_at slot)) 0x80 == 0
      || bit_and (byte before (current_at slot)) 15 == 0
      || not (bit_and (byte before 13) 1 == 0)
      || not (bit_and (byte before 15) 1 == 0)

  unfoldable pub trial_control : Bytes → SlotName → Result TrialError Bytes
  trial_control before slot = do
    raise_if (is_invalid before slot) invalid_block
    raise_if (is_unhealthy before slot) unhealthy_slot
    let current = current_at slot
    let opposite = opposite_at slot
    raise_if (ltb (bit_and (byte before current) 15) (bit_and (byte before opposite) 15))
        pending_slot
    let named = put_at 0 (trial_suffix slot) before
    let demoted = set named current (bit_or (bit_and (byte before current) 0xf0) 14)
    ok (seal (set demoted opposite 0x2f))
