-- ===== src/BootControl/Restore.antt =====
-- The block of finish_boot in installer/backend/uninstall.py, lines 655 to 666: after an uninstall
-- the Android slot that runs is made the default. A slot is the name that follows the underscore
-- in ro.boot.slot_suffix, which Android sets to _a or _b.
use e5_linux.Base.{
  ℕ, ◌%◌, ◌/◌, ◌^◌, ◌≤◌, ◌<◌, ◌≡◌, ◌≢◌, ◌⊎◌, inl, inr, Bool, false, ◌&&◌, ◌||◌, not, ◌==◌, ltb,
  bit_and, length, All, All-get_or, arith, take, refl, Bool-cases,
}
use e5_linux.Base.Bits.{and_bit_zero, and_low_three, and_low_four, and_top}
use e5_linux.Base.Bytes.{IsByte, Bytes, byte, slice, eq_bytes, eq_bytes→eq, le_at}
use e5_linux.Base.Result.{Result, ok, ◌>>◌, raise_if}
use e5_linux.BootControl.{bcab, suffix_a, suffix_b, with_slots}
use e5_linux.BootControl.Block.{
  IsControl, priority, tries_left, successful, byte-rewritten, byte-rewritten_first,
  byte-rewritten_second, byte-rewritten_name, rewritten-IsControl, rewritten-IsByte,
}

-- `slot`
pub data AndroidSlot : Type 0 where
  slot_a slot_b : AndroidSlot

-- The two `raise RecoveryRequired` on the block, in order.
pub data FinishError : Type 0 where
  not_ready update_pending : FinishError

-- `current_index` and `other_index`
abbrev pub running_at : AndroidSlot → ℕ
running_at slot_a = 12
running_at slot_b = 14

abbrev pub resting_at : AndroidSlot → ℕ
resting_at slot_a = 14
resting_at slot_b = 12

-- `('_' + slot).encode() + b'\0\0'`
abbrev pub running_suffix : AndroidSlot → Bytes
running_suffix slot_a = suffix_a
running_suffix slot_b = suffix_b

module _ (crc32 : Bytes → ℕ) where
  -- The first test.
  unfoldable pub is_not_ready : Bytes → AndroidSlot → Bool
  is_not_ready bc slot =
      not (length bc == 32)
      || not (eq_bytes (slice 4 8 bc) bcab)
      || not (byte bc 8 == 1)
      || not (bit_and (byte bc 9) 7 == 2)
      || not (crc32 (take 28 bc) == le_at 4 28 bc)
      || bit_and (byte bc (running_at slot)) 0x80 == 0
      || not (bit_and (byte bc 13) 1 == 0)
      || not (bit_and (byte bc 15) 1 == 0)

  -- The second one: the other slot comes first, and has tries left or was booted.
  unfoldable pub is_pending : Bytes → AndroidSlot → Bool
  is_pending bc slot =
      ltb (bit_and (byte bc (running_at slot)) 15) (bit_and (byte bc (resting_at slot)) 15)
      && (ltb 1 (bit_and (byte bc (resting_at slot) / 16) 7)
          || not (bit_and (byte bc (resting_at slot)) 0x80 == 0))

  -- `desired`
  unfoldable pub default_block : Bytes → AndroidSlot → Bytes
  default_block bc slot_a = with_slots crc32 bc (running_suffix slot_a) 0x9f 0x1e
  default_block bc slot_b = with_slots crc32 bc (running_suffix slot_b) 0x1e 0x9f

  unfoldable pub finish_control : Bytes → AndroidSlot → Result FinishError Bytes
  finish_control bc slot = do
    raise_if (is_not_ready bc slot) not_ready
    raise_if (is_pending bc slot) update_pending
    ok (default_block bc slot)

-- `y` is `x` with the running slot made the default.
pub record IsDefault (crc32 : Bytes → ℕ) (x : Bytes) (slot : AndroidSlot) (y : Bytes) : Type 0 where
  pub sound : IsControl crc32 y
  pub bytes : All IsByte y
  pub named : (k : ℕ) → k < 4 → byte y k ≡ byte (running_suffix slot) k
  pub first : priority (byte y (running_at slot)) ≡ 15
  pub proven : successful (byte y (running_at slot)) ≡ 1
  pub behind : priority (byte y (resting_at slot)) ≡ 14
  pub one_try : tries_left (byte y (resting_at slot)) ≡ 1
  pub unproven : successful (byte y (resting_at slot)) ≡ 0
  pub kept : (k : ℕ) → 4 ≤ k → k < 28 → k ≢ 12 → k ≢ 14 → byte y k ≡ byte x k

-- What the block must be before: valid, the running slot booted, no dm-verity failure, and no
-- update waiting in the other slot.
pub record IsReady (crc32 : Bytes → ℕ) (x : Bytes) (slot : AndroidSlot) : Type 0 where
  pub sound : IsControl crc32 x
  pub booted : successful (byte x (running_at slot)) ≡ 1
  pub even_a : byte x 13 % 2 ≡ 0
  pub even_b : byte x 15 % 2 ≡ 0
  pub settled :
      (priority (byte x (resting_at slot)) ≤ priority (byte x (running_at slot)))
      ⊎ ((tries_left (byte x (resting_at slot)) ≤ 1) × (successful (byte x (resting_at slot)) ≡ 0))

-- `y` is `x` with a suffix and the bytes of slots a and b written.
record IsRewritten (crc32 : Bytes → ℕ) (x suffix : Bytes) (u v : ℕ) (y : Bytes) : Type 0 where
  sound : IsControl crc32 y
  bytes : All IsByte y
  named : (k : ℕ) → k < 4 → byte y k ≡ byte suffix k
  of_a : byte y 12 ≡ u
  of_b : byte y 14 ≡ v
  kept : (k : ℕ) → 4 ≤ k → k < 28 → k ≢ 12 → k ≢ 14 → byte y k ≡ byte x k

module _ (crc32 : Bytes → ℕ) where
  not_ready→IsControl :
      (x : Bytes) (slot : AndroidSlot)
      → All IsByte x
      → is_not_ready crc32 x slot ≡ false
      → IsControl crc32 x
  unfolding is_not_ready
  not_ready→IsControl x slot h e = ground (
    arith,
    eq_bytes→eq (slice 4 8 x) bcab,
    and_low_three (byte x 9) (All-get_or IsByte x 9 0 h (omega arith)),
  )

  not_ready→IsReady :
      (x : Bytes) (slot : AndroidSlot)
      → All IsByte x
      → is_not_ready crc32 x slot ≡ false
      → is_pending crc32 x slot ≡ false
      → IsReady crc32 x slot
  unfolding is_not_ready is_pending
  not_ready→IsReady x slot h e p =
      let at : (i : ℕ) → byte x i < 256 = λ i. All-get_or IsByte x i 0 h (omega arith) in
      let c : IsControl crc32 x = not_ready→IsControl x slot h e in
      ground (
        arith,
        c,
        at (running_at slot),
        at (resting_at slot),
        and_top (byte x (running_at slot)) (at (running_at slot)),
        and_top (byte x (resting_at slot)) (at (resting_at slot)),
        and_low_four (byte x (running_at slot)) (at (running_at slot)),
        and_low_four (byte x (resting_at slot)) (at (resting_at slot)),
        and_low_three (byte x (resting_at slot) / 16) (omega (arith, at (resting_at slot))),
        and_bit_zero (byte x 13) (at 13),
        and_bit_zero (byte x 15) (at 15),
      )

  finish_control-eq-ok :
      (x y : Bytes) (slot : AndroidSlot)
      → All IsByte x
      → finish_control crc32 x slot ≡ ok y
      → IsReady crc32 x slot × (y ≡ default_block crc32 x slot)
  unfolding finish_control
  finish_control-eq-ok x y slot h e = elim (Bool-cases (is_not_ready crc32 x slot)) [
    | inl bad ↦ cc (rw bad at e)
    | inr good ↦ elim (Bool-cases (is_pending crc32 x slot)) [
      | inl late ↦ cc (rw (good, late) at e)
      | inr free ↦ (not_ready→IsReady x slot h good free, cc (rw (good, free) at e))
    ]
  ]

module _ (crc32 : Bytes → ℕ) (crc_u32 : (l : Bytes) → crc32 l < 2 ^ 32) where
  with_slots-IsRewritten :
      (x suffix : Bytes) (u v : ℕ)
      → length suffix ≡ 4
      → All IsByte suffix
      → IsByte u
      → IsByte v
      → All IsByte x
      → IsControl crc32 x
      → IsRewritten crc32 x suffix u v (with_slots crc32 x suffix u v)
  unfolding with_slots
  with_slots-IsRewritten x suffix u v four hs hu hv h c =
      let lo : (12 ≤ 12) × (12 < 28) = omega arith in
      let hi : (12 ≤ 14) × (14 < 28) = omega arith in
      let apart : 12 ≢ 14 = omega arith in
      record {
        sound = rewritten-IsControl crc32 crc_u32 x suffix 12 14 u v c.whole four lo hi apart c;
        bytes =
            rewritten-IsByte crc32 crc_u32 x suffix 12 14 u v c.whole four lo hi apart hs hu hv h;
        named = byte-rewritten_name crc32 crc_u32 x suffix 12 14 u v c.whole four lo hi apart;
        of_a = byte-rewritten_first crc32 crc_u32 x suffix 12 14 u v c.whole four lo hi apart;
        of_b = byte-rewritten_second crc32 crc_u32 x suffix 12 14 u v c.whole four lo hi apart;
        kept = byte-rewritten crc32 crc_u32 x suffix 12 14 u v c.whole four lo hi apart;
      }

  default_block-IsDefault :
      (x : Bytes) (slot : AndroidSlot)
      → All IsByte x
      → IsControl crc32 x
      → IsDefault crc32 x slot (default_block crc32 x slot)
  unfolding default_block
  default_block-IsDefault x slot_a h c =
      let w =
        with_slots-IsRewritten x suffix_a 0x9f 0x1e refl (omega arith) (omega arith) (omega arith) h
          c in
      record {
        sound = w.sound;
        bytes = w.bytes;
        named = w.named;
        first = omega (arith, w.of_a);
        proven = omega (arith, w.of_a);
        behind = omega (arith, w.of_b);
        one_try = omega (arith, w.of_b);
        unproven = omega (arith, w.of_b);
        kept = w.kept;
      }
  default_block-IsDefault x slot_b h c =
      let w =
        with_slots-IsRewritten x suffix_b 0x1e 0x9f refl (omega arith) (omega arith) (omega arith) h
          c in
      record {
        sound = w.sound;
        bytes = w.bytes;
        named = w.named;
        first = omega (arith, w.of_b);
        proven = omega (arith, w.of_b);
        behind = omega (arith, w.of_a);
        one_try = omega (arith, w.of_a);
        unproven = omega (arith, w.of_a);
        kept = w.kept;
      }

  -- On bytes, finish_boot goes past its two tests only for a valid control block whose running slot
  -- has booted, without a dm-verity failure and with no update waiting in the other slot; the block
  -- it then makes is valid, names the running slot and ranks it first as booted, puts the other
  -- slot behind it unproven with one try, and leaves bytes 4 to 27 as they were but for these two.
  pub finish_control-IsDefault :
      (x y : Bytes) (slot : AndroidSlot)
      → All IsByte x
      → finish_control crc32 x slot ≡ ok y
      → IsReady crc32 x slot × IsDefault crc32 x slot y
  finish_control-IsDefault x y slot h e =
      let (r, w) = finish_control-eq-ok crc32 x y slot h e in
      (r, rw w (default_block-IsDefault x slot h r.sound))
