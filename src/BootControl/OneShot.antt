-- ===== src/BootControl/OneShot.antt =====
-- What trial_control leaves on disk: one boot of the other slot, with the running slot behind it.
use e5_linux.Base.{
  ℕ, ◌+◌, ◌*◌, ◌/◌, ◌^◌, ◌≤◌, ◌<◌, ◌≡◌, ◌≢◌, ◌↔◌, refl, true, length, All, All-get_or, arith,
  bit_and, bit_or, ltb, false,
}
use e5_linux.Base.Bits.{demoted_info, and_top, and_low_four, and_bit_zero}
use e5_linux.Base.Bytes.{IsByte, Bytes, byte}
use e5_linux.Base.Result.{ok, err}
use e5_linux.BootControl.{
  SlotName, a, b, other, pending_slot, is_slot, current_at, opposite_at, trial_suffix, is_unhealthy,
  trial_control,
}
use e5_linux.BootControl.Block.{
  IsControl, priority, tries_left, successful, byte-rewritten, byte-rewritten_first,
  byte-rewritten_second, byte-rewritten_name, rewritten-IsControl, rewritten-IsByte,
}
use e5_linux.BootControl.Trial.{
  IsHealthy, written, trial_control-eq-ok, trial_control_accepts, IsControl→is_invalid,
}

-- `y` is `x` with a trial of the slot opposite to `slot` selected.
pub record IsTrial (crc32 : Bytes → ℕ) (x : Bytes) (slot : SlotName) (y : Bytes) : Type 0 where
  pub sound : IsControl crc32 y
  pub bytes : All IsByte y
  pub named : (k : ℕ) → k < 4 → byte y k ≡ byte (trial_suffix slot) k
  pub first : priority (byte y (opposite_at slot)) ≡ 15
  pub tries : tries_left (byte y (opposite_at slot)) ≡ 2
  pub unproven : successful (byte y (opposite_at slot)) ≡ 0
  pub behind : priority (byte y (current_at slot)) ≡ 14
  pub fallback : byte y (current_at slot) / 16 ≡ byte x (current_at slot) / 16
  pub kept :
      (k : ℕ) → 4 ≤ k → k < 28 → k ≢ current_at slot → k ≢ opposite_at slot → byte y k ≡ byte x k

-- The running slot's byte after the call.
demoted : Bytes → SlotName → ℕ
demoted x slot = bit_or (bit_and (byte x (current_at slot)) 0xf0) 14

demoted_lem :
    (x : Bytes) (slot : SlotName)
    → All IsByte x
    → demoted x slot ≡ byte x (current_at slot) / 16 * 16 + 14
unfolding demoted
demoted_lem x slot h =
    demoted_info (byte x (current_at slot))
      (All-get_or IsByte x (current_at slot) 0 h (omega arith))

module _ (crc32 : Bytes → ℕ) (crc_u32 : (l : Bytes) → crc32 l < 2 ^ 32) where
  module _ (x : Bytes) (slot : SlotName) (four : length (trial_suffix slot) ≡ 4)
      (names : All IsByte (trial_suffix slot))
      (i_in : (12 ≤ current_at slot) × (current_at slot < 28))
      (j_in : (12 ≤ opposite_at slot) × (opposite_at slot < 28))
      (apart : current_at slot ≢ opposite_at slot) (h : All IsByte x) (c : IsControl crc32 x) where
    current_byte : byte (written crc32 x slot) (current_at slot) ≡ demoted x slot
    unfolding demoted
    current_byte =
        byte-rewritten_first crc32 crc_u32 x (trial_suffix slot) (current_at slot)
          (opposite_at slot) (demoted x slot) 0x2f c.whole four i_in j_in apart

    opposite_byte : byte (written crc32 x slot) (opposite_at slot) ≡ 0x2f
    unfolding demoted
    opposite_byte =
        byte-rewritten_second crc32 crc_u32 x (trial_suffix slot) (current_at slot)
          (opposite_at slot) (demoted x slot) 0x2f c.whole four i_in j_in apart

    written-IsTrial_at : IsTrial crc32 x slot (written crc32 x slot)
    unfolding demoted
    written-IsTrial_at = record {
      sound =
          rewritten-IsControl crc32 crc_u32 x (trial_suffix slot) (current_at slot)
            (opposite_at slot) (demoted x slot) 0x2f c.whole four i_in j_in apart c;
      bytes =
          rewritten-IsByte crc32 crc_u32 x (trial_suffix slot) (current_at slot) (opposite_at slot)
            (demoted x slot) 0x2f c.whole four i_in j_in apart names
            (omega (
              arith,
              demoted_lem x slot h,
              All-get_or IsByte x (current_at slot) 0 h (omega arith),
            ))
            (omega arith) h;
      named =
          byte-rewritten_name crc32 crc_u32 x (trial_suffix slot) (current_at slot)
            (opposite_at slot) (demoted x slot) 0x2f c.whole four i_in j_in apart;
      first = omega (arith, opposite_byte);
      tries = omega (arith, opposite_byte);
      unproven = omega (arith, opposite_byte);
      behind = omega (arith, current_byte, demoted_lem x slot h);
      fallback = omega (arith, current_byte, demoted_lem x slot h);
      kept =
          byte-rewritten crc32 crc_u32 x (trial_suffix slot) (current_at slot) (opposite_at slot)
            (demoted x slot) 0x2f c.whole four i_in j_in apart;
    }

  written-IsTrial :
      (x : Bytes) (slot : SlotName)
      → is_slot slot ≡ true
      → All IsByte x
      → IsControl crc32 x
      → IsTrial crc32 x slot (written crc32 x slot)
  written-IsTrial x a s h c =
      written-IsTrial_at x a refl (omega arith) (omega arith) (omega arith) (omega arith) h c
  written-IsTrial x b s h c =
      written-IsTrial_at x b refl (omega arith) (omega arith) (omega arith) (omega arith) h c
  written-IsTrial x other s h c = cc

  -- On bytes, trial_control returns a block exactly for slot a or b, a valid control block and a
  -- healthy running slot that no other slot outranks.
  pub trial_control_iff :
      (x : Bytes) (slot : SlotName)
      → All IsByte x
      → ((y : Bytes) × (trial_control crc32 x slot ≡ ok y))
        ↔ ((is_slot slot ≡ true) × IsControl crc32 x × IsHealthy x slot)
  trial_control_iff x slot h = (
    λ (y, e). let (s, c, g, w) = trial_control-eq-ok crc32 x y slot h e in (s, c, g),
    λ (s, c, g). (written crc32 x slot, trial_control_accepts crc32 x slot h s c g),
  )

  -- The block that trial_control returns is valid again, names and ranks first the opposite slot
  -- with two tries, keeps the running slot's flags right behind it, and leaves bytes 4 to 27 as
  -- they were but for the two slots.
  pub trial_control-IsTrial :
      (x y : Bytes) (slot : SlotName)
      → All IsByte x
      → trial_control crc32 x slot ≡ ok y
      → IsTrial crc32 x slot y
  trial_control-IsTrial x y slot h e =
      let (s, c, g, w) = trial_control-eq-ok crc32 x y slot h e in
      rw w (written-IsTrial x slot s h c)

  -- The bytes behind the two slots' bytes stay.
  kept_flags :
      (x y : Bytes) (slot : SlotName)
      → is_slot slot ≡ true
      → IsTrial crc32 x slot y
      → (byte y 13 ≡ byte x 13) × (byte y 15 ≡ byte x 15)
  kept_flags x y a s t = (
    t.kept 13 (omega arith) (omega arith) (omega arith) (omega arith),
    t.kept 15 (omega arith) (omega arith) (omega arith) (omega arith),
  )
  kept_flags x y b s t = (
    t.kept 13 (omega arith) (omega arith) (omega arith) (omega arith),
    t.kept 15 (omega arith) (omega arith) (omega arith) (omega arith),
  )
  kept_flags x y other s t = cc

  still_healthy :
      (x y : Bytes) (slot : SlotName)
      → is_slot slot ≡ true
      → IsHealthy x slot
      → IsTrial crc32 x slot y
      → is_unhealthy crc32 y slot ≡ false
  unfolding is_unhealthy
  still_healthy x y slot s g t =
      let at : (i : ℕ) → byte y i < 256 = λ i. All-get_or IsByte y i 0 t.bytes (omega arith) in
      ground (
        arith,
        kept_flags x y slot s t,
        and_top (byte y (current_at slot)) (at (current_at slot)),
        and_low_four (byte y (current_at slot)) (at (current_at slot)),
        and_bit_zero (byte y 13) (at 13),
        and_bit_zero (byte y 15) (at 15),
      )

  outranked :
      (x y : Bytes) (slot : SlotName)
      → IsTrial crc32 x slot y
      → ltb (bit_and (byte y (current_at slot)) 15) (bit_and (byte y (opposite_at slot)) 15) ≡ true
  outranked x y slot t =
      let at : (i : ℕ) → byte y i < 256 = λ i. All-get_or IsByte y i 0 t.bytes (omega arith) in
      ground (
        arith,
        and_low_four (byte y (current_at slot)) (at (current_at slot)),
        and_low_four (byte y (opposite_at slot)) (at (opposite_at slot)),
      )

  -- A block with a trial selected is not armed again: a second call on it from the same slot is
  -- refused because the other slot ranks higher.
  trial_control_again :
      (x y : Bytes) (slot : SlotName)
      → All IsByte x
      → trial_control crc32 x slot ≡ ok y
      → trial_control crc32 y slot ≡ err pending_slot
  trial_control_again x y slot h e =
      let (s, c, g, w) = trial_control-eq-ok crc32 x y slot h e in
      let t : IsTrial crc32 x slot y = trial_control-IsTrial x y slot h e in
      unfold trial_control in
      rw (
        IsControl→is_invalid crc32 y slot t.bytes s t.sound,
        still_healthy x y slot s g t,
        outranked x y slot t,
      )
