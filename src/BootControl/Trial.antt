-- ===== src/BootControl/Trial.antt =====
-- trial_control of installer/backend/boot_image.py: which blocks it takes, and what it writes.
use e5_linux.Base.{
  ℕ, ◌%◌, ◌≤◌, ◌<◌, ◌≡◌, inl, inr, true, false, set, All, All-get_or, arith, bit_and, bit_or, ltb,
  Bool-cases,
}
use e5_linux.Base.Bits.{and_bit_zero, and_low_three, and_low_four, and_top}
use e5_linux.Base.Bytes.{IsByte, Bytes, byte, slice, eq_bytes→eq, eq_bytes_refl, put_at}
use e5_linux.Base.Result.{ok}
use e5_linux.BootControl.{
  SlotName, bcab, is_slot, current_at, opposite_at, trial_suffix, seal, is_invalid, is_unhealthy,
  trial_control,
}
use e5_linux.BootControl.Block.{IsControl, priority, successful}

-- The slot that runs now can be booted again, no dm-verity failure is marked, and no other slot
-- comes first.
pub record IsHealthy (x : Bytes) (slot : SlotName) : Type 0 where
  pub boots : successful (byte x (current_at slot)) ≡ 1
  pub ranked : 0 < priority (byte x (current_at slot))
  pub even_a : byte x 13 % 2 ≡ 0
  pub even_b : byte x 15 % 2 ≡ 0
  pub leads : priority (byte x (opposite_at slot)) ≤ priority (byte x (current_at slot))

module _ (crc32 : Bytes → ℕ) where
  pub is_invalid→IsControl :
      (x : Bytes) (slot : SlotName)
      → All IsByte x
      → is_invalid crc32 x slot ≡ false
      → (is_slot slot ≡ true) × IsControl crc32 x
  unfolding is_invalid
  is_invalid→IsControl x slot h e = ground (
    arith,
    eq_bytes→eq (slice 4 8 x) bcab,
    and_low_three (byte x 9) (All-get_or IsByte x 9 0 h (omega arith)),
  )

  pub IsControl→is_invalid :
      (x : Bytes) (slot : SlotName)
      → All IsByte x
      → is_slot slot ≡ true
      → IsControl crc32 x
      → is_invalid crc32 x slot ≡ false
  unfolding is_invalid
  IsControl→is_invalid x slot h s c = rw (c.magic) (
      ground (
        arith,
        eq_bytes_refl bcab,
        and_low_three (byte x 9) (All-get_or IsByte x 9 0 h (omega arith)),
      ))

  pub is_unhealthy→IsHealthy :
      (x : Bytes) (slot : SlotName)
      → All IsByte x
      → is_unhealthy crc32 x slot ≡ false
      → ltb (bit_and (byte x (current_at slot)) 15) (bit_and (byte x (opposite_at slot)) 15) ≡ false
      → IsHealthy x slot
  unfolding is_unhealthy
  is_unhealthy→IsHealthy x slot h e l =
      let at : (i : ℕ) → byte x i < 256 = λ i. All-get_or IsByte x i 0 h (omega arith) in
      ground (
        arith,
        at (current_at slot),
        and_top (byte x (current_at slot)) (at (current_at slot)),
        and_low_four (byte x (current_at slot)) (at (current_at slot)),
        and_low_four (byte x (opposite_at slot)) (at (opposite_at slot)),
        and_bit_zero (byte x 13) (at 13),
        and_bit_zero (byte x 15) (at 15),
      )

  pub IsHealthy→is_unhealthy :
      (x : Bytes) (slot : SlotName)
      → All IsByte x
      → IsHealthy x slot
      → (is_unhealthy crc32 x slot ≡ false)
        × (ltb (bit_and (byte x (current_at slot)) 15) (bit_and (byte x (opposite_at slot)) 15)
            ≡ false)
  unfolding is_unhealthy
  IsHealthy→is_unhealthy x slot h g =
      let at : (i : ℕ) → byte x i < 256 = λ i. All-get_or IsByte x i 0 h (omega arith) in
      ground (
        arith,
        and_top (byte x (current_at slot)) (at (current_at slot)),
        and_low_four (byte x (current_at slot)) (at (current_at slot)),
        and_low_four (byte x (opposite_at slot)) (at (opposite_at slot)),
        and_bit_zero (byte x 13) (at 13),
        and_bit_zero (byte x 15) (at 15),
      )

  -- The block that a successful call writes.
  abbrev pub written : Bytes → SlotName → Bytes
  written x slot = seal crc32 (
      set
        (set (put_at 0 (trial_suffix slot) x) (current_at slot)
          (bit_or (bit_and (byte x (current_at slot)) 0xf0) 14))
        (opposite_at slot) 0x2f)

  -- trial_control succeeds only on a valid block of a healthy slot, and then writes `written`.
  pub trial_control-eq-ok :
      (x y : Bytes) (slot : SlotName)
      → All IsByte x
      → trial_control crc32 x slot ≡ ok y
      → (is_slot slot ≡ true) × IsControl crc32 x × IsHealthy x slot × (y ≡ written x slot)
  unfolding trial_control
  trial_control-eq-ok x y slot h e = elim (Bool-cases (is_invalid crc32 x slot)) [
    | inl bad ↦ cc (rw bad at e)
    | inr good ↦ elim (Bool-cases (is_unhealthy crc32 x slot)) [
      | inl ill ↦ cc (rw (good, ill) at e)
      | inr well ↦
          elim (Bool-cases (
            ltb (bit_and (byte x (current_at slot)) 15) (bit_and (byte x (opposite_at slot)) 15))) [
              | inl behind ↦ cc (rw (good, well, behind) at e)
              | inr ahead ↦
                  let (s, c) = is_invalid→IsControl x slot h good in
                  (
                    s,
                    c,
                    is_unhealthy→IsHealthy x slot h well ahead,
                    cc (rw (good, well, ahead) at e),
                  )
            ]
    ]
  ]

  -- It does succeed on all of them.
  pub trial_control_accepts :
      (x : Bytes) (slot : SlotName)
      → All IsByte x
      → is_slot slot ≡ true
      → IsControl crc32 x
      → IsHealthy x slot
      → trial_control crc32 x slot ≡ ok (written x slot)
  unfolding trial_control
  trial_control_accepts x slot h s c g =
      let (well, ahead) = IsHealthy→is_unhealthy x slot h g in
      rw (IsControl→is_invalid x slot h s c, well, ahead)
