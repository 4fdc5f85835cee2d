-- ===== src/BootControl/Build.antt =====
-- bootloader_control of boot/build-boot-image.py: the two blocks that a boot image carries.
use e5_linux.Base.{
  ℕ, ◌+◌, ◌*◌, ◌%◌, ◌/◌, ◌^◌, ◌≤◌, ◌<◌, ◌≡◌, ◌≢◌, refl, sym, ap, ◌∙◌, length, All, All-get_or,
  All-take, All-drop, take, drop, arith, bit_and, ◌==◌, not, eq_of_not, true_of_not,
}
use e5_linux.Base.Bits.{and_low_four, agree_below, agree_below→eq}
use e5_linux.Base.Bytes.{IsByte, Bytes, byte, slice, eq_bytes, eq_bytes→eq, le_at}
use e5_linux.Base.Result.{ok, raise_if-eq-ok}
use e5_linux.BootControl.{
  bcab, no_magic, short_block, crc_mismatch, suffix_a, suffix_b, misc_bc_offset, slot_info,
  with_slots, bootloader_control,
}
use e5_linux.BootControl.Block.{
  IsControl, priority, tries_left, successful, byte-rewritten, byte-rewritten_first,
  byte-rewritten_second, rewritten-IsControl,
}

-- The live block inside the head of misc.
abbrev pub live_block : Bytes → Bytes
live_block misc_head = slice misc_bc_offset (misc_bc_offset + 32) misc_head

slot_info_table : (i : ℕ) → i < 256 → slot_info (i % 16) (i / 16 % 8) (i / 128) ≡ i
unfolding agree_below slot_info
slot_info_table = agree_below→eq (λ i. slot_info (i % 16) (i / 16 % 8) (i / 128)) (λ i. i) 256 refl

pub slot_info_lem : (p t s : ℕ) → p < 16 → t < 8 → s < 2 → slot_info p t s ≡ p + 16 * t + 128 * s
slot_info_lem p t s hp ht hs =
    let i : ℕ = p + 16 * t + 128 * s in
    let ep : i % 16 ≡ p = omega arith in
    let et : i / 16 % 8 ≡ t = omega arith in
    let es : i / 128 ≡ s = omega arith in
    sym (ap (λ (n : ℕ). slot_info n t s) ep)
    ∙ sym (ap (λ (n : ℕ). slot_info (i % 16) n s) et)
    ∙ sym (ap (λ (n : ℕ). slot_info (i % 16) (i / 16 % 8) n) es)
    ∙ slot_info_table i (omega arith)

-- The three fields come back out of the packed byte.
pub slot_info_fields :
    (p t s : ℕ)
    → p < 16
    → t < 8
    → s < 2
    → (priority (slot_info p t s) ≡ p)
      × (tries_left (slot_info p t s) ≡ t)
      × (successful (slot_info p t s) ≡ s)
slot_info_fields p t s hp ht hs =
    let e : slot_info p t s ≡ p + 16 * t + 128 * s = slot_info_lem p t s hp ht hs in
    (omega arith, omega arith, omega arith)

module _ (crc32 : Bytes → ℕ) where
  -- What a successful call has checked, and the blocks that it returns.
  bootloader_control-eq-ok :
      (misc u v : Bytes)
      → bootloader_control crc32 misc ≡ ok (u, v)
      → let bc = live_block misc in
        (slice 4 8 bc ≡ bcab)
        × (length bc ≡ 32)
        × (le_at 4 28 bc ≡ crc32 (take 28 bc))
        × (u ≡ with_slots crc32 bc suffix_a (slot_info (bit_and (byte bc 12) 0xf) 1 1) (byte bc 14))
        × (v
            ≡ with_slots crc32 bc suffix_b
                (slot_info (bit_and (bit_and (byte bc 12) 0xf + 15) 0xf) 1 1)
                (slot_info 0xf 2 0))
  unfolding bootloader_control
  bootloader_control-eq-ok misc u v e =
      let bc : Bytes = live_block misc in
      let (magic, rest) = raise_if-eq-ok (not (eq_bytes (slice 4 8 bc) bcab)) no_magic _ e in
      let (whole, rest') = raise_if-eq-ok (not (length bc == 32)) short_block _ rest in
      let (crc, built) =
        raise_if-eq-ok (not (crc32 (take 28 bc) == le_at 4 28 bc)) crc_mismatch _ rest' in
      (
        eq_bytes→eq (slice 4 8 bc) bcab (true_of_not _ magic),
        eq_of_not _ _ whole,
        sym (eq_of_not _ _ crc),
        cc,
        cc,
      )

  module _ (crc_u32 : (l : Bytes) → crc32 l < 2 ^ 32) where
    -- The block that restores slot a, and the one that tries slot b, as bootloader_control means
    -- them: of a block `bc` with slot a's priority `p`.
    pub record IsPair (bc restore trial : Bytes) : Type 0 where
      pub restore_sound : IsControl crc32 restore
      pub trial_sound : IsControl crc32 trial
      pub restore_a : byte restore 12 ≡ priority (byte bc 12) + 16 * 1 + 128 * 1
      pub restore_b : byte restore 14 ≡ byte bc 14
      pub trial_a : byte trial 12 ≡ (priority (byte bc 12) + 15) % 16 + 16 * 1 + 128 * 1
      pub trial_b : byte trial 14 ≡ 15 + 16 * 2
      pub restore_kept : (k : ℕ) → 4 ≤ k → k < 28 → k ≢ 12 → k ≢ 14 → byte restore k ≡ byte bc k
      pub trial_kept : (k : ℕ) → 4 ≤ k → k < 28 → k ≢ 12 → k ≢ 14 → byte trial k ≡ byte bc k

    module _ (bc suffix : Bytes) (u v : ℕ) (whole : length bc ≡ 32) (four : length suffix ≡ 4) where
      first_slot : byte (with_slots crc32 bc suffix u v) 12 ≡ u
      unfolding with_slots
      first_slot =
          byte-rewritten_first crc32 crc_u32 bc suffix 12 14 u v whole four (omega arith)
            (omega arith) (omega arith)

      second_slot : byte (with_slots crc32 bc suffix u v) 14 ≡ v
      unfolding with_slots
      second_slot =
          byte-rewritten_second crc32 crc_u32 bc suffix 12 14 u v whole four (omega arith)
            (omega arith) (omega arith)

      with_slots_kept :
          (k : ℕ)
          → 4 ≤ k
          → k < 28
          → k ≢ 12
          → k ≢ 14
          → byte (with_slots crc32 bc suffix u v) k ≡ byte bc k
      unfolding with_slots
      with_slots_kept =
          byte-rewritten crc32 crc_u32 bc suffix 12 14 u v whole four (omega arith) (omega arith)
            (omega arith)

      with_slots-IsControl : IsControl crc32 bc → IsControl crc32 (with_slots crc32 bc suffix u v)
      unfolding with_slots
      with_slots-IsControl =
          rewritten-IsControl crc32 crc_u32 bc suffix 12 14 u v whole four (omega arith)
            (omega arith) (omega arith)

    -- From a live block of version 1 with two slots, bootloader_control returns two valid blocks:
    -- one keeps slot a's priority and slot b's byte and gives slot a one try, marked successful;
    -- the other lowers slot a's priority by one modulo 16 and gives slot b priority 15 and two
    -- tries, not marked successful. Bytes 4 to 27 are the live block's otherwise.
    pub bootloader_control-IsPair :
        (misc restore trial : Bytes)
        → All IsByte misc
        → byte (live_block misc) 8 ≡ 1
        → byte (live_block misc) 9 % 8 ≡ 2
        → bootloader_control crc32 misc ≡ ok (restore, trial)
        → IsPair (live_block misc) restore trial
    bootloader_control-IsPair misc restore trial h version slots e =
        let bc : Bytes = live_block misc in
        let (magic, whole, crc, r, t) = bootloader_control-eq-ok misc restore trial e in
        let a_byte : byte bc 12 < 256 =
          All-get_or IsByte bc 12 0
            (All-take IsByte 32 (drop 0x800 misc) (All-drop IsByte 0x800 misc h)) (omega arith) in
        let low : bit_and (byte bc 12) 0xf ≡ byte bc 12 % 16 = and_low_four (byte bc 12) a_byte in
        let less : bit_and (bit_and (byte bc 12) 0xf + 15) 0xf ≡ (byte bc 12 % 16 + 15) % 16 =
          and_low_four _ (omega arith) ∙ omega (arith, low) in
        let c : IsControl crc32 bc = record {
          whole = whole;
          magic = magic;
          version = version;
          slots = slots;
          checked = crc;
        } in
        rw (r, t)
          (record {
            restore_sound = with_slots-IsControl bc suffix_a _ _ whole refl c;
            trial_sound = with_slots-IsControl bc suffix_b _ _ whole refl c;
            restore_a =
                first_slot bc suffix_a _ _ whole refl
                ∙ slot_info_lem _ 1 1 (omega (arith, low)) (omega arith) (omega arith)
                ∙ omega (arith, low);
            restore_b = second_slot bc suffix_a _ _ whole refl;
            trial_a =
                first_slot bc suffix_b _ _ whole refl
                ∙ slot_info_lem _ 1 1 (omega (arith, less)) (omega arith) (omega arith)
                ∙ omega (arith, less);
            trial_b =
                second_slot bc suffix_b _ _ whole refl
                ∙ slot_info_lem 15 2 0 (omega arith) (omega arith) (omega arith);
            restore_kept = with_slots_kept bc suffix_a _ _ whole refl;
            trial_kept = with_slots_kept bc suffix_b _ _ whole refl;
          })
