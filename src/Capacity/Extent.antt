-- ===== src/Capacity/Extent.antt =====
-- Where the legacy root of installer/backend/mu300_update.py lies, and its capacity against the
-- reader of installer/backend/service.py.
use e5_linux.Base.{
  ℕ, ◌+◌, ◌*◌, ◌/◌, ◌%◌, ◌≤◌, ◌<◌, ◌≡◌, ◌⊎◌, refl, sym, ◌∙◌, Bool, true, false, ◌||◌, not, ◌==◌,
  ltb, leb, if◌then◌else◌, none, List, length, bit_and, arith, subst, ap,
}
use e5_linux.Base.Bytes.{Bytes, slice, eq_bytes, le_at}
use e5_linux.Base.Result.{ok, raise_if-eq-ok, ok-injective}
use e5_linux.Capacity.{
  Layout, bad_extent, unknown_offset, not_root, exceeds_extent, ext_magic, root_label, rstrip_nul,
  wide_blocks, block_bytes, verify_ext4_capacity, is_bad_extent, blocks_of, capacity_of,
  legacy_layout,
}

-- The filesystem lies in its extent, and the extent behind every partition and in front of the
-- backup of the partition table, on whole sectors.
pub record IsHidden (l : Layout) : Type 0 where
  pub behind : l.partition_end * 512 ≤ l.offset
  pub in_front : l.offset + l.sectors * 512 + 34 * 512 ≤ l.disk_sectors * 512
  pub whole : l.offset % 512 ≡ 0
  pub filled : 0 < l.capacity
  pub inside : l.capacity ≤ l.sectors * 512
  pub limited : (l.limit ≡ 0) ⊎ (l.limit ≡ l.sectors * 512)

extent_of_test :
    (offset sectors disk limit end : ℕ)
    → is_bad_extent offset sectors disk limit end ≡ false
    → (end * 512 ≤ offset)
      × (offset + sectors * 512 + 34 * 512 ≤ disk * 512)
      × (offset % 512 ≡ 0)
      × ((limit ≡ 0) ⊎ (limit ≡ sectors * 512))
unfolding is_bad_extent
extent_of_test offset sectors disk limit end e =
    let (whole, lower, upper, limits) = parts in (omega arith, omega arith, whole, limits)
  where
    parts :
        (offset % 512 ≡ 0)
        × (end ≤ offset / 512)
        × (offset / 512 + sectors + 34 ≤ disk)
        × ((limit ≡ 0) ⊎ (limit ≡ sectors * 512))
    parts = ground arith

capacity_of_test :
    (capacity bytes : ℕ)
    → (capacity == 0 || ltb bytes capacity) ≡ false
    → (0 < capacity) × (capacity ≤ bytes)
capacity_of_test capacity bytes e = ground arith

-- A root that legacy_layout accepts overlaps neither a partition nor the backup of the partition
-- table, and its filesystem is not empty and ends inside its extent.
pub legacy_layout-IsHidden :
    (offset sectors disk_sectors limit partition_end : ℕ) (defaults : List ℕ) (sb : Bytes)
    (l : Layout)
    → legacy_layout offset sectors disk_sectors limit partition_end defaults sb ≡ ok l
    → IsHidden l
unfolding legacy_layout
legacy_layout-IsHidden offset sectors disk_sectors limit partition_end defaults sb l e =
    let (extent, e1) =
      raise_if-eq-ok (is_bad_extent offset sectors disk_sectors limit partition_end) bad_extent _
        e in
    let (known, e2) = raise_if-eq-ok _ unknown_offset _ e1 in
    let (labelled, e3) = raise_if-eq-ok _ not_root _ e2 in
    let (room, e4) =
      raise_if-eq-ok (capacity_of sb == 0 || ltb (sectors * 512) (capacity_of sb)) exceeds_extent _
        e3 in
    let (behind, in_front, whole, limited) = extent_of_test _ _ _ _ _ extent in
    let (filled, inside) = capacity_of_test (capacity_of sb) (sectors * 512) room in
    subst IsHidden (ok-injective _ l e4) (record {
      behind = behind;
      in_front = in_front;
      whole = whole;
      filled = filled;
      inside = inside;
      limited = limited;
    })

label_of_test :
    (n : ℕ) (magic label : Bool)
    → (not (n == 1024) || not magic || not label) ≡ false
    → (n ≡ 1024) × (magic ≡ true)
label_of_test n magic label e = ground arith

short_of_test : (n : ℕ) (magic : Bool) → n ≡ 1024 → magic ≡ true → (ltb n 340 || not magic) ≡ false
short_of_test n magic e m = ground arith

shift_of_test :
    (shift value : ℕ) (b : Bool)
    → leb shift 6 ≡ b
    → ((if b then value else 0) == 0) ≡ false
    → (ltb 6 shift ≡ false) × (b ≡ true)
shift_of_test shift value true s e = (ground arith, refl)
shift_of_test shift value false s e = cc

or_false_left : (a b : Bool) → (a || b) ≡ false → a ≡ false
or_false_left a b e = ground arith

-- On the superblock of a legacy root with 64-bit block numbers, the capacity check that compares
-- with nothing returns the capacity that legacy_layout computed.
pub verify_ext4_capacity-legacy_layout :
    (offset sectors disk_sectors limit partition_end : ℕ) (defaults : List ℕ) (sb : Bytes)
    (l : Layout)
    → (bit_and (le_at 4 96 sb) 0x80 == 0) ≡ false
    → legacy_layout offset sectors disk_sectors limit partition_end defaults sb ≡ ok l
    → verify_ext4_capacity sb none ≡ ok l.capacity
unfolding legacy_layout verify_ext4_capacity
verify_ext4_capacity-legacy_layout offset sectors disk_sectors limit partition_end defaults sb l
      wide e =
    let (extent, e1) =
      raise_if-eq-ok (is_bad_extent offset sectors disk_sectors limit partition_end) bad_extent _
        e in
    let (known, e2) = raise_if-eq-ok _ unknown_offset _ e1 in
    let (labelled, e3) = raise_if-eq-ok _ not_root _ e2 in
    let (room, e4) =
      raise_if-eq-ok (capacity_of sb == 0 || ltb (sectors * 512) (capacity_of sb)) exceeds_extent _
        e3 in
    let (long, magic) =
      label_of_test (length sb) (eq_bytes (slice 56 58 sb) ext_magic)
        (eq_bytes (rstrip_nul (slice 120 136 sb)) root_label) labelled in
    let some_bytes : (capacity_of sb == 0) ≡ false = or_false_left _ _ room in
    let (small, shift) =
      shift_of_test (le_at 4 24 sb) (blocks_of sb * block_bytes sb) (leb (le_at 4 24 sb) 6) refl
        some_bytes in
    let same : capacity_of sb ≡ wide_blocks sb * block_bytes sb = rw (shift, wide) refl in
    let there : (wide_blocks sb * block_bytes sb == 0) ≡ false =
      subst (λ (n : ℕ). (n == 0) ≡ false) same some_bytes in
    let result : capacity_of sb ≡ l.capacity =
      ap (λ (x : Layout). x.capacity) (ok-injective _ l e4) in
    rw (short_of_test (length sb) (eq_bytes (slice 56 58 sb) ext_magic) long magic, small, there)
      (ap ok (sym same ∙ result))
