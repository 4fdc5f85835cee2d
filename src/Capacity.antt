-- ===== src/Capacity.antt =====
-- The size of an installed ext4 root: verify_ext4_capacity of installer/backend/service.py, and
-- legacy_layout of installer/backend/mu300_update.py, from the five numbers of the probe, the
-- offsets that the packaged boot knows, and the superblock on.
pub mod Extent
pub mod Verified
mod Examples
use e5_linux.Base.{
  ℕ, zero, suc, ◌+◌, ◌*◌, ◌/◌, ◌%◌, ◌^◌, Bool, true, false, ◌&&◌, ◌||◌, not, ◌==◌, ltb, leb,
  if◌then◌else◌, Option, none, some, List, [], ◌∷◌, length, bit_and, bit_or,
}
use e5_linux.Base.Bytes.{Bytes, slice, eq_bytes, le_at}
use e5_linux.Base.Result.{Result, ok, err, ◌>>=◌, ◌>>◌, raise_if}

-- The `raise` lines of verify_ext4_capacity; the last is FilesystemCapacityError.
pub data CapacityError : Type 0 where
  not_ext4 bad_block_size bad_capacity : CapacityError
  differs : ℕ → ℕ → CapacityError

-- The `raise ValueError` lines of legacy_layout behind the reading of the probe.
pub data LayoutError : Type 0 where
  bad_extent unknown_offset not_root exceeds_extent : LayoutError

pub record Layout : Type 0 where
  pub offset : ℕ
  pub sectors : ℕ
  pub disk_sectors : ℕ
  pub limit : ℕ
  pub partition_end : ℕ
  pub capacity : ℕ

-- b'\x53\xef'
abbrev pub ext_magic : Bytes
ext_magic = 0x53 ∷ 0xef ∷ []

-- b'mu300root'
abbrev pub root_label : Bytes
root_label = b'm' ∷ b'u' ∷ b'3' ∷ b'0' ∷ b'0' ∷ b'r' ∷ b'o' ∷ b'o' ∷ b't' ∷ []

-- `.rstrip(b'\0')`
unfoldable pub rstrip_nul : Bytes → Bytes
rstrip_nul [] = []
rstrip_nul (c ∷ cs) =
    let rest = rstrip_nul cs in
    elim rest [ [] ↦ if c == 0 then [] else c ∷ [] | x ∷ xs ↦ c ∷ (x ∷ xs) ]

-- The low and the high word of the number of blocks.
abbrev pub wide_blocks : Bytes → ℕ
wide_blocks sb = bit_or (le_at 4 4 sb) (le_at 4 336 sb * 2 ^ 32)

-- `1024 << shift`
abbrev pub block_bytes : Bytes → ℕ
block_bytes sb = 1024 * 2 ^ le_at 4 24 sb

-- `expected and not expected-(4 << 20) <= capacity <= expected`
abbrev pub is_off : Option ℕ → ℕ → Bool
is_off none capacity = false
is_off (some expected) capacity =
    not (expected == 0) && not (leb expected (capacity + 4 * 0x100000) && leb capacity expected)

abbrev pub wanted : Option ℕ → ℕ
wanted none = 0
wanted (some expected) = expected

unfoldable pub verify_ext4_capacity : Bytes → Option ℕ → Result CapacityError ℕ
verify_ext4_capacity sb expected = do
  raise_if (ltb (length sb) 340 || not (eq_bytes (slice 56 58 sb) ext_magic)) not_ext4
  raise_if (ltb 6 (le_at 4 24 sb)) bad_block_size
  let capacity = wide_blocks sb * block_bytes sb
  raise_if (capacity == 0) bad_capacity
  raise_if (is_off expected capacity) (differs capacity (wanted expected))
  ok capacity

-- `offset not in offsets`, with the first aligned region behind the partitions and the defaults.
unfoldable pub holds : ℕ → List ℕ → Bool
holds n [] = false
holds n (m ∷ ms) = n == m || holds n ms

abbrev pub first_region : ℕ → ℕ
first_region partition_end = (partition_end / 4096 + 1) * 4096 * 512

-- The test of the five numbers; `disk_sectors-34` may be negative.
unfoldable pub is_bad_extent : ℕ → ℕ → ℕ → ℕ → ℕ → Bool
is_bad_extent offset sectors disk_sectors limit partition_end =
    offset == 0
    || not (offset % 512 == 0)
    || sectors == 0
    || partition_end == 0
    || ltb (offset / 512) partition_end
    || ltb disk_sectors (offset / 512 + sectors + 34)
    || not (limit == 0 || limit == sectors * 512)

-- The number of blocks: the high word counts where the feature bit is set.
abbrev pub blocks_of : Bytes → ℕ
blocks_of sb = if bit_and (le_at 4 96 sb) 0x80 == 0 then le_at 4 4 sb else wide_blocks sb

abbrev pub capacity_of : Bytes → ℕ
capacity_of sb = if leb (le_at 4 24 sb) 6 then blocks_of sb * block_bytes sb else 0

unfoldable pub legacy_layout : ℕ → ℕ → ℕ → ℕ → ℕ → List ℕ → Bytes → Result LayoutError Layout
legacy_layout offset sectors disk_sectors limit partition_end defaults sb = do
  raise_if (is_bad_extent offset sectors disk_sectors limit partition_end) bad_extent
  raise_if (not (holds offset (first_region partition_end ∷ defaults))) unknown_offset
  raise_if
      (not (length sb == 1024)
        || not (eq_bytes (slice 56 58 sb) ext_magic)
        || not (eq_bytes (rstrip_nul (slice 120 136 sb)) root_label))
      not_root
  let capacity = capacity_of sb
  raise_if (capacity == 0 || ltb (sectors * 512) capacity) exceeds_extent
  ok (record {
    offset = offset;
    sectors = sectors;
    disk_sectors = disk_sectors;
    limit = limit;
    partition_end = partition_end;
    capacity = capacity;
  })
