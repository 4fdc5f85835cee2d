-- ===== src/Evidence.antt =====
-- Ext4Evidence of installer/backend/install_evidence.py: a reader of a few small files in an ext4
-- partition. Every operation takes the reader's state and returns it, also where it raises; the
-- requests to the device are kept in the order in which they were made, newest first. The device is
-- a parameter.
pub mod Tree
pub mod Bounds
pub mod Exact
pub mod Ends
mod Examples
use e5_linux.Base.{
  ℕ, zero, suc, ◌+◌, ◌-◌, ◌*◌, ◌/◌, ◌%◌, ◌^◌, min, bit_and, Bool, true, false, ◌&&◌, ◌||◌, not,
  ◌==◌, ltb, leb, if◌then◌else◌, Option, none, some, List, [], ◌∷◌, ◌++◌, length, take, replicate,
}
use e5_linux.Base.Bytes.{Bytes, byte, slice, eq_bytes, le_at}
use e5_linux.Base.Result.{Result, ok, err}

-- The `raise ValueError` lines, in the order of the file.
pub data EvidenceError : Type 0 where
  not_ext4 unclean bad_geometry beyond_partition over_limit short_read bad_block bad_inode :
      EvidenceError
  bad_table bad_kind bad_size bad_flags indirect bad_tree repeated_node unwritten : EvidenceError
  beyond_filesystem overlapping sparse truncated_directory bad_entry ambiguous : EvidenceError

-- The attributes that change: `limit` is filesystem_limit once it is set.
pub record Reader : Type 0 where
  pub capacity : ℕ
  pub remaining : ℕ
  pub limit : Option ℕ
  pub cache : List ((ℕ × ℕ) × Bytes)
  pub asked : List (ℕ × ℕ)

-- The attributes that the constructor sets.
pub record Geometry : Type 0 where
  pub block_size : ℕ
  pub blocks : ℕ
  pub inodes : ℕ
  pub per_group : ℕ
  pub inode_size : ℕ
  pub desc_size : ℕ

abbrev pub Reading : Type 0 → Type 0
Reading A = Reader → Result EvidenceError A × Reader

abbrev pub next :
    {A B : Type 0}
    → Result EvidenceError A × Reader
    → (A → Reading B)
    → Result EvidenceError B × Reader
next (err e, s) rest = (err e, s)
next (ok a, s) rest = rest a s

infixl 5 ◌>>=◌ ◌>>◌
unfoldable pub ◌>>=◌ : {A B : Type 0} → Reading A → (A → Reading B) → Reading B
(first >>= rest) s = next (first s) rest

unfoldable pub ◌>>◌ : {B : Type 0} → Reading (Unit {0}) → Reading B → Reading B
unfolding ◌>>=◌
first >> rest = first >>= λ done. rest

unfoldable pub give : {A : Type 0} → A → Reading A
give a s = (ok a, s)

unfoldable pub raise_when : Bool → EvidenceError → Reading (Unit {0})
raise_when t e s = (if t then err e else ok tt, s)

abbrev pub budget : ℕ
budget = 0x400000

abbrev pub fresh : ℕ → Reader
fresh capacity = record {
  capacity = capacity;
  remaining = budget;
  limit = none;
  cache = [];
  asked = [];
}

-- `self.cache[key]`
unfoldable pub cached : ℕ → ℕ → List ((ℕ × ℕ) × Bytes) → Option Bytes
cached offset size [] = none
cached offset size (((o, n), value) ∷ rest) =
    if o == offset && n == size then some value else cached offset size rest

-- `getattr(self, 'filesystem_limit', self.capacity)`
abbrev pub limit_or : Option ℕ → ℕ → ℕ
limit_or none capacity = capacity
limit_or (some n) capacity = n

-- `sb` fields of one or two words
abbrev pub low_high : Bool → ℕ → ℕ → ℕ
low_high test low high = if test then low + high * 2 ^ 32 else low

module _ (read : ℕ → ℕ → Bytes) where
  -- `remaining` stops at 0 where Python's is negative: every later read raises for both.
  unfoldable pub keep_read : ℕ → ℕ → Bytes → Reading Bytes
  keep_read offset size value s =
      let s' : Reader = record s {
        remaining = s.remaining - size;
        asked = (offset, size) ∷ s.asked;
      } in
      if length value == size
      then (ok value, record s' { cache = ((offset, size), value) ∷ s.cache })
      else (err short_read, s')

  unfoldable pub fetch : ℕ → ℕ → Reading Bytes
  fetch offset size s =
      if ltb s.remaining size
      then (err over_limit, record s { remaining = 0 })
      else keep_read offset size (read offset size) s

  unfoldable pub raw_from : ℕ → ℕ → Option Bytes → Reading Bytes
  raw_from offset size (some value) s = (ok value, s)
  raw_from offset size none s = fetch offset size s

  unfoldable pub raw : ℕ → ℕ → Reading Bytes
  raw offset size s =
      if size == 0 || ltb (limit_or s.limit s.capacity) (offset + size)
      then (err beyond_partition, s)
      else raw_from offset size (cached offset size s.cache) s

  unfoldable pub set_limit : ℕ → Reading (Unit {0})
  set_limit n s = (ok tt, record s { limit = some n })

  -- The attributes that a superblock gives.
  unfoldable pub geometry_of : Bytes → Geometry
  geometry_of sb =
      let incompat = le_at 4 96 sb in
      let is_wide = not (bit_and incompat 0x80 == 0) in
      record {
        block_size = 1024 * 2 ^ le_at 4 24 sb;
        blocks = low_high is_wide (le_at 4 4 sb) (le_at 4 336 sb);
        inodes = le_at 4 0 sb;
        per_group = le_at 4 40 sb;
        inode_size = le_at 2 88 sb;
        desc_size = if is_wide then le_at 2 254 sb else 32;
      }

  -- `incompat & ~(0x2 | 0x40 | 0x80 | 0x200 | 0x2000)`, in 32 bits
  unfoldable pub is_unclean : Bytes → Bool
  is_unclean sb =
      ltb 2 (le_at 4 24 sb)
      || not (bit_and (le_at 4 96 sb) 0xffffdd3d == 0)
      || not (le_at 2 58 sb == 1)

  unfoldable pub is_bad_geometry : ℕ → Geometry → Bytes → Bool
  is_bad_geometry capacity g sb =
      g.blocks == 0
      || ltb capacity (g.blocks * g.block_size)
      || g.inodes == 0
      || g.per_group == 0
      || not (leb 128 g.inode_size && leb g.inode_size g.block_size)
      || not (bit_and g.inode_size (g.inode_size - 1) == 0)
      || not (g.desc_size == 32 || g.desc_size == 64)
      || eq_bytes (slice 104 120 sb) (replicate 16 0)

  -- The constructor.
  unfoldable pub open_evidence : ℕ → Reading Geometry
  open_evidence capacity = do
    sb ← raw 1024 1024
    raise_when (not (eq_bytes (slice 56 58 sb) (0x53 ∷ 0xef ∷ []))) not_ext4
    raise_when (is_unclean sb) unclean
    let g = geometry_of sb
    raise_when (is_bad_geometry capacity g sb) bad_geometry
    set_limit (g.blocks * g.block_size)
    give g

  unfoldable pub block : Geometry → ℕ → Reading Bytes
  block g number = do
    raise_when (not (ltb 0 number && ltb number g.blocks)) bad_block
    raw (number * g.block_size) g.block_size

  unfoldable pub inode : Geometry → ℕ → Reading Bytes
  inode g number = do
    raise_when (not (leb 1 number && leb number g.inodes)) bad_inode
    let group = (number - 1) / g.per_group
    let index = (number - 1) % g.per_group
    let offset = (if g.block_size == 1024 then 2 else 1) * g.block_size + group * g.desc_size
    desc ← raw offset g.desc_size
    let table = low_high (g.desc_size == 64) (le_at 4 8 desc) (le_at 4 40 desc)
    raise_when (not (ltb 0 table && ltb table g.blocks)) bad_table
    raw (table * g.block_size + index * g.inode_size) g.inode_size
