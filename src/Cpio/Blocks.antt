-- ===== src/Cpio/Blocks.antt =====
-- The compressed blocks of installer/backend/uninstall_boot.py: `overlay` packs an archive in blocks
-- of 8 MiB, `archives` unpacks them. The lz4 library is a parameter: its compression, and its
-- decompression, which may raise.
use e5_linux.Base.{
  ℕ, zero, suc, ◌+◌, ◌||◌, not, ◌==◌, ltb, if◌then◌else◌, Option, List, [], ◌∷◌, ◌++◌, length, take,
  drop,
}
use e5_linux.Base.Bytes.{Bytes, eq_bytes, le_at, le_bytes}
use e5_linux.Base.Result.{Result, ok, err, ◌>>=◌, ◌>>◌, raise_if, or_raise}
use e5_linux.Gpt.{is_nil}
use e5_linux.Cpio.{Entry, records}

-- The ValueError lines of `archives`, what lz4 raises, and the end of the fuel.
pub data BlockError : Type 0 where
  unsupported_compression truncated_ramdisk bad_ramdisk_block bad_lz4 too_large no_fuel : BlockError

-- MAGIC
abbrev pub lz4_magic : Bytes
lz4_magic = 0x02 ∷ 0x21 ∷ 0x4c ∷ 0x18 ∷ []

-- `8 << 20`, `9 << 20` and `192 << 20`
abbrev pub chunk : ℕ
chunk = 0x800000

abbrev pub block_limit : ℕ
block_limit = 0x900000

abbrev pub archive_limit : ℕ
archive_limit = 0xc000000

module _ (compress : Bytes → Bytes) (decompress : Bytes → Option Bytes) where
  -- A block of the given size at the front of `rest`; `next` reads on.
  unfoldable pub block_at :
      ℕ
      → Bytes
      → Bytes
      → (Bytes → Bytes → Result BlockError (Bytes × Bytes))
      → Result BlockError (Bytes × Bytes)
  block_at size rest unpacked next =
      if size == 0
      then ok (unpacked, rest)
      else (raise_if (ltb block_limit size || ltb (length rest) size) bad_ramdisk_block
          >> (or_raise (decompress (take size rest)) bad_lz4 >>= λ piece.
              raise_if (ltb archive_limit (length (unpacked ++ piece))) too_large
              >> next (drop size rest) (unpacked ++ piece)))

  -- The inner loop, with what is left of the ramdisk and what is unpacked, on fuel.
  unfoldable pub blocks_from : ℕ → Bytes → Bytes → Result BlockError (Bytes × Bytes)
  blocks_from zero rest unpacked = err no_fuel
  blocks_from (suc fuel) rest unpacked =
      if is_nil rest || eq_bytes (take 4 rest) lz4_magic
      then ok (unpacked, rest)
      else if ltb (length rest) 4
      then err truncated_ramdisk
      else block_at (le_at 4 0 rest) (drop 4 rest) unpacked (blocks_from fuel)

  -- The outer loop. The source yields each archive before it reads the next.
  unfoldable pub archives_from : ℕ → Bytes → Result BlockError (List Bytes)
  archives_from zero rest = err no_fuel
  archives_from (suc fuel) rest =
      if is_nil rest
      then ok []
      else (raise_if (not (eq_bytes (take 4 rest) lz4_magic)) unsupported_compression
          >> (blocks_from (length rest + 1) (drop 4 rest) [] >>= λ found.
              archives_from fuel found.1 >>= λ more. ok (found.0 ∷ more)))

  unfoldable pub archives : Bytes → Result BlockError (List Bytes)
  archives ram = archives_from (length ram + 1) ram

  -- The last loop of `overlay`, on fuel; the blocks of an archive need no more than its length.
  unfoldable pub pack_from : ℕ → Bytes → Bytes
  pack_from zero unpacked = []
  pack_from (suc fuel) unpacked =
      let more = pack_from fuel (drop chunk unpacked) in
      let packed = compress (take chunk unpacked) in
      if is_nil unpacked then [] else le_bytes 4 (length packed) ++ (packed ++ more)

  unfoldable pub pack : Bytes → Bytes
  pack unpacked = lz4_magic ++ pack_from (length unpacked + 1) unpacked

  -- `overlay` from its directories and files on, which are numbered from 1.
  unfoldable pub overlay_of : List Entry → Bytes
  overlay_of es = pack (records es 1)
