-- ===== src/Adapter.antt =====
-- Adapter.read_gpt of installer/backend/adapter.py: the scan of a partition table with the gaps in
-- which no old file system begins. `read` is what dd prints of the disk for a first sector and a
-- number of sectors; zlib's CRC and the UTF-16 codec are the parameters of gpt.py's model.
pub mod Safe
use e5_linux.Base.{
  ℕ, ◌+◌, ◌-◌, ◌*◌, ◌/◌, max, Bool, true, false, ◌&&◌, ◌||◌, not, ◌==◌, leb, if◌then◌else◌, Option,
  none, some, List, [], ◌∷◌, ◌++◌, length,
}
use e5_linux.Base.Bytes.{Bytes, slice, eq_bytes}
use e5_linux.Base.Result.{Result, ok, err, ◌>>=◌, ◌>>◌, raise_if, or_raise}
use e5_linux.Gpt.{GptError, Part, Space, gpt_space, gpt_backup_layout, largest_gap, is_nil}
use e5_linux.BootImage.{Family, mu300}
use e5_linux.Removal.{ext4_magic, f2fs_magic}

-- What gpt.py raises, an incomplete read, and max() of a table without entries.
pub data ScanError : Type 0 where
  bad_gpt : GptError → ScanError
  incomplete_read no_entries : ScanError

-- The keys `first` and `last` beside those of gpt_space.
pub record Scan : Type 0 where
  pub first : Bytes
  pub last : Bytes
  pub space : Space

abbrev pub scan_checked : {A : Type 0} → Result GptError A → Result ScanError A
scan_checked (err e) = err (bad_gpt e)
scan_checked (ok a) = ok a

abbrev pub is_mu300 : Family → Bool
is_mu300 mu300 = true
is_mu300 _ = false

-- `max(p['end'] for p in space['parts'])`
unfoldable pub last_end : List Part → Option ℕ
last_end [] = none
last_end (p ∷ ps) = elim (last_end ps) [ none ↦ some p.end | some n ↦ some (max p.end n) ]

-- 27762098176//512
abbrev pub fixed_root : ℕ
fixed_root = 54222848

-- One of the two offsets, where it lies in the gap.
abbrev pub inside : ℕ × ℕ → ℕ → List ℕ → List ℕ
inside (start, size) offset rest =
    if leb start offset && leb (offset + 4) (start + size) then offset ∷ rest else rest

-- The offsets that are read. Python's set drops a repeated one, which is read twice here.
unfoldable pub offsets : Family → List Part → ℕ × ℕ → Result ScanError (List ℕ)
offsets family parts gap =
    if is_mu300 family
    then (do
      end ← or_raise (last_end parts) no_entries
      ok (gap.0 ∷ inside gap fixed_root (inside gap ((end / 4096 + 1) * 4096) [])))
    else ok (gap.0 ∷ [])

unfoldable pub has_filesystem : Bytes → Bool
has_filesystem raw =
    eq_bytes (slice 1080 1082 raw) ext4_magic || eq_bytes (slice 1024 1028 raw) f2fs_magic

module _ (read : ℕ → ℕ → Bytes) where
  -- The inner loop.
  unfoldable pub is_occupied : List ℕ → Result ScanError Bool
  is_occupied [] = ok false
  is_occupied (offset ∷ rest) = do
    raise_if (not (length (read offset 4) == 2048)) incomplete_read
    occupied ← is_occupied rest
    ok (has_filesystem (read offset 4) || occupied)

  -- The loop over the gaps.
  unfoldable pub safe_of : Family → List Part → List (ℕ × ℕ) → Result ScanError (List (ℕ × ℕ))
  safe_of family parts [] = ok []
  safe_of family parts (gap ∷ gaps) = do
    at ← offsets family parts gap
    occupied ← is_occupied at
    safe ← safe_of family parts gaps
    ok (if occupied then safe else gap ∷ safe)

  module _ (crc32 : Bytes → ℕ) (decode : Bytes → Option (List ℕ)) where
    unfoldable pub read_gpt : Family → ℕ → Result ScanError Scan
    read_gpt family sectors = do
      layout ←
          scan_checked (gpt_backup_layout crc32 decode (read 1 1) (read (sectors - 1) 1) sectors)
      let first = read 0 layout.0
      let last = read layout.1 (sectors - layout.1)
      space ← scan_checked (gpt_space crc32 decode first last sectors)
      safe ← safe_of family space.parts space.gaps
      ok (record {
        first = first;
        last = last;
        space = record space {
          safe_gaps = some safe;
          largest = if is_nil space.empty then 0 else largest_gap safe;
        };
      })
