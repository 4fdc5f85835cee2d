-- ===== src/Gpt.antt =====
-- The GPT snapshots of installer/backend/gpt.py: both headers (gpt_backup_layout), the table and
-- its free ranges (gpt_space), the choice of a range (free_root_range) and the new entry
-- (gpt_add_root). zlib's CRC, the UTF-16 codec and the random GUID are parameters.
pub mod Gaps
pub mod Sorting
pub mod FreeSpace
pub mod Ranges
pub mod Rows
pub mod Choice
pub mod Sealed
pub mod NewRoot
mod Examples
use e5_linux.Base.{
  ℕ, zero, suc, ◌+◌, ◌-◌, ◌*◌, ◌/◌, ◌%◌, max, Bool, true, false, ◌&&◌, ◌||◌, not, ◌==◌, ltb, leb,
  if◌then◌else◌, Option, none, some, List, [], ◌∷◌, ◌++◌, map, length, take, drop, replicate,
}
use e5_linux.Base.Bytes.{Bytes, slice, eq_bytes, le_at, le_bytes, put_at}
use e5_linux.Base.Result.{Result, ok, err, ◌>>=◌, ◌>>◌, raise_if, or_raise}

-- The `raise ValueError` lines, in the order of the file; `undecodable` is UnicodeDecodeError.
pub data GptError : Type 0 where
  bad_header bad_header_size bad_checksum bad_geometry copies_disagree bad_range : GptError
  incomplete bad_bounds bad_table undecodable outside overlapping : GptError
  root_exists not_free : GptError

-- What the inner function `header` returns.
pub record Header : Type 0 where
  pub alternate : ℕ
  pub table : ℕ
  pub span : ℕ
  pub disk_guid : Bytes
  pub geometry : Bytes

-- One used entry of the table: its number from 1, first and last sector, and name.
pub record Part : Type 0 where
  pub n : ℕ
  pub start : ℕ
  pub end : ℕ
  pub name : List ℕ

-- The dictionary that gpt_space returns; `safe_gaps` is the key that a caller may add.
pub record Space : Type 0 where
  pub front : ℕ
  pub tail : ℕ
  pub parts : List Part
  pub empty : List ℕ
  pub gaps : List (ℕ × ℕ)
  pub largest : ℕ
  pub safe_gaps : Option (List (ℕ × ℕ))

-- b'EFI PART'
abbrev pub efi_part : Bytes
efi_part = b'E' ∷ b'F' ∷ b'I' ∷ b' ' ∷ b'P' ∷ b'A' ∷ b'R' ∷ b'T' ∷ []

-- `.split('\0', 1)[0]`
unfoldable pub before_nul : List ℕ → List ℕ
before_nul [] = []
before_nul (c ∷ cs) = if c == 0 then [] else c ∷ before_nul cs

-- `sorted(parts, key=lambda p: p['start'])`, which keeps the order of equal keys.
unfoldable pub insert_part : Part → List Part → List Part
insert_part p [] = p ∷ []
insert_part p (q ∷ qs) = if leb p.start q.start then p ∷ (q ∷ qs) else q ∷ insert_part p qs

unfoldable pub sort_parts : List Part → List Part
unfolding insert_part
sort_parts [] = []
sort_parts (p ∷ ps) = insert_part p (sort_parts ps)

-- The loop over the sorted parts and the sentinel behind them, as (start, end) pairs.
unfoldable pub gap_loop : ℕ → List (ℕ × ℕ) → Result GptError (List (ℕ × ℕ))
gap_loop at [] = ok []
gap_loop at ((start, end) ∷ rest) = do
  raise_if (ltb start at) overlapping
  let aligned = (at + 2047) / 2048 * 2048
  let limit = start / 2048 * 2048
  gaps ← gap_loop (end + 1) rest
  ok (if ltb aligned limit then (aligned, limit - aligned) ∷ gaps else gaps)

abbrev pub extent : Part → ℕ × ℕ
extent p = (p.start, p.end)

-- `max((size for _, size in gaps), default=0)`
unfoldable pub largest_gap : List (ℕ × ℕ) → ℕ
largest_gap [] = 0
largest_gap ((at, size) ∷ gaps) = max size (largest_gap gaps)

abbrev pub is_nil {ℓ} : {A : Type ℓ} → List A → Bool
is_nil [] = true
is_nil (x ∷ xs) = false

-- `info['empty'][0]`, where the list is not empty
abbrev pub head_or : List ℕ → ℕ → ℕ
head_or [] d = d
head_or (i ∷ rest) d = i

-- `max(candidates)` on (size, start) pairs: the larger size, then the larger start.
abbrev pub larger : ℕ × ℕ → ℕ × ℕ → ℕ × ℕ
larger (n, a) (m, b) = if ltb n m || (n == m && ltb a b) then (m, b) else (n, a)

unfoldable pub best : List (ℕ × ℕ) → Option (ℕ × ℕ)
best [] = none
best (c ∷ cs) = elim (best cs) [ none ↦ some c | some d ↦ some (larger c d) ]

-- `[(n, a) for a, n in gaps if n >= need]`
unfoldable pub candidates : ℕ → List (ℕ × ℕ) → List (ℕ × ℕ)
candidates need [] = []
candidates need ((a, n) ∷ gaps) =
    let rest = candidates need gaps in if leb need n then (n, a) ∷ rest else rest

unfoldable pub usable_gaps : Space → List (ℕ × ℕ)
usable_gaps info = elim info.safe_gaps [ none ↦ info.gaps | some gs ↦ gs ]

-- `max(candidates)[1] if candidates else None`
unfoldable pub best_start : Option (ℕ × ℕ) → Option ℕ
best_start none = none
best_start (some (n, a)) = some a

unfoldable pub free_root_range : Space → ℕ → Option ℕ
unfolding best_start
free_root_range info need =
    if is_nil info.empty then none else best_start (best (candidates need (usable_gaps info)))

-- Any of the gaps holds the whole range.
unfoldable pub any_holds : ℕ → ℕ → List (ℕ × ℕ) → Bool
any_holds offset need [] = false
any_holds offset need ((a, n) ∷ gaps) =
    (leb a offset && leb (offset + need) (a + n)) || any_holds offset need gaps

unfoldable pub any_named : List ℕ → List Part → Bool
any_named name [] = false
any_named name (p ∷ ps) = eq_bytes p.name name || any_named name ps

-- `raw[i:j] = new` on a bytearray
abbrev pub splice : ℕ → ℕ → Bytes → Bytes → Bytes
splice i j new raw = take i raw ++ (new ++ drop j raw)

-- uuid.UUID('0fc63daf-8483-4772-8e79-3d69d8477de4').bytes_le
abbrev pub linux_type : Bytes
linux_type =
    0xaf ∷ 0x3d ∷ 0xc6 ∷ 0x0f ∷ 0x83 ∷ 0x84 ∷ 0x72 ∷ 0x47 ∷ 0x8e ∷ 0x79 ∷ 0x3d ∷ 0x69 ∷ 0xd8 ∷ 0x47
    ∷ 0x7d ∷ 0xe4 ∷ []

module _ (crc32 : Bytes → ℕ) (decode : Bytes → Option (List ℕ)) where
  -- `header(raw, at)`, given `at + 1`: the caller's `sectors - 1` may be -1 in Python.
  unfoldable pub header : Bytes → ℕ → Result GptError Header
  header raw next = do
    raise_if (not (length raw == 512) || not (eq_bytes (take 8 raw) efi_part)) bad_header
    let size = le_at 4 12 raw
    raise_if (not (leb 92 size && leb size 512)) bad_header_size
    let check = take size raw
    let expected = le_at 4 16 check
    raise_if (not (crc32 (put_at 16 (replicate 4 0) check) == expected)) bad_checksum
    let current = le_at 8 24 raw
    let count = le_at 4 80 raw
    let entry_size = le_at 4 84 raw
    raise_if (not (current + 1 == next) || ltb count 1 || ltb 1024 count || not (entry_size == 128))
        bad_geometry
    ok (record {
      alternate = le_at 8 32 raw;
      table = le_at 8 72 raw;
      span = (count * entry_size + 511) / 512;
      disk_guid = slice 56 72 raw;
      geometry = slice 80 92 raw;
    })

  unfoldable pub gpt_backup_layout : Bytes → Bytes → ℕ → Result GptError (ℕ × ℕ)
  gpt_backup_layout primary backup sectors = do
    a ← header primary 2
    b ← header backup sectors
    raise_if
        (not (a.alternate + 1 == sectors)
          || not (b.alternate == 1)
          || not (eq_bytes a.disk_guid b.disk_guid)
          || not (eq_bytes a.geometry b.geometry))
        copies_disagree
    let front = a.table + a.span
    let tail = b.table
    raise_if
        (not (
          leb 2 a.table
          && ltb a.table front
          && leb front 4096
          && leb sectors (tail + 4096)
          && tail + b.span + 1 == sectors))
        bad_range
    ok (front, tail)

  -- One used entry, and the loop over `count` of them from entry `i` on.
  unfoldable pub read_entry : ℕ → ℕ → ℕ → Bytes → Result GptError Part
  read_entry start end i raw = do
    let a = le_at 8 32 raw
    let b = le_at 8 40 raw
    text ← or_raise (decode (slice 56 128 raw)) undecodable
    raise_if (not (leb start a && leb a b && leb b end)) outside
    ok (record { n = i + 1; start = a; end = b; name = before_nul text })

  unfoldable pub read_entries : ℕ → ℕ → ℕ → Bytes → ℕ → ℕ → Result GptError (List Part × List ℕ)
  read_entries start end entry table zero i = ok ([], [])
  read_entries start end entry table (suc left) i =
      let raw = slice (i * entry) ((i + 1) * entry) table in
      let more = read_entries start end entry table left (i + 1) in
      if eq_bytes (take 16 raw) (replicate 16 0)
      then (do (ps, es) ← more; ok (ps, i ∷ es))
      else (do p ← read_entry start end i raw; (ps, es) ← more; ok (p ∷ ps, es))

  -- The end of gpt_space, from the loop over the sorted entries on.
  unfoldable pub space_of : ℕ → ℕ → ℕ → ℕ → List Part × List ℕ → Result GptError Space
  space_of front tail start end (parts, empty) = do
    gaps ← gap_loop start (map extent (sort_parts parts) ++ ((end + 1, end) ∷ []))
    ok (record {
      front = front;
      tail = tail;
      parts = parts;
      empty = empty;
      gaps = gaps;
      largest = if is_nil empty then 0 else largest_gap gaps;
      safe_gaps = none;
    })

  -- The middle of gpt_space: sizes, usable bounds and the table, once the layout is known.
  unfoldable pub read_table : Bytes → Bytes → ℕ → ℕ × ℕ → Result GptError Space
  read_table first last sectors (front, tail) = do
    let primary = slice 512 1024 first
    let backup = drop (length last - 512) last
    raise_if (not (length first == front * 512) || not (length last == (sectors - tail) * 512))
        incomplete
    let start = le_at 8 40 primary
    let end = le_at 8 48 primary
    raise_if
        (not (start == le_at 8 40 backup)
          || not (end == le_at 8 48 backup)
          || not (leb front start && leb start end && ltb end tail))
        bad_bounds
    let at = le_at 8 72 primary
    let count = le_at 4 80 primary
    let entry = le_at 4 84 primary
    let table = slice (at * 512) (at * 512 + count * entry) first
    raise_if
        (not (eq_bytes table (take (count * entry) last))
          || not (crc32 table == le_at 4 88 primary))
        bad_table
    r ← read_entries start end entry table count 0
    space_of front tail start end r

  unfoldable pub gpt_space : Bytes → Bytes → ℕ → Result GptError Space
  gpt_space first last sectors = do
    let primary = slice 512 1024 first
    let backup = drop (length last - 512) last
    layout ← gpt_backup_layout primary backup sectors
    read_table first last sectors layout

  module _ (guid : Bytes) where
    -- The 128 bytes of the new entry; `name` is the encoded partition name.
    unfoldable pub root_entry : Bytes → ℕ → ℕ → Bytes
    root_entry name offset need =
        let typed = put_at 0 linux_type (replicate 128 0) in
        let unique = put_at 16 guid typed in
        let placed = put_at 32 (le_bytes 8 offset ++ le_bytes 8 (offset + need - 1)) unique in
        put_at 56 name placed

    -- One round of the loop over the two copies.
    unfoldable pub write_copy : Bytes → ℕ → Bytes → ℕ → ℕ → Bytes
    write_copy entry idx raw header_offset table_offset =
        let new = splice (table_offset + idx * 128) (table_offset + (idx + 1) * 128) entry raw in
        let count = le_at 4 (header_offset + 80) new in
        let sum = crc32 (slice table_offset (table_offset + count * 128) new) in
        let summed = put_at (header_offset + 88) (le_bytes 4 sum) new in
        let cleared = put_at (header_offset + 16) (le_bytes 4 0) summed in
        let size = le_at 4 (header_offset + 12) cleared in
        put_at (header_offset + 16)
          (le_bytes 4 (crc32 (slice header_offset (header_offset + size) cleared))) cleared

    unfoldable pub gpt_add_root :
        Bytes → Bytes → ℕ → ℕ → ℕ → List ℕ → Bytes → Result GptError (Bytes × Bytes)
    gpt_add_root first last sectors offset need root_name encoded_name = do
      info ← gpt_space first last sectors
      raise_if (any_named root_name info.parts) root_exists
      raise_if
          (is_nil info.empty
            || ltb need 4194304
            || not (offset % 2048 == 0)
            || not (need % 2048 == 0)
            || not (any_holds offset need info.gaps))
          not_free
      let idx = head_or info.empty 0
      let entry = root_entry encoded_name offset need
      let first' = write_copy entry idx first 512 (le_at 8 584 first * 512)
      let last' = write_copy entry idx last (length last - 512) 0
      checked ← gpt_space first' last' sectors
      ok (first', last')
