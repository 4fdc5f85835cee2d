-- ===== src/Uninstall.antt =====
-- The partition tables of installer/backend/uninstall.py: the table without OpenWrt's entry, with
-- userdata over its range (device_layout), and the table of the backup taken before the installation
-- (restored_layout). A snapshot is the pair of the first and the last sectors of a disk. Texts of
-- the table are code points; zlib's CRC and the UTF-16 codec are the parameters of gpt.py's model.
pub mod Table
pub mod Written
pub mod Restored
pub mod Layout
mod Examples
use e5_linux.Base.{
  ℕ, zero, suc, ◌+◌, ◌-◌, ◌*◌, ◌/◌, ◌%◌, Bool, true, false, ◌&&◌, ◌||◌, not, ◌==◌, ltb, leb,
  if◌then◌else◌, Option, List, [], ◌∷◌, ◌++◌, length, take, drop, replicate,
}
use e5_linux.Base.Bytes.{Bytes, slice, eq_bytes, le_at, le_bytes, put_at}
use e5_linux.Base.Result.{Result, ok, err, ◌>>=◌, ◌>>◌, raise_if}
use e5_linux.Gpt.{Part, Space, GptError, gpt_space, any_named, splice, linux_type}

-- The RecoveryRequired lines, in the order of the file, and what gpt_space raises.
pub data RemovalError : Type 0 where
  ambiguous unsupported duplicated identity_differs userdata_changed : RemovalError
  another_changed not_reclaimed not_proven not_removed : RemovalError
  bad_gpt : GptError → RemovalError

abbrev pub Snapshots : Type 0
Snapshots = Bytes × Bytes

-- 'userdata'
abbrev pub userdata : List ℕ
userdata = b'u' ∷ b's' ∷ b'e' ∷ b'r' ∷ b'd' ∷ b'a' ∷ b't' ∷ b'a' ∷ []

abbrev pub gpt_checked : {A : Type 0} → Result GptError A → Result RemovalError A
gpt_checked (err e) = err (bad_gpt e)
gpt_checked (ok a) = ok a

unfoldable pub rows_named : List ℕ → List Part → List Part
rows_named name [] = []
rows_named name (p ∷ ps) =
    let rest = rows_named name ps in if eq_bytes p.name name then p ∷ rest else rest

abbrev pub only_row : List Part → Result RemovalError Part
only_row (p ∷ []) = ok p
only_row _ = err ambiguous

unfoldable pub partition : Space → List ℕ → Result RemovalError Part
unfolding rows_named
partition info name = only_row (rows_named name info.parts)

unfoldable pub table : Bytes → Bytes
table first =
    let at : ℕ = le_at 8 584 first in slice (at * 512) (at * 512 + le_at 4 592 first * 128) first

-- `index in old['empty']`
unfoldable pub is_empty_entry : ℕ → List ℕ → Bool
is_empty_entry index [] = false
is_empty_entry index (i ∷ rest) = i == index || is_empty_entry index rest

-- `a <= root['start'] and root['end'] < a+n` for any gap
unfoldable pub in_any_gap : Part → List (ℕ × ℕ) → Bool
in_any_gap root [] = false
in_any_gap root ((a, n) ∷ gaps) = (leb a root.start && ltb root.end (a + n)) || in_any_gap root gaps

-- The GUID of another entry is the same.
unfoldable pub any_guid : Bytes → ℕ → Bytes → List Part → Bool
any_guid updated n guid [] = false
any_guid updated n guid (p ∷ ps) =
    (not (p.n == n) && eq_bytes (slice ((p.n - 1) * 128 + 16) ((p.n - 1) * 128 + 32) updated) guid)
    || any_guid updated n guid ps

-- One round of the loop over the entries of both tables, and the loop.
unfoldable pub compare_entry : ℕ → ℕ → ℕ → Bytes → Bytes → Result RemovalError (Unit {0})
compare_entry user root index a b =
    if index == user
    then raise_if (not (eq_bytes (take 40 a ++ drop 48 a) (take 40 b ++ drop 48 b)))
        userdata_changed
    else raise_if (not (index == root) && not (eq_bytes a b)) another_changed

unfoldable pub compare_entries : ℕ → ℕ → Bytes → Bytes → ℕ → ℕ → Result RemovalError (Unit {0})
compare_entries user root old new zero index = ok tt
compare_entries user root old new (suc left) index =
    let rest = compare_entries user root old new left (index + 1) in
    compare_entry user root index (slice (index * 128) ((index + 1) * 128) old)
      (slice (index * 128) ((index + 1) * 128) new)
    >> rest

-- Where the sectors of OpenWrt came from: userdata, which was larger by them, or a gap. Sizes are
-- those of ranges that gpt_space has checked, so no difference is negative but for the first, where
-- Python's negative size and the 0 here both differ from the size of userdata.
unfoldable pub proven_origin : Part → Part → Part → List (ℕ × ℕ) → Result RemovalError (Unit {0})
proven_origin prior user root gaps =
    if ltb user.end prior.end
    then raise_if
        (not (root.start == user.end + 1)
          || ltb prior.end root.end
          || not (
              user.end + 1 - user.start
              == (prior.end + 1 - prior.start - (root.end + 1 - root.start)) / 2048 * 2048))
        not_reclaimed
    else raise_if (not (prior.end == user.end) || not (in_any_gap root gaps)) not_proven

-- The condition of device_layout's first raise.
unfoldable pub is_unsupported : Bytes → Part → Bool
is_unsupported entry root =
    not (eq_bytes (take 16 entry) linux_type)
    || eq_bytes (slice 16 32 entry) (replicate 16 0)
    || not (eq_bytes (slice 48 56 entry) (replicate 8 0))
    || not (root.start % 2048 == 0)
    || not ((root.end + 1) % 2048 == 0)
    || ltb (root.end + 1 - root.start) 4194304

-- `{**data, 'end': root['end']} if expands else data`
unfoldable pub grown : Part → Part → Part
grown user root = if root.start == user.end + 1 then record user { end = root.end } else user

-- The condition of restored_layout's first raise.
unfoldable pub is_other_disk : Snapshots → Snapshots → Space → Space → Part → Part → Part → Bool
is_other_disk original current old now user root prior =
    not (eq_bytes (slice 568 584 original.0) (slice 568 584 current.0))
    || not (old.front == now.front)
    || not (old.tail == now.tail)
    || not (length (table original.0) == length (table current.0))
    || not (user.n == prior.n)
    || not (user.start == prior.start)
    || not (is_empty_entry (root.n - 1) old.empty)

-- The table that restored_layout writes.
unfoldable pub restored_table : Bytes → Bytes → ℕ → ℕ → ℕ → Bytes
restored_table old new root user end =
    put_at (user * 128 + 40) (le_bytes 8 end)
      (splice (root * 128) ((root + 1) * 128) (slice (root * 128) ((root + 1) * 128) old) new)

-- The table that device_layout writes.
unfoldable pub freed_table : Bytes → ℕ → ℕ → ℕ → Bytes
freed_table old root user end =
    put_at (user * 128 + 40) (le_bytes 8 end)
      (splice (root * 128) ((root + 1) * 128) (replicate 128 0) old)

module _ (crc32 : Bytes → ℕ) (decode : Bytes → Option (List ℕ)) where
  -- One round of the loop over the two copies.
  unfoldable pub with_copy : Bytes → Bytes → ℕ → ℕ → Bytes
  with_copy updated raw header offset =
      let new = splice offset (offset + length updated) updated raw in
      let summed = put_at (header + 88) (le_bytes 4 (crc32 updated)) new in
      let cleared = put_at (header + 16) (le_bytes 4 0) summed in
      let size = le_at 4 (header + 12) cleared in
      put_at (header + 16) (le_bytes 4 (crc32 (slice header (header + size) cleared))) cleared

  unfoldable pub with_table : Snapshots → Bytes → ℕ → Result RemovalError Snapshots
  with_table (first, last) updated sectors = do
    let first' = with_copy updated first 512 (le_at 8 584 first * 512)
    let last' = with_copy updated last (length last - 512) 0
    checked ← gpt_checked (gpt_space crc32 decode first' last' sectors)
    ok (first', last')

  -- device_layout from its first check on, given the rows that it has found.
  unfoldable pub free_rows :
      Snapshots → ℕ → List Part → Part → Part → Result RemovalError (Snapshots × Part × Part × Bool)
  free_rows current sectors parts user root = do
    let old = table current.0
    let entry = slice ((root.n - 1) * 128) (root.n * 128) old
    raise_if (is_unsupported entry root) unsupported
    raise_if (any_guid old root.n (slice 16 32 entry) parts) duplicated
    let target = grown user root
    output ← with_table current (freed_table old (root.n - 1) (user.n - 1) target.end) sectors
    ok (output, target, root, root.start == user.end + 1)

  -- What it returns: the snapshots, the new userdata row, OpenWrt's row, and whether it grows.
  unfoldable pub device_layout :
      Snapshots → ℕ → List ℕ → Result RemovalError (Snapshots × Part × Part × Bool)
  device_layout current sectors name = do
    info ← gpt_checked (gpt_space crc32 decode current.0 current.1 sectors)
    user ← partition info userdata
    root ← partition info name
    free_rows current sectors info.parts user root

  -- restored_layout from its loop on, given the rows that it has found.
  unfoldable pub restore_rows :
      Snapshots
      → Snapshots
      → ℕ
      → List ℕ
      → List (ℕ × ℕ)
      → Part
      → Part
      → Part
      → Result RemovalError (Snapshots × Part × Part × Bool)
  restore_rows original current sectors name gaps user root prior = do
    let oldtable = table original.0
    let newtable = table current.0
    compare_entries (user.n - 1) (root.n - 1) oldtable newtable (length newtable / 128) 0
    proven_origin prior user root gaps
    let updated = restored_table oldtable newtable (root.n - 1) (user.n - 1) prior.end
    output ← with_table current updated sectors
    verified ← gpt_checked (gpt_space crc32 decode output.0 output.1 sectors)
    raise_if (any_named name verified.parts) not_removed
    ok (output, prior, root, ltb user.end prior.end)

  -- From the rows on, given both scans.
  unfoldable pub restore_scanned :
      Snapshots
      → Snapshots
      → ℕ
      → List ℕ
      → Space
      → Space
      → Result RemovalError (Snapshots × Part × Part × Bool)
  restore_scanned original current sectors name old now = do
    user ← partition now userdata
    root ← partition now name
    prior ← partition old userdata
    raise_if (is_other_disk original current old now user root prior) identity_differs
    restore_rows original current sectors name old.gaps user root prior

  -- What it returns: the snapshots, userdata's old row, OpenWrt's row, and whether userdata grows.
  unfoldable pub restored_layout :
      Snapshots → Snapshots → ℕ → List ℕ → Result RemovalError (Snapshots × Part × Part × Bool)
  restored_layout original current sectors name = do
    old ← gpt_checked (gpt_space crc32 decode original.0 original.1 sectors)
    now ← gpt_checked (gpt_space crc32 decode current.0 current.1 sectors)
    restore_scanned original current sectors name old now
