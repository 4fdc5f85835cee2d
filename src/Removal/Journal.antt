-- ===== src/Removal/Journal.antt =====
-- The journal of a removal: the snapshots that Uninstaller.__init__ reads and what
-- validate_snapshots compares before anything is written. The record, its plan and the metadata
-- under `uninstall` are one record here; SHA-256 of a file is a parameter, with zlib's CRC and the
-- UTF-16 codec of gpt.py's model.
mod Data
pub mod Valid
unfoldable pub use Data.*
use e5_linux.Base.{
  ℕ, zero, suc, ◌+◌, ◌-◌, ◌*◌, ◌/◌, ◌%◌, Bool, true, false, ◌&&◌, ◌||◌, not, ◌==◌, ltb, leb,
  if◌then◌else◌, Option, none, some, List, [], ◌∷◌, ◌++◌, length, take, drop, same_bool,
  same_option, any_of,
}
use e5_linux.Base.Text.{String, codes}
use e5_linux.Base.Bytes.{Bytes, eq_bytes}
use e5_linux.Base.Result.{Result, ok, err, ◌>>=◌, ◌>>◌, raise_if, or_raise}
use e5_linux.Base.Assoc.{Dict, contains, lookup}
use e5_linux.Gpt.{Part, Space, gpt_space}
use e5_linux.BootImage.{Family, e5, mu300, is_known}
use e5_linux.TwoStage.{disk_of, all_hex}
use e5_linux.Uninstall.{
  RemovalError, Snapshots, userdata, gpt_checked, partition, device_layout, restored_layout,
}
use e5_linux.Removal.{
  Action, gap, reset, grow_ext4, grow_f2fs, unknown, Filesystem, ext4, f2fs, unreadable,
  EligibleError, Device, Volume, eligible,
}

abbrev pub sectors_of : Part → ℕ
sectors_of p = p.end + 1 - p.start

abbrev pub is_device_source : LayoutSource → Bool
is_device_source from_device = true
is_device_source _ = false

abbrev pub is_absent : {A : Type 0} → Option A → Bool
is_absent none = true
is_absent (some a) = false

-- What is asked of the evidence itself.
unfoldable pub is_proof : Family → Option Proof → Bool
is_proof family none = false
is_proof family (some p) =
    p.version == 1
    && all_in (keys_of p.markers) (evidence_paths family)
    && all_in (evidence_paths family) (keys_of p.markers)
    && is_hash p.boot_header
    && is_hash p.ramdisk
    && is_hash p.superblock
    && all_hashes p.markers

abbrev pub released : Bool → Part → ℕ
released expands root = if expands then 0 else sectors_of root * 512

-- The test of a journal of version 3.
unfoldable pub lacks_evidence : Family → Plan → Meta → Part → Bool → Bool
lacks_evidence family plan meta root expands =
    not (is_device_source plan.layout_source)
    || not (is_absent plan.source)
    || not (is_proof family meta.evidence)
    || not (plan.released_bytes == released expands root)

abbrev pub same_action : Action → Action → Bool
same_action gap gap = true
same_action reset reset = true
same_action grow_ext4 grow_ext4 = true
same_action grow_f2fs grow_f2fs = true
same_action unknown unknown = true
same_action _ _ = false

abbrev pub is_listed : Action → Bool
is_listed unknown = false
is_listed _ = true

abbrev pub is_flag : Option Bool → Bool → Bool
is_flag none b = false
is_flag (some a) b = same_bool a b

abbrev pub grows_as : Action → Filesystem → Bool
grows_as grow_ext4 ext4 = true
grows_as grow_f2fs f2fs = true
grows_as _ _ = false

abbrev pub is_grow : Action → Bool
is_grow grow_ext4 = true
is_grow grow_f2fs = true
is_grow _ = false

abbrev pub is_empty : {V : Type 0} → Dict V → Bool
is_empty [] = true
is_empty (e ∷ d) = false

abbrev pub eligible_for : Device → Volume → Result JournalError (Unit {0})
eligible_for device volume = elim (eligible device volume) [
  | err e ↦ err (not_eligible e)
  | ok u ↦ ok u
]

-- The block `if action.startswith('grow-')`.
unfoldable pub check_growth : Device → Meta → Result JournalError (Unit {0})
check_growth device meta = if not (is_grow meta.action) then ok tt else (do
  eligible_for device meta.volume
  raise_if (not (grows_as meta.action meta.volume.filesystem) || is_empty meta.tool_hashes)
      no_tools)

-- The block of the versions above 1; whether Android is wiped comes out.
unfoldable pub check_action : Device → Plan → Meta → Bool → Result JournalError Bool
unfolding check_growth
check_action device plan meta expands = if not (leb 2 meta.version) then ok expands else (do
  raise_if (not (same_action meta.action plan.action) || not (is_listed meta.action)) other_action
  let wipe = same_action meta.action reset
  raise_if
      (not (same_bool (same_action meta.action gap) (not expands))
        || not (is_flag meta.reset_authorized wipe))
      unauthorized
  check_growth device meta
  ok wipe)

abbrev pub same_nodes : Option Nodes → Nodes → Bool
same_nodes none m = false
same_nodes (some n) m =
    eq_bytes n.user m.user
    && eq_bytes n.root m.root
    && eq_bytes n.misc m.misc
    && eq_bytes n.boot_a m.boot_a
    && eq_bytes n.boot_b m.boot_b

abbrev pub same_snapshots : Snapshots → Snapshots → Bool
same_snapshots x y = eq_bytes x.0 y.0 && eq_bytes x.1 y.1

-- The last condition.
unfoldable pub geometry_tests :
    Device → Plan → Meta → Files → Space → Part → Nodes → Snapshots → Part → Part → Bool → List Bool
geometry_tests device plan meta files info data_row nodes calculated prior root wipe =
    not (same_snapshots calculated files.after)
    ∷ not (meta.total == device.storage.disk_size)
    ∷ not (meta.front == info.front)
    ∷ not (meta.tail == info.tail)
    ∷ not (same_nodes meta.nodes nodes)
    ∷ not (meta.root_start == root.start)
    ∷ not (meta.root_size == sectors_of root)
    ∷ not (eq_bytes device.storage.node nodes.user)
    ∷ not (device.storage.start == data_row.start)
    ∷ not (device.storage.size == sectors_of data_row)
    ∷ not (device.userdata_bytes == device.storage.size * 512)
    ∷ not (plan.previous_bytes == device.storage.size * 512)
    ∷ not (eq_bytes plan.target nodes.root)
    ∷ not (same_bool plan.wipe wipe)
    ∷ not (plan.android_bytes == sectors_of prior * 512)
    ∷ not (plan.reclaimed_bytes + device.storage.size * 512 == plan.android_bytes)
    ∷ not (plan.openwrt_bytes == sectors_of root * 512)
    ∷ []

abbrev pub known_version : ℕ → Bool
known_version v = v == 1 || v == 2 || v == 3

abbrev pub layout_checked : {A : Type 0} → Result RemovalError A → Result JournalError A
layout_checked (err e) = err (bad_layout e)
layout_checked (ok a) = ok a

-- `disk + 'p' + str(partition(info, label)['n'])`
abbrev pub node_of : Bytes → Space → List ℕ → Result JournalError Bytes
node_of disk info label = do
  row ← layout_checked (partition info label)
  ok (disk ++ (b'p' ∷ decimal row.n))

unfoldable pub expected_nodes : Bytes → Space → List ℕ → Result JournalError Nodes
expected_nodes disk info name = do
  user ← node_of disk info userdata
  root ← node_of disk info name
  misc ← node_of disk info (codes "misc")
  boot_a ← node_of disk info (codes "boot_a")
  boot_b ← node_of disk info (codes "boot_b")
  ok (record { user = user; root = root; misc = misc; boot_a = boot_a; boot_b = boot_b })

-- `0 < size <= 2 << 20` and the checksum
unfoldable pub is_damaged : (Bytes → Bytes) → Bytes → Bytes → Bool
is_damaged sha expected content =
    length content == 0
    || ltb (2 * 0x100000) (length content)
    || not (eq_bytes (sha content) expected)

abbrev pub is_elsewhere : FileName → Bool
is_elsewhere elsewhere = true
is_elsewhere _ = false

abbrev pub same_file : FileName → FileName → Bool
same_file before_first before_first = true
same_file before_last before_last = true
same_file after_first after_first = true
same_file after_last after_last = true
same_file elsewhere elsewhere = true
same_file _ _ = false

module _ (sha : Bytes → Bytes) (folder : FileName → Option Bytes) where
  -- The loop of __init__ over the checksums.
  unfoldable pub read_files :
      List (FileName × Bytes) → Result JournalError (List (FileName × Bytes))
  read_files [] = ok []
  read_files ((name, expected) ∷ sums) = do
    raise_if (is_elsewhere name) damaged
    content ← or_raise (folder name) missing_file
    raise_if (is_damaged sha expected content) damaged
    rest ← read_files sums
    ok ((name, content) ∷ rest)

unfoldable pub file : FileName → List (FileName × Bytes) → Option Bytes
file name [] = none
file name ((n, content) ∷ rest) = if same_file n name then some content else file name rest

-- `set(self.files) != required`
unfoldable pub all_files : List (FileName × Bytes) → Result JournalError Files
all_files read = do
  first ← or_raise (file before_first read) incomplete
  last ← or_raise (file before_last read) incomplete
  new_first ← or_raise (file after_first read) incomplete
  new_last ← or_raise (file after_last read) incomplete
  ok (record { before = (first, last); after = (new_first, new_last) })

module _ (crc32 : Bytes → ℕ) (decode : Bytes → Option (List ℕ)) where
  -- The layout that the code computes from the snapshots: of the device, or with the table of the
  -- backup that the journal keeps as the table after the removal.
  unfoldable pub calculated_layout :
      Family → Device → Plan → Meta → Files → Result JournalError (Snapshots × Part × Part × Bool)
  calculated_layout family device plan meta files =
      if meta.version == 3
      then (do
        layout ←
            layout_checked
              (device_layout crc32 decode files.before device.storage.disk_size (root_name family))
        raise_if (lacks_evidence family plan meta layout.2 layout.3) no_evidence
        ok layout)
      else layout_checked (
          restored_layout crc32 decode files.after files.before device.storage.disk_size
            (root_name family))

  -- From `info` on.
  unfoldable pub check_geometry :
      Family
      → Device
      → Plan
      → Meta
      → Files
      → Snapshots × Part × Part × Bool
      → Bool
      → Result JournalError (Unit {0})
  check_geometry family device plan meta files (calculated, prior, root, expands) wipe = do
    info ← layout_checked (
        gpt_checked (gpt_space crc32 decode files.before.0 files.before.1 device.storage.disk_size))
    data_row ← layout_checked (partition info userdata)
    nodes ← expected_nodes (disk_of device.storage.node) info (root_name family)
    raise_if
        (any_of
          (geometry_tests device plan meta files info data_row nodes calculated prior root wipe))
        other_geometry

  unfoldable pub validate_snapshots :
      Family → Device → Plan → Meta → Files → Result JournalError (Unit {0})
  validate_snapshots family device plan meta files = do
    raise_if (not (known_version meta.version) || not plan.is_uninstall) incomplete
    raise_if (not (is_known family) || not (is_node device.storage.node)) bad_node
    layout ← calculated_layout family device plan meta files
    wipe ← check_action device plan meta layout.3
    check_geometry family device plan meta files layout wipe

  -- Uninstaller.__init__, from the checksums on.
  unfoldable pub open_journal :
      (Bytes → Bytes)
      → (FileName → Option Bytes)
      → List (FileName × Bytes)
      → Family
      → Device
      → Plan
      → Meta
      → Result JournalError Files
  open_journal sha folder sums family device plan meta = do
    read ← read_files sha folder sums
    files ← all_files read
    validate_snapshots family device plan meta files
    ok files

-- layout_state: the tables on the disk are those after the removal, or those before, or neither.
pub data LayoutState : Type 0 where
  at_after at_before in_between : LayoutState

unfoldable pub layout_state : Files → Snapshots → LayoutState
layout_state files current =
    if same_snapshots current files.after
    then at_after
    else if same_snapshots current files.before
    then at_before
    else in_between
