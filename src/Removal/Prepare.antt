-- ===== src/Removal/Prepare.antt =====
-- prepare of installer/backend/uninstall.py: the plan of a removal, from the table on the disk, the
-- backups of earlier installations on this computer, or the installation on the device itself. What
-- is asked of the device beside the table is an argument: the evidence that inspect_installation
-- returns for OpenWrt's row, the answers of android_volume, and the tools, which are none where
-- growth_tools or build raises. So are SHA-256 and the numbers of a JSON file.
mod Data
pub mod Consent
unfoldable pub use Data.*
use e5_linux.Base.{
  ℕ, ◌+◌, ◌-◌, ◌*◌, Bool, true, false, ◌&&◌, ◌||◌, not, ◌==◌, ltb, leb, if◌then◌else◌, Option, none,
  some, List, [], ◌∷◌, ◌++◌, length, same_option,
}
use e5_linux.Base.Text.{String, codes}
use e5_linux.Base.Bytes.{Bytes, eq_bytes}
use e5_linux.Base.Result.{Result, ok, err, ◌>>=◌, ◌>>◌, raise_if, or_raise}
use e5_linux.Base.Assoc.{Dict}
use e5_linux.Gpt.{Part, Space}
use e5_linux.BootImage.{Family, e5, mu300, other}
use e5_linux.TwoStage.{disk_of}
use e5_linux.Service.Running.{same_text, is_text}
use e5_linux.Uninstall.{RemovalError, Snapshots, partition, device_layout, restored_layout}
use e5_linux.Adapter.{ScanError, Scan, read_gpt}
use e5_linux.Removal.{
  Action, gap, reset, grow_ext4, grow_f2fs, Filesystem, ext4, f2fs, unreadable, VolumeError,
  not_a_number, bad_ext4, EligibleError, Device, Volume, VolumeAnswers, android_volume, eligible,
}
use e5_linux.Removal.Journal.{
  LayoutSource, original_record, from_device, Proof, Nodes, Plan, Meta, Files, decimal, root_name,
  sectors_of, released, same_action, same_snapshots, expected_nodes, JournalError, is_absent,
}

-- `authorize_reset and authorize_reset(fingerprint)`
abbrev pub is_authorized : Option (Bytes → Bool) → Bytes → Bool
is_authorized none fingerprint = false
is_authorized (some asks) fingerprint = asks fingerprint

module _ (sha : Bytes → Bytes) where
  -- `0 < size <= 2 << 20` and the checksum of one file of the backup
  unfoldable pub backed_up : Source → BackupName → Result Skip Bytes
  backed_up s name = do
    content ← or_raise (s.content name) damaged
    sum ← or_raise (s.sum name) damaged
    raise_if
        (length content == 0
          || ltb (2 * 0x100000) (length content)
          || not (eq_bytes (sha content) sum))
        damaged
    ok content

  module _ (crc32 : Bytes → ℕ) (decode : Bytes → Option (List ℕ))
      (numbers : Bytes → Option (String × ℕ)) where
    -- The body of the loop over the stored transactions; `numbers` reads cid and DISK_SIZE.
    unfoldable pub match_of : Family → Device → Snapshots → Source → Result Skip Layout
    match_of family device current s = do
      raise_if
          (not s.is_part
            || not (same_text s.cid device.cid)
            || not (same_family s.family family)
            || not (same_text s.profile device.profile))
          other_method
      first ← backed_up s gpt_first
      last ← backed_up s gpt_last
      written ← backed_up s identity
      (cid, sectors) ← or_raise (numbers written) damaged
      raise_if (not (same_text cid device.cid) || not (sectors == device.storage.disk_size))
          other_identity
      (after, user, root, expands) ← skip_bad (
          restored_layout crc32 decode (first, last) current device.storage.disk_size
            (root_name family))
      raise_if (not (s.openwrt_bytes == sectors_of root * 512)) other_size
      raise_if (not expands && not (same_option (λ x y. x == y) s.gap_start (some root.start)))
          other_gap
      ok (record {
        source = some s.id;
        proof = none;
        after = after;
        user = user;
        root = root;
        expands = expands;
      })

    unfoldable pub matches : Family → Device → Snapshots → List Source → List Layout
    matches family device current [] = []
    matches family device current (s ∷ ss) =
        let rest = matches family device current ss in
        elim (match_of family device current s) [ err e ↦ rest | ok m ↦ m ∷ rest ]

    -- A match, or else what the device itself proves.
    unfoldable pub layout_from :
        Family
        → Device
        → Snapshots
        → (Part → Option Proof)
        → Option Layout
        → Result PrepareError Layout
    layout_from family device current inspect (some m) = ok m
    layout_from family device current inspect none = do
      (after, user, root, expands) ←
          layout_ok (device_layout crc32 decode current device.storage.disk_size (root_name family))
      proof ← or_raise (inspect root) unproven
      ok (record {
        source = none;
        proof = some proof;
        after = after;
        user = user;
        root = root;
        expands = expands;
      })

-- The test of the kernel's nodes.
unfoldable pub is_stale : Device → Part → Part → Bool
is_stale device user root =
    not (
      same_option eq_bytes device.storage.root
        (some (disk_of device.storage.node ++ (b'p' ∷ decimal root.n))))
    || not (device.storage.start == user.start)
    || not (device.storage.size * 512 == device.userdata_bytes)

-- The volume, and why it has none.
unfoldable pub volume_or :
    Bool → Result VolumeError Volume → Result PrepareError (Volume × Option Reason)
volume_or expands (ok volume) = ok (volume, none)
volume_or expands (err e) =
    if is_caught e && expands
    then ok (unknown_volume, some (volume_failed e))
    else err (bad_volume e)

-- The inner `try`: growth in place, or the reason against it.
unfoldable pub grown_tools :
    Device
    → (Filesystem → Option (Dict Bytes))
    → Volume
    → Option Reason
    → Result Reason (Dict Bytes)
grown_tools device equip volume (some reason) = err reason
grown_tools device equip volume none = elim (eligible device volume) [
  | err e ↦ err (not_eligible e)
  | ok u ↦ or_raise (equip volume.filesystem) no_tools
]

abbrev pub evidence_of : Device → Snapshots → Option Proof → Volume → Reason → Evidence
evidence_of device current proof volume reason = record {
  cid = device.cid;
  slot = device.slot;
  profile = device.profile;
  layout = current;
  proof = proof;
  encrypted = device.encrypted;
  encryption_state = device.encryption_state;
  encryption_type = device.encryption_type;
  volume = volume;
  reason = reason;
}

module _ (digest : Evidence → Bytes) (authorize_reset : Option (Bytes → Bool)) where
  -- The `except` clause behind it: without an authorization for this evidence nothing is planned.
  unfoldable pub or_reset :
      Device
      → Snapshots
      → Option Proof
      → Volume
      → Result Reason (Dict Bytes)
      → Result PrepareError Decision
  or_reset device current proof volume (ok tools) =
      ok (record { action = grow_action volume.filesystem; tools = tools; reason = none })
  or_reset device current proof volume (err reason) = do
    let fingerprint = digest (evidence_of device current proof volume reason)
    raise_if (not (is_authorized authorize_reset fingerprint)) (unavailable reason fingerprint)
    ok (record { action = reset; tools = []; reason = some reason })

  unfoldable pub decide :
      Device
      → Snapshots
      → (Filesystem → Option (Dict Bytes))
      → Layout
      → Volume
      → Option Reason
      → Result PrepareError Decision
  decide device current equip layout volume reason =
      if layout.expands
      then or_reset device current layout.proof volume (grown_tools device equip volume reason)
      else ok (record { action = gap; tools = []; reason = none })

-- The plan. A negative number of reclaimed bytes, where the kernel's userdata is larger than the new
-- row, is 0 here.
unfoldable pub plan_of : Device → Family → Layout → Decision → Plan
plan_of device family layout d = record {
  is_uninstall = true;
  target = disk_of device.storage.node ++ (b'p' ∷ decimal layout.root.n);
  wipe = same_action d.action reset;
  action = d.action;
  openwrt_bytes = sectors_of layout.root * 512;
  android_bytes = sectors_of layout.user * 512;
  previous_bytes = device.userdata_bytes;
  reclaimed_bytes = sectors_of layout.user * 512 - device.userdata_bytes;
  source = layout.source;
  layout_source = if is_absent layout.source then from_device else original_record;
  released_bytes = released layout.expands layout.root;
}

unfoldable pub hashes_of : (Bytes → Bytes) → Dict Bytes → Dict Bytes
hashes_of sha [] = []
hashes_of sha ((name, content) ∷ tools) = (name, sha content) ∷ hashes_of sha tools

-- The metadata. Each of the five names stands in the table once by then.
unfoldable pub meta_of :
    (Bytes → Bytes) → Device → Space → Layout → Decision → Nodes → Volume → Meta
meta_of sha device space layout d nodes volume = record {
  version = if is_absent layout.source then 3 else 2;
  action = d.action;
  reset_authorized = some (same_action d.action reset);
  total = device.storage.disk_size;
  front = space.front;
  tail = space.tail;
  tool_hashes = hashes_of sha d.tools;
  root_start = layout.root.start;
  root_size = sectors_of layout.root;
  nodes = some nodes;
  volume = volume;
  evidence = layout.proof;
}

module _ (sha : Bytes → Bytes) (crc32 : Bytes → ℕ) (decode : Bytes → Option (List ℕ))
    (numbers : Bytes → Option (String × ℕ)) (is_mapping : Bytes → Bool) (int : Bytes → Option ℕ)
    (digest : Evidence → Bytes) where
  -- From the kernel's nodes on, with the chosen layout.
  unfoldable pub plan_layout :
      Option (Bytes → Bool)
      → (Filesystem → Option (Dict Bytes))
      → VolumeAnswers
      → Family
      → Device
      → Scan
      → Layout
      → Result PrepareError (Plan × Meta × Files)
  plan_layout authorize equip answers family device scan layout = do
    raise_if (is_stale device layout.user layout.root) stale_nodes
    nodes ← nodes_ok (expected_nodes (disk_of device.storage.node) scan.space (root_name family))
    (volume, reason) ←
        volume_or layout.expands (android_volume is_mapping int false device.userdata_bytes answers)
    d ← decide digest authorize device (scan.first, scan.last) equip layout volume reason
    ok (
      plan_of device family layout d,
      meta_of sha device scan.space layout d nodes volume,
      record { before = (scan.first, scan.last); after = layout.after },
    )

  unfoldable pub prepare :
      Option (Bytes → Bool)
      → (Filesystem → Option (Dict Bytes))
      → VolumeAnswers
      → (Part → Option Proof)
      → (ℕ → ℕ → Bytes)
      → List Source
      → Family
      → Device
      → Result PrepareError (Plan × Meta × Files)
  prepare authorize equip answers inspect read sources family device = do
    raise_if (not device.is_ready || not device.existing) not_prepared
    scan ← scan_ok (read_gpt read crc32 decode family device.storage.disk_size)
    let current : Snapshots = (scan.first, scan.last)
    known ← consistent (matches sha crc32 decode numbers family device current sources)
    layout ← layout_from sha crc32 decode numbers family device current inspect known
    plan_layout authorize equip answers family device scan layout
