-- ===== src/Removal/Prepare/Data.antt =====
-- What prepare of installer/backend/uninstall.py reads and decides, and the tests on the matches.
use e5_linux.Base.{ℕ, Bool, true, false, ◌||◌, not, Option, none, some, List, [], ◌∷◌}
use e5_linux.Base.Text.{String}
use e5_linux.Base.Bytes.{Bytes}
use e5_linux.Base.Result.{Result, ok, err, ◌>>◌, raise_if}
use e5_linux.Base.Assoc.{Dict}
use e5_linux.Gpt.{Part}
use e5_linux.BootImage.{Family, e5, mu300, other}
use e5_linux.Uninstall.{RemovalError, Snapshots}
use e5_linux.Adapter.{ScanError}
use e5_linux.Removal.{
  Action, grow_ext4, grow_f2fs, Filesystem, f2fs, unreadable, VolumeError, not_a_number, bad_ext4,
  EligibleError, Volume,
}
use e5_linux.Removal.Journal.{Proof, same_snapshots, JournalError}

-- The files of the backup.
pub data BackupName : Type 0 where
  gpt_first gpt_last identity : BackupName

-- A stored transaction, with its backup folder: a file is none where it cannot be read, and so is
-- the sum of checksums.json. `is_part` says that its method is `part`.
pub record Source : Type 0 where
  pub id : String
  pub is_part : Bool
  pub cid : String
  pub family : Family
  pub profile : String
  pub openwrt_bytes : ℕ
  pub gap_start : Option ℕ
  pub content : BackupName → Option Bytes
  pub sum : BackupName → Option Bytes

-- Why a transaction is passed over.
pub data Skip : Type 0 where
  other_method damaged other_identity other_size other_gap : Skip
  no_layout : RemovalError → Skip

-- Why userdata cannot grow in place: what android_volume or eligible raises, or the tools.
pub data Reason : Type 0 where
  volume_failed : VolumeError → Reason
  not_eligible : EligibleError → Reason
  no_tools : Reason

-- The exceptions of prepare: the RecoveryRequired lines, what the calls raise, and
-- PreservationUnavailable with its reason and fingerprint.
pub data PrepareError : Type 0 where
  not_prepared records_disagree stale_nodes : PrepareError
  bad_scan : ScanError → PrepareError
  bad_layout : RemovalError → PrepareError
  bad_nodes : JournalError → PrepareError
  unproven : PrepareError
  bad_volume : VolumeError → PrepareError
  unavailable : Reason → Bytes → PrepareError

-- An element of `matches`, and the layout that is chosen.
pub record Layout : Type 0 where
  pub source : Option String
  pub proof : Option Proof
  pub after : Snapshots
  pub user : Part
  pub root : Part
  pub expands : Bool

-- What the fingerprint of a reset is taken of.
pub record Evidence : Type 0 where
  pub cid : String
  pub slot : String
  pub profile : String
  pub layout : Snapshots
  pub proof : Option Proof
  pub encrypted : Option Bool
  pub encryption_state : Option String
  pub encryption_type : Option String
  pub volume : Volume
  pub reason : Reason

-- Action, tools, and plan['preservation_error'].
pub record Decision : Type 0 where
  pub action : Action
  pub tools : Dict Bytes
  pub reason : Option Reason

abbrev pub same_family : Family → Family → Bool
same_family e5 e5 = true
same_family mu300 mu300 = true
same_family other other = true
same_family _ _ = false

abbrev pub skip_bad : {A : Type 0} → Result RemovalError A → Result Skip A
skip_bad (err e) = err (no_layout e)
skip_bad (ok a) = ok a

abbrev pub layout_ok : {A : Type 0} → Result RemovalError A → Result PrepareError A
layout_ok (err e) = err (bad_layout e)
layout_ok (ok a) = ok a

abbrev pub scan_ok : {A : Type 0} → Result ScanError A → Result PrepareError A
scan_ok (err e) = err (bad_scan e)
scan_ok (ok a) = ok a

abbrev pub nodes_ok : {A : Type 0} → Result JournalError A → Result PrepareError A
nodes_ok (err e) = err (bad_nodes e)
nodes_ok (ok a) = ok a

-- Only a RecoveryRequired of android_volume is caught.
abbrev pub is_caught : VolumeError → Bool
is_caught not_a_number = false
is_caught (bad_ext4 e) = false
is_caught _ = true

abbrev pub grow_action : Filesystem → Action
grow_action f2fs = grow_f2fs
grow_action _ = grow_ext4

-- {'filesystem': 'unknown', 'mapping_overhead': 0, 'filesystem_bytes': 0}
abbrev pub unknown_volume : Volume
unknown_volume = record {
  source = none;
  filesystem_bytes = 0;
  filesystem = unreadable;
  uuid = none;
  mapping_overhead = 0;
}

-- Any match but the first has other tables.
unfoldable pub any_other : Snapshots → List Layout → Bool
any_other after [] = false
any_other after (m ∷ ms) = not (same_snapshots m.after after) || any_other after ms

unfoldable pub consistent : List Layout → Result PrepareError (Option Layout)
unfolding any_other
consistent [] = ok none
consistent (m ∷ ms) = do raise_if (any_other m.after ms) records_disagree; ok (some m)
