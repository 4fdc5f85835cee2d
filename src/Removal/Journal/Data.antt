-- ===== src/Removal/Journal/Data.antt =====
-- The stored plan, metadata and files of a removal in installer/backend/uninstall.py, the names of
-- partition nodes, and the paths of the evidence.
use e5_linux.Base.{
  ℕ, zero, suc, ◌+◌, ◌/◌, ◌%◌, Bool, true, false, ◌&&◌, not, ◌==◌, ltb, leb, if◌then◌else◌, Option,
  none, some, List, [], ◌∷◌, ◌++◌, length, take, drop,
}
use e5_linux.Base.Text.{String, codes}
use e5_linux.Base.Bytes.{Bytes, eq_bytes}
use e5_linux.Base.Assoc.{Dict, contains}
use e5_linux.BootImage.{Family, e5}
use e5_linux.TwoStage.{all_hex}
use e5_linux.Uninstall.{RemovalError, Snapshots}
use e5_linux.Removal.{Action, EligibleError, Volume}

-- The keys of meta['checksums']; `elsewhere` is any other name.
pub data FileName : Type 0 where
  before_first before_last after_first after_last elsewhere : FileName

-- The `raise RecoveryRequired` lines, in order, and what the calls raise. `missing_file` is OSError.
pub data JournalError : Type 0 where
  damaged missing_file incomplete bad_node no_evidence other_action unauthorized no_tools :
      JournalError
  other_geometry : JournalError
  bad_layout : RemovalError → JournalError
  not_eligible : EligibleError → JournalError

-- plan['layout_source']; `unsaid` is any other value.
pub data LayoutSource : Type 0 where
  original_record from_device unsaid : LayoutSource

-- meta['installation_evidence']. A hash is none where it is missing or no text.
pub record Proof : Type 0 where
  pub version : ℕ
  pub boot_header : Option Bytes
  pub ramdisk : Option Bytes
  pub superblock : Option Bytes
  pub markers : Dict (Option Bytes)

-- meta['nodes'], with the five keys that are written.
pub record Nodes : Type 0 where
  pub user : Bytes
  pub root : Bytes
  pub misc : Bytes
  pub boot_a : Bytes
  pub boot_b : Bytes

-- The plan of a removal. Python's reclaimed_bytes may be negative in a forged file; such a plan is
-- refused, as are those whose numbers are no integers.
pub record Plan : Type 0 where
  pub is_uninstall : Bool
  pub target : Bytes
  pub wipe : Bool
  pub action : Action
  pub openwrt_bytes : ℕ
  pub android_bytes : ℕ
  pub previous_bytes : ℕ
  pub reclaimed_bytes : ℕ
  pub source : Option String
  pub layout_source : LayoutSource
  pub released_bytes : ℕ

-- The metadata. `nodes` is none for a dictionary with other keys.
pub record Meta : Type 0 where
  pub version : ℕ
  pub action : Action
  pub reset_authorized : Option Bool
  pub total : ℕ
  pub front : ℕ
  pub tail : ℕ
  pub tool_hashes : Dict Bytes
  pub root_start : ℕ
  pub root_size : ℕ
  pub nodes : Option Nodes
  pub volume : Volume
  pub evidence : Option Proof

-- The four snapshots.
pub record Files : Type 0 where
  pub before : Snapshots
  pub after : Snapshots

-- str of a number
unfoldable pub digits : ℕ → ℕ → Bytes
digits zero n = []
digits (suc fuel) n =
    let shorter = digits fuel (n / 10) in
    if ltb n 10 then (48 + n) ∷ [] else shorter ++ ((48 + n % 10) ∷ [])

unfoldable pub decimal : ℕ → Bytes
unfolding digits
decimal n = digits (n + 1) n

abbrev pub root_name : Family → List ℕ
root_name e5 = codes "e5root"
root_name _ = codes "mu300root"

-- re.fullmatch(r'mmcblk[0-9]p[1-9][0-9]*', node)
abbrev pub is_digit : ℕ → Bool
is_digit c = leb b'0' c && leb c b'9'

unfoldable pub all_digits : Bytes → Bool
all_digits [] = true
all_digits (c ∷ cs) = is_digit c && all_digits cs

unfoldable pub is_node_end : Bytes → Bool
unfolding all_digits
is_node_end (d ∷ (p ∷ (n ∷ rest))) =
    is_digit d && p == b'p' && is_digit n && not (n == b'0') && all_digits rest
is_node_end _ = false

unfoldable pub is_node : Bytes → Bool
is_node node = eq_bytes (take 6 node) (codes "mmcblk") && is_node_end (drop 6 node)

-- The paths whose contents the evidence has.
abbrev pub evidence_paths : Family → List String
evidence_paths e5 = "etc/e5/part-root" ∷ "etc/openwrt_release" ∷ []
evidence_paths _ =
    "openwrt/etc/mu300/desktop-mode" ∷ ".mu300/boot-os" ∷ "openwrt/etc/openwrt_release" ∷ []

unfoldable pub all_in : List String → List String → Bool
all_in [] names = true
all_in (x ∷ xs) names = contains x names && all_in xs names

abbrev pub keys_of : {V : Type 0} → Dict V → List String
keys_of [] = []
keys_of ((k, v) ∷ d) = k ∷ keys_of d

-- re.fullmatch('[a-f0-9]{64}', value)
abbrev pub is_hash : Option Bytes → Bool
is_hash none = false
is_hash (some h) = length h == 64 && all_hex h

unfoldable pub all_hashes : Dict (Option Bytes) → Bool
all_hashes [] = true
all_hashes ((k, h) ∷ d) = is_hash h && all_hashes d
