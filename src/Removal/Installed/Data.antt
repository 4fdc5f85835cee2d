-- ===== src/Removal/Installed/Data.antt =====
-- What inspect_installation of installer/backend/install_evidence.py reads, and `strip`, `in` and the
-- line of the release file.
use e5_linux.Base.{
  ℕ, Bool, false, ◌&&◌, ◌||◌, ◌==◌, leb, if◌then◌else◌, Option, none, some, List, [], ◌∷◌, ◌++◌,
  take, drop,
}
use e5_linux.Base.Text.{String, codes}
use e5_linux.Base.Bytes.{Bytes, slice, eq_bytes}
use e5_linux.Gpt.{is_nil}
use e5_linux.BootImage.{InspectError, starts_with}
use e5_linux.Cpio.{CpioError}
use e5_linux.Cpio.Blocks.{BlockError}
use e5_linux.Evidence.{EvidenceError}

-- The `raise ValueError` lines, in order, and what the calls raise.
pub data InstalledError : Type 0 where
  stale_node busy incomplete_ramdisk irregular_file no_e5_support no_mu300_route : InstalledError
  other_marker not_openwrt other_disk bad_selector : InstalledError
  bad_boot : InspectError → InstalledError
  bad_block : BlockError → InstalledError
  bad_archive : CpioError → InstalledError
  bad_file : EvidenceError → InstalledError

-- The files of the ramdisk that are looked at.
pub record RamFiles : Type 0 where
  pub init : Option Bytes
  pub root_mode : Option Bytes
  pub has_prepare : Bool

-- A path of the file system, and what its content has to be.
pub data Kind : Type 0 where
  part_root release mode selector : Kind

pub record Marker : Type 0 where
  pub path : String
  pub parts : List Bytes
  pub kind : Kind

-- bytes.strip()
abbrev pub is_blank : ℕ → Bool
is_blank c = (leb 9 c && leb c 13) || c == 32

unfoldable pub strip_left : Bytes → Bytes
strip_left [] = []
strip_left (c ∷ cs) = let rest = strip_left cs in if is_blank c then rest else c ∷ cs

unfoldable pub strip_right : Bytes → Bytes
strip_right [] = []
strip_right (c ∷ cs) =
    let rest = strip_right cs in if is_nil rest && is_blank c then [] else c ∷ rest

abbrev pub strip : Bytes → Bytes
strip text = strip_left (strip_right text)

-- `text in content`, and a line of the content is one of four texts.
unfoldable pub contains : Bytes → Bytes → Bool
contains text [] = is_nil text
contains text (c ∷ cs) = starts_with text (c ∷ cs) || contains text cs

unfoldable pub lines : Bytes → Bytes → List Bytes
lines line [] = line ∷ []
lines line (c ∷ cs) =
    let ended = lines [] cs in
    let longer = lines (line ++ (c ∷ [])) cs in if c == 10 then line ∷ ended else longer

-- DISTRIB_ID=['"]OpenWrt['"]
unfoldable pub is_distribution : Bytes → Bool
is_distribution line =
    eq_bytes (take 11 line) (codes "DISTRIB_ID=")
    && is_quote (slice 11 12 line)
    && eq_bytes (slice 12 19 line) (codes "OpenWrt")
    && is_quote (drop 19 line)
  where
    is_quote : Bytes → Bool
    is_quote (c ∷ []) = c == 34 || c == 39
    is_quote _ = false

unfoldable pub any_distribution : List Bytes → Bool
unfolding is_distribution
any_distribution [] = false
any_distribution (l ∷ ls) = is_distribution l || any_distribution ls

abbrev pub content_or : Option Bytes → Bytes
content_or none = []
content_or (some content) = content
