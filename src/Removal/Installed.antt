-- ===== src/Removal/Installed.antt =====
-- inspect_installation of installer/backend/install_evidence.py: fresh evidence that OpenWrt is
-- installed on a partition. The commands' outputs are arguments: the partition's and the boot
-- partition's sectors as dd prints them, and whether the partition is idle. Every error of it becomes
-- a RecoveryRequired. SHA-256 as hexadecimal text, lz4, `int` of hexadecimal digits and the test for
-- UTF-8 are parameters. Texts are bytes.
mod Data
pub mod Proven
unfoldable pub use Data.*
use e5_linux.Base.{
  ℕ, ◌+◌, ◌-◌, ◌*◌, ◌/◌, ◌%◌, Bool, true, false, ◌&&◌, ◌||◌, not, ◌==◌, ltb, leb, if◌then◌else◌,
  Option, none, some, List, [], ◌∷◌, ◌++◌, length, take, drop, same_option,
}
use e5_linux.Base.Text.{String, codes}
use e5_linux.Base.Bytes.{Bytes, slice, eq_bytes}
use e5_linux.Base.Result.{Result, ok, err, ◌>>=◌, ◌>>◌, raise_if, or_raise}
use e5_linux.Base.Assoc.{Dict}
use e5_linux.Gpt.{Part, is_nil}
use e5_linux.BootImage.{
  Family, e5, mu300, other, InspectError, Installed, starts_with, inspect_linux_boot,
}
use e5_linux.TwoStage.{disk_of}
use e5_linux.Cpio.{CpioError, Entry, entries}
use e5_linux.Cpio.Blocks.{BlockError, archives}
use e5_linux.Evidence
use e5_linux.Evidence.{EvidenceError, Reader, Geometry, fresh, open_evidence}
use e5_linux.Evidence.Tree.{file}
use e5_linux.Removal.{Storage}
use e5_linux.Removal.Image.{BuildError, pages}
use e5_linux.Removal.Journal.{Proof, decimal, is_digit, sectors_of}

abbrev pub markers_of : Family → List Marker
markers_of e5 =
    record {
      path = "etc/e5/part-root";
      parts = codes "etc" ∷ codes "e5" ∷ codes "part-root" ∷ [];
      kind = part_root;
    }
    ∷ record {
      path = "etc/openwrt_release";
      parts = codes "etc" ∷ codes "openwrt_release" ∷ [];
      kind = release;
    }
    ∷ []
markers_of _ =
    record {
      path = "openwrt/etc/mu300/desktop-mode";
      parts = codes "openwrt" ∷ codes "etc" ∷ codes "mu300" ∷ codes "desktop-mode" ∷ [];
      kind = mode;
    }
    ∷ record {
      path = ".mu300/boot-os";
      parts = codes ".mu300" ∷ codes "boot-os" ∷ [];
      kind = selector;
    }
    ∷ record {
      path = "openwrt/etc/openwrt_release";
      parts = codes "openwrt" ∷ codes "etc" ∷ codes "openwrt_release" ∷ [];
      kind = release;
    }
    ∷ []

-- What is asked of a marker's content on a disk.
unfoldable pub check_marker : Bytes → Kind → Bytes → Result InstalledError (Unit {0})
check_marker disk part_root value =
    raise_if
      (not (eq_bytes value (codes "e5root /dev/" ++ disk))
        && not (eq_bytes value (codes "e5root /dev/block/" ++ disk)))
      other_disk
check_marker disk release value = raise_if (not (any_distribution (lines [] value))) not_openwrt
check_marker disk mode value = raise_if (not (eq_bytes value (codes "part"))) other_marker
check_marker disk selector value =
    raise_if (not (eq_bytes value (codes "android")) && not (eq_bytes value (codes "openwrt")))
      bad_selector

-- re.fullmatch(r'mmcblk\d+p\d+', node); the kernel prints ASCII digits.
unfoldable pub skip_digits : Bytes → Bytes
skip_digits [] = []
skip_digits (c ∷ cs) = let rest = skip_digits cs in if is_digit c then rest else c ∷ cs

abbrev pub is_behind : Bytes → Bool
is_behind (p ∷ (n ∷ rest)) = p == b'p' && is_digit n && is_nil (skip_digits rest)
is_behind _ = false

unfoldable pub is_block_node : Bytes → Bool
unfolding skip_digits
is_block_node node =
    eq_bytes (take 6 node) (codes "mmcblk")
    && ltb (length (skip_digits (drop 6 node))) (length (drop 6 node))
    && is_behind (skip_digits (drop 6 node))

-- The first test, on the kernel's numbers.
unfoldable pub is_stale_root : Storage → Part → Bool
unfolding is_block_node
is_stale_root storage root =
    not (is_block_node (disk_of storage.node ++ (b'p' ∷ decimal root.n)))
    || not
        (same_option eq_bytes storage.root (some (disk_of storage.node ++ (b'p' ∷ decimal root.n))))
    || not (same_option (λ x y. x == y) storage.root_start (some root.start))
    || not (storage.root_size * 512 == sectors_of root * 512)

-- The family's test of the ramdisk.
unfoldable pub check_ram : Family → RamFiles → Result InstalledError (Unit {0})
check_ram e5 f =
    raise_if (not (contains (codes "/etc/e5/part-root") (content_or f.init))) no_e5_support
check_ram _ f =
    raise_if
      ((not (eq_bytes (strip (content_or f.root_mode)) (codes "part"))
          && not (eq_bytes (strip (content_or f.root_mode)) (codes "install-part")))
        || f.has_prepare
        || not (contains (codes "/etc/mu300-desktop-storage.sh") (content_or f.init)))
      no_mu300_route

abbrev pub is_wanted : Bytes → Bool
is_wanted name =
    eq_bytes name (codes "init")
    || eq_bytes name (codes "etc/mu300-desktop-root-mode")
    || eq_bytes name (codes "etc/mu300-desktop-identity")
    || eq_bytes name (codes "etc/mu300-desktop-prepare")

unfoldable pub keep_file : Entry → RamFiles → RamFiles
keep_file e f =
    if eq_bytes e.name (codes "init")
    then record f { init = some e.content }
    else if eq_bytes e.name (codes "etc/mu300-desktop-root-mode")
    then record f { root_mode = some e.content }
    else if eq_bytes e.name (codes "etc/mu300-desktop-prepare")
    then record f { has_prepare = true }
    else f

unfoldable pub ram_files : List Entry → RamFiles → Result InstalledError RamFiles
ram_files [] f = ok f
ram_files (e ∷ es) f =
    let skipped = ram_files es f in
    let kept = ram_files es (keep_file e f) in
    if not (is_wanted e.name) then skipped else (do
      raise_if (not (e.mode / 4096 % 16 == 8) || ltb (256 * 1024) (length e.content)) irregular_file
      kept)

abbrev pub is_other_slot : Bytes → Bytes
is_other_slot slot = if eq_bytes slot (codes "a") then codes "b" else codes "a"

-- The inner `read`: whole sectors, cut. Where dd prints too little it raises; the empty answer here
-- is an error of the reader, too.
unfoldable pub read_bytes : (ℕ → ℕ → Bytes) → ℕ → ℕ → Bytes
read_bytes dd offset size =
    let begin : ℕ = offset / 512 in
    let end : ℕ = (offset + size + 511) / 512 in
    let raw : Bytes = dd begin (end - begin) in
    if length raw == (end - begin) * 512 then slice (offset % 512) (offset % 512 + size) raw else []

-- read_boot with a backup: the bytes of the backup that a command asks for.
unfoldable pub read_backup : Bytes → ℕ → ℕ → ℕ → Bytes
read_backup backup bs skip count = slice (bs * skip) (bs * (skip + count)) backup

abbrev pub evidence_ok : {A : Type 0} → Result EvidenceError A → Result InstalledError A
evidence_ok (err e) = err (bad_file e)
evidence_ok (ok a) = ok a

abbrev pub boot_ok : {A : Type 0} → Result InspectError A → Result InstalledError A
boot_ok (err e) = err (bad_boot e)
boot_ok (ok a) = ok a

abbrev pub archives_ok : {A : Type 0} → Result BlockError A → Result InstalledError A
archives_ok (err e) = err (bad_block e)
archives_ok (ok a) = ok a

abbrev pub entries_ok : {A : Type 0} → Result CpioError A → Result InstalledError A
entries_ok (err e) = err (bad_archive e)
entries_ok (ok a) = ok a

module _ (sha256 : Bytes → Bytes) where
  -- The loop over the paths; the reader goes on from path to path.
  unfoldable pub read_markers :
      (ℕ → ℕ → Bytes)
      → Geometry
      → Bytes
      → List Marker
      → Reader
      → Result InstalledError (Dict (Option Bytes))
  read_markers read g disk [] s = ok []
  read_markers read g disk (m ∷ ms) s = do
    let answer = file read g m.parts s
    content ← evidence_ok answer.0
    let value = strip content
    check_marker disk m.kind value
    rest ← read_markers read g disk ms answer.1
    ok ((m.path, some (sha256 value)) ∷ rest)

  module _ (decompress : Bytes → Option Bytes) (parse_hex : Bytes → Option ℕ)
      (is_utf8 : Bytes → Bool) where
    unfoldable pub ram_of : List Bytes → RamFiles → Result InstalledError RamFiles
    ram_of [] f = ok f
    ram_of (archive ∷ more) f = do
      es ← entries_ok (entries parse_hex is_utf8 archive)
      f' ← ram_files es f
      ram_of more f'

    -- `boot` is adb.read on the other slot's boot partition, or read_backup of the given backup, for a
    -- block size, blocks to skip and blocks to read; `boot_size` the size of either.
    unfoldable pub inspect_installation :
        Family
        → Storage
        → Part
        → Bool
        → Bool
        → ℕ
        → (ℕ → ℕ → ℕ → Bytes)
        → (ℕ → ℕ → Bytes)
        → Result InstalledError Proof
    inspect_installation family storage root idle slot_ok boot_size boot dd = do
      raise_if (is_stale_root storage root) stale_node
      raise_if (not idle) busy
      installed ← boot_ok (
          inspect_linux_boot sha256 (boot 512 0 8) (boot 512 (boot_size / 512 - 1) 1) boot_size
            family slot_ok)
      let start = 4096 + pages installed.kernel_bytes
      let size = installed.ramdisk_bytes
      let blocks = (size + 4095) / 4096
      let ram = boot 4096 (start / 4096) blocks
      raise_if (not (length ram == blocks * 4096)) incomplete_ramdisk
      found ← archives_ok (archives (λ bs. bs) decompress (take size ram))
      files ← ram_of found (record { init = none; root_mode = none; has_prepare = false })
      check_ram family files
      let read = read_bytes dd
      let opened = open_evidence read (sectors_of root * 512) (fresh (sectors_of root * 512))
      g ← evidence_ok opened.0
      markers ← read_markers read g (disk_of storage.node) (markers_of family) opened.1
      ok (record {
        version = 1;
        boot_header = some installed.header_sha256;
        ramdisk = some (sha256 (take size ram));
        superblock = some (sha256 (read 1024 1024));
        markers = markers;
      })
