-- ===== src/Removal/Installed/Proven.antt =====
-- The evidence of inspect_installation is evidence to validate_snapshots.
use e5_linux.Base.{
  ℕ, ◌+◌, ◌*◌, ◌/◌, ◌-◌, ◌≡◌, refl, sym, ap, subst, Bool, true, false, ◌&&◌, not, ◌==◌, Option,
  none, some, List, [], ◌∷◌, length, take,
}
use e5_linux.Base.Text.{String}
use e5_linux.Base.Bytes.{Bytes, le_at}
use e5_linux.Base.Result.{Result, ok, err, >>=-eq-ok, raise_if-eq-ok, ok-injective}
use e5_linux.Base.Assoc.{Dict, contains}
use e5_linux.Gpt.{Part}
use e5_linux.BootImage.{
  Family, e5, mu300, other, InspectError, Installed, inspect_linux_boot, is_known, is_recognized,
  any_starts, has_word, part_prepare, uninstall_option,
}
use e5_linux.BootImage.Inspect.{command_of}
use e5_linux.TwoStage.{disk_of}
use e5_linux.Evidence.{Reader, Geometry, fresh, open_evidence}
use e5_linux.Evidence.Tree.{file}
use e5_linux.Cpio.Blocks.{archives}
use e5_linux.Removal.{Storage}
use e5_linux.Removal.Image.{pages}
use e5_linux.Removal.Journal.{
  Proof, sectors_of, evidence_paths, all_in, keys_of, is_hash, all_hashes, is_proof,
}
use e5_linux.Removal.Installed.{
  stale_node, busy, incomplete_ramdisk, RamFiles, Marker, strip, markers_of, check_marker,
  is_stale_root, check_ram, read_bytes, evidence_ok, boot_ok, archives_ok, read_markers, ram_of,
  inspect_installation,
}

-- The paths of a list of markers.
abbrev paths_of : List Marker → List String
paths_of [] = []
paths_of (m ∷ ms) = m.path ∷ paths_of ms

and_true : (a b : Bool) → a ≡ true → b ≡ true → (a && b) ≡ true
and_true true b h k = k
and_true false b h k = cc

module _ (sha256 : Bytes → Bytes) (hashes : (x : Bytes) → is_hash (some (sha256 x)) ≡ true) where
  header_hashed :
      (header tail : Bytes) (size : ℕ) (family : Family) (slot_ok : Bool) (info : Installed)
      → inspect_linux_boot sha256 header tail size family slot_ok ≡ ok info
      → info.header_sha256 ≡ sha256 header
  unfolding inspect_linux_boot
  header_hashed header tail size family slot_ok info e =
      let command : List Bytes = command_of header in
      let (t1, h1) =
        raise_if-eq-ok (not (is_known family && slot_ok)) InspectError.unsupported _ e in
      let (t2, h2) = raise_if-eq-ok _ InspectError.bad_partition_size _ h1 in
      let (t3, h3) = raise_if-eq-ok _ InspectError.incomplete_header _ h2 in
      let (t4, h4) = raise_if-eq-ok _ InspectError.unsupported_format _ h3 in
      let (t5, h5) = raise_if-eq-ok _ InspectError.bad_command _ h4 in
      let (t6, h6) = raise_if-eq-ok _ InspectError.bad_command _ h5 in
      let (t7, h7) =
        raise_if-eq-ok (not (is_recognized family command)) InspectError.not_recognized _ h6 in
      let (t8, h8) =
        raise_if-eq-ok (any_starts part_prepare command) InspectError.preparation_pending _ h7 in
      let (t9, h9) =
        raise_if-eq-ok (has_word uninstall_option command) InspectError.uninstall_pending _ h8 in
      let (t10, h10) = raise_if-eq-ok _ InspectError.no_footer _ h9 in
      let (t11, h11) = raise_if-eq-ok _ InspectError.bad_bounds _ h10 in
      let made : Installed = record {
        header_version = le_at 4 40 header;
        kernel_bytes = le_at 4 8 header;
        ramdisk_bytes = le_at 4 12 header;
        header_sha256 = sha256 header;
      } in
      sym (ap (λ (i : Installed). i.header_sha256) (ok-injective made info h11))

  read_markers-All :
      (read : ℕ → ℕ → Bytes) (g : Geometry) (disk : Bytes) (ms : List Marker) (s : Reader)
      (d : Dict (Option Bytes))
      → read_markers sha256 read g disk ms s ≡ ok d
      → (keys_of d ≡ paths_of ms) × (all_hashes d ≡ true)
  unfolding read_markers all_hashes
  read_markers-All read g disk [] s d e = rw (← ok-injective [] d e) (refl, refl)
  read_markers-All read g disk (m ∷ ms) s d e =
      let (content, given, e1) = >>=-eq-ok (evidence_ok (file read g m.parts s).0) _ e in
      let (u, checked, e2) = >>=-eq-ok (check_marker disk m.kind (strip content)) _ e1 in
      let (rest, more, e3) =
        >>=-eq-ok (read_markers sha256 read g disk ms (file read g m.parts s).1) _ e2 in
      let (keys, hashed) = read_markers-All read g disk ms (file read g m.parts s).1 rest more in
      subst
        (λ (x : Dict (Option Bytes)). (keys_of x ≡ m.path ∷ paths_of ms) × (all_hashes x ≡ true))
        (ok-injective _ d e3)
        (
          ap (λ (x : List String). m.path ∷ x) keys,
          and_true (is_hash (some (sha256 (strip content)))) (all_hashes rest)
              (hashes (strip content)) hashed,
        )

  same_paths :
      (family : Family)
      → (all_in (paths_of (markers_of family)) (evidence_paths family) ≡ true)
        × (all_in (evidence_paths family) (paths_of (markers_of family)) ≡ true)
  unfolding all_in contains
  same_paths e5 = (refl, refl)
  same_paths mu300 = (refl, refl)
  same_paths other = (refl, refl)

  proof-is_proof :
      (family : Family) (p : Proof)
      → p.version ≡ 1
      → keys_of p.markers ≡ paths_of (markers_of family)
      → is_hash p.boot_header ≡ true
      → is_hash p.ramdisk ≡ true
      → is_hash p.superblock ≡ true
      → all_hashes p.markers ≡ true
      → is_proof family (some p) ≡ true
  unfolding is_proof
  proof-is_proof family p one keys a b c d =
      let (there, back) = same_paths family in rw (one, keys, there, back, a, b, c, d) refl

  boot_ok-eq-ok : (r : Result InspectError Installed) (a : Installed) → boot_ok r ≡ ok a → r ≡ ok a
  boot_ok-eq-ok (err x) a h = cc
  boot_ok-eq-ok (ok b) a h = cc

  -- The evidence that inspect_installation returns passes the tests of validate_snapshots, so a
  -- journal with it is not refused for want of evidence: its version is 1, its paths are the
  -- family's, and every hash is one. The hash function prints 64 hexadecimal digits.
  inspect_installation-is_proof :
      (decompress : Bytes → Option Bytes) (parse_hex : Bytes → Option ℕ) (is_utf8 : Bytes → Bool)
      (family : Family) (storage : Storage) (root : Part) (idle slot_ok : Bool) (boot_size : ℕ)
      (boot : ℕ → ℕ → ℕ → Bytes) (dd : ℕ → ℕ → Bytes) (p : Proof)
      → inspect_installation sha256 decompress parse_hex is_utf8 family storage root idle slot_ok
          boot_size boot dd
        ≡ ok p
      → is_proof family (some p) ≡ true
  unfolding inspect_installation
  inspect_installation-is_proof decompress parse_hex is_utf8 family storage root idle slot_ok
        boot_size boot dd p e =
      let (fresh_root, e1) = raise_if-eq-ok (is_stale_root storage root) stale_node _ e in
      let (free, e2) = raise_if-eq-ok (not idle) busy _ e1 in
      let (installed, started, e3) =
        >>=-eq-ok
          (boot_ok (
            inspect_linux_boot sha256 (boot 512 0 8) (boot 512 (boot_size / 512 - 1) 1) boot_size
              family slot_ok))
          _ e2 in
      let size : ℕ = installed.ramdisk_bytes in
      let blocks : ℕ = (size + 4095) / 4096 in
      let ram : Bytes = boot 4096 ((4096 + pages installed.kernel_bytes) / 4096) blocks in
      let (whole, e4) =
        raise_if-eq-ok (not (length ram == blocks * 4096)) incomplete_ramdisk _ e3 in
      let (found, unpacked, after_archives) =
        >>=-eq-ok (archives_ok (archives (λ bs. bs) decompress (take size ram))) _ e4 in
      let none_yet : RamFiles = record { init = none; root_mode = none; has_prepare = false } in
      let (files, kept, e6) =
        >>=-eq-ok (ram_of sha256 decompress parse_hex is_utf8 found none_yet) _ after_archives in
      let (u, routed, e7) = >>=-eq-ok (check_ram family files) _ e6 in
      let read = read_bytes dd in
      let capacity : ℕ = sectors_of root * 512 in
      let (g, opened, e8) =
        >>=-eq-ok (evidence_ok (open_evidence read capacity (fresh capacity)).0) _ e7 in
      let (markers, marked, e9) =
        >>=-eq-ok
          (read_markers sha256 read g (disk_of storage.node) (markers_of family)
            (open_evidence read capacity (fresh capacity)).1)
          _ e8 in
      let (keys, hashed) =
        read_markers-All read g (disk_of storage.node) (markers_of family)
          (open_evidence read capacity (fresh capacity)).1 markers marked in
      let header =
        header_hashed (boot 512 0 8) (boot 512 (boot_size / 512 - 1) 1) boot_size family slot_ok
          installed (boot_ok-eq-ok _ installed started) in
      subst (λ (x : Proof). is_proof family (some x) ≡ true) (ok-injective _ p e9)
        (proof-is_proof family _ refl keys
          (subst (λ (h : Bytes). is_hash (some h) ≡ true) (sym header) (hashes (boot 512 0 8)))
          (hashes (take size ram)) (hashes (read 1024 1024)) hashed)
