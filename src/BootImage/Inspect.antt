-- ===== src/BootImage/Inspect.antt =====
-- What inspect_linux_boot of installer/backend/boot_image.py has checked of an image it accepts.
use e5_linux.Base.{
  ℕ, ◌+◌, ◌%◌, ◌≤◌, ◌≡◌, ◌≢◌, refl, Bool, true, false, ◌&&◌, ◌||◌, not, ◌==◌, ltb, List, drop,
  arith, true_of_not, subst,
}
use e5_linux.Base.Bytes.{Bytes, slice, eq_bytes, le_at, be_at}
use e5_linux.Base.Result.{ok, raise_if-eq-ok, ok-injective}
use e5_linux.Gpt.{before_nul}
use e5_linux.BootImage.{
  Family, e5, mu300, unsupported, bad_partition_size, incomplete_header, unsupported_format,
  bad_command, not_recognized, preparation_pending, uninstall_pending, no_footer, bad_bounds,
  Installed, e5_prefix, part_version, part_prepare, uninstall_option, words, has_word, any_starts,
  is_known, limit_of, is_recognized, payload_end, inspect_linux_boot,
}
use e5_linux.BootImage.Words.{any_starts_of_has_word}

-- The words of the header's command line.
abbrev pub command_of : Bytes → List Bytes
command_of header = words (before_nul (slice 44 1580 header))

abbrev pub vbmeta_at : Bytes → ℕ
vbmeta_at tail = be_at 8 20 (drop 448 tail)

abbrev pub vbmeta_bytes : Bytes → ℕ
vbmeta_bytes tail = be_at 8 28 (drop 448 tail)

-- An image that the family's installer may start.
pub record IsInstalled (header tail : Bytes) (size : ℕ) (family : Family) (info : Installed)
    : Type 0 where
  pub version : info.header_version ≡ 4
  pub kernel : (info.kernel_bytes ≡ le_at 4 8 header) × (info.kernel_bytes ≢ 0)
  pub ramdisk : (info.ramdisk_bytes ≡ le_at 4 12 header) × (info.ramdisk_bytes ≢ 0)
  pub recognized : is_recognized family (command_of header) ≡ true
  pub not_preparing : any_starts part_prepare (command_of header) ≡ false
  pub not_uninstalling : has_word uninstall_option (command_of header) ≡ false
  pub behind : vbmeta_at tail ≡ payload_end info.kernel_bytes info.ramdisk_bytes
  pub present : vbmeta_bytes tail ≢ 0
  pub within_limit : vbmeta_at tail + vbmeta_bytes tail ≤ limit_of family
  pub within_slot : vbmeta_at tail + vbmeta_bytes tail + 64 ≤ size
  pub slot_size : (limit_of family ≤ size) × (size % 512 ≡ 0)

size_of_test :
    (limit size : ℕ)
    → (ltb size limit || not (size % 512 == 0)) ≡ false
    → (limit ≤ size) × (size % 512 ≡ 0)
size_of_test limit size e = ground arith

format_of_test :
    (version header_size kernel ramdisk : ℕ)
    → (not (version == 4) || not (header_size == 1584) || kernel == 0 || ramdisk == 0) ≡ false
    → (version ≡ 4) × (kernel ≢ 0) × (ramdisk ≢ 0)
format_of_test version header_size kernel ramdisk e = ground arith

bounds_of_test :
    (original end offset bytes limit size : ℕ)
    → (not (original == end)
        || not (offset == end)
        || bytes == 0
        || ltb limit (offset + bytes)
        || ltb size (offset + bytes + 64))
      ≡ false
    → (offset ≡ end) × (bytes ≢ 0) × (offset + bytes ≤ limit) × (offset + bytes + 64 ≤ size)
bounds_of_test original end offset bytes limit size e = ground arith

module _ (sha256 : Bytes → Bytes) where
  -- An image that is accepted has a version 4 header with a kernel and a ramdisk, the family's
  -- command line without a pending preparation or removal, and its vbmeta right behind the payload,
  -- inside the family's limit and in front of the footer of the slot.
  pub inspect_linux_boot-IsInstalled :
      (header tail : Bytes) (size : ℕ) (family : Family) (slot_ok : Bool) (info : Installed)
      → inspect_linux_boot sha256 header tail size family slot_ok ≡ ok info
      → IsInstalled header tail size family info
  unfolding inspect_linux_boot
  inspect_linux_boot-IsInstalled header tail size family slot_ok info e =
      let command : List Bytes = command_of header in
      let (known, h1) = raise_if-eq-ok (not (is_known family && slot_ok)) unsupported _ e in
      let (sized, h2) = raise_if-eq-ok _ bad_partition_size _ h1 in
      let (whole, h3) = raise_if-eq-ok _ incomplete_header _ h2 in
      let (format, h4) = raise_if-eq-ok _ unsupported_format _ h3 in
      let (nul, h5) = raise_if-eq-ok _ bad_command _ h4 in
      let (ascii, h6) = raise_if-eq-ok _ bad_command _ h5 in
      let (seen, h7) = raise_if-eq-ok (not (is_recognized family command)) not_recognized _ h6 in
      let (idle, h8) = raise_if-eq-ok (any_starts part_prepare command) preparation_pending _ h7 in
      let (stays, h9) = raise_if-eq-ok (has_word uninstall_option command) uninstall_pending _ h8 in
      let (footer, h10) = raise_if-eq-ok _ no_footer _ h9 in
      let (bounds, h11) = raise_if-eq-ok _ bad_bounds _ h10 in
      let (version, kernel, ramdisk) = format_of_test _ _ _ _ format in
      let (behind, there, limit, slot) = bounds_of_test _ _ _ _ _ _ bounds in
      let same : record {
        header_version = le_at 4 40 header;
        kernel_bytes = le_at 4 8 header;
        ramdisk_bytes = le_at 4 12 header;
        header_sha256 = sha256 header;
      }
          ≡ info =
        ok-injective _ info h11 in
      subst (IsInstalled header tail size family) same (record {
        version = version;
        kernel = (refl, kernel);
        ramdisk = (refl, ramdisk);
        recognized = true_of_not _ seen;
        not_preparing = idle;
        not_uninstalling = stays;
        behind = behind;
        present = there;
        within_limit = limit;
        within_slot = slot;
        slot_size = size_of_test _ _ sized;
      })

  -- No header is accepted as an image of both families, wherever it lies.
  inspect_linux_boot_exclusive :
      (header tail tail' : Bytes) (size size' : ℕ) (slot_ok slot_ok' : Bool)
      (info info' : Installed)
      → inspect_linux_boot sha256 header tail size e5 slot_ok ≡ ok info
      → inspect_linux_boot sha256 header tail' size' mu300 slot_ok' ≢ ok info'
  unfolding eq_bytes has_word is_recognized
  inspect_linux_boot_exclusive header tail tail' size size' slot_ok slot_ok' info info' e e' =
      let one : IsInstalled header tail size e5 info =
        inspect_linux_boot-IsInstalled header tail size e5 slot_ok info e in
      let two : IsInstalled header tail' size' mu300 info' =
        inspect_linux_boot-IsInstalled header tail' size' mu300 slot_ok' info' e' in
      both (command_of header) one.recognized two.recognized
    where
      both : (ws : List Bytes) → is_recognized e5 ws ≡ true → is_recognized mu300 ws ≡ true → ⊥
      both ws h k =
          let starts : any_starts e5_prefix ws ≡ true =
            any_starts_of_has_word e5_prefix part_version ws refl h in
          ground (arith)
