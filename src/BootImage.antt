-- ===== src/BootImage.antt =====
-- Installed boot images: inspect_linux_boot of installer/backend/boot_image.py, which accepts one,
-- and boot_command of openwrt/bundle/part-two-stage.py, which marks one for the next stage of an
-- installation. What the two `dd` commands print is an argument, and the SHA-256 a parameter.
pub mod Words
pub mod Inspect
pub mod Mark
mod Examples
use e5_linux.Base.{
  ℕ, zero, suc, ◌+◌, ◌-◌, ◌*◌, ◌/◌, ◌%◌, Bool, true, false, ◌&&◌, ◌||◌, not, ◌==◌, ltb, leb,
  if◌then◌else◌, List, [], ◌∷◌, ◌++◌, length, take, drop, replicate,
}
use e5_linux.Base.Bytes.{Bytes, slice, eq_bytes, le_at, be_at}
use e5_linux.Base.Result.{Result, ok, err, ◌>>=◌, ◌>>◌, raise_if}
use e5_linux.Gpt.{before_nul, splice}

-- The argument `family`: `other` is any text but "e5" and "mu300"; and whether `slot` is a or b.
pub data Family : Type 0 where
  e5 mu300 other : Family

-- The `raise ValueError` lines of inspect_linux_boot, in order.
pub data InspectError : Type 0 where
  unsupported bad_partition_size incomplete_header unsupported_format bad_command : InspectError
  not_recognized preparation_pending uninstall_pending no_footer bad_bounds : InspectError

-- How boot_command ends early; `truncated` is struct.error, `not_ascii` a codec's error.
pub data MarkError : Type 0 where
  not_version_four truncated not_ascii no_installer already_marked no_space : MarkError

pub record Installed : Type 0 where
  pub header_version : ℕ
  pub kernel_bytes : ℕ
  pub ramdisk_bytes : ℕ
  pub header_sha256 : Bytes

abbrev pub android : Bytes
android = b'A' ∷ b'N' ∷ b'D' ∷ b'R' ∷ b'O' ∷ b'I' ∷ b'D' ∷ b'!' ∷ []

abbrev pub avb_footer : Bytes
avb_footer = b'A' ∷ b'V' ∷ b'B' ∷ b'f' ∷ []

-- 'e5.'
abbrev pub e5_prefix : Bytes
e5_prefix = b'e' ∷ b'5' ∷ b'.' ∷ []

-- 'e5.part_v=2'
abbrev pub part_version : Bytes
part_version = b'e' ∷ b'5' ∷ b'.' ∷ b'p' ∷ b'a' ∷ b'r' ∷ b't' ∷ b'_' ∷ b'v' ∷ b'=' ∷ b'2' ∷ []

-- 'e5.part_prepare='
abbrev pub part_prepare : Bytes
part_prepare =
    b'e' ∷ b'5' ∷ b'.' ∷ b'p' ∷ b'a' ∷ b'r' ∷ b't' ∷ b'_' ∷ b'p' ∷ b'r' ∷ b'e' ∷ b'p' ∷ b'a' ∷ b'r'
    ∷ b'e' ∷ b'=' ∷ []

-- 'e5.root='
abbrev pub root_option : Bytes
root_option = b'e' ∷ b'5' ∷ b'.' ∷ b'r' ∷ b'o' ∷ b'o' ∷ b't' ∷ b'=' ∷ []

-- 'loglevel=5'
abbrev pub log_level : Bytes
log_level = b'l' ∷ b'o' ∷ b'g' ∷ b'l' ∷ b'e' ∷ b'v' ∷ b'e' ∷ b'l' ∷ b'=' ∷ b'5' ∷ []

-- 'openwrt.uninstall=1'
abbrev pub uninstall_option : Bytes
uninstall_option =
    b'o' ∷ b'p' ∷ b'e' ∷ b'n' ∷ b'w' ∷ b'r' ∷ b't' ∷ b'.' ∷ b'u' ∷ b'n' ∷ b'i' ∷ b'n' ∷ b's' ∷ b't'
    ∷ b'a' ∷ b'l' ∷ b'l' ∷ b'=' ∷ b'1' ∷ []

-- str.split() on ASCII text: the blanks are 9 to 13, 28 to 31 and 32.
abbrev pub is_space : ℕ → Bool
is_space c = (leb 9 c && leb c 13) || (leb 28 c && leb c 32)

unfoldable pub emit : Bytes → List Bytes → List Bytes
emit [] rest = rest
emit (c ∷ cs) rest = (c ∷ cs) ∷ rest

unfoldable pub split_from : Bytes → Bytes → List Bytes
unfolding emit
split_from word [] = emit word []
split_from word (c ∷ cs) =
    let ended = emit word (split_from [] cs) in
    let longer = split_from (word ++ (c ∷ [])) cs in if is_space c then ended else longer

unfoldable pub words : Bytes → List Bytes
words text = split_from [] text

-- `word in command`, and `any(item.startswith(prefix) for item in command)`
unfoldable pub has_word : Bytes → List Bytes → Bool
has_word word [] = false
has_word word (x ∷ xs) = eq_bytes x word || has_word word xs

abbrev pub starts_with : Bytes → Bytes → Bool
starts_with prefix word = eq_bytes (take (length prefix) word) prefix

unfoldable pub any_starts : Bytes → List Bytes → Bool
any_starts prefix [] = false
any_starts prefix (x ∷ xs) = starts_with prefix x || any_starts prefix xs

-- `b'\0' in raw`, and `.decode('ascii')` raises nothing.
unfoldable pub has_nul : Bytes → Bool
has_nul [] = false
has_nul (c ∷ cs) = c == 0 || has_nul cs

unfoldable pub is_ascii : Bytes → Bool
is_ascii [] = true
is_ascii (c ∷ cs) = ltb c 128 && is_ascii cs

abbrev pub is_known : Family → Bool
is_known other = false
is_known _ = true

-- `(56 if family == 'e5' else 48) << 20`
abbrev pub limit_of : Family → ℕ
limit_of e5 = 56 * 0x100000
limit_of _ = 48 * 0x100000

unfoldable pub is_recognized : Family → List Bytes → Bool
is_recognized e5 command = has_word part_version command
is_recognized _ command = has_word log_level command && not (any_starts e5_prefix command)

-- The end of the payload: the header's page, then kernel and ramdisk in whole pages.
abbrev pub payload_end : ℕ → ℕ → ℕ
payload_end kernel ramdisk = 4096 + (kernel + 4095) / 4096 * 4096 + (ramdisk + 4095) / 4096 * 4096

module _ (sha256 : Bytes → Bytes) where
  -- `slot_ok` is the test of the slot's name.
  unfoldable pub inspect_linux_boot :
      Bytes → Bytes → ℕ → Family → Bool → Result InspectError Installed
  inspect_linux_boot header tail size family slot_ok = do
    raise_if (not (is_known family && slot_ok)) unsupported
    let limit = limit_of family
    raise_if (ltb size limit || not (size % 512 == 0)) bad_partition_size
    raise_if
        (not (length header == 4096)
          || not (length tail == 512)
          || not (eq_bytes (take 8 header) android))
        incomplete_header
    let kernel = le_at 4 8 header
    let ramdisk = le_at 4 12 header
    let header_size = le_at 4 20 header
    let version = le_at 4 40 header
    raise_if (not (version == 4) || not (header_size == 1584) || kernel == 0 || ramdisk == 0)
        unsupported_format
    let raw = slice 44 1580 header
    raise_if (not (has_nul raw)) bad_command
    raise_if (not (is_ascii (before_nul raw))) bad_command
    let command = words (before_nul raw)
    raise_if (not (is_recognized family command)) not_recognized
    raise_if (any_starts part_prepare command) preparation_pending
    raise_if (has_word uninstall_option command) uninstall_pending
    let end = payload_end kernel ramdisk
    let footer = drop 448 tail
    raise_if (not (eq_bytes (take 4 footer) avb_footer)) no_footer
    let original = be_at 8 12 footer
    let offset = be_at 8 20 footer
    let bytes = be_at 8 28 footer
    raise_if
        (not (original == end)
          || not (offset == end)
          || bytes == 0
          || ltb limit (offset + bytes)
          || ltb size (offset + bytes + 64))
        bad_bounds
    ok (record {
      header_version = version;
      kernel_bytes = kernel;
      ramdisk_bytes = ramdisk;
      header_sha256 = sha256 header;
    })

-- `updated.ljust(1536, b'\0')`
abbrev pub ljust : ℕ → Bytes → Bytes
ljust n xs = xs ++ replicate (n - length xs) 0

unfoldable pub boot_command : Bytes → Bytes → Result MarkError Bytes
boot_command image option = do
  raise_if (not (eq_bytes (take 8 image) android)) not_version_four
  raise_if (ltb (length image) 44) truncated
  raise_if (not (le_at 4 40 image == 4)) not_version_four
  let command = before_nul (slice 44 1580 image)
  raise_if (not (is_ascii command)) not_ascii
  raise_if (not (has_word part_version (words command))) no_installer
  raise_if (any_starts part_prepare (words command) || any_starts root_option (words command))
      already_marked
  let updated = command ++ (32 ∷ option)
  raise_if (not (is_ascii updated)) not_ascii
  raise_if (leb 1536 (length updated)) no_space
  ok (splice 44 1580 (ljust 1536 updated) image)
