-- ===== src/Removal/Image.antt =====
-- The boot image of a removal: build of installer/backend/uninstall_boot.py, with the directories of
-- its overlay. Texts are their UTF-8 bytes; the script of the worker is an argument, and lz4, `int` of
-- hexadecimal digits and the test for UTF-8 are parameters, as for the archive.
mod Files
pub mod Pending
mod Examples
unfoldable pub use Files.*
use e5_linux.Base.{
  ℕ, zero, suc, ◌+◌, ◌-◌, ◌*◌, ◌/◌, ◌%◌, ◌^◌, Bool, true, false, ◌&&◌, ◌||◌, not, ◌==◌, ltb, leb,
  if◌then◌else◌, Option, none, some, List, [], ◌∷◌, ◌++◌, map, length, take, drop, replicate,
}
use e5_linux.Base.Text.{codes}
use e5_linux.Base.Bytes.{Bytes, slice, eq_bytes, le_at, be_at, le_bytes, put_at}
use e5_linux.Base.Result.{Result, ok, err, ◌>>=◌, ◌>>◌, raise_if, or_raise}
use e5_linux.Gpt.{is_nil, before_nul, splice}
use e5_linux.BootImage.{
  Family, e5, mu300, other, is_known, android, avb_footer, uninstall_option, limit_of, starts_with,
  ljust,
}
use e5_linux.Cpio.{CpioError, Entry, entries}
use e5_linux.Cpio.Blocks.{BlockError, archives, overlay_of}

-- `init.find(text)`, and `init.count(text)`, which skips what it has counted.
unfoldable pub index_of : Bytes → Bytes → Option ℕ
index_of text [] = if is_nil text then some 0 else none
index_of text (c ∷ cs) =
    let later = index_of text cs in
    if starts_with text (c ∷ cs) then some 0 else elim later [ none ↦ none | some n ↦ some (suc n) ]

unfoldable pub count : Bytes → Bytes → ℕ → ℕ
count text [] skip = 0
count text (c ∷ cs) (suc skip) = count text cs skip
count text (c ∷ cs) zero =
    let counted = count text cs (length text - 1) in
    let more = count text cs 0 in if starts_with text (c ∷ cs) then 1 + counted else more

-- `.replace('\r\n', '\n')`
unfoldable pub unix_lines : Bytes → Bytes
unix_lines [] = []
unix_lines (c ∷ cs) =
    let rest = unix_lines cs in if c == 13 && starts_with (10 ∷ []) cs then rest else c ∷ rest

-- `struct.pack('>Q', v)` in `k` bytes
unfoldable pub be_bytes : ℕ → ℕ → Bytes
be_bytes zero v = []
be_bytes (suc k) v = be_bytes k (v / 256) ++ (v % 256 ∷ [])

abbrev pub pages : ℕ → ℕ
pages n = (n + 4095) / 4096 * 4096

abbrev pub image_size : ℕ
image_size = 64 * 0x100000

-- '\ntf_update_probe\n' and '\nROOT_OFFSET='
abbrev pub anchor_of : Family → Bytes
anchor_of e5 = 10 ∷ (codes "tf_update_probe" ++ (10 ∷ []))
anchor_of _ = 10 ∷ codes "ROOT_OFFSET="

abbrev pub hook_of : Family → Bytes
hook_of family =
    (10 ∷ (codes "touch /run/stay" ++ (10 ∷ [])))
    ++ (usb family ++ (codes "exec /bin/busybox sh /openwrt-uninstall/worker.sh" ++ (10 ∷ [])))
  where
    usb : Family → Bytes
    usb mu300 = codes "setup_usb_gadget" ++ (10 ∷ [])
    usb _ = []

-- The script with `persist` emptied, cut at the anchor, and the hook behind it.
unfoldable pub hooked : Family → Bytes → Result BuildError Bytes
hooked family init = do
  raise_if (not (count (anchor_of family) init 0 == 1)) no_hook
  begin ← or_raise (index_of (codes "persist() {") init) no_persist
  end ← or_raise (index_of (10 ∷ (b'}' ∷ (10 ∷ []))) (drop begin init)) no_persist
  let quiet = take begin init ++ (codes "persist() { :; }" ++ drop (begin + end + 2) init)
  at ← or_raise (index_of (anchor_of family) quiet) no_hook
  ok (take at quiet ++ hook_of family)

-- The header of the new image.
unfoldable pub pending_header : Bytes → ℕ → Bytes → Bytes
pending_header base size command =
    splice 44 1580 (ljust 1536 command) (put_at 12 (le_bytes 4 size) (take 4096 base))

-- The kernel and the ramdisk behind it, in whole pages; and the last 64 bytes.
unfoldable pub body_of : Bytes → Bytes → ℕ → Bytes → Bytes
body_of header base start ram =
    let body : Bytes = header ++ (slice 4096 start base ++ ram) in ljust (pages (length body)) body

unfoldable pub footer_of : Bytes → ℕ → ℕ → Bytes
footer_of base offset size =
    put_at 12 (be_bytes 8 offset ++ (be_bytes 8 offset ++ be_bytes 8 size))
      (drop (length base - 64) base)

-- From the new ramdisk on.
unfoldable pub assemble : Bytes → Family → ℕ → ℕ → ℕ → Bytes → Result BuildError Bytes
assemble base family start avb avb_size ram = do
  raise_if (leb (2 ^ 32) (length ram)) too_long
  let command = before_nul (slice 44 1580 base) ++ (32 ∷ uninstall_option)
  raise_if (leb 1536 (length command)) no_room
  let body = body_of (pending_header base (length ram) command) base start ram
  let whole = body ++ slice avb (avb + avb_size) base
  raise_if (ltb (limit_of family) (length whole)) overlaps
  ok (ljust (length base - 64) whole ++ footer_of base (length body) avb_size)

module _ (compress : Bytes → Bytes) (decompress : Bytes → Option Bytes)
    (parse_hex : Bytes → Option ℕ) (is_utf8 : Bytes → Bool) where
  unfoldable pub overlay : FileSet → Bytes
  overlay files =
      overlay_of compress decompress
        (map directory_entry (directories files) ++ map file_entry files)

  -- The loop over the entries of one archive; the last `init` counts.
  unfoldable pub init_in : List Entry → Option Bytes → Result BuildError (Option Bytes)
  init_in [] found = ok found
  init_in (e ∷ es) found =
      let rest = init_in es found in
      let replaced = init_in es (some (unix_lines e.content)) in
      if not (eq_bytes e.name (codes "init")) then rest else (do
        raise_if (not (e.mode / 4096 % 16 == 8)) irregular_init
        raise_if (not (is_utf8 e.content)) not_utf8
        replaced)

  unfoldable pub read_archive : Bytes → Result BuildError (List Entry)
  read_archive archive = elim (entries parse_hex is_utf8 archive) [
    | err e ↦ err (bad_archive e)
    | ok es ↦ ok es
  ]

  unfoldable pub init_of : List Bytes → Option Bytes → Result BuildError (Option Bytes)
  init_of [] found = ok found
  init_of (archive ∷ more) found = do
    es ← read_archive archive
    found' ← init_in es found
    init_of more found'

  unfoldable pub unpack : Bytes → Result BuildError (List Bytes)
  unpack ram = elim (archives compress decompress ram) [
    | err e ↦ err (bad_block e)
    | ok found ↦ ok found
  ]

  unfoldable pub build : Bytes → Bytes → Family → FileSet → Result BuildError Bytes
  build worker base family files = do
    raise_if
        (not (is_known family)
          || not (length base == image_size)
          || not (eq_bytes (take 8 base) android)
          || not (le_at 4 40 base == 4)
          || not (eq_bytes (slice (length base - 64) (length base - 60) base) avb_footer))
        not_verified
    let kernel = le_at 4 8 base
    let size = le_at 4 12 base
    let start = 4096 + pages kernel
    let original = be_at 8 (length base - 52) base
    let avb = be_at 8 (length base - 44) base
    let avb_size = be_at 8 (length base - 36) base
    raise_if
        (kernel == 0
          || size == 0
          || ltb avb (start + size)
          || ltb (limit_of family) (avb + avb_size)
          || not (original == avb))
        bad_bounds
    found ← unpack (slice start (start + size) base)
    packaged ← init_of found none
    init ← or_raise packaged no_init
    raise_if (not (starts_with (codes "#!") init)) no_init
    script ← hooked family init
    let all =
        put_file (codes "openwrt-uninstall/worker.sh") worker
          (put_files files ((codes "init", script) ∷ []))
    assemble base family start avb avb_size (slice start (start + size) base ++ overlay all)
