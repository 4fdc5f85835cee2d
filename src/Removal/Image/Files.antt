-- ===== src/Removal/Image/Files.antt =====
-- The files and directories of overlay in installer/backend/uninstall_boot.py.
use e5_linux.Base.{
  ℕ, ◌+◌, Bool, true, false, ◌&&◌, ◌||◌, ◌==◌, ltb, if◌then◌else◌, List, [], ◌∷◌, ◌++◌,
}
use e5_linux.Base.Text.{codes}
use e5_linux.Base.Bytes.{Bytes, eq_bytes}
use e5_linux.BootImage.{starts_with}
use e5_linux.Cpio.{CpioError, Entry}
use e5_linux.Cpio.Blocks.{BlockError}

-- The `raise ValueError` lines of build, in order, and what the calls raise; `too_long` is
-- struct.error.
pub data BuildError : Type 0 where
  not_verified bad_bounds irregular_init not_utf8 no_init no_hook no_persist no_room : BuildError
  too_long overlaps : BuildError
  bad_block : BlockError → BuildError
  bad_archive : CpioError → BuildError

-- The dictionary of files, by name.
abbrev pub FileSet : Type 0
FileSet = List (Bytes × Bytes)

unfoldable pub put_file : Bytes → Bytes → FileSet → FileSet
put_file name content [] = (name, content) ∷ []
put_file name content ((n, c) ∷ files) =
    if eq_bytes n name then (n, content) ∷ files else (n, c) ∷ put_file name content files

unfoldable pub put_files : FileSet → FileSet → FileSet
put_files [] into = into
put_files ((name, content) ∷ files) into = put_files files (put_file name content into)

-- `name.count('/')`, and the directories above a name: its parts before each slash.
unfoldable pub depth : Bytes → ℕ
depth [] = 0
depth (c ∷ cs) = (if c == b'/' then 1 else 0) + depth cs

unfoldable pub parents : Bytes → Bytes → List Bytes
parents before [] = []
parents before (c ∷ cs) =
    let rest = parents (before ++ (c ∷ [])) cs in if c == b'/' then before ∷ rest else rest

-- The order of the key (name.count('/'), name), and a sorted set. The bytes of UTF-8 are ordered as
-- the characters are.
unfoldable pub is_before : Bytes → Bytes → Bool
is_before [] [] = false
is_before [] (y ∷ ys) = true
is_before (x ∷ xs) [] = false
is_before (x ∷ xs) (y ∷ ys) = ltb x y || (x == y && is_before xs ys)

unfoldable pub insert_name : Bytes → List Bytes → List Bytes
unfolding depth is_before
insert_name name [] = name ∷ []
insert_name name (n ∷ names) =
    if eq_bytes n name
    then n ∷ names
    else if ltb (depth name) (depth n) || (depth name == depth n && is_before name n)
    then name ∷ (n ∷ names)
    else n ∷ insert_name name names

unfoldable pub insert_names : List Bytes → List Bytes → List Bytes
insert_names [] into = into
insert_names (n ∷ names) into = insert_names names (insert_name n into)

unfoldable pub directories : FileSet → List Bytes
directories [] = codes "openwrt-uninstall" ∷ []
directories ((name, content) ∷ files) = insert_names (parents [] name) (directories files)

-- `stat.S_IFDIR|0o700`, and `stat.S_IFREG` with 0o755 or 0o600
abbrev pub directory_entry : Bytes → Entry
directory_entry name = record { name = name; content = []; mode = 16832 }

unfoldable pub file_entry : Bytes × Bytes → Entry
file_entry (name, content) = record {
  name = name;
  content = content;
  mode =
      if eq_bytes name (codes "init") || starts_with (codes "openwrt-uninstall/tools/") name
      then 33261
      else 33152;
}
