-- ===== src/Removal.antt =====
-- The removal of an installation: prepare, persist and the class Uninstaller of
-- installer/backend/uninstall.py, with eligible of installer/backend/uninstall_growth.py. This file
-- has their data and what reads the file system of Android (android_volume). A text is the list of
-- its code points where the source takes it apart. `int` of a text and the regular expression of
-- device-mapper names are parameters.
pub mod Journal
pub mod Image
pub mod Installed
pub mod Prepare
mod Samples
use e5_linux.Base.{
  ℕ, ◌+◌, ◌-◌, ◌*◌, ◌/◌, ◌%◌, Bool, true, false, ◌&&◌, ◌||◌, not, ◌==◌, ltb, leb, if◌then◌else◌,
  Option, none, some, List, [], ◌∷◌, ◌++◌, length, take, drop, replicate,
}
use e5_linux.Base.Text.{String}
use e5_linux.Base.Bytes.{Bytes, slice, eq_bytes, le_at}
use e5_linux.Base.Result.{Result, ok, err, ◌>>=◌, ◌>>◌, raise_if, or_raise}
use e5_linux.Capacity.{CapacityError, verify_ext4_capacity}
use e5_linux.Service.Running.{is_text}

-- plan['data_action'] and the action of the journal; `unknown` is any other value.
pub data Action : Type 0 where
  gap reset grow_ext4 grow_f2fs unknown : Action

-- volume['filesystem']; `unreadable` is 'unknown'.
pub data Filesystem : Type 0 where
  ext4 f2fs unreadable : Filesystem

-- The `raise RecoveryRequired` lines of android_volume, and the ValueErrors of int and of
-- verify_ext4_capacity.
pub data VolumeError : Type 0 where
  no_mapping incomplete bad_block_size no_filesystem capacity_differs : VolumeError
  not_a_number : VolumeError
  bad_ext4 : CapacityError → VolumeError

-- The `raise ValueError` lines of eligible; `key_missing` is the KeyError of a volume without source.
pub data EligibleError : Type 0 where
  encrypted key_missing mapped_data unsupported_identity : EligibleError

-- device['storage']: NODE, START, SIZE and DISK_SIZE, ROOT, ROOT_START and ROOT_SIZE.
pub record Storage : Type 0 where
  pub node : Bytes
  pub start : ℕ
  pub size : ℕ
  pub disk_size : ℕ
  pub root : Option Bytes
  pub root_start : Option ℕ
  pub root_size : ℕ

-- What a removal reads of a probed device.
pub record Device : Type 0 where
  pub is_ready : Bool
  pub existing : Bool
  pub cid : String
  pub slot : String
  pub profile : String
  pub storage : Storage
  pub userdata_bytes : ℕ
  pub encrypted : Option Bool
  pub encryption_state : Option String
  pub encryption_type : Option String

-- What android_volume returns; the dictionary that prepare has in its place has no source and uuid.
-- `uuid` is the text of these bytes in hexadecimal digits.
pub record Volume : Type 0 where
  pub source : Option Bytes
  pub filesystem_bytes : ℕ
  pub filesystem : Filesystem
  pub uuid : Option Bytes
  pub mapping_overhead : ℕ

-- What the three commands of android_volume print.
pub record VolumeAnswers : Type 0 where
  pub source : Bytes
  pub sectors : Bytes
  pub raw : Bytes

-- `.rsplit('/', 1)[-1]`
unfoldable pub last_part : Bytes → Bytes → Bytes
last_part word [] = word
last_part word (c ∷ cs) = last_part (if c == b'/' then [] else word ++ (c ∷ [])) cs

abbrev pub base_name : Bytes → Bytes
base_name path = last_part [] path

-- bytes.fromhex('1020f5f2'), and b'\x53\xef'
abbrev pub f2fs_magic : Bytes
f2fs_magic = 0x10 ∷ 0x20 ∷ 0xf5 ∷ 0xf2 ∷ []

abbrev pub ext4_magic : Bytes
ext4_magic = 0x53 ∷ 0xef ∷ []

abbrev pub ext4_size : Result CapacityError ℕ → Result VolumeError (ℕ × Filesystem)
ext4_size (err e) = err (bad_ext4 e)
ext4_size (ok size) = ok (size, ext4)

-- The branches on the superblock.
unfoldable pub measure : Bytes → Result VolumeError (ℕ × Filesystem)
measure raw =
    if eq_bytes (slice 56 58 raw) ext4_magic
    then ext4_size (verify_ext4_capacity raw (some 0))
    else if eq_bytes (take 4 raw) f2fs_magic
    then (do raise_if (not (le_at 4 16 raw == 12)) bad_block_size; ok (le_at 8 36 raw * 4096, f2fs))
    else err no_filesystem

abbrev pub uuid_at : Filesystem → ℕ
uuid_at ext4 = 104
uuid_at _ = 108

-- `not 0 < size <= mapped <= userdata or not allow_small and mapped-size > 4 << 20`
abbrev pub is_off : Bool → ℕ → ℕ → ℕ → Bool
is_off allow_small size mapped userdata =
    size == 0
    || ltb mapped size
    || ltb userdata mapped
    || (not allow_small && ltb (size + 4 * 0x100000) mapped)

module _ (is_mapping : Bytes → Bool) (int : Bytes → Option ℕ) where
  unfoldable pub android_volume : Bool → ℕ → VolumeAnswers → Result VolumeError Volume
  android_volume allow_small userdata_bytes a = do
    raise_if (not (is_mapping a.source)) no_mapping
    sectors ← or_raise (int a.sectors) not_a_number
    let mapped = sectors * 512
    raise_if (not (length a.raw == 1024)) incomplete
    found ← measure a.raw
    raise_if (is_off allow_small found.0 mapped userdata_bytes) capacity_differs
    ok (record {
      source = some a.source;
      filesystem_bytes = found.0;
      filesystem = found.1;
      uuid = some (slice (uuid_at found.1) (uuid_at found.1 + 16) a.raw);
      mapping_overhead = userdata_bytes - mapped;
    })

-- The last test of eligible; `'0'*32` is the text of 16 zero bytes.
unfoldable pub is_identified : Filesystem → Option Bytes → Bool
is_identified unreadable uuid = false
is_identified kind none = false
is_identified kind (some uuid) = not (length uuid == 0) && not (eq_bytes uuid (replicate 16 0))

abbrev pub is_false : Option Bool → Bool
is_false (some false) = true
is_false _ = false

unfoldable pub eligible : Device → Volume → Result EligibleError (Unit {0})
eligible device volume = do
  raise_if
      (not (is_text device.encryption_state "unencrypted")
        || not (is_false device.encrypted)
        || is_text device.encryption_type "file"
        || is_text device.encryption_type "block")
      encrypted
  source ← or_raise volume.source key_missing
  raise_if
      (not (eq_bytes (base_name source) device.storage.node) || not (volume.mapping_overhead == 0))
      mapped_data
  raise_if (not (is_identified volume.filesystem volume.uuid)) unsupported_identity
