-- ===== src/Removal/Samples.antt =====
-- A disk of an E5 with OpenWrt right behind a halved userdata, and what its removal meets.
mod Examples
mod Wiping
use e5_linux.Base.{
  ℕ, ◌+◌, ◌-◌, ◌*◌, ◌%◌, ◌^◌, Bool, true, false, ◌==◌, if◌then◌else◌, Option, none, some, List, [],
  ◌∷◌, ◌++◌, length, replicate,
}
use e5_linux.Base.Text.{String, codes}
use e5_linux.Base.Bytes.{Bytes, slice, le_bytes, put_at}
use e5_linux.Base.Assoc.{Dict}
use e5_linux.Gpt.{Part, efi_part, linux_type}
use e5_linux.Uninstall.{Snapshots}
use e5_linux.Removal.{Filesystem, Device, VolumeAnswers, f2fs_magic}
use e5_linux.Removal.Journal.{Proof}

-- A checksum in place of the CRC, and the decoding of text below U+10000 without surrogates.
abbrev pub checksum : Bytes → ℕ
checksum [] = 0
checksum (b ∷ bs) = (b + checksum bs) % 2 ^ 32

abbrev pub units : Bytes → List ℕ
units (lo ∷ hi ∷ bs) = (lo + 256 * hi) ∷ units bs
units _ = []

abbrev pub decode_units : Bytes → Option (List ℕ)
decode_units bs = some (units bs)

abbrev wide : List ℕ → Bytes
wide [] = []
wide (c ∷ cs) = c ∷ 0 ∷ wide cs

-- One entry of the table.
abbrev entry_of : Bytes → ℕ → ℕ → ℕ → List ℕ → Bytes
unfolding le_bytes
entry_of kind guid start end name =
    kind
    ++ (replicate 16 guid
        ++ (le_bytes 8 start
            ++ (le_bytes 8 end
                ++ (replicate 8 0 ++ (wide name ++ replicate (72 - length (wide name)) 0)))))

abbrev entries : Bytes
unfolding entry_of
entries =
    entry_of (replicate 16 7) 1 4096 4_198_399 (codes "userdata")
    ++ (entry_of linux_type 2 4_198_400 8_392_703 (codes "e5root")
        ++ (entry_of (replicate 16 7) 3 100 107 (codes "misc")
            ++ (entry_of (replicate 16 7) 4 200 207 (codes "boot_a")
                ++ (entry_of (replicate 16 7) 5 300 307 (codes "boot_b") ++ replicate 384 0))))

abbrev header_at : ℕ → ℕ → ℕ → Bytes
unfolding le_bytes put_at entries
header_at current alternate at =
    let blank : Bytes =
      efi_part
      ++ (replicate 4 0
          ++ (le_bytes 4 92
              ++ (replicate 8 0
                  ++ (le_bytes 8 current
                      ++ (le_bytes 8 alternate
                          ++ (le_bytes 8 4
                              ++ (le_bytes 8 15_999_000
                                  ++ (replicate 16 9
                                      ++ (le_bytes 8 at
                                          ++ (le_bytes 4 8
                                              ++ (le_bytes 4 128
                                                  ++ le_bytes 4 (checksum entries)))))))))))) in
    put_at 16 (le_bytes 4 (checksum blank)) blank ++ replicate 420 0

abbrev pub installed : Snapshots
unfolding header_at entries
installed = (
  replicate 512 0 ++ (header_at 1 15_999_999 2 ++ entries),
  entries ++ header_at 15_999_999 1 15_999_997,
)

-- What dd prints of the disk.
abbrev pub read_disk : ℕ → ℕ → Bytes
unfolding installed
read_disk skip count =
    if skip == 0
    then installed.0
    else if skip == 1
    then slice 512 1024 installed.0
    else if skip == 15_999_999
    then slice 1024 1536 installed.1
    else if skip == 15_999_997
    then installed.1
    else replicate 2048 0

abbrev pub phone : Device
phone = record {
  is_ready = true;
  existing = true;
  cid = "00112233445566778899aabbccddeeff";
  slot = "_a";
  profile = "e5";
  storage = record {
    node = codes "mmcblk0p1";
    start = 4096;
    size = 4_194_304;
    disk_size = 16_000_000;
    root = some (codes "mmcblk0p2");
    root_start = some 4_198_400;
    root_size = 4_194_304;
  };
  userdata_bytes = 2_147_483_648;
  encrypted = some false;
  encryption_state = some "unencrypted";
  encryption_type = some "";
}

-- An F2FS of 524288 blocks of 4096 bytes.
abbrev superblock : Bytes
unfolding le_bytes
superblock =
    f2fs_magic
    ++ (replicate 12 0
        ++ (le_bytes 4 12
            ++ (replicate 16 0 ++ (le_bytes 8 524_288 ++ (replicate 64 0 ++ replicate 916 5)))))

abbrev pub volume_answers : VolumeAnswers
unfolding superblock
volume_answers = record {
  source = codes "/dev/block/mmcblk0p1";
  sectors = codes "4194304";
  raw = superblock;
}

abbrev pub as_number : Bytes → Option ℕ
as_number text = some 4_194_304

abbrev pub is_mapping : Bytes → Bool
is_mapping text = true

abbrev pub equip : Filesystem → Option (Dict Bytes)
equip kind = some (("sbin/resize.f2fs", 1 ∷ 2 ∷ []) ∷ [])

abbrev digest_text : Bytes
digest_text = replicate 64 b'a'

abbrev pub proof_of : Part → Option Proof
proof_of root = some (record {
  version = 1;
  boot_header = some digest_text;
  ramdisk = some digest_text;
  superblock = some digest_text;
  markers = ("etc/e5/part-root", some digest_text) ∷ ("etc/openwrt_release", some digest_text) ∷ [];
})

-- A function in place of SHA-256, and no backups on this computer.
abbrev pub sum_of : Bytes → Bytes
sum_of content = checksum content ∷ []

abbrev pub no_numbers : Bytes → Option (String × ℕ)
no_numbers text = none
