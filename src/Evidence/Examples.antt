-- ===== src/Evidence/Examples.antt =====
-- A partition of eight blocks with one file in its root, read to the end.
use e5_linux.Base.{
  ℕ, ◌+◌, ◌≤◌, ◌<◌, ◌≡◌, refl, ◌==◌, if◌then◌else◌, List, [], ◌∷◌, ◌++◌, length, replicate,
}
use e5_linux.Base.Bytes.{Bytes, le_at, le_value, eq_bytes}
use e5_linux.Base.Result.{Result, ok}
use e5_linux.Evidence.{
  EvidenceError, Reader, Geometry, ◌>>=◌, ◌>>◌, give, raise_when, fresh, cached, keep_read, fetch,
  raw_from, raw, set_limit, geometry_of, is_unclean, is_bad_geometry, open_evidence, block, inode,
}
use e5_linux.Evidence.Tree.{
  pointer, add_run, has_all, all_below, direct_pointers, is_bad_node, leaf_entry, inner_entry,
  each_entry, entries_at, extents, pointers_of, joined, file_size, contents, is_bad_entry, found_in,
  enter, walk_path, file,
}
use e5_linux.Evidence.Bounds.{Ends}
use e5_linux.Evidence.Exact.{file-IsBounded}
use e5_linux.Evidence.Ends.{IsKnown, found_in-IsKnown}

abbrev zeros : ℕ → Bytes
zeros n = replicate n 0

abbrev superblock : Bytes
superblock =
    16
    ∷ 0
    ∷ 0
    ∷ 0
    ∷ 8
    ∷ (zeros 35
        ++ (16
            ∷ (zeros 15
                ++ (0x53
                    ∷ 0xef
                    ∷ 1
                    ∷ (zeros 29 ++ (128 ∷ (zeros 15 ++ (replicate 16 7 ++ zeros 904))))))))

abbrev descriptor : Bytes
descriptor = zeros 8 ++ (3 ∷ zeros 23)

abbrev directory_inode : Bytes
directory_inode = 0 ∷ 0x40 ∷ 0 ∷ 0 ∷ 0 ∷ 4 ∷ (zeros 20 ++ (1 ∷ (zeros 13 ++ (4 ∷ zeros 87))))

abbrev file_inode : Bytes
file_inode =
    0
    ∷ 0x80
    ∷ 0
    ∷ 0
    ∷ 5
    ∷ (zeros 21
        ++ (1
            ∷ (zeros 7
                ++ (8
                    ∷ (zeros 5
                        ++ (0x0a
                            ∷ 0xf3
                            ∷ 1
                            ∷ 0
                            ∷ 4
                            ∷ (zeros 11 ++ (1 ∷ 0 ∷ 0 ∷ 0 ∷ 5 ∷ zeros 67))))))))

abbrev directory : Bytes
directory = 3 ∷ 0 ∷ 0 ∷ 0 ∷ 0 ∷ 4 ∷ 1 ∷ 1 ∷ b'a' ∷ zeros 1015

abbrev hello : Bytes
hello = b'h' ∷ b'e' ∷ b'l' ∷ b'l' ∷ b'o' ∷ []

abbrev device : ℕ → ℕ → Bytes
device offset size =
    if offset == 1024
    then superblock
    else if offset == 2048
    then descriptor
    else if offset == 3200
    then directory_inode
    else if offset == 3328
    then file_inode
    else if offset == 4096
    then directory
    else if offset == 5120
    then hello ++ zeros 1019
    else []

abbrev path : List Bytes
path = (b'a' ∷ []) ∷ []

abbrev result : Result EvidenceError Bytes × Reader
result = (open_evidence device 8192 >>= λ g. file device g path) (fresh 8192)

file_run : result.0 ≡ ok hello
unfolding ◌>>=◌ ◌>>◌ give raise_when cached keep_read fetch raw_from raw set_limit geometry_of
    is_unclean is_bad_geometry open_evidence block inode pointer add_run has_all all_below
    direct_pointers is_bad_node leaf_entry inner_entry each_entry entries_at extents pointers_of
    joined file_size contents is_bad_entry found_in enter walk_path file le_at le_value eq_bytes
file_run = refl

file-IsBounded_example :
    Ends device 8192
      (λ (value : Bytes). (0 < length value) × (length value ≤ 4096))
      ((open_evidence device 8192 >>= λ g. file device g path) (fresh 8192))
file-IsBounded_example = file-IsBounded device 8192 path

abbrev geometry : Geometry
geometry = record {
  block_size = 1024;
  blocks = 8;
  inodes = 16;
  per_group = 16;
  inode_size = 128;
  desc_size = 32;
}

found_in-IsKnown_example :
    IsKnown (found_in device geometry directory (b'a' ∷ []) (length directory + 1) 0 (fresh 8192))
found_in-IsKnown_example = found_in-IsKnown device geometry directory (b'a' ∷ []) (fresh 8192)
