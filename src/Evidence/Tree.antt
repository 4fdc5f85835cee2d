-- ===== src/Evidence/Tree.antt =====
-- Ext4Evidence.contents and Ext4Evidence.file of installer/backend/install_evidence.py: the blocks
-- of a small file by its extent tree, and a path of directories.
use e5_linux.Base.{
  ℕ, zero, suc, ◌+◌, ◌-◌, ◌*◌, ◌/◌, ◌%◌, ◌^◌, min, bit_and, Bool, true, false, ◌&&◌, ◌||◌, not,
  ◌==◌, ltb, leb, if◌then◌else◌, Option, none, some, List, [], ◌∷◌, ◌++◌, length, take,
}
use e5_linux.Base.Bytes.{Bytes, byte, slice, eq_bytes, le_at}
use e5_linux.Base.Result.{ok, err}
use e5_linux.Evidence.{
  bad_kind, bad_size, bad_flags, indirect, bad_tree, repeated_node, unwritten, beyond_filesystem,
  overlapping, sparse, truncated_directory, bad_entry, ambiguous, Geometry, Reading, ◌>>=◌, ◌>>◌,
  give, raise_when, block, inode,
}

-- What the inner function `extents` changes: the visited nodes, and the blocks by their index.
pub record Visit : Type 0 where
  pub visited : List ℕ
  pub pointers : List (ℕ × ℕ)

abbrev pub member : ℕ → List ℕ → Bool
member n [] = false
member n (x ∷ xs) = x == n || member n xs

unfoldable pub pointer : ℕ → List (ℕ × ℕ) → Option ℕ
pointer n [] = none
pointer n ((i, b) ∷ rest) = if i == n then some b else pointer n rest

abbrev pub is_some : Option ℕ → Bool
is_some none = false
is_some (some b) = true

-- `for n in range(logical, min(logical+length, count))`: `left` rounds from `n` on.
unfoldable pub add_run : ℕ → ℕ → ℕ → List (ℕ × ℕ) → Reading (List (ℕ × ℕ))
unfolding pointer
add_run zero n physical pointers = give pointers
add_run (suc left) n physical pointers = do
  raise_when (is_some (pointer n pointers)) overlapping
  add_run left (n + 1) (physical + 1) ((n, physical) ∷ pointers)

-- `set(pointers) != set(range(count))`
unfoldable pub has_all : ℕ → List (ℕ × ℕ) → Bool
has_all zero pointers = true
has_all (suc n) pointers = is_some (pointer n pointers) && has_all n pointers

unfoldable pub all_below : ℕ → List (ℕ × ℕ) → Bool
all_below count [] = true
all_below count ((i, b) ∷ rest) = ltb i count && all_below count rest

-- `dict(enumerate(struct.unpack_from('<12I', inode, 40)[:count]))`, from index `i` on
unfoldable pub direct_pointers : Bytes → ℕ → ℕ → List (ℕ × ℕ)
direct_pointers node zero i = []
direct_pointers node (suc left) i =
    (i, le_at 4 (40 + i * 4) node) ∷ direct_pointers node left (i + 1)

-- The header of a node, with the depth that its parent expects.
unfoldable pub is_bad_node : Bytes → Option ℕ → Bool
is_bad_node raw expected =
    not (le_at 2 0 raw == 0xf30a)
    || not (
        ltb 0 (le_at 2 2 raw)
        && leb (le_at 2 2 raw) (le_at 2 4 raw)
        && leb (le_at 2 4 raw) ((length raw - 12) / 12))
    || ltb 4 (le_at 2 6 raw)
    || elim expected [ none ↦ false | some depth ↦ not (le_at 2 6 raw == depth) ]

module _ (read : ℕ → ℕ → Bytes) (g : Geometry) where
  -- One entry of a leaf at `at`, for a file of `count` blocks.
  unfoldable pub leaf_entry : ℕ → Bytes → ℕ → Visit → Reading Visit
  leaf_entry count raw at w = do
    let logical = le_at 4 at raw
    let span = le_at 2 (at + 4) raw
    raise_when (not (ltb 0 span && leb span 32768)) unwritten
    let physical = le_at 4 (at + 8) raw + le_at 2 (at + 6) raw * 2 ^ 32
    raise_when (physical == 0 || ltb g.blocks (physical + span)) beyond_filesystem
    pointers ← add_run (min (logical + span) count - logical) logical physical w.pointers
    give (record w { pointers = pointers })

  -- One entry of an inner node, with what is done with its child.
  unfoldable pub inner_entry : (Bytes → Visit → Reading Visit) → Bytes → ℕ → Visit → Reading Visit
  inner_entry child raw at w = do
    let number = le_at 4 (at + 4) raw + le_at 2 (at + 8) raw * 2 ^ 32
    raise_when (member number w.visited) repeated_node
    node ← block read g number
    child node (record w { visited = number ∷ w.visited })

  -- `for at in range(12, 12+used*12, 12)`, from `at` on
  unfoldable pub each_entry :
      (Bytes → ℕ → Visit → Reading Visit) → Bytes → ℕ → ℕ → Visit → Reading Visit
  each_entry entry raw zero at w = give w
  each_entry entry raw (suc left) at w = do
    w' ← entry raw at w
    each_entry entry raw left (at + 12) w'

  -- The loop of `extents` in a node of the given depth, and a child of it with its header.
  unfoldable pub entries_at : ℕ → ℕ → Bytes → Visit → Reading Visit
  entries_at count zero raw w = each_entry (leaf_entry count) raw (le_at 2 2 raw) 12 w
  entries_at count (suc depth) raw w =
      each_entry
        (inner_entry λ node v.
          raise_when (is_bad_node node (some depth)) bad_tree >> entries_at count depth node v)
        raw (le_at 2 2 raw) 12 w

  unfoldable pub extents : ℕ → Bytes → Reading Visit
  extents count raw = do
    raise_when (is_bad_node raw none) bad_tree
    entries_at count (le_at 2 6 raw) raw (record { visited = []; pointers = [] })

  unfoldable pub pointers_of : Bytes → ℕ → Reading (List (ℕ × ℕ))
  pointers_of node count =
      if bit_and (le_at 4 32 node) 0x80000 == 0
      then raise_when (ltb 12 count) indirect >> give (direct_pointers node count 0)
      else (extents count (slice 40 100 node) >>= λ w. give w.pointers)

  -- `b''.join(self.block(pointers[n]) for n in range(count))`, from `n` on; every index is there.
  unfoldable pub joined : List (ℕ × ℕ) → ℕ → ℕ → Reading Bytes
  joined pointers zero n = give []
  joined pointers (suc left) n = do
    piece ← block read g (elim (pointer n pointers) [ none ↦ 0 | some b ↦ b ])
    rest ← joined pointers left (n + 1)
    give (piece ++ rest)

  unfoldable pub file_size : Bytes → ℕ
  file_size node = le_at 4 4 node + le_at 4 108 node * 2 ^ 32

  unfoldable pub contents : Bytes → ℕ → ℕ → Reading Bytes
  contents node kind limit = do
    raise_when (not (bit_and (le_at 2 0 node) 0xf000 == kind) || le_at 2 26 node == 0) bad_kind
    let size = file_size node
    raise_when (not (ltb 0 size && leb size limit)) bad_size
    let count = (size + g.block_size - 1) / g.block_size
    raise_when (not (bit_and (le_at 4 32 node) 0x10100804 == 0)) bad_flags
    pointers ← pointers_of node count
    raise_when (not (has_all count pointers && all_below count pointers)) sparse
    data' ← joined pointers count 0
    give (take size data')

  -- An entry of a directory at `at` that the loop refuses.
  unfoldable pub is_bad_entry : Bytes → ℕ → Bool
  is_bad_entry content at =
      let span = le_at 2 (at + 4) content in
      ltb span 8
      || not (span % 4 == 0)
      || ltb (g.block_size - at % g.block_size) span
      || ltb (length content) (at + span)
      || ltb (span - 8) (byte content (at + 6))

  -- `while at < len(content)`, on fuel; none says that the fuel was not enough.
  unfoldable pub found_in : Bytes → Bytes → ℕ → ℕ → Reading (Option (List ℕ))
  unfolding is_bad_entry
  found_in content name zero at = give none
  found_in content name (suc fuel) at =
      let rest : Reading (Option (List ℕ)) =
        found_in content name fuel (at + le_at 2 (at + 4) content) in
      let number : ℕ = le_at 4 at content in
      if leb (length content) at
      then give (some [])
      else (raise_when (ltb (length content) (at + 8)) truncated_directory
          >> (raise_when (is_bad_entry content at) bad_entry
              >> (rest >>= λ found. give (
                  if not (number == 0)
                    && eq_bytes (slice (at + 8) (at + 8 + byte content (at + 6)) content) name
                  then elim found [ none ↦ none | some ns ↦ some (number ∷ ns) ]
                  else found))))

  abbrev pub only_number : Option (List ℕ) → Reading ℕ
  only_number (some (n ∷ [])) s = (ok n, s)
  only_number _ s = (err ambiguous, s)

  -- One component of the path.
  unfoldable pub enter : Bytes → Bytes → Reading Bytes
  enter node name = do
    content ← contents node 0x4000 0x40000
    found ← found_in content name (length content + 1) 0
    number ← only_number found
    inode read g number

  unfoldable pub walk_path : List Bytes → Bytes → Reading Bytes
  walk_path [] node = give node
  walk_path (name ∷ names) node = enter node name >>= walk_path names

  -- Ext4Evidence.file, of a path split at its slashes.
  unfoldable pub file : List Bytes → Reading Bytes
  file path = do root ← inode read g 2; node ← walk_path path root; contents node 0x8000 4096
