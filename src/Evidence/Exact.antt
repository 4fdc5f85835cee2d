-- ===== src/Evidence/Exact.antt =====
-- What Ext4Evidence of installer/backend/install_evidence.py returns: as many bytes as the file has,
-- read within the bounds.
use e5_linux.Base.{
  ℕ, zero, suc, ◌+◌, ◌-◌, ◌*◌, ◌/◌, ◌≤◌, ◌<◌, ◌≡◌, bit_and, Bool, true, false, not, ◌&&◌, ◌||◌,
  ◌==◌, ltb, leb, if◌then◌else◌, Option, none, some, List, [], ◌∷◌, ◌++◌, arith, length, take,
  length-append, length-take, replicate,
}
use native.Mathlib.Nat.{div-add-mod', mod-lt}
use e5_linux.Base.Bytes.{Bytes, byte, slice, eq_bytes, le_at}
use e5_linux.Evidence.{
  not_ext4, unclean, bad_geometry, bad_block, bad_inode, bad_table, bad_kind, bad_size, bad_flags,
  indirect, bad_tree, repeated_node, unwritten, beyond_filesystem, overlapping, sparse,
  truncated_directory, bad_entry, Geometry, Reading, ◌>>=◌, ◌>>◌, give, raise_when, fresh, raw,
  set_limit, geometry_of, is_unclean, is_bad_geometry, open_evidence, block, inode,
}
use e5_linux.Evidence.Tree.{
  Visit, add_run, direct_pointers, is_bad_node, leaf_entry, inner_entry, each_entry, entries_at,
  extents, pointers_of, joined, file_size, contents, is_bad_entry, found_in, only_number, enter,
  walk_path, file,
}
use e5_linux.Evidence.Bounds.{
  Ends, Gives, give-Gives, >>=-Gives, >>-Gives, raise_when-Gives, IsAnswer, raw-Gives, Gives-mono,
  Gives-Ends, set_limit-Gives, fresh-IsBounded,
}

-- No more is known of a value than that it was returned.
abbrev pub Any : {A : Type 0} → A → Type 0
Any a = Unit {0}

module _ (read : ℕ → ℕ → Bytes) (capacity : ℕ) where
  abbrev pub IsGeometry : Geometry → Type 0
  IsGeometry g = (0 < g.block_size) × (g.blocks * g.block_size ≤ capacity)

  geometry_of_test :
      (sb : Bytes)
      → is_bad_geometry read capacity (geometry_of read sb) sb ≡ false
      → IsGeometry (geometry_of read sb)
  unfolding is_bad_geometry
  geometry_of_test sb e =
      let g : Geometry = geometry_of read sb in
      sized (g.blocks == 0) (g.inodes == 0) (g.per_group == 0)
        (bit_and g.inode_size (g.inode_size - 1) == 0) (g.desc_size == 32 || g.desc_size == 64)
        (eq_bytes (slice 104 120 sb) (replicate 16 0)) (g.blocks * g.block_size) g.inode_size
        g.block_size e
    where
      sized :
          (a b c d x y : Bool) (n i s : ℕ)
          → (a || ltb capacity n || b || c || not (leb 128 i && leb i s) || not d || not x || y)
            ≡ false
          → (0 < s) × (n ≤ capacity)
      sized a b c d x y n i s h = ground arith

  open_evidence-Gives : Gives read capacity IsGeometry (open_evidence read capacity)
  unfolding open_evidence
  open_evidence-Gives =
      >>=-Gives read capacity (IsAnswer read capacity 1024 1024) IsGeometry (raw read 1024 1024) _
        (raw-Gives read capacity 1024 1024)
        λ sb answer. raise_when-Gives read capacity IsGeometry _ not_ext4 _ λ magic.
          raise_when-Gives read capacity IsGeometry (is_unclean read sb) unclean _ λ clean.
            raise_when-Gives read capacity IsGeometry
              (is_bad_geometry read capacity (geometry_of read sb) sb) bad_geometry _
              λ good.
                let sound = geometry_of_test sb good in
                let g : Geometry = geometry_of read sb in
                >>-Gives read capacity IsGeometry (set_limit read (g.blocks * g.block_size)) _
                  (set_limit-Gives read capacity (g.blocks * g.block_size) sound.1)
                  (give-Gives read capacity IsGeometry g sound)

  module _ (g : Geometry) where
    abbrev IsBlock : Bytes → Type 0
    IsBlock value = length value ≡ g.block_size

    block-Gives : (number : ℕ) → Gives read capacity IsBlock (block read g number)
    unfolding block
    block-Gives number = raise_when-Gives read capacity IsBlock _ bad_block _ λ good.
        Gives-mono read capacity _ IsBlock _ (λ a answer. answer.1)
          (raw-Gives read capacity (number * g.block_size) g.block_size)

    inode-Gives : (number : ℕ) → Gives read capacity Any (inode read g number)
    unfolding inode
    inode-Gives number = raise_when-Gives read capacity Any _ bad_inode _ λ good.
        >>=-Gives read capacity _ Any _ _ (raw-Gives read capacity _ g.desc_size) λ desc answer.
          raise_when-Gives read capacity Any _ bad_table _ λ table.
            Gives-mono read capacity _ Any _ (λ a answer. tt)
              (raw-Gives read capacity _ g.inode_size)

    add_run-Gives :
        (left n physical : ℕ) (pointers : List (ℕ × ℕ))
        → Gives read capacity Any (add_run left n physical pointers)
    unfolding add_run
    add_run-Gives zero n physical pointers = give-Gives read capacity Any pointers tt
    add_run-Gives (suc left) n physical pointers =
        raise_when-Gives read capacity Any _ overlapping _
          λ free. add_run-Gives left (n + 1) (physical + 1) ((n, physical) ∷ pointers)

    leaf_entry-Gives :
        (count : ℕ) (node : Bytes) (at : ℕ) (w : Visit)
        → Gives read capacity Any (leaf_entry read g count node at w)
    unfolding leaf_entry
    leaf_entry-Gives count node at w = raise_when-Gives read capacity Any _ unwritten _ λ written.
        raise_when-Gives read capacity Any _ beyond_filesystem _ λ inside.
          >>=-Gives read capacity Any Any _ _ (add_run-Gives _ _ _ w.pointers)
            λ pointers p. give-Gives read capacity Any (record w { pointers = pointers }) tt

    each_entry-Gives :
        (entry : Bytes → ℕ → Visit → Reading Visit)
        → ((node : Bytes) (at : ℕ) (w : Visit) → Gives read capacity Any (entry node at w))
        → (node : Bytes) (left at : ℕ) (w : Visit)
        → Gives read capacity Any (each_entry read g entry node left at w)
    unfolding each_entry
    each_entry-Gives entry h node zero at w = give-Gives read capacity Any w tt
    each_entry-Gives entry h node (suc left) at w =
        >>=-Gives read capacity Any Any (entry node at w) _ (h node at w)
          λ w' p. each_entry-Gives entry h node left (at + 12) w'

    inner_entry-Gives :
        (child : Bytes → Visit → Reading Visit)
        → ((node : Bytes) (w : Visit) → Gives read capacity Any (child node w))
        → (node : Bytes) (at : ℕ) (w : Visit)
        → Gives read capacity Any (inner_entry read g child node at w)
    unfolding inner_entry
    inner_entry-Gives child h node at w =
        raise_when-Gives read capacity Any _ repeated_node _
          λ new. >>=-Gives read capacity IsBlock Any _ _ (block-Gives _) λ below p. h below _

    entries_at-Gives :
        (count depth : ℕ) (node : Bytes) (w : Visit)
        → Gives read capacity Any (entries_at read g count depth node w)
    unfolding entries_at
    entries_at-Gives count zero node w =
        each_entry-Gives (leaf_entry read g count) (leaf_entry-Gives count) node (le_at 2 2 node) 12
          w
    entries_at-Gives count (suc depth) node w =
        each_entry-Gives _
          (inner_entry-Gives _ λ below v.
            raise_when-Gives read capacity Any (is_bad_node below (some depth)) bad_tree _
              λ good. entries_at-Gives count depth below v)
          node (le_at 2 2 node) 12 w

    extents-Gives : (count : ℕ) (node : Bytes) → Gives read capacity Any (extents read g count node)
    unfolding extents
    extents-Gives count node =
        raise_when-Gives read capacity Any _ bad_tree _
          λ good. entries_at-Gives count (le_at 2 6 node) node _

    pointers_of-Gives :
        (node : Bytes) (count : ℕ) → Gives read capacity Any (pointers_of read g node count)
    unfolding pointers_of
    pointers_of-Gives node count = by_flag (bit_and (le_at 4 32 node) 0x80000 == 0)
      where
        by_flag :
            (t : Bool)
            → Gives read capacity Any (
                if t
                then raise_when (ltb 12 count) indirect >> give (direct_pointers node count 0)
                else (extents read g count (slice 40 100 node) >>= λ w. give w.pointers))
        by_flag true =
            raise_when-Gives read capacity Any (ltb 12 count) indirect _
              λ few. give-Gives read capacity Any (direct_pointers node count 0) tt
        by_flag false =
            >>=-Gives read capacity Any Any (extents read g count (slice 40 100 node)) _
              (extents-Gives count (slice 40 100 node))
              λ w p. give-Gives read capacity Any w.pointers tt

    joined-Gives :
        (pointers : List (ℕ × ℕ)) (left n : ℕ)
        → Gives read capacity
            (λ value. length value ≡ left * g.block_size)
            (joined read g pointers left n)
    unfolding joined
    joined-Gives pointers zero n = give-Gives read capacity _ [] (omega arith)
    joined-Gives pointers (suc left) n =
        >>=-Gives read capacity IsBlock _ _ _ (block-Gives _) λ piece e.
          >>=-Gives read capacity (λ value. length value ≡ left * g.block_size) _ _ _
            (joined-Gives pointers left (n + 1))
            λ rest e'.
              give-Gives read capacity _ (piece ++ rest)
                (omega (arith, length-append piece rest, e, e'))

    -- The bytes of a file: as many as it has, at least one and no more than the limit.
    abbrev pub IsContents : Bytes → ℕ → Bytes → Type 0
    IsContents node limit value =
        (length value ≡ file_size read g node) × (0 < length value) × (length value ≤ limit)

    module _ (room : 0 < g.block_size) where
      contents-Gives :
          (node : Bytes) (kind limit : ℕ)
          → Gives read capacity (IsContents node limit) (contents read g node kind limit)
      unfolding contents
      contents-Gives node kind limit = raise_when-Gives read capacity _ _ bad_kind _ λ kind_ok.
          raise_when-Gives read capacity _ _ bad_size _ λ size_ok.
            raise_when-Gives read capacity _ _ bad_flags _ λ flags_ok.
              >>=-Gives read capacity Any _ _ _ (pointers_of-Gives node _) λ pointers p.
                raise_when-Gives read capacity _ _ sparse _ λ all_there.
                  >>=-Gives read capacity _ _ _ _ (joined-Gives pointers _ 0)
                    λ value e. give-Gives read capacity _ _ (cut value size_ok e)
        where
          within : (n : ℕ) → not (ltb 0 n && leb n limit) ≡ false → (0 < n) × (n ≤ limit)
          within n h = ground arith

          enough : (n s : ℕ) → 0 < s → n ≤ (n + s - 1) / s * s
          enough n s h = omega (arith, div-add-mod' (n + s - 1) s, mod-lt (n + s - 1) h)

          cut :
              (value : Bytes)
              → not (ltb 0 (file_size read g node) && leb (file_size read g node) limit) ≡ false
              → length value
                ≡ (file_size read g node + g.block_size - 1) / g.block_size * g.block_size
              → IsContents node limit (take (file_size read g node) value)
          cut value h e =
              let (some_bytes, few) = within (file_size read g node) h in
              let long : length (take (file_size read g node) value) ≡ file_size read g node =
                omega (
                  arith,
                  length-take (file_size read g node) value,
                  e,
                  enough (file_size read g node) g.block_size room,
                ) in
              (long, omega (arith, long), omega (arith, long))

      found_in-Gives :
          (content name : Bytes) (fuel at : ℕ)
          → Gives read capacity Any (found_in read g content name fuel at)
      unfolding found_in
      found_in-Gives content name zero at = give-Gives read capacity Any none tt
      found_in-Gives content name (suc fuel) at =
          by_end (leb (length content) at)
            (found_in-Gives content name fuel (at + le_at 2 (at + 4) content))
        where
          rest : Reading (Option (List ℕ))
          rest = found_in read g content name fuel (at + le_at 2 (at + 4) content)

          keep : Option (List ℕ) → Option (List ℕ)
          keep found =
              if not (le_at 4 at content == 0)
                && eq_bytes (slice (at + 8) (at + 8 + byte content (at + 6)) content) name
              then elim found [ none ↦ none | some ns ↦ some (le_at 4 at content ∷ ns) ]
              else found

          by_end :
              (t : Bool)
              → Gives read capacity Any rest
              → Gives read capacity Any (
                  if t
                  then give (some [])
                  else (raise_when (ltb (length content) (at + 8)) truncated_directory
                      >> (raise_when (is_bad_entry read g content at) bad_entry
                          >> (rest >>= λ found. give (keep found)))))
          by_end true h = give-Gives read capacity Any (some []) tt
          by_end false h = raise_when-Gives read capacity Any _ truncated_directory _ λ long.
              raise_when-Gives read capacity Any _ bad_entry _ λ good.
                >>=-Gives read capacity Any Any rest _ h
                  λ found p. give-Gives read capacity Any (keep found) tt

      only_number-Gives :
          (found : Option (List ℕ)) → Gives read capacity Any (only_number read g found)
      unfolding Gives
      only_number-Gives none s h = (h, λ a e. tt)
      only_number-Gives (some []) s h = (h, λ a e. tt)
      only_number-Gives (some (n ∷ [])) s h = (h, λ a e. tt)
      only_number-Gives (some (n ∷ m ∷ ns)) s h = (h, λ a e. tt)

      enter-Gives : (node name : Bytes) → Gives read capacity Any (enter read g node name)
      unfolding enter
      enter-Gives node name =
          >>=-Gives read capacity _ Any _ _ (contents-Gives node 0x4000 0x40000) λ content p.
            >>=-Gives read capacity Any Any _ _ (found_in-Gives content name _ 0) λ found p'.
              >>=-Gives read capacity Any Any _ _ (only_number-Gives found)
                λ number p''. inode-Gives number

      walk_path-Gives :
          (path : List Bytes) (node : Bytes) → Gives read capacity Any (walk_path read g path node)
      unfolding walk_path
      walk_path-Gives [] node = give-Gives read capacity Any node tt
      walk_path-Gives (name ∷ names) node =
          >>=-Gives read capacity Any Any _ _ (enter-Gives node name)
            λ below p. walk_path-Gives names below

      file-Gives :
          (path : List Bytes)
          → Gives read capacity
              (λ value. (0 < length value) × (length value ≤ 4096))
              (file read g path)
      unfolding file
      file-Gives path = >>=-Gives read capacity Any _ _ _ (inode-Gives 2) λ root p.
          >>=-Gives read capacity Any _ _ _ (walk_path-Gives path root) λ node p'.
            Gives-mono read capacity (IsContents node 4096) _ _ (λ value c. (c.1, c.2))
              (contents-Gives node 0x8000 4096)

  -- Reading a file from a fresh reader, whatever the partition holds and whether it returns or
  -- raises: every request to the device is for at least one byte inside the partition, all requests
  -- together ask for at most 4 MiB, the cache holds the device's full answers; and a file that is
  -- returned has between 1 and 4096 bytes.
  pub file-IsBounded :
      (path : List Bytes)
      → Ends read capacity
          (λ (value : Bytes). (0 < length value) × (length value ≤ 4096))
          ((open_evidence read capacity >>= λ g. file read g path) (fresh capacity))
  file-IsBounded path =
      Gives-Ends read capacity _ (open_evidence read capacity >>= λ g. file read g path)
        (fresh capacity)
        (>>=-Gives read capacity IsGeometry _ _ _ open_evidence-Gives
          λ g sound. file-Gives g sound.0 path)
        (fresh-IsBounded read capacity)
