-- ===== src/Cpio/Unpacked.antt =====
-- What `overlay` of installer/backend/uninstall_boot.py packs, `archives` and `entries` unpack.
use e5_linux.Base.{
  ℕ, zero, suc, ◌+◌, ◌^◌, ◌≤◌, ◌<◌, ◌≡◌, refl, sym, ap, ◌∙◌, subst, Bool, true, false, ◌==◌, ltb,
  Bool-cases, inl, inr, Option, some, List, [], ◌∷◌, ◌++◌, map, All, arith, length, take, drop,
  length-append, length-take, length-drop, take-append, drop-append, take-append-drop,
}
use e5_linux.Base.Bytes.{
  Bytes, eq_bytes, eq_bytes→eq, eq_bytes_refl, le_at, le_value, le_bytes, length-le_bytes,
  le_value-le_bytes,
}
use e5_linux.Base.Result.{Result, ok}
use e5_linux.Gpt.{is_nil}
use e5_linux.Cpio.{Entry, hex, trailer, records, entries}
use e5_linux.Cpio.Pieces.{append_assoc}
use e5_linux.Cpio.RoundTrip.{IsFile, read_back, entries-records}
use e5_linux.Cpio.Blocks.{
  BlockError, lz4_magic, chunk, block_limit, archive_limit, block_at, blocks_from, archives_from,
  archives, pack_from, pack, overlay_of,
}

append_nil : (xs : Bytes) → xs ++ [] ≡ xs
append_nil [] = refl
append_nil (x ∷ xs) = ap (λ (t : Bytes). x ∷ t) (append_nil xs)

not_above : (a b : ℕ) → b ≤ a → ltb a b ≡ false
not_above a b h = ground arith

not_zero : (n : ℕ) → 0 < n → (n == 0) ≡ false
not_zero n h = ground arith

-- A block's length is never taken for the magic number.
not_magic : (n : ℕ) → n ≤ block_limit → eq_bytes (le_bytes 4 n) lz4_magic ≡ false
unfolding le_value
not_magic n h = elim (Bool-cases (eq_bytes (le_bytes 4 n) lz4_magic)) [
  | inl same ↦
      let number : n ≡ 0x184c2102 =
        sym (le_value-le_bytes 4 n (omega arith))
        ∙ ap le_value (eq_bytes→eq (le_bytes 4 n) lz4_magic same) in
      absurd (omega arith)
  | inr other ↦ other
]

module _ (compress : Bytes → Bytes) (decompress : Bytes → Option Bytes)
    (inverse : (xs : Bytes) → length xs ≤ chunk → decompress (compress xs) ≡ some xs)
    (sized : (xs : Bytes)
      → length xs ≤ chunk
      → (0 < length (compress xs)) × (length (compress xs) ≤ block_limit)) where
  block_at-reads :
      (packed more piece unpacked : Bytes)
      (next : Bytes → Bytes → Result BlockError (Bytes × Bytes))
      → 0 < length packed
      → length packed ≤ block_limit
      → decompress packed ≡ some piece
      → length unpacked + length piece ≤ archive_limit
      → block_at compress decompress (length packed) (packed ++ more) unpacked next
        ≡ next more (unpacked ++ piece)
  unfolding block_at
  block_at-reads packed more piece unpacked next room small good fits =
      let t0 : (length packed == 0) ≡ false = not_zero (length packed) room in
      let t1 : ltb block_limit (length packed) ≡ false =
        not_above block_limit (length packed) small in
      let t2 : ltb (length (packed ++ more)) (length packed) ≡ false =
        not_above (length (packed ++ more)) (length packed)
          (omega (arith, length-append packed more)) in
      let t3 : take (length packed) (packed ++ more) ≡ packed = take-append packed more in
      let t4 : drop (length packed) (packed ++ more) ≡ more = drop-append packed more in
      let t5 : ltb archive_limit (length (unpacked ++ piece)) ≡ false =
        not_above archive_limit (length (unpacked ++ piece))
          (omega (arith, length-append unpacked piece)) in
      simp (t0, t1, t2, t3, t4, good, t5) refl

  blocks_from-step :
      (fuel : ℕ) (packed more unpacked : Bytes)
      → length packed ≤ block_limit
      → blocks_from compress decompress
          (suc fuel)
          (le_bytes 4 (length packed) ++ (packed ++ more))
          unpacked
        ≡ block_at compress decompress
            (length packed)
            (packed ++ more)
            unpacked
            (blocks_from compress decompress fuel)
  unfolding blocks_from le_at
  blocks_from-step fuel packed more unpacked small =
      let mark : Bytes = le_bytes 4 (length packed) in
      let rest : Bytes = mark ++ (packed ++ more) in
      let four : length mark ≡ 4 = length-le_bytes 4 (length packed) in
      let front : take 4 rest ≡ mark =
        subst (λ (n : ℕ). take n rest ≡ mark) four (take-append mark (packed ++ more)) in
      let back : drop 4 rest ≡ packed ++ more =
        subst (λ (n : ℕ). drop n rest ≡ packed ++ more) four (drop-append mark (packed ++ more)) in
      let long : length rest ≡ 4 + length (packed ++ more) =
        length-append mark (packed ++ more) ∙ omega (arith, four) in
      let t0 : is_nil rest ≡ false = some_left rest (omega arith) in
      let t1 : eq_bytes (take 4 rest) lz4_magic ≡ false =
        ap (λ (t : Bytes). eq_bytes t lz4_magic) front ∙ not_magic (length packed) small in
      let t2 : ltb (length rest) 4 ≡ false = not_above (length rest) 4 (omega arith) in
      let t3 : le_value (take 4 rest) ≡ length packed =
        ap le_value front ∙ le_value-le_bytes 4 (length packed) (omega arith) in
      simp (t0, t1, t2, t3, back) refl
    where
      some_left : (xs : Bytes) → 0 < length xs → is_nil xs ≡ false
      some_left [] h = absurd (omega arith)
      some_left (x ∷ xs) h = refl

  blocks_from-pack_from :
      (fuel more_fuel : ℕ) (xs unpacked : Bytes)
      → length xs < fuel
      → length (pack_from compress decompress fuel xs) < more_fuel
      → length unpacked + length xs ≤ archive_limit
      → blocks_from compress decompress more_fuel (pack_from compress decompress fuel xs) unpacked
        ≡ ok (unpacked ++ xs, [])
  unfolding pack_from blocks_from
  blocks_from-pack_from zero more_fuel xs unpacked h k fits = absurd (omega arith)
  blocks_from-pack_from (suc fuel) zero xs unpacked h k fits = absurd (omega arith)
  blocks_from-pack_from (suc fuel) (suc more_fuel) [] unpacked h k fits =
      ap (λ (t : Bytes). ok (t, [])) (sym (append_nil unpacked))
  blocks_from-pack_from (suc fuel) (suc more_fuel) (x ∷ xs) unpacked h k fits =
      let whole : Bytes = x ∷ xs in
      let piece : Bytes = take chunk whole in
      let left : Bytes = drop chunk whole in
      let (room, small) = sized piece (omega (arith, length-take chunk whole)) in
      blocks_from-step more_fuel (compress piece) (pack_from compress decompress fuel left) unpacked
        small
      ∙ block_at-reads (compress piece) (pack_from compress decompress fuel left) piece unpacked
          (blocks_from compress decompress more_fuel) room small
          (inverse piece (omega (arith, length-take chunk whole)))
          (omega (arith, length-take chunk whole))
      ∙ blocks_from-pack_from fuel more_fuel left (unpacked ++ piece)
          (omega (arith, length-drop chunk whole))
          (shorter (compress piece) (pack_from compress decompress fuel left) k)
          (omega
            (arith, length-append unpacked piece, length-take chunk whole, length-drop chunk whole))
      ∙ ap (λ (t : Bytes). ok (t, []))
          (append_assoc unpacked piece left
            ∙ ap (λ (t : Bytes). unpacked ++ t) (take-append-drop chunk whole))
    where
      shorter :
          (packed more : Bytes)
          → length (le_bytes 4 (length packed) ++ (packed ++ more)) < suc more_fuel
          → length more < more_fuel
      shorter packed more lt = omega (
        arith,
        lt,
        length-append (le_bytes 4 (length packed)) (packed ++ more),
        length-append packed more,
        length-le_bytes 4 (length packed),
      )

  archives_from-pack :
      (n : ℕ) (xs : Bytes)
      → length xs ≤ archive_limit
      → archives_from compress decompress (suc (suc n)) (pack compress decompress xs) ≡ ok (xs ∷ [])
  unfolding archives_from pack
  archives_from-pack n xs fits =
      let packed : Bytes = pack_from compress decompress (length xs + 1) xs in
      let unpacked : blocks_from compress decompress (length (lz4_magic ++ packed) + 1) packed []
          ≡ ok (xs, []) =
        blocks_from-pack_from (length xs + 1) (length (lz4_magic ++ packed) + 1) xs [] (omega arith)
          (omega arith) (omega arith) in
      simp (eq_bytes_refl lz4_magic, unpacked) refl

  archives-pack :
      (xs : Bytes)
      → length xs ≤ archive_limit
      → archives compress decompress (pack compress decompress xs) ≡ ok (xs ∷ [])
  unfolding archives pack
  archives-pack xs fits =
      let packed : Bytes = pack_from compress decompress (length xs + 1) xs in
      let fuel : length (lz4_magic ++ packed) + 1 ≡ suc (suc (length packed + 3)) = omega arith in
      ap (λ (n : ℕ). archives_from compress decompress n (lz4_magic ++ packed)) fuel
      ∙ archives_from-pack (length packed + 3) xs fits

  -- What `overlay` packs is unpacked again: `archives` finds one archive in it, and `entries` finds in
  -- that the files in their order, their names without a leading "./". The archive is no larger than
  -- the limit of `archives`, a file's name is a text other than the trailer's, and every number of
  -- its head is below 2 ^ 32; int reads back what the format prints, and lz4 gives a block of at most
  -- 8 MiB back and needs no more than 9 MiB for it.
  pub overlay_of-archives :
      (parse_hex : Bytes → Option ℕ) (is_utf8 : Bytes → Bool) (es : List Entry)
      → ((n : ℕ) → n < 16 ^ 8 → parse_hex (hex n) ≡ some n)
      → is_utf8 trailer ≡ true
      → All (IsFile is_utf8) es
      → 1 + length es < 16 ^ 8
      → length (records es 1) ≤ archive_limit
      → (archives compress decompress (overlay_of compress decompress es) ≡ ok (records es 1 ∷ []))
        × (entries parse_hex is_utf8 (records es 1) ≡ ok (map read_back es))
  unfolding overlay_of
  overlay_of-archives parse_hex is_utf8 es parses ends files numbered fits = (
    archives-pack (records es 1) fits,
    ap (entries parse_hex is_utf8) (sym (append_nil (records es 1)))
        ∙ entries-records parse_hex is_utf8 parses ends es [] 1 files numbered,
  )
