-- ===== src/Uninstall/Written.antt =====
-- What with_table of installer/backend/uninstall.py leaves in a snapshot.
use e5_linux.Base.{
  ℕ, ◌+◌, ◌-◌, ◌*◌, ◌≤◌, ◌<◌, ◌≡◌, ◌⊎◌, inl, inr, refl, sym, ap, ◌∙◌, Option, List, arith, length,
  take, drop, eq_of_get_or,
}
use e5_linux.Base.Bytes.{
  Bytes, byte, slice, slice-eq, le_value, le_at, put_at, length-put_at, get_or-put_at_in,
}
use e5_linux.Gpt.{splice}
use e5_linux.Gpt.Sealed.{splice-put_at, byte-put_at_outside, sealed, length-sealed, byte-sealed}
use e5_linux.Uninstall.{table, with_copy}
use e5_linux.Uninstall.Table.{byte-slice, length-slice}

-- A number is fixed by its bytes.
pub le_at-eq :
    (w off : ℕ) (xs ys : Bytes)
    → length xs ≡ length ys
    → ((k : ℕ) → off ≤ k → k < off + w → byte xs k ≡ byte ys k)
    → le_at w off xs ≡ le_at w off ys
unfolding le_at
le_at-eq w off xs ys e h =
    let width : w ≡ off + w - off = omega arith in
    ap (λ (n : ℕ). le_value (take n (drop off xs))) width
    ∙ ap le_value (slice-eq off (off + w) xs ys e h)
    ∙ ap (λ (n : ℕ). le_value (take n (drop off ys))) (sym width)

module _ (crc32 : Bytes → ℕ) (decode : Bytes → Option (List ℕ)) (updated raw : Bytes)
    (head offset : ℕ) (head_fits : head + 92 ≤ length raw)
    (table_fits : offset + length updated ≤ length raw) where
  replaced : Bytes
  replaced = put_at offset updated raw

  length-replaced : length replaced ≡ length raw
  unfolding replaced
  length-replaced = length-put_at offset updated raw table_fits

  spliced : splice offset (offset + length updated) updated raw ≡ replaced
  unfolding replaced
  spliced = splice-put_at offset (offset + length updated) updated raw refl

  pub length-with_copy : length (with_copy crc32 decode updated raw head offset) ≡ length raw
  unfolding with_copy sealed
  length-with_copy =
      length-sealed head _ _ (splice offset (offset + length updated) updated raw)
        (omega (arith, ap length spliced, length-replaced))
      ∙ ap length spliced
      ∙ length-replaced

  byte-with_copy :
      (k : ℕ)
      → (k < head + 16) ⊎ (head + 20 ≤ k)
      → (k < head + 88) ⊎ (head + 92 ≤ k)
      → byte (with_copy crc32 decode updated raw head offset) k ≡ byte replaced k
  unfolding with_copy sealed
  byte-with_copy k o1 o2 =
      byte-sealed head _ _ (splice offset (offset + length updated) updated raw) k
        (omega (arith, ap length spliced, length-replaced)) o1 o2
      ∙ ap (λ (x : Bytes). byte x k) spliced

  -- Outside of the table and of the two checksums every byte stays.
  pub with_copy_frame :
      (k : ℕ)
      → (k < head + 16) ⊎ (head + 20 ≤ k)
      → (k < head + 88) ⊎ (head + 92 ≤ k)
      → (k < offset) ⊎ (offset + length updated ≤ k)
      → byte (with_copy crc32 decode updated raw head offset) k ≡ byte raw k
  unfolding replaced
  with_copy_frame k o1 o2 o3 =
      byte-with_copy k o1 o2 ∙ byte-put_at_outside offset updated raw k table_fits o3

  -- The table stands there whole, where it does not meet the header.
  pub with_copy_table :
      head + 92 ≤ offset ⊎ offset + length updated ≤ head
      → slice offset (offset + length updated) (with_copy crc32 decode updated raw head offset)
        ≡ updated
  unfolding replaced
  with_copy_table apart =
      eq_of_get_or (slice offset (offset + length updated) written) updated 0 long
        (λ j lt. at j (omega (arith, long)))
    where
      written : Bytes
      written = with_copy crc32 decode updated raw head offset

      long : length (slice offset (offset + length updated) written) ≡ length updated
      long =
          length-slice offset (offset + length updated) written (omega (arith, length-with_copy))
          ∙ omega arith

      at :
          (j : ℕ)
          → j < length updated
          → byte (slice offset (offset + length updated) written) j ≡ byte updated j
      at j lt =
          byte-slice offset (offset + length updated) written j (omega arith)
          ∙ byte-with_copy (offset + j) (omega arith) (omega arith)
          ∙ get_or-put_at_in offset updated raw table_fits j 0 lt

-- The table of the first snapshot is the one that was written, where the header has room for it.
pub table-with_copy :
    (crc32 : Bytes → ℕ) (decode : Bytes → Option (List ℕ)) (updated first : Bytes)
    → length updated ≡ le_at 4 592 first * 128
    → 2 ≤ le_at 8 584 first
    → le_at 8 584 first * 512 + length updated ≤ length first
    → table (with_copy crc32 decode updated first 512 (le_at 8 584 first * 512)) ≡ updated
unfolding table
table-with_copy crc32 decode updated first sized behind fits =
    ap (λ (a : ℕ). slice (a * 512) (a * 512 + le_at 4 592 written * 128) written)
      (field 8 584 (omega arith) (omega arith))
    ∙ ap (λ (c : ℕ). slice (le_at 8 584 first * 512) (le_at 8 584 first * 512 + c * 128) written)
        (field 4 592 (omega arith) (omega arith))
    ∙ ap (λ (n : ℕ). slice (le_at 8 584 first * 512) (le_at 8 584 first * 512 + n) written)
        (sym sized)
    ∙ with_copy_table crc32 decode updated first 512 (le_at 8 584 first * 512) (omega arith) fits
        (inl (omega arith))
  where
    written : Bytes
    written = with_copy crc32 decode updated first 512 (le_at 8 584 first * 512)

    field : (w off : ℕ) → 584 ≤ off → off + w ≤ 600 → le_at w off written ≡ le_at w off first
    field w off lo hi =
        le_at-eq w off written first
          (length-with_copy crc32 decode updated first 512 (le_at 8 584 first * 512) (omega arith)
            fits)
          (λ k a b.
            with_copy_frame crc32 decode updated first 512 (le_at 8 584 first * 512) (omega arith)
              fits k (inr (omega arith)) (inl (omega arith)) (inl (omega arith)))
