-- ===== src/Gpt/Sealed.antt =====
-- The writes that gpt_add_root of installer/backend/gpt.py and with_table of
-- installer/backend/uninstall.py make in a snapshot: new bytes in the table, and the two checksums of
-- a header behind them.
use e5_linux.Base.{ℕ, ◌+◌, ◌≤◌, ◌<◌, ◌≡◌, ◌⊎◌, inl, inr, ◌∙◌, arith, length}
use e5_linux.Base.Bytes.{
  Bytes, byte, le_bytes, put_at, length-le_bytes, length-put_at, get_or-put_at_before,
  get_or-put_at_after,
}
use e5_linux.Gpt.{splice}

-- `splice` over a range of the new bytes' length is a write in place.
pub splice-put_at :
    (i j : ℕ) (new raw : Bytes) → j ≡ i + length new → splice i j new raw ≡ put_at i new raw
unfolding put_at
splice-put_at i j new raw e = rw e

-- Outside of the range that it covers a write in place leaves every byte.
pub byte-put_at_outside :
    (i : ℕ) (new xs : Bytes) (k : ℕ)
    → i + length new ≤ length xs
    → (k < i) ⊎ (i + length new ≤ k)
    → byte (put_at i new xs) k ≡ byte xs k
byte-put_at_outside i new xs k fits (inl lo) = get_or-put_at_before i new xs fits k 0 lo
byte-put_at_outside i new xs k fits (inr hi) = get_or-put_at_after i new xs fits k 0 hi

module _ (head : ℕ) where
  -- Three writes of four bytes into the header of a snapshot.
  unfoldable pub sealed : ℕ → ℕ → Bytes → Bytes
  sealed s t new =
      put_at (head + 16) (le_bytes 4 t)
        (put_at (head + 16) (le_bytes 4 0) (put_at (head + 88) (le_bytes 4 s) new))

  pub length-sealed :
      (s t : ℕ) (new : Bytes) → head + 92 ≤ length new → length (sealed s t new) ≡ length new
  unfolding sealed
  length-sealed s t new h =
      let one : Bytes = put_at (head + 88) (le_bytes 4 s) new in
      let two : Bytes = put_at (head + 16) (le_bytes 4 0) one in
      let e1 : length one ≡ length new =
        length-put_at (head + 88) (le_bytes 4 s) new (omega (arith, length-le_bytes 4 s)) in
      let e2 : length two ≡ length one =
        length-put_at (head + 16) (le_bytes 4 0) one (omega (arith, length-le_bytes 4 0)) in
      length-put_at (head + 16) (le_bytes 4 t) two (omega (arith, length-le_bytes 4 t)) ∙ e2 ∙ e1

  pub byte-sealed :
      (s t : ℕ) (new : Bytes) (k : ℕ)
      → head + 92 ≤ length new
      → (k < head + 16) ⊎ (head + 20 ≤ k)
      → (k < head + 88) ⊎ (head + 92 ≤ k)
      → byte (sealed s t new) k ≡ byte new k
  unfolding sealed
  byte-sealed s t new k h o1 o2 =
      let one : Bytes = put_at (head + 88) (le_bytes 4 s) new in
      let two : Bytes = put_at (head + 16) (le_bytes 4 0) one in
      let e1 : length one ≡ length new =
        length-put_at (head + 88) (le_bytes 4 s) new (omega (arith, length-le_bytes 4 s)) in
      let e2 : length two ≡ length one =
        length-put_at (head + 16) (le_bytes 4 0) one (omega (arith, length-le_bytes 4 0)) in
      byte-put_at_outside (head + 16) (le_bytes 4 t) two k (omega (arith, length-le_bytes 4 t))
        (omega (arith, length-le_bytes 4 t))
      ∙ byte-put_at_outside (head + 16) (le_bytes 4 0) one k (omega (arith, length-le_bytes 4 0))
          (omega (arith, length-le_bytes 4 0))
      ∙ byte-put_at_outside (head + 88) (le_bytes 4 s) new k (omega (arith, length-le_bytes 4 s))
          (omega (arith, length-le_bytes 4 s))
