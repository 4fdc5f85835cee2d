-- ===== src/Base/Bytes.antt =====
-- Byte strings as lists of numbers: slices, the numbers of `struct`, and writes in place.
use Prim.Native.Nat.{ℕ, zero, suc, ◌+◌, ◌-◌, ◌*◌, ◌/◌, ◌%◌, ◌^◌, ◌≤◌, ◌<◌, min}
use mathlib.Core.Path.{◌≡◌, refl, ap, ◌∙◌, sym}
use mathlib.Core.Bool.{Bool, true, false, ◌&&◌}
use mathlib.Core.List.{List, [], ◌∷◌, ◌++◌}
use native.Mathlib.Omega.{arith}
use e5_linux.Base.Tests.{◌==◌}
use e5_linux.Base.Lists.{
  length, get_or, take, drop, All, length-append, length-take, length-drop, take-append_front,
  get_or-append_front, get_or-append_back, get_or-take, get_or-drop, All-append, All-take, All-drop,
  drop-append, take-append, eq_of_get_or, drop-take, drop-drop, take-take_le,
}

abbrev pub IsByte : ℕ → Type 0
IsByte b = b < 256

abbrev pub Bytes : Type 0
Bytes = List ℕ

-- `raw[i]`, at an index in range
abbrev pub byte : Bytes → ℕ → ℕ
byte xs i = get_or xs i 0

-- `raw[i:j]`
abbrev pub slice : ℕ → ℕ → Bytes → Bytes
slice i j xs = take (j - i) (drop i xs)

-- `a == b` on byte strings
unfoldable pub eq_bytes : Bytes → Bytes → Bool
eq_bytes [] [] = true
eq_bytes [] (y ∷ ys) = false
eq_bytes (x ∷ xs) [] = false
eq_bytes (x ∷ xs) (y ∷ ys) = x == y && eq_bytes xs ys

pub eq_bytes→eq : (xs ys : Bytes) → eq_bytes xs ys ≡ true → xs ≡ ys
unfolding eq_bytes
eq_bytes→eq [] [] h = refl
eq_bytes→eq [] (y ∷ ys) h = cc
eq_bytes→eq (x ∷ xs) [] h = cc
eq_bytes→eq (x ∷ xs) (y ∷ ys) h = ground (arith, eq_bytes→eq xs ys)

pub eq_bytes_refl : (xs : Bytes) → eq_bytes xs xs ≡ true
unfolding eq_bytes
eq_bytes_refl [] = refl
eq_bytes_refl (x ∷ xs) = ground (arith, eq_bytes_refl xs)

-- The little-endian number that a byte string stands for, and its writing in `k` bytes.
unfoldable pub le_value : Bytes → ℕ
le_value [] = 0
le_value (b ∷ bs) = b + 256 * le_value bs

unfoldable pub le_bytes : ℕ → ℕ → Bytes
le_bytes zero v = []
le_bytes (suc k) v = v % 256 ∷ le_bytes k (v / 256)

-- `struct.unpack_from` of `w` bytes at `off`, where the buffer is long enough.
unfoldable pub le_at : ℕ → ℕ → Bytes → ℕ
le_at w off xs = le_value (take w (drop off xs))

-- The big-endian number.
unfoldable pub be_value_from : ℕ → Bytes → ℕ
be_value_from acc [] = acc
be_value_from acc (b ∷ bs) = be_value_from (acc * 256 + b) bs

unfoldable pub be_at : ℕ → ℕ → Bytes → ℕ
unfolding be_value_from
be_at w off xs = be_value_from 0 (take w (drop off xs))

-- `raw[i:i + len(new)] = new`, and `struct.pack_into`, within the buffer.
unfoldable pub put_at : ℕ → Bytes → Bytes → Bytes
put_at i new xs = take i xs ++ (new ++ drop (i + length new) xs)

pub length-le_bytes : (k v : ℕ) → length (le_bytes k v) ≡ k
unfolding le_bytes
length-le_bytes zero v = refl
length-le_bytes (suc k) v = ap suc (length-le_bytes k (v / 256))

pub le_bytes-IsByte : (k v : ℕ) → All IsByte (le_bytes k v)
unfolding le_bytes
le_bytes-IsByte zero v = tt
le_bytes-IsByte (suc k) v = (omega arith, le_bytes-IsByte k (v / 256))

-- Reading back what was written.
pub le_value-le_bytes : (k v : ℕ) → v < 256 ^ k → le_value (le_bytes k v) ≡ v
unfolding le_value le_bytes
le_value-le_bytes zero v h = omega arith
le_value-le_bytes (suc k) v h = omega (arith, le_value-le_bytes k (v / 256) (quotient k v h))
  where
    quotient : (k v : ℕ) → v < 256 ^ suc k → v / 256 < 256 ^ k
    quotient k v h = omega arith

module _ (i : ℕ) (new xs : Bytes) (fits : i + length new ≤ length xs) where
  pub length-put_at : length (put_at i new xs) ≡ length xs
  unfolding put_at
  length-put_at = omega (
    arith,
    length-append (take i xs) (new ++ drop (i + length new) xs),
    length-append new (drop (i + length new) xs),
    length-take i xs,
    length-drop (i + length new) xs,
  )

  pub get_or-put_at_before : (j d : ℕ) → j < i → get_or (put_at i new xs) j d ≡ get_or xs j d
  unfolding put_at
  get_or-put_at_before j d h =
      get_or-append_front j (take i xs) _ d (omega (arith, length-take i xs))
      ∙ get_or-take i j xs d h

  pub get_or-put_at_in :
      (j d : ℕ) → j < length new → get_or (put_at i new xs) (i + j) d ≡ get_or new j d
  unfolding put_at
  get_or-put_at_in j d h =
      get_or-append_back (i + j) (take i xs) _ d (omega (arith, length-take i xs))
      ∙ ap (λ (k : ℕ). get_or (new ++ drop (i + length new) xs) k d)
          (omega (arith, length-take i xs))
      ∙ get_or-append_front j new _ d h

  pub get_or-put_at_after :
      (j d : ℕ) → i + length new ≤ j → get_or (put_at i new xs) j d ≡ get_or xs j d
  unfolding put_at
  get_or-put_at_after j d h =
      get_or-append_back j (take i xs) _ d (omega (arith, length-take i xs))
      ∙ get_or-append_back (j - length (take i xs)) new _ d (omega (arith, length-take i xs))
      ∙ get_or-drop (i + length new) _ xs d
      ∙ ap (λ (k : ℕ). get_or xs k d) (omega (arith, length-take i xs))

  pub take-put_at : (n : ℕ) → n ≤ i → take n (put_at i new xs) ≡ take n xs
  unfolding put_at
  take-put_at n h =
      take-append_front n (take i xs) _ (omega (arith, length-take i xs)) ∙ take-take_le n i xs h

  -- What was written is read back whole.
  pub take-drop-put_at : take (length new) (drop i (put_at i new xs)) ≡ new
  unfolding put_at
  take-drop-put_at =
      ap (λ (t : Bytes). take (length new) t)
        (ap (λ (k : ℕ). drop k (put_at i new xs)) (omega (arith, length-take i xs))
          ∙ drop-append (take i xs) _)
      ∙ take-append new _

  pub put_at-IsByte : All IsByte new → All IsByte xs → All IsByte (put_at i new xs)
  unfolding put_at
  put_at-IsByte hn hx =
      All-append IsByte (take i xs) _ (All-take IsByte i xs hx)
        (All-append IsByte new _ hn (All-drop IsByte (i + length new) xs hx))

-- A slice is fixed by its bytes.
pub slice-eq :
    (i j : ℕ) (xs ys : Bytes)
    → length xs ≡ length ys
    → ((k : ℕ) → i ≤ k → k < j → byte xs k ≡ byte ys k)
    → slice i j xs ≡ slice i j ys
slice-eq i j xs ys e h =
    eq_of_get_or (slice i j xs) (slice i j ys) 0 (omega (arith, length-slice xs, length-slice ys))
      λ k lt. at k (omega (arith, length-slice xs))
  where
    length-slice : (zs : Bytes) → length (slice i j zs) ≡ min (j - i) (length zs - i)
    length-slice zs = omega (arith, length-take (j - i) (drop i zs), length-drop i zs)

    at : (k : ℕ) → k < j - i → byte (slice i j xs) k ≡ byte (slice i j ys) k
    at k lt =
        get_or-take (j - i) k (drop i xs) 0 lt
        ∙ get_or-drop i k xs 0
        ∙ h (i + k) (omega arith) (omega arith)
        ∙ sym (get_or-drop i k ys 0)
        ∙ sym (get_or-take (j - i) k (drop i ys) 0 lt)

-- A number in a slice is a number of the whole.
pub le_at-slice :
    (w off i j : ℕ) (xs : Bytes)
    → off + w ≤ j - i
    → le_at w off (slice i j xs) ≡ le_at w (i + off) xs
unfolding le_at
le_at-slice w off i j xs h = ap le_value (
    ap (λ (t : Bytes). take w t) (drop-take off (j - i) (drop i xs))
    ∙ take-take_le w (j - i - off) (drop off (drop i xs)) (omega arith)
    ∙ ap (λ (t : Bytes). take w t) (drop-drop off i xs))
