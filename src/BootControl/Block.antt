-- ===== src/BootControl/Block.antt =====
-- What both writers of the block share: a block with two slot bytes, a suffix and its CRC written.
use e5_linux.Base.{
  ℕ, ◌+◌, ◌%◌, ◌/◌, ◌^◌, ◌≤◌, ◌<◌, ◌≡◌, ◌≢◌, sym, ap, ◌∙◌, length, set, take, drop, All, length-set,
  get_or-set_ne, get_or-set_self, All-set, arith,
}
use e5_linux.Base.Bytes.{
  IsByte, Bytes, byte, slice, le_value, le_bytes, le_at, put_at, length-put_at,
  get_or-put_at_before, get_or-put_at_in, get_or-put_at_after, take-put_at, take-drop-put_at,
  put_at-IsByte, length-le_bytes, le_bytes-IsByte, le_value-le_bytes, slice-eq,
}
use native.Mathlib.Nat.{zero-add}
use e5_linux.BootControl.{seal, bcab}

-- A block that the bootloader takes: its length, magic, version, number of slots and CRC.
pub record IsControl (crc32 : Bytes → ℕ) (x : Bytes) : Type 0 where
  pub whole : length x ≡ 32
  pub magic : slice 4 8 x ≡ bcab
  pub version : byte x 8 ≡ 1
  pub slots : byte x 9 % 8 ≡ 2
  pub checked : le_at 4 28 x ≡ crc32 (take 28 x)

-- priority (4 bits), tries_remaining (3), successful_boot (1) of a slot's byte
abbrev pub priority : ℕ → ℕ
priority info = info % 16

abbrev pub tries_left : ℕ → ℕ
tries_left info = info / 16 % 8

abbrev pub successful : ℕ → ℕ
successful info = info / 128

module _ (crc32 : Bytes → ℕ) (crc_u32 : (l : Bytes) → crc32 l < 2 ^ 32) where
  module _ (x : Bytes) (whole : length x ≡ 32) where
    stamp : Bytes
    stamp = le_bytes 4 (crc32 (take 28 x))

    stamp_fits : 28 + length stamp ≤ length x
    unfolding stamp
    stamp_fits = omega (arith, length-le_bytes 4 (crc32 (take 28 x)))

    pub length-seal : length (seal crc32 x) ≡ 32
    unfolding seal stamp
    length-seal = omega (arith, length-put_at 28 stamp x stamp_fits)

    pub byte-seal : (k : ℕ) → k < 28 → byte (seal crc32 x) k ≡ byte x k
    unfolding seal stamp
    byte-seal k h = get_or-put_at_before 28 stamp x stamp_fits k 0 h

    pub take-seal : take 28 (seal crc32 x) ≡ take 28 x
    unfolding seal stamp
    take-seal = take-put_at 28 stamp x stamp_fits 28 (omega arith)

    pub le_at-seal : le_at 4 28 (seal crc32 x) ≡ crc32 (take 28 (seal crc32 x))
    unfolding seal stamp le_at
    le_at-seal =
        ap le_value (
          ap (λ (n : ℕ). take n (drop 28 (seal crc32 x)))
            (sym (length-le_bytes 4 (crc32 (take 28 x))))
          ∙ take-drop-put_at 28 stamp x stamp_fits)
        ∙ le_value-le_bytes 4 (crc32 (take 28 x)) (crc_u32 (take 28 x))
        ∙ ap crc32 (sym take-seal)

    pub seal-IsByte : All IsByte x → All IsByte (seal crc32 x)
    unfolding seal stamp
    seal-IsByte h = put_at-IsByte 28 stamp x stamp_fits (le_bytes-IsByte 4 (crc32 (take 28 x))) h

  -- A suffix and two slot bytes written into a block, and the CRC renewed.
  module _ (x suffix : Bytes) (i j u v : ℕ) (whole : length x ≡ 32) (four : length suffix ≡ 4)
      (i_in : (12 ≤ i) × (i < 28)) (j_in : (12 ≤ j) × (j < 28)) (apart : i ≢ j) where
    unsealed : Bytes
    unsealed = set (set (put_at 0 suffix x) i u) j v

    length-named : length (put_at 0 suffix x) ≡ 32
    length-named = omega (arith, length-put_at 0 suffix x (omega arith))

    length-unsealed : length unsealed ≡ 32
    unfolding unsealed
    length-unsealed =
        length-set (set (put_at 0 suffix x) i u) j v
        ∙ length-set (put_at 0 suffix x) i u
        ∙ length-named

    byte-unsealed : (k : ℕ) → 4 ≤ k → k ≢ i → k ≢ j → byte unsealed k ≡ byte x k
    unfolding unsealed
    byte-unsealed k h ni nj =
        get_or-set_ne (set (put_at 0 suffix x) i u) j k v 0 (λ e. nj (sym e))
        ∙ get_or-set_ne (put_at 0 suffix x) i k u 0 (λ e. ni (sym e))
        ∙ get_or-put_at_after 0 suffix x (omega arith) k 0 (omega arith)

    pub byte-rewritten :
        (k : ℕ)
        → 4 ≤ k
        → k < 28
        → k ≢ i
        → k ≢ j
        → byte (seal crc32 (set (set (put_at 0 suffix x) i u) j v)) k ≡ byte x k
    unfolding unsealed
    byte-rewritten k lo hi ni nj =
        byte-seal unsealed length-unsealed k hi ∙ byte-unsealed k lo ni nj

    pub byte-rewritten_first : byte (seal crc32 (set (set (put_at 0 suffix x) i u) j v)) i ≡ u
    unfolding unsealed
    byte-rewritten_first =
        byte-seal unsealed length-unsealed i i_in.1
        ∙ get_or-set_ne (set (put_at 0 suffix x) i u) j i v 0 (λ e. apart (sym e))
        ∙ get_or-set_self (put_at 0 suffix x) i u 0 (omega (arith, length-named))

    pub byte-rewritten_second : byte (seal crc32 (set (set (put_at 0 suffix x) i u) j v)) j ≡ v
    unfolding unsealed
    byte-rewritten_second =
        byte-seal unsealed length-unsealed j j_in.1
        ∙ get_or-set_self (set (put_at 0 suffix x) i u) j v 0
            (omega (arith, length-named, length-set (put_at 0 suffix x) i u))

    pub byte-rewritten_name :
        (k : ℕ)
        → k < 4
        → byte (seal crc32 (set (set (put_at 0 suffix x) i u) j v)) k ≡ byte suffix k
    unfolding unsealed
    byte-rewritten_name k h =
        byte-seal unsealed length-unsealed k (omega arith)
        ∙ get_or-set_ne (set (put_at 0 suffix x) i u) j k v 0 (omega arith)
        ∙ get_or-set_ne (put_at 0 suffix x) i k u 0 (omega arith)
        ∙ ap (λ (n : ℕ). byte (put_at 0 suffix x) n) (sym (zero-add k))
        ∙ get_or-put_at_in 0 suffix x (omega arith) k 0 (omega arith)

    pub rewritten-IsControl :
        IsControl crc32 x → IsControl crc32 (seal crc32 (set (set (put_at 0 suffix x) i u) j v))
    unfolding unsealed
    rewritten-IsControl c = record {
      whole = length-seal unsealed length-unsealed;
      magic =
          slice-eq 4 8 (seal crc32 unsealed) x (omega (arith, length-seal unsealed length-unsealed))
            (λ k lo hi. byte-rewritten k lo (omega arith) (omega arith) (omega arith))
          ∙ c.magic;
      version =
          byte-rewritten 8 (omega arith) (omega arith) (omega arith) (omega arith) ∙ c.version;
      slots =
          ap (λ (n : ℕ). n % 8)
            (byte-rewritten 9 (omega arith) (omega arith) (omega arith) (omega arith))
          ∙ c.slots;
      checked = le_at-seal unsealed length-unsealed;
    }

    pub rewritten-IsByte :
        All IsByte suffix
        → IsByte u
        → IsByte v
        → All IsByte x
        → All IsByte (seal crc32 (set (set (put_at 0 suffix x) i u) j v))
    unfolding unsealed
    rewritten-IsByte hs hu hv hx = seal-IsByte unsealed length-unsealed (
        All-set IsByte (set (put_at 0 suffix x) i u) j v
          (All-set IsByte (put_at 0 suffix x) i u (put_at-IsByte 0 suffix x (omega arith) hs hx) hu)
          hv)
