-- ===== src/Cpio/Examples.antt =====
-- An archive of a directory and a file, with a reader of hexadecimal numbers.
use e5_linux.Base.{
  ℕ, zero, suc, ◌+◌, ◌-◌, ◌*◌, ◌/◌, ◌%◌, ◌^◌, ◌<◌, ◌≡◌, refl, ap, ◌∙◌, Bool, true, ltb, lt→ltb,
  if◌then◌else◌, Option, none, some, All, List, [], ◌∷◌, ◌++◌, map, arith, replicate,
}
use e5_linux.Base.Bytes.{Bytes, eq_bytes}
use e5_linux.Base.Result.{ok}
use e5_linux.Cpio.{Entry, hex_digit, hex_digits, hex, hex_all, head_of, record_of, records, entries}
use e5_linux.Cpio.Blocks.{archives, overlay_of}
use e5_linux.Cpio.Unpacked.{overlay_of-archives}
use e5_linux.Cpio.RoundTrip.{IsFile, read_back, entries-records}

abbrev undigit : ℕ → ℕ
undigit c = if ltb c 87 then c - 48 else c - 87

abbrev value_from : ℕ → Bytes → ℕ
value_from acc [] = acc
value_from acc (c ∷ cs) = value_from (acc * 16 + undigit c) cs

abbrev read_hex : Bytes → Option ℕ
read_hex text = some (value_from 0 text)

undigit-hex_digit : (d : ℕ) → d < 16 → undigit (hex_digit d) ≡ d
undigit-hex_digit d h = ground arith

value_from-append :
    (acc : ℕ) (xs : Bytes) (c : ℕ)
    → value_from acc (xs ++ (c ∷ [])) ≡ value_from acc xs * 16 + undigit c
value_from-append acc [] c = refl
value_from-append acc (x ∷ xs) c = value_from-append (acc * 16 + undigit x) xs c

value_from-hex_digits : (k n : ℕ) → n < 16 ^ k → value_from 0 (hex_digits k n) ≡ n
unfolding hex_digits
value_from-hex_digits zero n h = omega arith
value_from-hex_digits (suc k) n h =
    value_from-append 0 (hex_digits k (n / 16)) (hex_digit (n % 16))
    ∙ omega (
      arith,
      value_from-hex_digits k (n / 16) (quotient k n h),
      undigit-hex_digit (n % 16) (omega arith),
    )
  where
    quotient : (k n : ℕ) → n < 16 ^ suc k → n / 16 < 16 ^ k
    quotient k n h = omega arith

read_hex-hex : (n : ℕ) → n < 16 ^ 8 → read_hex (hex n) ≡ some n
unfolding hex
read_hex-hex n h =
    let small : ltb n (16 ^ 8) ≡ true = lt→ltb n (16 ^ 8) h in
    ap some (rw small (value_from-hex_digits 8 n h))

abbrev any_text : Bytes → Bool
any_text name = true

abbrev files : List Entry
files =
    record { name = b'.' ∷ b'/' ∷ b'a' ∷ []; content = []; mode = 0x41c0 }
    ∷ record { name = b'i' ∷ []; content = 1 ∷ 2 ∷ 3 ∷ 4 ∷ 5 ∷ []; mode = 0x81ed }
    ∷ []

files-IsFile : All (IsFile any_text) files
unfolding eq_bytes
files-IsFile = (
  record {
    text = refl;
    other = refl;
    short = omega arith;
    small = omega arith;
    moded = omega arith;
  },
  (
    record {
      text = refl;
      other = refl;
      short = omega arith;
      small = omega arith;
      moded = omega arith;
    },
    tt,
  ),
)

entries-records_example :
    entries read_hex any_text (records files 1 ++ replicate 3 0) ≡ ok (map read_back files)
entries-records_example =
    entries-records read_hex any_text read_hex-hex refl files (replicate 3 0) 1 files-IsFile
      (omega arith)

-- Blocks that are stored with one byte before them.
abbrev store : Bytes → Bytes
store xs = 0 ∷ xs

abbrev unstore : Bytes → Option Bytes
unstore [] = none
unstore (x ∷ xs) = some xs

overlay_of-archives_example :
    (archives store unstore (overlay_of store unstore files) ≡ ok (records files 1 ∷ []))
    × (entries read_hex any_text (records files 1) ≡ ok (map read_back files))
overlay_of-archives_example =
    overlay_of-archives store unstore (λ xs h. refl) (λ xs h. (omega arith, omega arith)) read_hex
      any_text files read_hex-hex refl files-IsFile (omega arith)
      (unfold records record_of head_of hex_all hex hex_digits in omega arith)
