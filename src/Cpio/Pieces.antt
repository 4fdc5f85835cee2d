-- ===== src/Cpio/Pieces.antt =====
-- Pieces of a concatenation, and the lengths of a record of installer/backend/uninstall_boot.py.
use e5_linux.Base.{
  ℕ, zero, suc, ◌+◌, ◌-◌, ◌*◌, ◌/◌, ◌%◌, ◌^◌, ◌<◌, ◌≡◌, refl, sym, ap, ◌∙◌, subst, Bool, true, ltb,
  lt→ltb, Option, some, List, [], ◌∷◌, ◌++◌, All, arith, length, take, drop, get_or, length-append,
  length-replicate, drop-append, take-append, get_or-append_back,
}
use e5_linux.Base.Bytes.{Bytes, byte, slice}
use e5_linux.Base.Result.{Result, ok, ◌>>=◌, or_raise}
use e5_linux.Cpio.{CpioError, bad_number, hex_digits, hex, hex_all, padding, numbers}

pub append_assoc : (xs ys zs : Bytes) → (xs ++ ys) ++ zs ≡ xs ++ (ys ++ zs)
append_assoc [] ys zs = refl
append_assoc (x ∷ xs) ys zs = ap (λ (t : Bytes). x ∷ t) (append_assoc xs ys zs)

-- The piece between what comes before it and what comes after it.
pub slice-piece :
    (before piece after : Bytes) (i j : ℕ)
    → i ≡ length before
    → j ≡ length before + length piece
    → slice i j (before ++ (piece ++ after)) ≡ piece
slice-piece before piece after i j ei ej =
    let width : j - i ≡ length piece = omega arith in
    ap (λ (n : ℕ). take n (drop i (before ++ (piece ++ after)))) width
    ∙ ap (λ (n : ℕ). take (length piece) (drop n (before ++ (piece ++ after)))) ei
    ∙ ap (λ (t : Bytes). take (length piece) t) (drop-append before (piece ++ after))
    ∙ take-append piece after

pub byte-piece :
    (before after : Bytes) (b i : ℕ) → i ≡ length before → byte (before ++ (b ∷ after)) i ≡ b
byte-piece before after b i e =
    get_or-append_back i before (b ∷ after) 0 (omega arith)
    ∙ ap (λ (k : ℕ). get_or (b ∷ after) k 0)
        (let none_left : i - length before ≡ 0 = omega arith in none_left)

pub length-hex_digits : (k n : ℕ) → length (hex_digits k n) ≡ k
unfolding hex_digits
length-hex_digits zero n = refl
length-hex_digits (suc k) n =
    length-append (hex_digits k (n / 16)) _ ∙ omega (arith, length-hex_digits k (n / 16))

pub length-hex : (n : ℕ) → n < 16 ^ 8 → length (hex n) ≡ 8
unfolding hex
length-hex n h =
    let small : ltb n (16 ^ 8) ≡ true = lt→ltb n (16 ^ 8) h in rw small (length-hex_digits 8 n)

pub length-hex_all : (ns : List ℕ) → All (λ n. n < 16 ^ 8) ns → length (hex_all ns) ≡ 8 * length ns
unfolding hex_all
length-hex_all [] h = omega arith
length-hex_all (n ∷ ns) (hn, h) =
    length-append (hex n) (hex_all ns) ∙ omega (arith, length-hex n hn, length-hex_all ns h)

pub length-padding : (n : ℕ) → length (padding n) ≡ (4 - n % 4) % 4
length-padding n = length-replicate {A = ℕ} ((4 - n % 4) % 4) 0

module _ (parse_hex : Bytes → Option ℕ) (is_utf8 : Bytes → Bool)
    (parses : (n : ℕ) → n < 16 ^ 8 → parse_hex (hex n) ≡ some n) where
  -- The numbers of a head are read back.
  pub numbers-hex_all :
      (ns : List ℕ) (before after : Bytes) (at : ℕ)
      → All (λ n. n < 16 ^ 8) ns
      → at ≡ length before
      → numbers parse_hex is_utf8 (before ++ (hex_all ns ++ after)) (length ns) at ≡ ok ns
  unfolding numbers hex_all
  numbers-hex_all [] before after at h e = refl
  numbers-hex_all (n ∷ ns) before after at (hn, h) e =
      let content : Bytes = before ++ ((hex n ++ hex_all ns) ++ after) in
      let split : content ≡ before ++ (hex n ++ (hex_all ns ++ after)) =
        ap (λ (t : Bytes). before ++ t) (append_assoc (hex n) (hex_all ns) after) in
      let first : slice at (at + 8) content ≡ hex n =
        ap (λ (t : Bytes). slice at (at + 8) t) split
        ∙ slice-piece before (hex n) (hex_all ns ++ after) at (at + 8) e
            (omega (arith, length-hex n hn)) in
      let onward : content ≡ (before ++ hex n) ++ (hex_all ns ++ after) =
        split ∙ sym (append_assoc before (hex n) (hex_all ns ++ after)) in
      let later : numbers parse_hex is_utf8 content (length ns) (at + 8) ≡ ok ns =
        subst (λ (t : Bytes). numbers parse_hex is_utf8 t (length ns) (at + 8) ≡ ok ns) (sym onward)
          (numbers-hex_all ns (before ++ hex n) after (at + 8) h
            (omega (arith, length-append before (hex n), length-hex n hn))) in
      ap
        (λ (r : Option ℕ). or_raise r bad_number >>= λ m.
          numbers parse_hex is_utf8 content (length ns) (at + 8) >>= λ ms. ok (m ∷ ms))
        (ap parse_hex first ∙ parses n hn)
      ∙ ap (λ (r : Result CpioError (List ℕ)). r >>= λ ms. ok (n ∷ ms)) later
