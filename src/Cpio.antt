-- ===== src/Cpio.antt =====
-- The cpio records of installer/backend/uninstall_boot.py: `record` writes one, `entries` reads an
-- archive, and `overlay` puts the files of a removal together, up to the compression. Texts are
-- their UTF-8 bytes. Python's `int(text, 16)` and the test for UTF-8 are parameters.
pub mod Pieces
pub mod Record
pub mod RoundTrip
pub mod Blocks
pub mod Unpacked
mod Examples
use e5_linux.Base.{
  ℕ, zero, suc, ◌+◌, ◌-◌, ◌*◌, ◌/◌, ◌%◌, ◌^◌, max, Bool, true, false, ◌&&◌, ◌||◌, not, ◌==◌, ltb,
  leb, if◌then◌else◌, Option, none, some, List, [], ◌∷◌, ◌++◌, length, take, drop, get_or,
  replicate,
}
use e5_linux.Base.Bytes.{Bytes, byte, slice, eq_bytes}
use e5_linux.Base.Result.{Result, ok, err, ◌>>=◌, ◌>>◌, raise_if, or_raise}

-- The ValueError lines of `entries`, what `int` and `decode` raise, and the end of the fuel.
pub data CpioError : Type 0 where
  bad_cpio bad_number bad_name not_utf8 truncated out_of_fuel : CpioError

pub record Entry : Type 0 where
  pub name : Bytes
  pub content : Bytes
  pub mode : ℕ

-- b'070701' and b'070702'
abbrev pub magic : Bytes
magic = b'0' ∷ b'7' ∷ b'0' ∷ b'7' ∷ b'0' ∷ b'1' ∷ []

abbrev pub crc_magic : Bytes
crc_magic = b'0' ∷ b'7' ∷ b'0' ∷ b'7' ∷ b'0' ∷ b'2' ∷ []

-- 'TRAILER!!!'
abbrev pub trailer : Bytes
trailer = b'T' ∷ b'R' ∷ b'A' ∷ b'I' ∷ b'L' ∷ b'E' ∷ b'R' ∷ b'!' ∷ b'!' ∷ b'!' ∷ []

-- `f'{n:08x}'`: eight digits, or as many as the number has.
abbrev pub hex_digit : ℕ → ℕ
hex_digit d = if ltb d 10 then 48 + d else 87 + d

unfoldable pub hex_digits : ℕ → ℕ → Bytes
hex_digits zero n = []
hex_digits (suc k) n = hex_digits k (n / 16) ++ (hex_digit (n % 16) ∷ [])

unfoldable pub hex_width : ℕ → ℕ → ℕ
hex_width zero n = 0
hex_width (suc fuel) n = elim (ltb n 16) [ true ↦ 1 | false ↦ 1 + hex_width fuel (n / 16) ]

unfoldable pub hex : ℕ → Bytes
unfolding hex_width
hex n = hex_digits (if ltb n (16 ^ 8) then 8 else hex_width n n) n

unfoldable pub hex_all : List ℕ → Bytes
hex_all [] = []
hex_all (n ∷ ns) = hex n ++ hex_all ns

-- `b'\0'*(-n%4)`
abbrev pub padding : ℕ → Bytes
padding n = replicate ((4 - n % 4) % 4) 0

abbrev pub fields : ℕ → ℕ → ℕ → ℕ → List ℕ
fields ino mode size namesize =
    ino ∷ mode ∷ 0 ∷ 0 ∷ 1 ∷ 0 ∷ size ∷ 0 ∷ 0 ∷ 0 ∷ 0 ∷ namesize ∷ 0 ∷ []

unfoldable pub head_of : Bytes → Bytes → ℕ → ℕ → Bytes
head_of name content mode ino =
    magic ++ (hex_all (fields ino mode (length content) (length name + 1)) ++ (name ++ (0 ∷ [])))

unfoldable pub record_of : Bytes → Bytes → ℕ → ℕ → Bytes
unfolding head_of
record_of name content mode ino =
    let result : Bytes = head_of name content mode ino in
    result ++ (padding (length result) ++ (content ++ padding (length content)))

-- The records of a list of files, numbered from `ino` on, and the last record of `overlay`.
unfoldable pub records : List Entry → ℕ → Bytes
records [] ino = record_of trailer [] 0 ino
records (e ∷ es) ino = record_of e.name e.content e.mode ino ++ records es (ino + 1)

-- `name.removeprefix('./')`
abbrev pub without_dot : Bytes → Bytes
without_dot name = if eq_bytes (take 2 name) (b'.' ∷ b'/' ∷ []) then drop 2 name else name

-- `data[at:].strip(b'\0')` is empty.
abbrev pub is_blank : Bytes → Bool
is_blank [] = true
is_blank (b ∷ bs) = b == 0 && is_blank bs

-- The trailer ends the archive.
abbrev pub add_entry : Bool → Entry → Result CpioError (List Entry) → Result CpioError (List Entry)
add_entry true e more = ok []
add_entry false e more = more >>= λ es. ok (e ∷ es)

module _ (parse_hex : Bytes → Option ℕ) (is_utf8 : Bytes → Bool) where
  -- The numbers from offset `at` on.
  unfoldable pub numbers : Bytes → ℕ → ℕ → Result CpioError (List ℕ)
  numbers content zero at = ok []
  numbers content (suc left) at = do
    n ← or_raise (parse_hex (slice at (at + 8) content)) bad_number
    ns ← numbers content left (at + 8)
    ok (n ∷ ns)

  -- One entry at `at`, with its size, the length of its name and its mode; `rest` reads on.
  unfoldable pub entry_at :
      Bytes → ℕ → List ℕ → (ℕ → Result CpioError (List Entry)) → Result CpioError (List Entry)
  entry_at content at values rest = do
    let size = get_or values 6 0
    let end = at + 110 + get_or values 11 0
    raise_if
        (ltb (get_or values 11 0) 1
          || ltb (length content) end
          || not (byte content (end - 1) == 0))
        bad_name
    let name = slice (at + 110) (end - 1) content
    raise_if (not (is_utf8 name)) not_utf8
    let start = (end + 3) / 4 * 4
    raise_if (ltb (length content) (start + size)) truncated
    add_entry (eq_bytes name trailer)
        (record {
          name = without_dot name;
          content = slice start (start + size) content;
          mode = get_or values 1 0;
        })
        (rest ((start + size + 3) / 4 * 4))

  -- `while at < len(data)`, on fuel. The source yields each entry before it reads the next.
  unfoldable pub entries_from : Bytes → ℕ → ℕ → Result CpioError (List Entry)
  entries_from content zero at = err out_of_fuel
  entries_from content (suc fuel) at =
      if leb (length content) at
      then ok []
      else if not (
            eq_bytes (slice at (at + 6) content) magic
            || eq_bytes (slice at (at + 6) content) crc_magic)
          || ltb (length content) (at + 110)
      then (if is_blank (drop at content) then ok [] else err bad_cpio)
      else (numbers content 13 (at + 6) >>= λ values.
          entry_at content at values (entries_from content fuel))

  unfoldable pub entries : Bytes → Result CpioError (List Entry)
  entries content = entries_from content (length content + 1) 0
