-- ===== src/Cpio/RoundTrip.antt =====
-- The files that `record` of installer/backend/uninstall_boot.py writes, `entries` reads back.
use e5_linux.Base.{
  ℕ, zero, suc, ◌+◌, ◌^◌, ◌%◌, ◌≤◌, ◌<◌, ◌≡◌, sym, ap, ◌∙◌, Bool, true, false, Option, some, List,
  [], ◌∷◌, ◌++◌, map, All, arith, length, length-append,
}
use e5_linux.Base.Bytes.{Bytes, eq_bytes, eq_bytes_refl}
use e5_linux.Base.Result.{ok}
use e5_linux.Cpio.{
  Entry, trailer, hex, head_of, record_of, records, without_dot, add_entry, entries_from, entries,
}
use e5_linux.Cpio.Pieces.{append_assoc}
use e5_linux.Cpio.Record.{aligned_next, entries_from-record}

-- A file whose name is a text that does not end the archive, with numbers that eight digits hold.
pub record IsFile (is_utf8 : Bytes → Bool) (e : Entry) : Type 0 where
  pub text : is_utf8 e.name ≡ true
  pub other : eq_bytes e.name trailer ≡ false
  pub short : length e.name + 1 < 16 ^ 8
  pub small : length e.content < 16 ^ 8
  pub moded : e.mode < 16 ^ 8

-- The entry that is read back for a file.
abbrev pub read_back : Entry → Entry
read_back e = record { name = without_dot e.name; content = e.content; mode = e.mode }

record_room : (name content : Bytes) (mode ino : ℕ) → 0 < length (record_of name content mode ino)
unfolding record_of head_of
record_room name content mode ino = omega arith

length-records : (es : List Entry) (ino : ℕ) → length es ≤ length (records es ino)
unfolding records
length-records [] ino = omega arith
length-records (e ∷ es) ino = omega (
  arith,
  length-append (record_of e.name e.content e.mode ino) (records es (ino + 1)),
  record_room e.name e.content e.mode ino,
  length-records es (ino + 1),
)

module _ (parse_hex : Bytes → Option ℕ) (is_utf8 : Bytes → Bool)
    (parses : (n : ℕ) → n < 16 ^ 8 → parse_hex (hex n) ≡ some n)
    (ends : is_utf8 trailer ≡ true) where
  Reads : Bytes → ℕ → ℕ → List Entry → Type 0
  Reads archive fuel at es = entries_from parse_hex is_utf8 archive fuel at ≡ ok (map read_back es)

  records-Reads :
      (es : List Entry) (before after : Bytes) (ino fuel : ℕ)
      → All (IsFile is_utf8) es
      → ino + length es < 16 ^ 8
      → length before % 4 ≡ 0
      → length es < fuel
      → Reads (before ++ (records es ino ++ after)) fuel (length before) es
  unfolding Reads records
  records-Reads es before after ino zero files numbered aligned enough = absurd (omega arith)
  records-Reads [] before after ino (suc fuel) files numbered aligned enough =
      entries_from-record parse_hex is_utf8 parses before after trailer [] 0 ino fuel aligned ends
        (omega arith) (omega arith) (omega arith) (omega arith)
      ∙ ap
          (λ (t : Bool).
            add_entry t (record { name = without_dot trailer; content = []; mode = 0 })
              (entries_from parse_hex is_utf8 (before ++ (record_of trailer [] 0 ino ++ after)) fuel
                (length before + length (record_of trailer [] 0 ino))))
          (eq_bytes_refl trailer)
  records-Reads (e ∷ es) before after ino (suc fuel) (file, files) numbered aligned enough =
      let one : Bytes = record_of e.name e.content e.mode ino in
      let more : Bytes = records es (ino + 1) in
      let split : before ++ ((one ++ more) ++ after) ≡ before ++ (one ++ (more ++ after)) =
        ap (λ (t : Bytes). before ++ t) (append_assoc one more after) in
      let onward : before ++ (one ++ (more ++ after)) ≡ (before ++ one) ++ (more ++ after) =
        sym (append_assoc before one (more ++ after)) in
      let place : length (before ++ one) ≡ length before + length one = length-append before one in
      let next_aligned =
        aligned_next parse_hex is_utf8 parses before (more ++ after) e.name e.content e.mode ino
          fuel aligned file.text file.short file.small file.moded (omega arith) in
      let later =
        records-Reads es (before ++ one) after (ino + 1) fuel files (omega arith)
          (ap (λ (n : ℕ). n % 4) place ∙ next_aligned) (omega arith) in
      let later' : entries_from parse_hex is_utf8 (before ++ (one ++ (more ++ after))) fuel
            (length before + length one)
          ≡ ok (map read_back es) =
        ap (λ (t : Bytes). entries_from parse_hex is_utf8 t fuel (length before + length one))
          onward
        ∙ ap (λ (n : ℕ). entries_from parse_hex is_utf8 ((before ++ one) ++ (more ++ after)) fuel n)
            (sym place)
        ∙ later in
      ap (λ (t : Bytes). entries_from parse_hex is_utf8 t (suc fuel) (length before)) split
      ∙ entries_from-record parse_hex is_utf8 parses before (more ++ after) e.name e.content e.mode
          ino fuel aligned file.text file.short file.small file.moded (omega arith)
      ∙ ap
          (λ (t : Bool). add_entry t (read_back e) (
            entries_from parse_hex is_utf8 (before ++ (one ++ (more ++ after))) fuel
              (length before + length one)))
          file.other
      ∙ ap (add_entry false (read_back e)) later'

  -- The archive of any list of files, numbered from any inode on, with the trailer behind them and
  -- any bytes behind the trailer, is read back as the same files in the same order, their names
  -- without a leading "./". A file's name is a text other than the trailer's, and every number of
  -- its head is below 2 ^ 32; int reads back what the format prints.
  pub entries-records :
      (es : List Entry) (after : Bytes) (ino : ℕ)
      → All (IsFile is_utf8) es
      → ino + length es < 16 ^ 8
      → entries parse_hex is_utf8 (records es ino ++ after) ≡ ok (map read_back es)
  unfolding entries Reads
  entries-records es after ino files numbered =
      records-Reads es [] after ino (length (records es ino ++ after) + 1) files numbered
        (omega arith) (omega (arith, length-append (records es ino) after, length-records es ino))
