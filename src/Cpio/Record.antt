-- ===== src/Cpio/Record.antt =====
-- One record that `record` of installer/backend/uninstall_boot.py writes, read by a round of the
-- loop of `entries`.
use e5_linux.Base.{
  ℕ, suc, ◌+◌, ◌-◌, ◌*◌, ◌/◌, ◌%◌, ◌^◌, ◌≤◌, ◌<◌, ◌≡◌, refl, sym, ap, ◌∙◌, Bool, true, false, not,
  ◌||◌, ◌==◌, ltb, leb, Option, some, List, [], ◌∷◌, ◌++◌, All, arith, length, get_or,
  length-append,
}
use e5_linux.Base.Bytes.{Bytes, byte, slice, eq_bytes, eq_bytes_refl}
use e5_linux.Base.Result.{Result, ok}
use e5_linux.Cpio.{
  CpioError, Entry, magic, trailer, hex, hex_all, padding, fields, head_of, record_of, without_dot,
  add_entry, numbers, entry_at, entries_from,
}
use e5_linux.Cpio.Pieces.{
  append_assoc, slice-piece, byte-piece, length-hex_all, length-padding, numbers-hex_all,
}

not_less : (a b : ℕ) → b ≤ a → ltb a b ≡ false
not_less a b h = ground arith

more_left : (a b : ℕ) → b < a → leb a b ≡ false
more_left a b h = ground arith

module _ (parse_hex : Bytes → Option ℕ) (is_utf8 : Bytes → Bool)
    (parses : (n : ℕ) → n < 16 ^ 8 → parse_hex (hex n) ≡ some n) where
  entry_at-reads :
      (content : Bytes) (at : ℕ) (values : List ℕ) (rest : ℕ → Result CpioError (List Entry))
      (name piece : Bytes) (start : ℕ)
      → (ltb (get_or values 11 0) 1
          || ltb (length content) (at + 110 + get_or values 11 0)
          || not (byte content (at + 110 + get_or values 11 0 - 1) == 0))
        ≡ false
      → slice (at + 110) (at + 110 + get_or values 11 0 - 1) content ≡ name
      → is_utf8 name ≡ true
      → (at + 110 + get_or values 11 0 + 3) / 4 * 4 ≡ start
      → ltb (length content) (start + get_or values 6 0) ≡ false
      → slice start (start + get_or values 6 0) content ≡ piece
      → entry_at parse_hex is_utf8 content at values rest
        ≡ add_entry
            (eq_bytes name trailer)
            (record { name = without_dot name; content = piece; mode = get_or values 1 0 })
            (rest ((start + get_or values 6 0 + 3) / 4 * 4))
  unfolding entry_at
  entry_at-reads content at values rest name piece start h1 h2 h3 h4 h5 h6 =
      simp (h1, h2, h3, h4, h5, h6) refl

  module _ (before after name piece : Bytes) (mode ino fuel : ℕ) (aligned : length before % 4 ≡ 0)
      (text : is_utf8 name ≡ true) (short : length name + 1 < 16 ^ 8)
      (small : length piece < 16 ^ 8) (moded : mode < 16 ^ 8) (numbered : ino < 16 ^ 8) where
    values : List ℕ
    values = fields ino mode (length piece) (length name + 1)

    digits : Bytes
    digits = hex_all values

    head : Bytes
    head = head_of name piece mode ino

    tail : Bytes
    tail = padding (length head) ++ (piece ++ padding (length piece))

    content : Bytes
    content = before ++ (record_of name piece mode ino ++ after)

    values_small : All (λ n. n < 16 ^ 8) values
    unfolding values
    values_small =
        let zero_small : 0 < 16 ^ 8 = omega arith in
        let one_small : 1 < 16 ^ 8 = omega arith in
        (
          numbered,
          (
            moded,
            (
              zero_small,
              (
                zero_small,
                (
                  one_small,
                  (
                    zero_small,
                    (
                      small,
                      (
                        zero_small,
                        (zero_small, (zero_small, (zero_small, (short, (zero_small, tt))))),
                      ),
                    ),
                  ),
                ),
              ),
            ),
          ),
        )

    length-digits : length digits ≡ 104
    unfolding digits values
    length-digits = length-hex_all values values_small

    length-head : length head ≡ 111 + length name
    unfolding head head_of digits values
    length-head =
        length-append magic (digits ++ (name ++ (0 ∷ [])))
        ∙ omega (
          arith,
          length-append digits (name ++ (0 ∷ [])),
          length-append name (0 ∷ []),
          length-digits,
        )

    length-tail :
        length tail
        ≡ (4 - (111 + length name) % 4) % 4 + (length piece + (4 - length piece % 4) % 4)
    unfolding tail
    length-tail =
        length-append (padding (length head)) (piece ++ padding (length piece))
        ∙ omega (
          arith,
          length-append piece (padding (length piece)),
          length-padding (length head),
          length-padding (length piece),
          ap (λ (n : ℕ). (4 - n % 4) % 4) length-head,
        )

    length-record : length (record_of name piece mode ino) ≡ length head + length tail
    unfolding record_of head tail
    length-record = length-append head tail

    length-content : length content ≡ length before + (length head + length tail + length after)
    unfolding content
    length-content =
        length-append before (record_of name piece mode ino ++ after)
        ∙ omega (arith, length-append (record_of name piece mode ino) after, length-record)

    -- The archive, split at the pieces of the record.
    at_head : content ≡ before ++ (head ++ (tail ++ after))
    unfolding content record_of head tail
    at_head = ap (λ (t : Bytes). before ++ t) (append_assoc head tail after)

    at_magic : content ≡ before ++ (magic ++ (digits ++ (name ++ (0 ∷ (tail ++ after)))))
    unfolding head head_of digits values
    at_magic =
        at_head
        ∙ ap (λ (t : Bytes). before ++ t)
            (append_assoc magic (digits ++ (name ++ (0 ∷ []))) (tail ++ after)
              ∙ ap (λ (t : Bytes). magic ++ t)
                  (append_assoc digits (name ++ (0 ∷ [])) (tail ++ after)
                    ∙ ap (λ (t : Bytes). digits ++ t) (append_assoc name (0 ∷ []) (tail ++ after))))

    at_digits : content ≡ (before ++ magic) ++ (digits ++ (name ++ (0 ∷ (tail ++ after))))
    at_digits =
        at_magic ∙ sym (append_assoc before magic (digits ++ (name ++ (0 ∷ (tail ++ after)))))

    at_name : content ≡ ((before ++ magic) ++ digits) ++ (name ++ (0 ∷ (tail ++ after)))
    at_name =
        at_digits ∙ sym (append_assoc (before ++ magic) digits (name ++ (0 ∷ (tail ++ after))))

    at_zero : content ≡ (((before ++ magic) ++ digits) ++ name) ++ (0 ∷ (tail ++ after))
    at_zero = at_name ∙ sym (append_assoc ((before ++ magic) ++ digits) name (0 ∷ (tail ++ after)))

    at_piece :
        content
        ≡ ((before ++ head) ++ padding (length head))
          ++ (piece ++ (padding (length piece) ++ after))
    unfolding tail
    at_piece =
        at_head
        ∙ ap (λ (t : Bytes). before ++ (head ++ t))
            (append_assoc (padding (length head)) (piece ++ padding (length piece)) after
              ∙ ap (λ (t : Bytes). padding (length head) ++ t)
                  (append_assoc piece (padding (length piece)) after))
        ∙ sym (append_assoc before head _)
        ∙ sym (append_assoc (before ++ head) (padding (length head)) _)

    length-to_digits : length (before ++ magic) ≡ length before + 6
    length-to_digits = length-append before magic

    length-to_name : length ((before ++ magic) ++ digits) ≡ length before + 110
    length-to_name =
        length-append (before ++ magic) digits ∙ omega (arith, length-to_digits, length-digits)

    start : ℕ
    start = length before + (111 + length name) + (4 - (111 + length name) % 4) % 4

    length-to_piece : length ((before ++ head) ++ padding (length head)) ≡ start
    unfolding start
    length-to_piece =
        length-append (before ++ head) (padding (length head))
        ∙ omega (
          arith,
          length-append before head,
          length-head,
          length-padding (length head),
          ap (λ (n : ℕ). (4 - n % 4) % 4) length-head,
        )

    next_at : ℕ
    next_at = length before + length (record_of name piece mode ino)

    entry_there :
        (rest : ℕ → Result CpioError (List Entry))
        → entry_at parse_hex is_utf8 content (length before) values rest
          ≡ add_entry
              (eq_bytes name trailer)
              (record { name = without_dot name; content = piece; mode = mode })
              (rest ((start + length piece + 3) / 4 * 4))
    unfolding values
    entry_there rest =
        entry_at-reads content (length before) values rest name piece start sound named text begun
          whole there
      where
        end : ℕ
        end = length before + 110 + (length name + 1)

        last_byte : byte content (end - 1) ≡ 0
        last_byte =
            ap (λ (t : Bytes). byte t (end - 1)) at_zero
            ∙ byte-piece (((before ++ magic) ++ digits) ++ name) (tail ++ after) 0 (end - 1)
                (omega (arith, length-append ((before ++ magic) ++ digits) name, length-to_name))

        sound :
            (ltb (length name + 1) 1
              || ltb (length content) end
              || not (byte content (end - 1) == 0))
            ≡ false
        sound =
            let t1 : ltb (length name + 1) 1 ≡ false = not_less (length name + 1) 1 (omega arith) in
            let t2 : ltb (length content) end ≡ false =
              not_less (length content) end (omega (arith, length-content, length-head)) in
            rw (t1, t2, last_byte) refl

        named : slice (length before + 110) (end - 1) content ≡ name
        named =
            ap (λ (t : Bytes). slice (length before + 110) (end - 1) t) at_name
            ∙ slice-piece ((before ++ magic) ++ digits) name (0 ∷ (tail ++ after))
                (length before + 110) (end - 1) (omega (arith, length-to_name))
                (omega (arith, length-to_name))

        begun : (end + 3) / 4 * 4 ≡ start
        begun = unfold start in omega arith

        whole : ltb (length content) (start + length piece) ≡ false
        whole =
            not_less (length content) (start + length piece)
              (unfold start in omega (arith, length-content, length-head, length-tail))

        there : slice start (start + length piece) content ≡ piece
        there =
            ap (λ (t : Bytes). slice start (start + length piece) t) at_piece
            ∙ slice-piece ((before ++ head) ++ padding (length head)) piece
                (padding (length piece) ++ after) start (start + length piece) (sym length-to_piece)
                (omega (arith, length-to_piece))

    onward : (start + length piece + 3) / 4 * 4 ≡ next_at
    unfolding start next_at
    onward = omega (arith, length-record, length-head, length-tail)

    pub aligned_next : (length before + length (record_of name piece mode ino)) % 4 ≡ 0
    unfolding next_at
    aligned_next = omega (arith, length-record, length-head, length-tail)

    numbers_there : numbers parse_hex is_utf8 content 13 (length before + 6) ≡ ok values
    unfolding values digits
    numbers_there =
        ap (λ (t : Bytes). numbers parse_hex is_utf8 t 13 (length before + 6)) at_digits
        ∙ numbers-hex_all parse_hex is_utf8 parses values (before ++ magic)
            (name ++ (0 ∷ (tail ++ after))) (length before + 6) values_small (sym length-to_digits)

    pub entries_from-record :
        (let archive = before ++ (record_of name piece mode ino ++ after) in
          entries_from parse_hex is_utf8 archive (suc fuel) (length before)
          ≡ add_entry
              (eq_bytes name trailer)
              (record { name = without_dot name; content = piece; mode = mode })
              (entries_from parse_hex is_utf8 archive fuel
                (length before + length (record_of name piece mode ino))))
    unfolding entries_from content next_at
    entries_from-record =
        let t0 : leb (length content) (length before) ≡ false =
          more_left (length content) (length before) (omega (arith, length-content, length-head)) in
        let t1 : slice (length before) (length before + 6) content ≡ magic =
          ap (λ (t : Bytes). slice (length before) (length before + 6) t) at_magic
          ∙ slice-piece before magic (digits ++ (name ++ (0 ∷ (tail ++ after)))) (length before)
              (length before + 6) refl refl in
        let t2 : ltb (length content) (length before + 110) ≡ false =
          not_less (length content) (length before + 110)
            (omega (arith, length-content, length-head)) in
        let t3 : numbers parse_hex is_utf8 content 13 (length before + 6) ≡ ok values =
          numbers_there in
        simp (t0, t1, eq_bytes_refl magic, t2, t3)
          (entry_there (entries_from parse_hex is_utf8 content fuel)
            ∙ ap
                (λ (k : ℕ).
                  add_entry (eq_bytes name trailer)
                    (record { name = without_dot name; content = piece; mode = mode })
                    (entries_from parse_hex is_utf8 content fuel k))
                onward)
