-- ===== src/Removal/Image/Pending.antt =====
-- What build of installer/backend/uninstall_boot.py makes, and how inspect_linux_boot answers to it.
use e5_linux.Base.{
  ℕ, zero, suc, ◌+◌, ◌-◌, ◌*◌, ◌/◌, ◌%◌, ◌^◌, ◌≤◌, ◌<◌, ◌≡◌, ◌≢◌, refl, sym, ap, ◌∙◌, subst, Bool,
  true, false, ◌||◌, ltb, leb, Option, none, [], ◌∷◌, ◌++◌, length, take, drop, replicate,
  length-append, length-take, length-drop, length-replicate, take-append_front, take-append, arith,
  eq_of_not,
}
use e5_linux.Base.Bytes.{Bytes, slice, eq_bytes, le_bytes, put_at, length-put_at, length-le_bytes}
use e5_linux.Base.Result.{ok, >>=-eq-ok, raise_if-eq-ok, or_raise, ok-injective}
use e5_linux.Gpt.{before_nul}
use e5_linux.BootImage.{
  Family, Installed, e5, mu300, other, uninstall_option, limit_of, ljust, has_nul, has_word, words,
  split_from, emit, inspect_linux_boot,
}
use e5_linux.BootImage.Words.{words-append, has_word-append, has_nul-before_nul, has_nul-append}
use e5_linux.BootImage.Inspect.{command_of, inspect_linux_boot-IsInstalled}
use e5_linux.BootImage.Mark.{text_of, spliced, length-ljust, before_nul-ljust}
use e5_linux.Removal.Image.{
  FileSet, be_bytes, image_size, pending_header, body_of, footer_of, unpack, init_of, hooked,
  assemble, build, not_verified, bad_bounds, no_init, no_room, too_long, overlaps,
}

length-be_bytes : (k v : ℕ) → length (be_bytes k v) ≡ k
unfolding be_bytes
length-be_bytes zero v = refl
length-be_bytes (suc k) v =
    omega (arith, length-append (be_bytes k (v / 256)) (v % 256 ∷ []), length-be_bytes k (v / 256))

length-ljust_le : (n : ℕ) (u : Bytes) → length u ≤ n → length (ljust n u) ≡ n
length-ljust_le n u h =
    omega (
      arith,
      length-append u (replicate (n - length u) 0),
      length-replicate {A = ℕ} (n - length u) 0,
    )

not_leb→lt : (a b : ℕ) → leb a b ≡ false → b < a
not_leb→lt a b h = ground arith

not_ltb→le : (a b : ℕ) → ltb a b ≡ false → b ≤ a
not_ltb→le a b h = ground arith

limit_of-le : (family : Family) → limit_of family ≤ 56 * 0x100000
limit_of-le e5 = omega arith
limit_of-le mu300 = omega arith
limit_of-le other = omega arith

-- The word of a removal is in the command line of the header.
abbrev IsPending : Bytes → Type 0
IsPending header = has_word uninstall_option (command_of header) ≡ true

or_right : (a b : Bool) → b ≡ true → (a || b) ≡ true
or_right true b h = refl
or_right false b h = h

option_is_word : has_word uninstall_option (words uninstall_option) ≡ true
unfolding has_word words split_from emit eq_bytes
option_is_word = refl

module _ (base : Bytes) (size : ℕ) (whole : 4096 ≤ length base) where
  text : Bytes
  text = before_nul (slice 44 1580 base) ++ (32 ∷ uninstall_option)

  patched : Bytes
  patched = put_at 12 (le_bytes 4 size) (take 4096 base)

  length-patched : length patched ≡ 4096
  unfolding patched
  length-patched = omega (
    arith,
    length-put_at 12 (le_bytes 4 size) (take 4096 base)
        (omega (arith, length-le_bytes 4 size, length-take 4096 base)),
    length-take 4096 base,
  )

  module _ (short : length text < 1536) where
    header : Bytes
    unfolding text
    header = pending_header base size text

    length-header : length header ≡ 4096
    unfolding header pending_header patched text
    length-header = omega (
      arith,
      length-append (take 44 patched) (ljust 1536 text ++ drop 1580 patched),
      length-append (ljust 1536 text) (drop 1580 patched),
      length-ljust text short,
      length-take 44 patched,
      length-drop 1580 patched,
      length-patched,
    )

    text_of-header : text_of header ≡ text
    unfolding header pending_header patched text
    text_of-header =
        ap before_nul (
          spliced (ljust 1536 text) patched (length-ljust text short)
            (omega (arith, length-patched)))
        ∙ before_nul-ljust text short (
            has_nul-append (before_nul (slice 44 1580 base)) (32 ∷ uninstall_option)
            ∙ (unfold has_nul in rw (has_nul-before_nul (slice 44 1580 base)) refl))

    header-IsPending : IsPending header
    header-IsPending =
        ap (λ (t : Bytes). has_word uninstall_option (words t)) text_of-header
        ∙ (unfold text in
            ap (has_word uninstall_option)
              (words-append (before_nul (slice 44 1580 base)) uninstall_option)
            ∙ has_word-append uninstall_option (words (before_nul (slice 44 1580 base)))
                (words uninstall_option)
            ∙ or_right (has_word uninstall_option (words (before_nul (slice 44 1580 base))))
                (has_word uninstall_option (words uninstall_option)) option_is_word)

length-footer_of :
    (base : Bytes) (offset size : ℕ) → 64 ≤ length base → length (footer_of base offset size) ≡ 64
unfolding footer_of
length-footer_of base offset size h =
    let three : length (be_bytes 8 offset ++ (be_bytes 8 offset ++ be_bytes 8 size)) ≡ 24 = omega (
      arith,
      length-append (be_bytes 8 offset) (be_bytes 8 offset ++ be_bytes 8 size),
      length-append (be_bytes 8 offset) (be_bytes 8 size),
      length-be_bytes 8 offset,
      length-be_bytes 8 size,
    ) in
    omega (
      arith,
      length-put_at 12 (be_bytes 8 offset ++ (be_bytes 8 offset ++ be_bytes 8 size))
          (drop (length base - 64) base)
          (omega (arith, three, length-drop (length base - 64) base)),
      length-drop (length base - 64) base,
    )

take_front : (n : ℕ) (xs ys zs : Bytes) → n ≤ length xs → take n xs ≡ zs → take n (xs ++ ys) ≡ zs
take_front n xs ys zs h e = take-append_front n xs ys h ∙ e

front_of :
    (n p q : ℕ) (header rest extra foot : Bytes)
    → length header ≡ n
    → take n (ljust q (ljust p (header ++ rest) ++ extra) ++ foot) ≡ header
front_of n p q header rest extra foot h =
    let inner : Bytes = header ++ rest in
    let body : Bytes = ljust p inner in
    let h1 : n ≤ length inner = omega (arith, length-append header rest) in
    let h2 : n ≤ length body =
      omega (arith, length-append inner (replicate (p - length inner) 0)) in
    let h3 : n ≤ length (body ++ extra) = omega (arith, length-append body extra) in
    let h4 : n ≤ length (ljust q (body ++ extra)) =
      omega (arith, length-append (body ++ extra) (replicate (q - length (body ++ extra)) 0)) in
    take_front n (ljust q (body ++ extra)) foot header h4 (
      take_front n (body ++ extra) (replicate (q - length (body ++ extra)) 0) header h3 (
        take_front n body extra header h2 (
          take_front n inner (replicate (p - length inner) 0) header h1
            (subst (λ (k : ℕ). take k inner ≡ header) h (take-append header rest)))))

-- The parts of what assemble returns.
module _ (base : Bytes) (family : Family) (start avb avb_size : ℕ) (ram image : Bytes)
    (long : 4096 ≤ length base) (e : assemble base family start avb avb_size ram ≡ ok image) where
  assemble-IsPending :
      IsPending (take 4096 image)
      × (limit_of family + 64 ≤ length base → length image ≡ length base)
  unfolding assemble body_of text header
  assemble-IsPending =
      let command : Bytes = before_nul (slice 44 1580 base) ++ (32 ∷ uninstall_option) in
      let (fits, e1) = raise_if-eq-ok (leb (2 ^ 32) (length ram)) too_long _ e in
      let (room, e2) = raise_if-eq-ok (leb 1536 (length command)) no_room _ e1 in
      let head : Bytes = pending_header base (length ram) command in
      let body : Bytes = body_of head base start ram in
      let whole : Bytes = body ++ slice avb (avb + avb_size) base in
      let (clear, e3) = raise_if-eq-ok (ltb (limit_of family) (length whole)) overlaps _ e2 in
      let foot : Bytes = footer_of base (length body) avb_size in
      let short : length command < 1536 = not_leb→lt 1536 (length command) room in
      let made : ljust (length base - 64) whole ++ foot ≡ image = ok-injective _ image e3 in
      let front : take 4096 image ≡ head =
        ap (take 4096) (sym made)
        ∙ front_of 4096 _ (length base - 64) head (slice 4096 start base ++ ram)
            (slice avb (avb + avb_size) base) foot (length-header base (length ram) long short) in
      (
        subst IsPending (sym front) (header-IsPending base (length ram) long short),
        λ large.
            ap length (sym made)
            ∙ omega (
              arith,
              length-append (ljust (length base - 64) whole) foot,
              length-footer_of base (length body) avb_size (omega arith),
              length-ljust_le (length base - 64) whole
                  (omega (arith, not_ltb→le (limit_of family) (length whole) clear)),
            ),
      )

  -- Of whatever base of at least a header's size an image is made, inspect_linux_boot does not
  -- accept its header as that of an installed system, for no family, in no slot and with no tail: it
  -- asks for a removal.
  pub assemble-refused :
      (sha256 : Bytes → Bytes) (tail : Bytes) (size : ℕ) (family' : Family) (slot_ok : Bool)
      (info : Installed)
      → inspect_linux_boot sha256 (take 4096 image) tail size family' slot_ok ≢ ok info
  assemble-refused sha256 tail size family' slot_ok info h = cc (
    assemble-IsPending.0,
    (inspect_linux_boot-IsInstalled sha256 (take 4096 image) tail size family' slot_ok info
        h).not_uninstalling,
  )

second : (a b c d e : Bool) → ((((a || b) || c) || d) || e) ≡ false → b ≡ false
second a b c d e h = ground arith

module _ (compress : Bytes → Bytes) (decompress : Bytes → Option Bytes)
    (parse_hex : Bytes → Option ℕ) (is_utf8 : Bytes → Bool) where
  -- The image that build returns is as large as the packaged one, and is refused like this.
  build-refused :
      (worker base : Bytes) (family : Family) (files : FileSet) (image : Bytes)
      → build compress decompress parse_hex is_utf8 worker base family files ≡ ok image
      → (sha256 : Bytes → Bytes) (tail : Bytes) (size : ℕ) (family' : Family) (slot_ok : Bool)
        (info : Installed)
      → (length image ≡ length base)
        × (inspect_linux_boot sha256 (take 4096 image) tail size family' slot_ok ≢ ok info)
  unfolding build
  build-refused worker base family files image built sha256 tail size family' slot_ok info =
      let (verified, e1) = raise_if-eq-ok _ not_verified _ built in
      let (bounded, e2) = raise_if-eq-ok _ bad_bounds _ e1 in
      let (found, unpacked, more) =
        >>=-eq-ok (unpack compress decompress parse_hex is_utf8 _) _ e2 in
      let (packaged, chosen, e4) =
        >>=-eq-ok (init_of compress decompress parse_hex is_utf8 found none) _ more in
      let (init, given, onward) = >>=-eq-ok (or_raise packaged no_init) _ e4 in
      let (started, e6) = raise_if-eq-ok _ no_init _ onward in
      let (script, cut, assembled) = >>=-eq-ok (hooked family init) _ e6 in
      let large : length base ≡ image_size =
        eq_of_not (length base) image_size (second _ _ _ _ _ verified) in
      let long : 4096 ≤ length base = omega (arith, large) in
      (
        (assemble-IsPending base family _ _ _ _ image long assembled).1
            (omega (arith, large, limit_of-le family)),
        assemble-refused base family _ _ _ _ image long assembled sha256 tail size family' slot_ok
            info,
      )
