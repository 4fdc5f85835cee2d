-- ===== src/BootImage/Mark.antt =====
-- The image that boot_command of openwrt/bundle/part-two-stage.py makes.
use e5_linux.Base.{
  ℕ, zero, suc, ◌+◌, ◌-◌, ◌≤◌, ◌<◌, ◌≡◌, ◌≢◌, refl, sym, ◌∙◌, ap, Bool, true, false, ◌||◌, ltb, leb,
  [], ◌∷◌, ◌++◌, length, take, drop, replicate, length-take, length-append, length-replicate,
  take-append, drop-append, arith, subst, true_of_not,
}
use e5_linux.Base.Bytes.{Bytes, slice, eq_bytes}
use e5_linux.Base.Result.{ok, raise_if-eq-ok, ok-injective}
use e5_linux.Gpt.{before_nul, splice}
use e5_linux.BootImage.{
  Family, Installed, not_version_four, truncated, not_ascii, no_installer, already_marked, no_space,
  part_version, part_prepare, root_option, words, has_word, starts_with, any_starts, has_nul,
  inspect_linux_boot, ljust, boot_command,
}
use e5_linux.BootImage.Words.{
  words-append, words_word, is_word, any_starts-append, has_nul-before_nul, has_nul-append,
  before_nul-append,
}
use e5_linux.BootImage.Inspect.{command_of, IsInstalled, inspect_linux_boot-IsInstalled}

-- The command line's text.
abbrev pub text_of : Bytes → Bytes
text_of header = before_nul (slice 44 1580 header)

pub take-drop-take :
    (k i n : ℕ) (xs : Bytes) → i + k ≤ n → take k (drop i (take n xs)) ≡ take k (drop i xs)
take-drop-take k zero n xs le = short k n xs (omega arith)
  where
    short : (k n : ℕ) (xs : Bytes) → k ≤ n → take k (take n xs) ≡ take k xs
    short zero n xs h = refl
    short (suc k) zero xs h = absurd (omega arith)
    short (suc k) (suc n) [] h = refl
    short (suc k) (suc n) (x ∷ xs) h = ap (λ (t : Bytes). x ∷ t) (short k n xs (omega arith))
take-drop-take k (suc i) zero xs le = absurd (omega arith)
take-drop-take k (suc i) (suc n) [] le = refl
take-drop-take k (suc i) (suc n) (x ∷ xs) le = take-drop-take k i n xs (omega arith)

-- The spliced bytes come back out.
pub spliced :
    (p image : Bytes)
    → length p ≡ 1536
    → 44 ≤ length image
    → slice 44 1580 (splice 44 1580 p image) ≡ p
spliced p image e le =
    let front : length (take 44 image) ≡ 44 = omega (arith, length-take 44 image) in
    let rest : drop 44 (take 44 image ++ (p ++ drop 1580 image)) ≡ p ++ drop 1580 image =
      subst (λ (k : ℕ). drop k (take 44 image ++ (p ++ drop 1580 image)) ≡ p ++ drop 1580 image)
        front (drop-append (take 44 image) (p ++ drop 1580 image)) in
    let whole : take 1536 (p ++ drop 1580 image) ≡ p =
      subst (λ (k : ℕ). take k (p ++ drop 1580 image) ≡ p) e (take-append p (drop 1580 image)) in
    ap (take 1536) rest ∙ whole

abbrev zeros : ℕ → Bytes
zeros n = replicate n 0

replicate_some : (n : ℕ) → 0 < n → zeros n ≡ 0 ∷ zeros (n - 1)
replicate_some zero lt = absurd (omega arith)
replicate_some (suc n) lt =
    let same : n ≡ suc n - 1 = omega arith in ap (λ (k : ℕ). 0 ∷ zeros k) same

pub length-ljust : (u : Bytes) → length u < 1536 → length (ljust 1536 u) ≡ 1536
length-ljust u lt =
    omega (
      arith,
      length-append u (zeros (1536 - length u)),
      length-replicate {A = ℕ} (1536 - length u) 0,
    )

pub before_nul-ljust :
    (u : Bytes) → length u < 1536 → has_nul u ≡ false → before_nul (ljust 1536 u) ≡ u
before_nul-ljust u lt e =
    ap (λ (t : Bytes). before_nul (u ++ t)) (replicate_some (1536 - length u) (omega arith))
    ∙ before_nul-append u (zeros (1536 - length u - 1)) e

lt_of_test : (n : ℕ) → leb 1536 n ≡ false → n < 1536
lt_of_test n e = ground arith

le_of_test : (n : ℕ) → ltb n 44 ≡ false → 44 ≤ n
le_of_test n e = ground arith

-- What a successful call has checked, and what it returns.
pub record IsMarked (image option y : Bytes) : Type 0 where
  pub room : 44 ≤ length image
  pub installer : has_word part_version (words (text_of image)) ≡ true
  pub fresh :
      (any_starts part_prepare (words (text_of image))
        || any_starts root_option (words (text_of image)))
      ≡ false
  pub short : length (text_of image ++ (32 ∷ option)) < 1536
  pub built : splice 44 1580 (ljust 1536 (text_of image ++ (32 ∷ option))) image ≡ y

boot_command-IsMarked :
    (image option y : Bytes) → boot_command image option ≡ ok y → IsMarked image option y
unfolding boot_command
boot_command-IsMarked image option y e =
    let (magic, h1) = raise_if-eq-ok _ not_version_four _ e in
    let (long, h2) = raise_if-eq-ok _ truncated _ h1 in
    let (version, h3) = raise_if-eq-ok _ not_version_four _ h2 in
    let (ascii, h4) = raise_if-eq-ok _ not_ascii _ h3 in
    let (installer, h5) = raise_if-eq-ok _ no_installer _ h4 in
    let (fresh, h6) = raise_if-eq-ok _ already_marked _ h5 in
    let (ascii', h7) = raise_if-eq-ok _ not_ascii _ h6 in
    let (short, h8) = raise_if-eq-ok _ no_space _ h7 in
    record {
      room = le_of_test _ long;
      installer = true_of_not _ installer;
      fresh = fresh;
      short = lt_of_test _ short;
      built = ok-injective _ y h8;
    }

module _ (image option y : Bytes) (plain : has_nul option ≡ false) where
  text_of_marked : IsMarked image option y → text_of y ≡ text_of image ++ (32 ∷ option)
  text_of_marked m =
      let u : Bytes = text_of image ++ (32 ∷ option) in
      let no_nul : has_nul u ≡ false =
        has_nul-append (text_of image) (32 ∷ option)
        ∙ (unfold has_nul in rw (has_nul-before_nul (slice 44 1580 image), plain) refl) in
      ap text_of (sym m.built)
      ∙ ap before_nul (spliced (ljust 1536 u) image (length-ljust u m.short) m.room)
      ∙ before_nul-ljust u m.short no_nul

  -- The words of the marked image's header are the image's and then the option's.
  pub boot_command-words :
      boot_command image option ≡ ok y → command_of (take 4096 y) ≡ command_of image ++ words option
  boot_command-words e =
      ap (λ (t : Bytes). words (before_nul t)) (take-drop-take 1536 44 4096 y (omega arith))
      ∙ ap words (text_of_marked (boot_command-IsMarked image option y e))
      ∙ words-append (text_of image) option

  module _ (single : is_word option ≡ true) (asks : starts_with part_prepare option ≡ true) where
    option_starts : any_starts part_prepare (words option) ≡ true
    option_starts = one option single asks
      where
        one :
            (o : Bytes)
            → is_word o ≡ true
            → starts_with part_prepare o ≡ true
            → any_starts part_prepare (words o) ≡ true
        one [] s h = unfold eq_bytes in cc
        one (c ∷ o) s h = rw (words_word c o s) (unfold any_starts in rw h refl)

    or_right : (a b : Bool) → b ≡ true → (a || b) ≡ true
    or_right true b h = refl
    or_right false b h = h

    -- An image that asks for the preparation of a partition is accepted as an installed system in
    -- no slot and for no family.
    pub boot_command_pending :
        boot_command image option ≡ ok y
        → (sha256 : Bytes → Bytes) (tail : Bytes) (size : ℕ) (family : Family) (slot_ok : Bool)
          (info : Installed)
        → inspect_linux_boot sha256 (take 4096 y) tail size family slot_ok ≢ ok info
    boot_command_pending e sha256 tail size family slot_ok info h =
        let i : IsInstalled (take 4096 y) tail size family info =
          inspect_linux_boot-IsInstalled sha256 (take 4096 y) tail size family slot_ok info h in
        let there : any_starts part_prepare (command_of (take 4096 y)) ≡ true =
          ap (any_starts part_prepare) (boot_command-words e)
          ∙ any_starts-append part_prepare (command_of image) (words option)
          ∙ or_right _ _ option_starts in
        cc (there, i.not_preparing)

    -- A marked image is not marked again, whatever the second option is.
    boot_command_once :
        boot_command image option ≡ ok y → (option' z : Bytes) → boot_command y option' ≢ ok z
    boot_command_once e option' z h =
        let m : IsMarked image option y = boot_command-IsMarked image option y e in
        let again : IsMarked y option' z = boot_command-IsMarked y option' z h in
        let there : any_starts part_prepare (words (text_of y)) ≡ true =
          ap (λ (t : Bytes). any_starts part_prepare (words t)) (text_of_marked m)
          ∙ ap (any_starts part_prepare) (words-append (text_of image) option)
          ∙ any_starts-append part_prepare (words (text_of image)) (words option)
          ∙ or_right _ _ option_starts in
        cc (rw there at again.fresh)
