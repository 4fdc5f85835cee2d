-- ===== src/BootImage/Words.antt =====
-- Command lines as words, for installer/backend/boot_image.py and openwrt/bundle/part-two-stage.py.
use e5_linux.Base.{
  ℕ, ◌≡◌, refl, sym, ◌∙◌, ap, Bool, true, false, ◌&&◌, ◌||◌, not, ◌==◌, List, [], ◌∷◌, ◌++◌, arith,
  Bool-cases, inl, inr, subst,
}
use e5_linux.Base.Bytes.{Bytes, eq_bytes, eq_bytes→eq}
use e5_linux.Gpt.{before_nul}
use e5_linux.BootImage.{
  is_space, emit, split_from, words, has_word, starts_with, any_starts, has_nul,
}

append_nil : (xs : Bytes) → xs ++ [] ≡ xs
append_nil [] = refl
append_nil (x ∷ xs) = ap (λ (t : Bytes). x ∷ t) (append_nil xs)

append_snoc : (xs : Bytes) (c : ℕ) (ys : Bytes) → (xs ++ (c ∷ [])) ++ ys ≡ xs ++ (c ∷ ys)
append_snoc [] c ys = refl
append_snoc (x ∷ xs) c ys = ap (λ (t : Bytes). x ∷ t) (append_snoc xs c ys)

emit-append : (word : Bytes) (xs ys : List Bytes) → emit word (xs ++ ys) ≡ emit word xs ++ ys
unfolding emit
emit-append [] xs ys = refl
emit-append (c ∷ cs) xs ys = refl

split_from-append :
    (word x y : Bytes) → split_from word (x ++ (32 ∷ y)) ≡ split_from word x ++ words y
unfolding split_from words
split_from-append word [] y = emit-append word [] (split_from [] y)
split_from-append word (c ∷ x) y = elim (Bool-cases (is_space c)) [
  | inl blank ↦ rw blank (
      ap (emit word) (split_from-append [] x y)
      ∙ emit-append word (split_from [] x) (split_from [] y))
  | inr inside ↦ rw inside (split_from-append (word ++ (c ∷ [])) x y)
]

-- Text behind a blank adds its own words.
pub words-append : (x y : Bytes) → words (x ++ (32 ∷ y)) ≡ words x ++ words y
words-append x y = unfold words in split_from-append [] x y

abbrev pub is_word : Bytes → Bool
is_word [] = true
is_word (c ∷ cs) = not (is_space c) && is_word cs

head_of_and : (a b : Bool) → (not a && b) ≡ true → a ≡ false
head_of_and a b e = ground arith

tail_of_and : (a b : Bool) → (not a && b) ≡ true → b ≡ true
tail_of_and a b e = ground arith

split_from_word : (word o : Bytes) → is_word o ≡ true → split_from word o ≡ emit (word ++ o) []
unfolding split_from
split_from_word word [] e = ap (λ (t : Bytes). emit t []) (sym (append_nil word))
split_from_word word (c ∷ o) e =
    let inside : is_space c ≡ false = head_of_and (is_space c) (is_word o) e in
    rw inside (
      split_from_word (word ++ (c ∷ [])) o (tail_of_and (is_space c) (is_word o) e)
      ∙ ap (λ (t : Bytes). emit t []) (append_snoc word c o))

-- Text without a blank is one word.
pub words_word : (c : ℕ) (o : Bytes) → is_word (c ∷ o) ≡ true → words (c ∷ o) ≡ (c ∷ o) ∷ []
words_word c o e = unfold words emit in split_from_word [] (c ∷ o) e

or_assoc : (a b c : Bool) → (a || (b || c)) ≡ ((a || b) || c)
or_assoc true b c = refl
or_assoc false b c = refl

pub any_starts-append :
    (p : Bytes) (xs ys : List Bytes)
    → any_starts p (xs ++ ys) ≡ (any_starts p xs || any_starts p ys)
unfolding any_starts
any_starts-append p [] ys = refl
any_starts-append p (x ∷ xs) ys =
    rw (any_starts-append p xs ys) (or_assoc (starts_with p x) (any_starts p xs) (any_starts p ys))

pub has_word-append :
    (w : Bytes) (xs ys : List Bytes) → has_word w (xs ++ ys) ≡ (has_word w xs || has_word w ys)
unfolding has_word
has_word-append w [] ys = refl
has_word-append w (x ∷ xs) ys =
    rw (has_word-append w xs ys) (or_assoc (eq_bytes x w) (has_word w xs) (has_word w ys))

or_true : (a b : Bool) → b ≡ true → (a || b) ≡ true
or_true true b e = refl
or_true false b e = e

-- A command line with a word has one that starts as that word does.
pub any_starts_of_has_word :
    (p w : Bytes) (xs : List Bytes)
    → starts_with p w ≡ true
    → has_word w xs ≡ true
    → any_starts p xs ≡ true
unfolding any_starts has_word
any_starts_of_has_word p w [] s h = cc
any_starts_of_has_word p w (x ∷ xs) s h = elim (Bool-cases (eq_bytes x w)) [
  | inl same ↦
      let xw : x ≡ w = eq_bytes→eq x w same in
      let here : starts_with p x ≡ true =
        subst (λ (t : Bytes). starts_with p t ≡ true) (sym xw) s in
      rw here refl
  | inr differs ↦
      or_true (starts_with p x) (any_starts p xs)
        (any_starts_of_has_word p w xs s (rw differs at h))
]

pub has_nul-before_nul : (xs : Bytes) → has_nul (before_nul xs) ≡ false
unfolding has_nul before_nul
has_nul-before_nul [] = refl
has_nul-before_nul (x ∷ xs) = elim (Bool-cases (x == 0)) [
  | inl nul ↦ rw nul refl
  | inr more ↦ rw (more, more) (has_nul-before_nul xs)
]

pub has_nul-append : (xs ys : Bytes) → has_nul (xs ++ ys) ≡ (has_nul xs || has_nul ys)
unfolding has_nul
has_nul-append [] ys = refl
has_nul-append (x ∷ xs) ys = rw (has_nul-append xs ys) (or_assoc (x == 0) (has_nul xs) (has_nul ys))

-- Text without a NUL, before a NUL.
pub before_nul-append : (xs ys : Bytes) → has_nul xs ≡ false → before_nul (xs ++ (0 ∷ ys)) ≡ xs
unfolding has_nul before_nul
before_nul-append [] ys e = refl
before_nul-append (x ∷ xs) ys e = elim (Bool-cases (x == 0)) [
  | inl nul ↦ cc (rw nul at e)
  | inr more ↦ rw more (ap (λ (t : Bytes). x ∷ t) (before_nul-append xs ys (rw more at e)))
]
