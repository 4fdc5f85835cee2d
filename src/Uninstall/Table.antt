-- ===== src/Uninstall/Table.antt =====
-- The bytes of the table that restored_layout of installer/backend/uninstall.py puts together.
use e5_linux.Base.{
  ℕ, zero, suc, ◌+◌, ◌-◌, ◌*◌, ◌/◌, ◌%◌, ◌≤◌, ◌<◌, ◌≡◌, ◌≢◌, ◌⊎◌, inl, inr, refl, sym, ap, ◌∙◌,
  subst, Bool, true, false, not, ◌&&◌, ◌==◌, Bool-cases, [], ◌∷◌, ◌++◌, All, arith, length, take,
  drop, length-take, length-drop, get_or-take, get_or-drop, get_or-append_front, get_or-append_back,
  ==_iff, true_of_not, All-take, All-drop, leb, ltb, eq_of_get_or,
}
use e5_linux.Base.Bytes.{
  Bytes, IsByte, byte, slice, eq_bytes, eq_bytes→eq, le_value, le_at, le_bytes, put_at,
  length-put_at, get_or-put_at_in,
}
use e5_linux.Base.Result.{ok, raise_if, >>=-eq-ok}
use e5_linux.Gpt.{splice}
use e5_linux.Gpt.Sealed.{splice-put_at, byte-put_at_outside}
use e5_linux.Uninstall.{
  RemovalError, userdata_changed, another_changed, compare_entry, compare_entries, restored_table,
}

-- Writing a number that was read gives its bytes back.
pub le_bytes-le_value : (xs : Bytes) → All IsByte xs → le_bytes (length xs) (le_value xs) ≡ xs
unfolding le_bytes le_value
le_bytes-le_value [] h = refl
le_bytes-le_value (x ∷ xs) (hx, h) =
    let low : (x + 256 * le_value xs) % 256 ≡ x = omega arith in
    let high : (x + 256 * le_value xs) / 256 ≡ le_value xs = omega arith in
    rw (low, high, le_bytes-le_value xs h) refl

pub byte-slice :
    (i j : ℕ) (xs : Bytes) (k : ℕ) → k < j - i → byte (slice i j xs) k ≡ byte xs (i + k)
byte-slice i j xs k lt = get_or-take (j - i) k (drop i xs) 0 lt ∙ get_or-drop i k xs 0

pub length-slice : (i j : ℕ) (xs : Bytes) → j ≤ length xs → length (slice i j xs) ≡ j - i
length-slice i j xs h = omega (arith, length-take (j - i) (drop i xs), length-drop i xs)

-- An entry without its last sector.
abbrev pub trimmed : Bytes → Bytes
trimmed a = take 40 a ++ drop 48 a

trimmed-byte :
    (a b : Bytes) (k : ℕ)
    → length a ≡ 128
    → length b ≡ 128
    → trimmed a ≡ trimmed b
    → (k < 40) ⊎ (48 ≤ k)
    → byte a k ≡ byte b k
trimmed-byte a b k la lb e (inl lo) = sym (front a la) ∙ ap (λ (x : Bytes). byte x k) e ∙ front b lb
  where
    front : (x : Bytes) → length x ≡ 128 → byte (trimmed x) k ≡ byte x k
    front x lx =
        get_or-append_front k (take 40 x) (drop 48 x) 0 (omega (arith, length-take 40 x))
        ∙ get_or-take 40 k x 0 lo
trimmed-byte a b k la lb e (inr hi) =
    sym (back a la) ∙ ap (λ (x : Bytes). byte x (k - 8)) e ∙ back b lb
  where
    back : (x : Bytes) → length x ≡ 128 → byte (trimmed x) (k - 8) ≡ byte x k
    back x lx =
        get_or-append_back (k - 8) (take 40 x) (drop 48 x) 0 (omega (arith, length-take 40 x))
        ∙ ap (λ (i : ℕ). byte (drop 48 x) i) (omega (arith, length-take 40 x))
        ∙ get_or-drop 48 (k - 48) x 0
        ∙ ap (λ (i : ℕ). byte x i) (omega arith)

abbrev pub row_at : ℕ → Bytes → Bytes
row_at index xs = slice (index * 128) ((index + 1) * 128) xs

-- What one round has compared.
abbrev pub IsLike : ℕ → ℕ → ℕ → Bytes → Bytes → Type 0
IsLike user root index a b =
    (index ≡ user → trimmed a ≡ trimmed b) × (index ≢ user → index ≢ root → a ≡ b)

raised_not : (t : Bool) (e : RemovalError) (u : Unit {0}) → raise_if t e ≡ ok u → t ≡ false
raised_not true e u h = cc
raised_not false e u h = refl

compare_entry-IsLike :
    (user root index : ℕ) (a b : Bytes) (u : Unit {0})
    → compare_entry user root index a b ≡ ok u
    → IsLike user root index a b
unfolding compare_entry
compare_entry-IsLike user root index a b u e = elim (Bool-cases (index == user)) [
  | inl at ↦
      let e' = rw at at e in
      let h = raised_not (not (eq_bytes (trimmed a) (trimmed b))) userdata_changed u e' in
      (
        λ same.
            eq_bytes→eq (trimmed a) (trimmed b) (true_of_not (eq_bytes (trimmed a) (trimmed b)) h),
        λ apart. absurd (apart ((==_iff index user).0 at)),
      )
  | inr away ↦
      let e' = rw away at e in
      let h = raised_not (not (index == root) && not (eq_bytes a b)) another_changed u e' in
      (λ same. absurd (differ away same), λ apart far. eq_bytes→eq a b (by_root far h))
]
  where
    differ : (index == user) ≡ false → index ≡ user → ⊥
    differ h same = ground arith

    by_root :
        index ≢ root → (not (index == root) && not (eq_bytes a b)) ≡ false → eq_bytes a b ≡ true
    by_root far h = elim (Bool-cases (index == root)) [
      | inl near ↦ absurd (far ((==_iff index root).0 near))
      | inr apart ↦ true_of_not (eq_bytes a b) (rw apart at h)
    ]

pub compare_entries-IsLike :
    (user root : ℕ) (old new : Bytes) (left i : ℕ) (u : Unit {0})
    → compare_entries user root old new left i ≡ ok u
    → (index : ℕ) → i ≤ index
    → index < i + left
    → IsLike user root index (row_at index old) (row_at index new)
unfolding compare_entries
compare_entries-IsLike user root old new zero i u e index lo hi = absurd (omega arith)
compare_entries-IsLike user root old new (suc left) i u e index lo hi =
    let (v, now, rest) = >>=-eq-ok (compare_entry user root i (row_at i old) (row_at i new)) _ e in
    elim (Bool-cases (i == index)) [
      | inl here ↦
          subst (λ (x : ℕ). IsLike user root x (row_at x old) (row_at x new))
            ((==_iff i index).0 here)
            (compare_entry-IsLike user root i (row_at i old) (row_at i new) v now)
      | inr there ↦
          compare_entries-IsLike user root old new left (i + 1) u rest index (ground arith)
            (omega arith)
    ]

module _ (user root count : ℕ) (old new : Bytes) (old_length : length old ≡ count * 128)
    (new_length : length new ≡ count * 128) (user_in : user < count) (root_in : root < count)
    (bytes : All IsByte old)
    (alike : (index : ℕ)
      → index < count
      → IsLike user root index (row_at index old) (row_at index new)) where
  last_sector : Bytes
  last_sector = slice (user * 128 + 40) (user * 128 + 48) old

  length-last_sector : length last_sector ≡ 8
  unfolding last_sector
  length-last_sector =
      length-slice (user * 128 + 40) (user * 128 + 48) old (omega arith) ∙ omega arith

  rewritten : le_bytes 8 (le_value last_sector) ≡ last_sector
  unfolding last_sector
  rewritten =
      ap (λ (n : ℕ). le_bytes n (le_value last_sector)) (sym length-last_sector)
      ∙ le_bytes-le_value last_sector (
          All-take IsByte (user * 128 + 48 - (user * 128 + 40)) _
            (All-drop IsByte (user * 128 + 40) old bytes))

  length-row_at :
      (index : ℕ) (xs : Bytes)
      → index < count
      → length xs ≡ count * 128
      → length (row_at index xs) ≡ 128
  length-row_at index xs lt e =
      length-slice (index * 128) ((index + 1) * 128) xs (omega arith) ∙ omega arith

  byte-row_at :
      (index j : ℕ) (xs : Bytes) → j < 128 → byte (row_at index xs) j ≡ byte xs (index * 128 + j)
  byte-row_at index j xs lt = byte-slice (index * 128) ((index + 1) * 128) xs j (omega arith)

  -- A byte that is not written is the same in both tables.
  unwritten :
      (index j : ℕ)
      → index < count
      → j < 128
      → index ≢ root
      → (index * 128 + j < user * 128 + 40) ⊎ (user * 128 + 48 ≤ index * 128 + j)
      → byte new (index * 128 + j) ≡ byte old (index * 128 + j)
  unwritten index j lt small far out =
      sym (byte-row_at index j new small)
      ∙ sym (elim (Bool-cases (index == user)) [
        | inl at ↦
            let same = (==_iff index user).0 at in
            trimmed-byte (row_at index old) (row_at index new) j
              (length-row_at index old lt old_length) (length-row_at index new lt new_length)
              ((alike index lt).0 same) (omega arith)
        | inr away ↦
            ap (λ (x : Bytes). byte x j) ((alike index lt).1 (λ same. differ away same) far)
      ])
      ∙ byte-row_at index j old small
    where
      differ : (index == user) ≡ false → index ≡ user → ⊥
      differ h same = ground arith

  with_root : Bytes
  with_root = put_at (root * 128) (row_at root old) new

  length-with_root : length with_root ≡ count * 128
  unfolding with_root
  length-with_root =
      length-put_at (root * 128) (row_at root old) new
        (omega (arith, length-row_at root old root_in old_length))
      ∙ new_length

  byte-with_root :
      (k : ℕ)
      → k < count * 128
      → (k < user * 128 + 40) ⊎ (user * 128 + 48 ≤ k)
      → byte with_root k ≡ byte old k
  unfolding with_root
  byte-with_root k lt out = elim (Bool-cases (k / 128 == root)) [
    | inl at ↦
        let same : k / 128 ≡ root = (==_iff (k / 128) root).0 at in
        ap (λ (i : ℕ). byte (put_at (root * 128) (row_at root old) new) i)
          (let i : k ≡ root * 128 + (k - root * 128) = omega arith in i)
        ∙ get_or-put_at_in (root * 128) (row_at root old) new
            (omega (arith, length-row_at root old root_in old_length)) (k - root * 128) 0
            (omega (arith, length-row_at root old root_in old_length))
        ∙ byte-row_at root (k - root * 128) old (omega arith)
        ∙ ap (λ (i : ℕ). byte old i) (omega arith)
    | inr away ↦
        let apart : k / 128 ≢ root = (λ same. differ (k / 128) away same) in
        let split : k ≡ k / 128 * 128 + k % 128 = omega arith in
        byte-put_at_outside (root * 128) (row_at root old) new k
          (omega (arith, length-row_at root old root_in old_length))
          (omega (arith, length-row_at root old root_in old_length, apart))
        ∙ ap (λ (i : ℕ). byte new i) split
        ∙ unwritten (k / 128) (k % 128) (omega arith) (omega arith) apart (omega arith)
        ∙ ap (λ (i : ℕ). byte old i) (sym split)
  ]
    where
      differ : (i : ℕ) → (i == root) ≡ false → i ≡ root → ⊥
      differ i h same = ground arith

  pub restored_table_lem : restored_table old new root user (le_at 8 (user * 128 + 40) old) ≡ old
  unfolding restored_table le_at last_sector with_root
  restored_table_lem =
      ap
        (λ (w : Bytes).
          put_at (user * 128 + 40) w (splice (root * 128) ((root + 1) * 128) (row_at root old) new))
        read_back
      ∙ ap (λ (m : Bytes). put_at (user * 128 + 40) last_sector m) spliced
      ∙ eq_of_get_or (put_at (user * 128 + 40) last_sector with_root) old 0
          (length-written ∙ sym old_length) (λ k lt. at k (omega (arith, length-written)))
    where
      spliced : splice (root * 128) ((root + 1) * 128) (row_at root old) new ≡ with_root
      spliced =
          splice-put_at (root * 128) ((root + 1) * 128) (row_at root old) new
            (omega (arith, length-row_at root old root_in old_length))

      fits : user * 128 + 40 + length last_sector ≤ length with_root
      fits = omega (arith, length-last_sector, length-with_root)

      read_back : le_bytes 8 (le_value (take 8 (drop (user * 128 + 40) old))) ≡ last_sector
      read_back =
          let eight : 8 ≡ user * 128 + 48 - (user * 128 + 40) = omega arith in
          ap (λ (n : ℕ). le_bytes 8 (le_value (take n (drop (user * 128 + 40) old)))) eight
          ∙ rewritten

      length-written : length (put_at (user * 128 + 40) last_sector with_root) ≡ count * 128
      length-written = length-put_at (user * 128 + 40) last_sector with_root fits ∙ length-with_root

      within :
          (k : ℕ)
          → (leb (user * 128 + 40) k && ltb k (user * 128 + 48)) ≡ true
          → (user * 128 + 40 ≤ k) × (k < user * 128 + 48)
      within k h = ground arith

      away :
          (k : ℕ)
          → (leb (user * 128 + 40) k && ltb k (user * 128 + 48)) ≡ false
          → (k < user * 128 + 40) ⊎ (user * 128 + 48 ≤ k)
      away k h = ground arith

      beyond :
          (k : ℕ)
          → length last_sector ≡ 8
          → (leb (user * 128 + 40) k && ltb k (user * 128 + 48)) ≡ false
          → (k < user * 128 + 40) ⊎ (user * 128 + 40 + length last_sector ≤ k)
      beyond k e h = elim (away k h) [ inl a ↦ inl a | inr b ↦ inr (omega arith) ]

      at :
          (k : ℕ)
          → k < count * 128
          → byte (put_at (user * 128 + 40) last_sector with_root) k ≡ byte old k
      at k lt = elim (Bool-cases (leb (user * 128 + 40) k && ltb k (user * 128 + 48))) [
        | inl inside ↦
            let (lo, hi) = within k inside in
            ap (λ (i : ℕ). byte (put_at (user * 128 + 40) last_sector with_root) i)
              (let i : k ≡ user * 128 + 40 + (k - (user * 128 + 40)) = omega arith in i)
            ∙ get_or-put_at_in (user * 128 + 40) last_sector with_root fits (k - (user * 128 + 40))
                0 (omega (arith, length-last_sector))
            ∙ byte-slice (user * 128 + 40) (user * 128 + 48) old (k - (user * 128 + 40))
                (omega arith)
            ∙ ap (λ (i : ℕ). byte old i) (omega arith)
        | inr outside ↦
            byte-put_at_outside (user * 128 + 40) last_sector with_root k fits
              (beyond k length-last_sector outside)
            ∙ byte-with_root k lt (away k outside)
      ]
