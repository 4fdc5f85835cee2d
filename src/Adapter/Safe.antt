-- ===== src/Adapter/Safe.antt =====
-- The gaps that Adapter.read_gpt calls safe.
use e5_linux.Base.{
  ℕ, ◌+◌, ◌-◌, ◌*◌, ◌/◌, ◌<◌, ◌≡◌, ◌⊎◌, inl, inr, refl, Bool, true, false, ◌||◌, not, ◌==◌, leb,
  if◌then◌else◌, Option, some, List, [], ◌∷◌, length, All, Bool-cases, eq_of_not, ap, ◌∙◌, neither,
  leb_false→lt,
}
use e5_linux.Base.Bytes.{Bytes}
use e5_linux.Base.Result.{
  Result, ok, err, >>=-eq-ok, raise_if-eq-ok, ok-injective, or_raise, or_raise-eq-ok,
}
use e5_linux.Gpt.{GptError, Part, Space, gpt_space, gpt_backup_layout}
use e5_linux.Gpt.FreeSpace.{IsFree}
use e5_linux.Gpt.Ranges.{gpt_space_gaps}
use e5_linux.BootImage.{Family}
use e5_linux.Adapter.{
  Scan, incomplete_read, no_entries, scan_checked, is_mu300, last_end, fixed_root, inside, offsets,
  has_filesystem, is_occupied, safe_of, read_gpt,
}

-- Four whole sectors without the magic number of ext4 or F2FS.
abbrev pub IsBlank : Bytes → Type 0
IsBlank raw = (length raw ≡ 2048) × (has_filesystem raw ≡ false)

scan_checked-eq-ok : {A : Type 0} (r : Result GptError A) (a : A) → scan_checked r ≡ ok a → r ≡ ok a
scan_checked-eq-ok (err e) a h = cc
scan_checked-eq-ok (ok b) a h = cc

module _ (read : ℕ → ℕ → Bytes) where
  -- An offset lies outside the gap, or nothing begins there.
  abbrev pub IsQuiet : ℕ × ℕ → ℕ → Type 0
  IsQuiet gap offset = (offset < gap.0) ⊎ (gap.0 + gap.1 < offset + 4) ⊎ IsBlank (read offset 4)

  -- Nothing begins at the gap's start, nor, on an MU300, at the two offsets of an old root.
  abbrev pub IsUnused : Family → List Part → ℕ × ℕ → Type 0
  IsUnused family parts gap =
      IsBlank (read gap.0 4)
      × ((is_mu300 family ≡ false)
          ⊎ ((end : ℕ) × (last_end parts ≡ some end)
              × IsQuiet gap fixed_root
              × IsQuiet gap ((end / 4096 + 1) * 4096)))

  occupied-All : (at : List ℕ) → is_occupied read at ≡ ok false → All (λ o. IsBlank (read o 4)) at
  unfolding is_occupied
  occupied-All [] e = tt
  occupied-All (o ∷ rest) e =
      let (whole, e1) = raise_if-eq-ok (not (length (read o 4) == 2048)) incomplete_read _ e in
      let (later, e_later, e2) = >>=-eq-ok (is_occupied read rest) _ e1 in
      let (here, none_later) =
        neither (has_filesystem (read o 4)) later
          (ok-injective (has_filesystem (read o 4) || later) false e2) in
      (
        (eq_of_not (length (read o 4)) 2048 whole, here),
        occupied-All rest (e_later ∙ ap ok none_later),
      )

  inside-IsQuiet :
      (gap : ℕ × ℕ) (o : ℕ) (rest : List ℕ)
      → All (λ o. IsBlank (read o 4)) (inside gap o rest)
      → IsQuiet gap o × All (λ o. IsBlank (read o 4)) rest
  inside-IsQuiet (start, size) o rest h = elim (Bool-cases (leb start o)) [
    | inr below ↦ (inl (leb_false→lt start o below), rw below at h)
    | inl from ↦ elim (Bool-cases (leb (o + 4) (start + size))) [
      | inr above ↦ (inr (inl (leb_false→lt (o + 4) (start + size) above)), rw (from, above) at h)
      | inl within ↦
          let (blank, more) : All (λ o. IsBlank (read o 4)) (o ∷ rest) = rw (from, within) at h in
          (inr (inr blank), more)
    ]
  ]

  offsets-IsUnused :
      (family : Family) (parts : List Part) (gap : ℕ × ℕ) (at : List ℕ)
      → offsets family parts gap ≡ ok at
      → All (λ o. IsBlank (read o 4)) at
      → IsUnused family parts gap
  unfolding offsets
  offsets-IsUnused family parts gap at e h = elim (Bool-cases (is_mu300 family)) [
    | inr other ↦
        let same = ok-injective (gap.0 ∷ []) at (rw other at e) in
        let blank : All (λ o. IsBlank (read o 4)) (gap.0 ∷ []) = rw (← same) at h in
        (blank.0, inl other)
    | inl mu ↦
        let (end, ends, e1) = >>=-eq-ok (or_raise (last_end parts) no_entries) _ (rw mu at e) in
        let same = ok-injective _ at e1 in
        let (first, rest) : All (λ o. IsBlank (read o 4))
            (gap.0 ∷ inside gap fixed_root (inside gap ((end / 4096 + 1) * 4096) [])) =
          rw (← same) at h in
        let (root, later) = inside-IsQuiet gap fixed_root _ rest in
        let (behind, nothing) = inside-IsQuiet gap ((end / 4096 + 1) * 4096) [] later in
        (first, inr (end, or_raise-eq-ok (last_end parts) no_entries end ends, root, behind))
  ]

  safe_of-All :
      (info : Space) (family : Family) (gaps safe : List (ℕ × ℕ))
      → All (IsFree info) gaps
      → safe_of read family info.parts gaps ≡ ok safe
      → All (λ g. IsFree info g × IsUnused family info.parts g) safe
  unfolding safe_of
  safe_of-All info family [] safe h e = rw (← ok-injective [] safe e) tt
  safe_of-All info family (gap ∷ gaps) safe h e =
      let (at, placed, e1) = >>=-eq-ok (offsets family info.parts gap) _ e in
      let (occupied, seen, e2) = >>=-eq-ok (is_occupied read at) _ e1 in
      let (later, found, e3) = >>=-eq-ok (safe_of read family info.parts gaps) _ e2 in
      let rest = safe_of-All info family gaps later h.1 found in
      kept occupied later rest
        (λ o. offsets-IsUnused family info.parts gap at placed (occupied-All at (seen ∙ ap ok o)))
        (ok-injective _ safe e3)
    where
      kept :
          (occupied : Bool) (later : List (ℕ × ℕ))
          → All (λ g. IsFree info g × IsUnused family info.parts g) later
          → (occupied ≡ false → IsUnused family info.parts gap)
          → (if occupied then later else gap ∷ later) ≡ safe
          → All (λ g. IsFree info g × IsUnused family info.parts g) safe
      kept true later rest unused same = rw (← same) rest
      kept false later rest unused same = rw (← same) ((h.0, unused refl), rest)

  module _ (crc32 : Bytes → ℕ) (decode : Bytes → Option (List ℕ)) where
    -- What read_gpt returns: a scan that gpt_space takes, and safe gaps. Each of these is a free
    -- range of the scan, aligned, not empty and met by no entry, and no ext4 or F2FS begins at its
    -- start, nor on an MU300 at the fixed offset of an old root or at the first aligned sector behind
    -- the last entry, where one of the two lies in the gap.
    pub read_gpt-IsSafe :
        (family : Family) (sectors : ℕ) (s : Scan)
        → read_gpt read crc32 decode family sectors ≡ ok s
        → (info : Space) × (safe : List (ℕ × ℕ)) × (gpt_space crc32 decode s.first s.last sectors
            ≡ ok info)
          × (s.space.safe_gaps ≡ some safe)
          × All (λ g. IsFree info g × IsUnused family info.parts g) safe
    unfolding read_gpt
    read_gpt-IsSafe family sectors s e =
        let (layout, laid, e1) =
          >>=-eq-ok
            (scan_checked
              (gpt_backup_layout crc32 decode (read 1 1) (read (sectors - 1) 1) sectors))
            _ e in
        let first = read 0 layout.0 in
        let last = read layout.1 (sectors - layout.1) in
        let (info, scan, e2) =
          >>=-eq-ok (scan_checked (gpt_space crc32 decode first last sectors)) _ e1 in
        let (safe, found, e3) = >>=-eq-ok (safe_of read family info.parts info.gaps) _ e2 in
        let same = ok-injective _ s e3 in
        let scanned = scan_checked-eq-ok _ info scan in
        rw (← same) (
          info,
          safe,
          scanned,
          refl,
          safe_of-All info family info.gaps safe
              (gpt_space_gaps crc32 decode first last sectors info scanned) found,
        )
