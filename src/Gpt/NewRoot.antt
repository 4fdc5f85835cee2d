-- ===== src/Gpt/NewRoot.antt =====
-- gpt_add_root: where the new entry may lie, and which bytes of a snapshot it changes.
use e5_linux.Base.{
  ℕ, ◌+◌, ◌*◌, ◌%◌, ◌≤◌, ◌<◌, ◌≡◌, ◌⊎◌, inl, inr, ap, ◌∙◌, true, false, not, leb, ltb, ◌==◌, ◌&&◌,
  ◌||◌, Option, List, [], ◌∷◌, All, arith, Bool-cases, Bool, length, subst,
}
use e5_linux.Base.Bytes.{Bytes, byte, put_at, length-put_at, get_or-put_at_in}
use e5_linux.Base.Result.{ok, raise_if-eq-ok, >>=-eq-ok, ok-injective}
use e5_linux.Gpt.{
  Part, Space, extent, root_exists, not_free, is_nil, any_named, any_holds, splice, gpt_space,
  write_copy, gpt_add_root,
}
use e5_linux.Gpt.Sealed.{splice-put_at, byte-put_at_outside, sealed, length-sealed, byte-sealed}
use e5_linux.Gpt.Gaps.{Clear, Holds}
use e5_linux.Gpt.FreeSpace.{IsFree}
use e5_linux.Gpt.Ranges.{gpt_space_gaps}

-- A range between the two tables that meets no entry.
abbrev pub IsRoom : Space → ℕ → ℕ → Type 0
IsRoom info offset need =
    (info.front ≤ offset)
    × (offset + need ≤ info.tail)
    × All (λ p. Clear (offset, need) (extent p)) info.parts

module _ (crc32 : Bytes → ℕ) (decode : Bytes → Option (List ℕ)) (guid : Bytes) where
  module _ (entry : Bytes) (idx : ℕ) (raw : Bytes) (head table : ℕ) (sized : length entry ≡ 128)
      (head_fits : head + 92 ≤ length raw) (entry_fits : table + idx * 128 + 128 ≤ length raw) where
    with_entry : Bytes
    with_entry = splice (table + idx * 128) (table + (idx + 1) * 128) entry raw

    with_entry_lem : with_entry ≡ put_at (table + idx * 128) entry raw
    unfolding with_entry
    with_entry_lem =
        splice-put_at (table + idx * 128) (table + (idx + 1) * 128) entry raw (omega arith)

    length-with_entry : length with_entry ≡ length raw
    length-with_entry =
        ap length with_entry_lem ∙ length-put_at (table + idx * 128) entry raw (omega arith)

    pub length-write_copy :
        length (write_copy crc32 decode guid entry idx raw head table) ≡ length raw
    unfolding write_copy sealed with_entry
    length-write_copy =
        length-sealed head _ _ with_entry (omega (arith, length-with_entry)) ∙ length-with_entry

    -- Where the entry's place does not meet the header, the 128 bytes of the new entry stand there
    -- in the written snapshot.
    pub write_copy_entry :
        (k : ℕ)
        → k < 128
        → (table + idx * 128 + 128 ≤ head) ⊎ (head + 92 ≤ table + idx * 128)
        → byte (write_copy crc32 decode guid entry idx raw head table) (table + idx * 128 + k)
          ≡ byte entry k
    unfolding write_copy sealed with_entry
    write_copy_entry k lt apart =
        byte-sealed head _ _ with_entry (table + idx * 128 + k) (omega (arith, length-with_entry))
          (omega arith) (omega arith)
        ∙ ap (λ (x : Bytes). byte x (table + idx * 128 + k)) with_entry_lem
        ∙ get_or-put_at_in (table + idx * 128) entry raw (omega arith) k 0 (omega arith)

    -- Every byte of a snapshot outside of the new entry's place and of the two checksums in the
    -- header is the same after the write.
    write_copy_frame :
        (k : ℕ)
        → (k < head + 16) ⊎ (head + 20 ≤ k)
        → (k < head + 88) ⊎ (head + 92 ≤ k)
        → (k < table + idx * 128) ⊎ (table + idx * 128 + 128 ≤ k)
        → byte (write_copy crc32 decode guid entry idx raw head table) k ≡ byte raw k
    unfolding write_copy sealed with_entry
    write_copy_frame k o1 o2 o3 =
        byte-sealed head _ _ with_entry k (omega (arith, length-with_entry)) o1 o2
        ∙ ap (λ (x : Bytes). byte x k) with_entry_lem
        ∙ byte-put_at_outside (table + idx * 128) entry raw k (omega arith) (omega arith)

  any_holds→Holds :
      (offset need : ℕ) (gs : List (ℕ × ℕ))
      → any_holds offset need gs ≡ true
      → Holds (offset, need) gs
  unfolding any_holds
  any_holds→Holds offset need [] e = cc
  any_holds→Holds offset need ((a, n) ∷ gs) e =
      elim (Bool-cases (leb a offset && leb (offset + need) (a + n))) [
        | inl here ↦ inl (within a n here)
        | inr there ↦ inr (any_holds→Holds offset need gs (later a n there e))
      ]
    where
      within :
          (a n : ℕ)
          → (leb a offset && leb (offset + need) (a + n)) ≡ true
          → (a ≤ offset) × (offset + need ≤ a + n)
      within a n h = ground arith

      later :
          (a n : ℕ) {r : Bool}
          → (leb a offset && leb (offset + need) (a + n)) ≡ false
          → ((leb a offset && leb (offset + need) (a + n)) || r) ≡ true
          → r ≡ true
      later a n h k = rw h at k

  Clear-within :
      (g x : ℕ × ℕ) (ps : List Part)
      → g.0 ≤ x.0
      → x.0 + x.1 ≤ g.0 + g.1
      → All (λ p. Clear g (extent p)) ps
      → All (λ p. Clear x (extent p)) ps
  Clear-within g x [] lo hi h = tt
  Clear-within g x (p ∷ ps) lo hi (inl before, h) = (inl (omega arith), Clear-within g x ps lo hi h)
  Clear-within g x (p ∷ ps) lo hi (inr after, h) = (inr (omega arith), Clear-within g x ps lo hi h)

  Holds-IsRoom :
      (info : Space) (offset need : ℕ) (gs : List (ℕ × ℕ))
      → All (IsFree info) gs
      → Holds (offset, need) gs
      → IsRoom info offset need
  Holds-IsRoom info offset need [] f h = absurd h
  Holds-IsRoom info offset need (g ∷ gs) (f, fs) (inl (lo, hi)) = (
    omega (arith, f.behind_front),
    omega (arith, f.before_tail),
    Clear-within g (offset, need) info.parts lo hi f.clear,
  )
  Holds-IsRoom info offset need (g ∷ gs) (f, fs) (inr h) = Holds-IsRoom info offset need gs fs h

  request_of_test :
      (t h : Bool) (offset need : ℕ)
      → (t || ltb need 4194304 || not (offset % 2048 == 0) || not (need % 2048 == 0) || not h)
        ≡ false
      → (t ≡ false) × (4194304 ≤ need) × (offset % 2048 ≡ 0) × (need % 2048 ≡ 0) × (h ≡ true)
  request_of_test t h offset need e = ground arith

  -- When gpt_add_root succeeds, the snapshots it was given hold a valid table in which the new
  -- range, of at least 2 GiB and on multiples of 2048 sectors, lies between both tables and meets
  -- no entry, and an unused entry is left; and the snapshots it returns hold a valid table too.
  pub gpt_add_root_range :
      (first last : Bytes) (sectors offset need : ℕ) (name : List ℕ) (encoded : Bytes)
      (y : Bytes × Bytes)
      → gpt_add_root crc32 decode guid first last sectors offset need name encoded ≡ ok y
      → ((info : Space) × (gpt_space crc32 decode first last sectors ≡ ok info)
          × (is_nil info.empty ≡ false)
          × (4194304 ≤ need)
          × (offset % 2048 ≡ 0)
          × (need % 2048 ≡ 0)
          × IsRoom info offset need)
        × ((info' : Space) × (gpt_space crc32 decode y.0 y.1 sectors ≡ ok info'))
  unfolding gpt_add_root
  gpt_add_root_range first last sectors offset need name encoded y e =
      let (info, scanned, e1) = >>=-eq-ok (gpt_space crc32 decode first last sectors) _ e in
      let (fresh, e2) = raise_if-eq-ok (any_named name info.parts) root_exists _ e1 in
      let (asked, e3) =
        raise_if-eq-ok
          (is_nil info.empty
            || ltb need 4194304
            || not (offset % 2048 == 0)
            || not (need % 2048 == 0)
            || not (any_holds offset need info.gaps))
          not_free _ e2 in
      let (unused, large, aligned, whole, held) =
        request_of_test (is_nil info.empty) (any_holds offset need info.gaps) offset need asked in
      let (info', again, e4) = >>=-eq-ok _ _ e3 in
      let same : _ ≡ y = ok-injective _ y e4 in
      (
        (
          info,
          scanned,
          unused,
          large,
          aligned,
          whole,
          Holds-IsRoom info offset need info.gaps
              (gpt_space_gaps crc32 decode first last sectors info scanned)
              (any_holds→Holds offset need info.gaps held),
        ),
        (
          info',
          subst (λ (z : Bytes × Bytes). gpt_space crc32 decode z.0 z.1 sectors ≡ ok info') same
              again,
        ),
      )
