-- ===== src/Gpt/FreeSpace.antt =====
-- gpt_space: what holds of the entries and the gaps that it returns.
use e5_linux.Base.{
  ℕ, zero, suc, ◌+◌, ◌-◌, ◌*◌, ◌%◌, ◌≤◌, ◌<◌, ◌≡◌, inl, inr, refl, subst, ◌∙◌, Bool, false, ◌&&◌,
  ◌||◌, not, ◌==◌, leb, ltb, if◌then◌else◌, Option, List, [], ◌∷◌, ◌++◌, map, length, take, drop,
  replicate, All, arith, Bool-cases,
}
use e5_linux.Base.Bytes.{Bytes, slice, eq_bytes, le_at}
use e5_linux.Base.Result.{Result, ok, or_raise, raise_if-eq-ok, >>=-eq-ok, ok-injective}
use e5_linux.Gpt.{
  GptError, incomplete, bad_bounds, bad_table, undecodable, outside, Part, Space, extent,
  sort_parts, gap_loop, is_nil, largest_gap, gpt_backup_layout, read_entry, read_entries, space_of,
  read_table, gpt_space,
}
use e5_linux.Gpt.Gaps.{Clear}

-- The usable bounds that the primary header names.
abbrev pub first_usable : Bytes → ℕ
first_usable first = le_at 8 40 (slice 512 1024 first)

abbrev pub last_usable : Bytes → ℕ
last_usable first = le_at 8 48 (slice 512 1024 first)

-- The entries' bytes in the first snapshot.
abbrev pub table_of : Bytes → Bytes
table_of first =
    let primary : Bytes = slice 512 1024 first in
    slice (le_at 8 72 primary * 512)
      (le_at 8 72 primary * 512 + le_at 4 80 primary * le_at 4 84 primary) first

-- An entry inside the bounds, with its first sector not behind its last.
abbrev pub IsInside : ℕ → ℕ → Part → Type 0
IsInside start end p = (start ≤ p.start) × (p.start ≤ p.end) × (p.end ≤ end)

-- A gap as it is meant: on both sides a multiple of 2048 sectors, not empty, between the two
-- tables, and clear of every entry.
pub record IsFree (info : Space) (g : ℕ × ℕ) : Type 0 where
  pub aligned : g.0 % 2048 ≡ 0
  pub whole : g.1 % 2048 ≡ 0
  pub some_room : 0 < g.1
  pub behind_front : info.front ≤ g.0
  pub before_tail : g.0 + g.1 ≤ info.tail
  pub clear : All (λ p. Clear g (extent p)) info.parts

inside_of_test :
    (s a b e : ℕ) → not (leb s a && leb a b && leb b e) ≡ false → (s ≤ a) × (a ≤ b) × (b ≤ e)
inside_of_test s a b e h = ground arith

module _ (crc32 : Bytes → ℕ) (decode : Bytes → Option (List ℕ)) where
  read_entry-IsInside :
      (start end i : ℕ) (raw : Bytes) (p : Part)
      → read_entry crc32 decode start end i raw ≡ ok p
      → IsInside start end p
  unfolding read_entry
  read_entry-IsInside start end i raw p e =
      let (text, good, e') = >>=-eq-ok (or_raise (decode (slice 56 128 raw)) undecodable) _ e in
      let (fits, e'') = raise_if-eq-ok _ outside _ e' in
      subst (IsInside start end) (ok-injective _ p e'')
        (inside_of_test start (le_at 8 32 raw) (le_at 8 40 raw) end fits)

  -- Every entry that the loop returns lies inside the usable bounds.
  pub read_entries-IsInside :
      (start end entry : ℕ) (table : Bytes) (left i : ℕ) (ps : List Part) (es : List ℕ)
      → read_entries crc32 decode start end entry table left i ≡ ok (ps, es)
      → All (IsInside start end) ps
  unfolding read_entries
  read_entries-IsInside start end entry table zero i ps es e =
      let q : [] ≡ ps = cc in subst (All (IsInside start end)) q tt
  read_entries-IsInside start end entry table (suc left) i ps es e =
      let raw : Bytes = slice (i * entry) ((i + 1) * entry) table in
      let more : Result GptError (List Part × List ℕ) =
        read_entries crc32 decode start end entry table left (i + 1) in
      elim (Bool-cases (eq_bytes (take 16 raw) (replicate 16 0))) [
        | inl unused ↦
            let (r, e', b) = >>=-eq-ok more _ (rw unused at e) in
            let q : r.0 ≡ ps = cc in
            subst (All (IsInside start end)) q
              (read_entries-IsInside start end entry table left (i + 1) r.0 r.1 e')
        | inr used ↦
            let (p, ep, rest) =
              >>=-eq-ok (read_entry crc32 decode start end i raw) _ (rw used at e) in
            let (r, e', b) = >>=-eq-ok more _ rest in
            let q : (p ∷ r.0) ≡ ps = cc in
            subst (All (IsInside start end)) q (
              read_entry-IsInside start end i raw p ep,
              read_entries-IsInside start end entry table left (i + 1) r.0 r.1 e',
            )
      ]

  -- What a successful gpt_space has checked, and how its result comes about.
  pub record Scanned (first last : Bytes) (sectors : ℕ) (info : Space) : Type 0 where
    pub layout :
        gpt_backup_layout crc32 decode
          (slice 512 1024 first)
          (drop (length last - 512) last)
          sectors
        ≡ ok (info.front, info.tail)
    pub entries :
        read_entries crc32 decode
          (first_usable first)
          (last_usable first)
          (le_at 4 84 (slice 512 1024 first))
          (table_of first)
          (le_at 4 80 (slice 512 1024 first))
          0
        ≡ ok (info.parts, info.empty)
    pub scan :
        gap_loop
          (first_usable first)
          (map extent (sort_parts info.parts) ++ ((last_usable first + 1, last_usable first) ∷ []))
        ≡ ok info.gaps
    pub from_front : info.front ≤ first_usable first
    pub ordered : first_usable first ≤ last_usable first
    pub to_tail : last_usable first < info.tail
    pub size : info.largest ≡ (if is_nil info.empty then 0 else largest_gap info.gaps)

  bounds_of_test :
      (f s e t : ℕ) (p q : Bool)
      → (p || q || not (leb f s && leb s e && ltb e t)) ≡ false
      → (f ≤ s) × (s ≤ e) × (e < t)
  bounds_of_test f s e t p q h = ground arith

  space_of-eq-ok :
      (front tail start end : ℕ) (r : List Part × List ℕ) (info : Space)
      → space_of crc32 decode front tail start end r ≡ ok info
      → (info.front ≡ front)
        × (info.tail ≡ tail)
        × (info.parts ≡ r.0)
        × (info.empty ≡ r.1)
        × (info.largest ≡ (if is_nil info.empty then 0 else largest_gap info.gaps))
        × (gap_loop start (map extent (sort_parts info.parts) ++ ((end + 1, end) ∷ []))
            ≡ ok info.gaps)
  unfolding space_of
  space_of-eq-ok front tail start end (parts, empty) info e =
      let (gaps, scan, built) =
        >>=-eq-ok (gap_loop start (map extent (sort_parts parts) ++ ((end + 1, end) ∷ []))) _ e in
      let same : _ ≡ info = ok-injective _ info built in
      subst
        (λ (x : Space).
          (x.front ≡ front)
          × (x.tail ≡ tail)
          × (x.parts ≡ parts)
          × (x.empty ≡ empty)
          × (x.largest ≡ (if is_nil x.empty then 0 else largest_gap x.gaps))
          × (gap_loop start (map extent (sort_parts x.parts) ++ ((end + 1, end) ∷ [])) ≡ ok x.gaps))
        same (refl, refl, refl, refl, refl, scan)

  -- The rest of gpt_space behind the layout.
  read_table-eq-ok :
      (first last : Bytes) (sectors front tail : ℕ) (info : Space)
      → read_table crc32 decode first last sectors (front, tail) ≡ ok info
      → (r : List Part × List ℕ) × (read_entries crc32 decode
            (first_usable first)
            (last_usable first)
            (le_at 4 84 (slice 512 1024 first))
            (table_of first)
            (le_at 4 80 (slice 512 1024 first))
            0
          ≡ ok r)
        × (front ≤ first_usable first)
        × (first_usable first ≤ last_usable first)
        × (last_usable first < tail)
        × (space_of crc32 decode front tail (first_usable first) (last_usable first) r ≡ ok info)
  unfolding read_table
  read_table-eq-ok first last sectors front tail info e =
      let (whole, e2) = raise_if-eq-ok _ incomplete _ e in
      let (bounds, e3) = raise_if-eq-ok _ bad_bounds _ e2 in
      let (table, e4) = raise_if-eq-ok _ bad_table _ e3 in
      let (r, entries, e5) =
        >>=-eq-ok
          (read_entries crc32 decode (first_usable first) (last_usable first)
            (le_at 4 84 (slice 512 1024 first)) (table_of first) (le_at 4 80 (slice 512 1024 first))
            0)
          _ e4 in
      let (lo, mid, hi) =
        bounds_of_test front (first_usable first) (last_usable first) tail
          (not (first_usable first == le_at 8 40 (drop (length last - 512) last)))
          (not (last_usable first == le_at 8 48 (drop (length last - 512) last))) bounds in
      (r, entries, lo, mid, hi, e5)

  pub gpt_space-Scanned :
      (first last : Bytes) (sectors : ℕ) (info : Space)
      → gpt_space crc32 decode first last sectors ≡ ok info
      → Scanned first last sectors info
  unfolding gpt_space
  gpt_space-Scanned first last sectors info e =
      let (l, layout, e1) =
        >>=-eq-ok
          (gpt_backup_layout crc32 decode (slice 512 1024 first) (drop (length last - 512) last)
            sectors)
          _ e in
      let (r, entries, lo, mid, hi, built) = read_table-eq-ok first last sectors l.0 l.1 info e1 in
      let (ef, et, ep, ee, size, scan) =
        space_of-eq-ok l.0 l.1 (first_usable first) (last_usable first) r info built in
      record {
        layout = layout ∙ cc;
        entries = entries ∙ cc;
        scan = scan;
        from_front = omega arith;
        ordered = mid;
        to_tail = omega arith;
        size = size;
      }
