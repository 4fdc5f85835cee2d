-- ===== src/Gpt/Rows.antt =====
-- gpt_space: where the table stands in the first snapshot, and what its rows say of the entries.
use e5_linux.Base.{
  ℕ, zero, suc, ◌+◌, ◌-◌, ◌*◌, ◌/◌, ◌≤◌, ◌<◌, ◌≡◌, inl, inr, refl, sym, ap, ◌∙◌, subst, Bool, false,
  not, ◌&&◌, ◌||◌, ◌==◌, ltb, leb, Bool-cases, Option, List, [], ◌∷◌, All, arith, length, take,
  drop, replicate,
}
use e5_linux.Base.Bytes.{Bytes, slice, eq_bytes, le_at, le_at-slice}
use e5_linux.Base.Result.{Result, ok, or_raise, >>=-eq-ok, raise_if-eq-ok, ok-injective}
use e5_linux.Gpt.{
  Header, Part, Space, GptError, undecodable, outside, bad_header, bad_header_size, bad_checksum,
  bad_geometry, copies_disagree, bad_range, incomplete, before_nul, header, gpt_backup_layout,
  read_entry, read_entries, read_table, gpt_space,
}
use e5_linux.Gpt.FreeSpace.{first_usable, last_usable, table_of, gpt_space-Scanned}

-- The table of a snapshot of which gpt_space has taken the size: behind the header, and whole.
pub record IsPlaced (first : Bytes) : Type 0 where
  pub behind : 2 ≤ le_at 8 584 first
  pub fits : le_at 8 584 first * 512 + le_at 4 592 first * 128 ≤ length first

-- An entry is what its row, one of `count`, says.
abbrev pub IsRow : Bytes → ℕ → Part → Type 0
IsRow table count p =
    (0 < p.n)
    × (p.n ≤ count)
    × (p.start ≡ le_at 8 32 (slice ((p.n - 1) * 128) (p.n * 128) table))
    × (p.end ≡ le_at 8 40 (slice ((p.n - 1) * 128) (p.n * 128) table))

module _ (crc32 : Bytes → ℕ) (decode : Bytes → Option (List ℕ)) where
  read_entry-IsRow :
      (start end i count : ℕ) (table : Bytes) (p : Part)
      → i < count
      → read_entry crc32 decode start end i (slice (i * 128) ((i + 1) * 128) table) ≡ ok p
      → IsRow table count p
  unfolding read_entry
  read_entry-IsRow start end i count table p lt e =
      let raw : Bytes = slice (i * 128) ((i + 1) * 128) table in
      let (text, good, e') = >>=-eq-ok (or_raise (decode (slice 56 128 raw)) undecodable) _ e in
      let (fits, e'') = raise_if-eq-ok _ outside _ e' in
      let row : Part = record {
        n = i + 1;
        start = le_at 8 32 raw;
        end = le_at 8 40 raw;
        name = before_nul text;
      } in
      let same : i ≡ i + 1 - 1 = omega arith in
      subst (IsRow table count) (ok-injective row p e'') (
        omega arith,
        omega arith,
        ap (λ (j : ℕ). le_at 8 32 (slice (j * 128) ((i + 1) * 128) table)) same,
        ap (λ (j : ℕ). le_at 8 40 (slice (j * 128) ((i + 1) * 128) table)) same,
      )

  read_entries-IsRow :
      (start end : ℕ) (table : Bytes) (left i count : ℕ) (ps : List Part) (es : List ℕ)
      → i + left ≡ count
      → read_entries crc32 decode start end 128 table left i ≡ ok (ps, es)
      → All (IsRow table count) ps
  unfolding read_entries
  read_entries-IsRow start end table zero i count ps es c e =
      let q : [] ≡ ps = cc in subst (All (IsRow table count)) q tt
  read_entries-IsRow start end table (suc left) i count ps es c e =
      let raw : Bytes = slice (i * 128) ((i + 1) * 128) table in
      let more : Result GptError (List Part × List ℕ) =
        read_entries crc32 decode start end 128 table left (i + 1) in
      elim (Bool-cases (eq_bytes (take 16 raw) (replicate 16 0))) [
        | inl unused ↦
            let (r, e', b) = >>=-eq-ok more _ (rw unused at e) in
            let q : r.0 ≡ ps = cc in
            subst (All (IsRow table count)) q
              (read_entries-IsRow start end table left (i + 1) count r.0 r.1 (omega arith) e')
        | inr used ↦
            let (p, ep, rest) =
              >>=-eq-ok (read_entry crc32 decode start end i raw) _ (rw used at e) in
            let (r, e', b) = >>=-eq-ok more _ rest in
            let q : (p ∷ r.0) ≡ ps = cc in
            subst (All (IsRow table count)) q (
              read_entry-IsRow start end i count table p (omega arith) ep,
              read_entries-IsRow start end table left (i + 1) count r.0 r.1 (omega arith) e',
            )
      ]

  -- What a header that is taken says.
  header-eq-ok :
      (raw : Bytes) (next : ℕ) (h : Header)
      → header crc32 decode raw next ≡ ok h
      → (h.table ≡ le_at 8 72 raw)
        × (h.span ≡ (le_at 4 80 raw * 128 + 511) / 512)
        × (le_at 4 84 raw ≡ 128)
  unfolding header
  header-eq-ok raw next h e =
      let (a, e1) = raise_if-eq-ok _ bad_header _ e in
      let (b, e2) = raise_if-eq-ok _ bad_header_size _ e1 in
      let (c, e3) = raise_if-eq-ok _ bad_checksum _ e2 in
      let (d, e4) = raise_if-eq-ok _ bad_geometry _ e3 in
      let size : le_at 4 84 raw ≡ 128 =
        wide (not (le_at 8 24 raw + 1 == next)) (ltb (le_at 4 80 raw) 1) (ltb 1024 (le_at 4 80 raw))
          (le_at 4 84 raw) d in
      subst
        (λ (x : Header).
          (x.table ≡ le_at 8 72 raw)
          × (x.span ≡ (le_at 4 80 raw * 128 + 511) / 512)
          × (le_at 4 84 raw ≡ 128))
        (ok-injective _ h e4) (refl, ap (λ (w : ℕ). (le_at 4 80 raw * w + 511) / 512) size, size)
    where
      wide : (p q r : Bool) (n : ℕ) → (p || q || r || not (n == 128)) ≡ false → n ≡ 128
      wide p q r n h = ground arith

  gpt_backup_layout-eq-ok :
      (primary backup : Bytes) (sectors front tail : ℕ)
      → gpt_backup_layout crc32 decode primary backup sectors ≡ ok (front, tail)
      → (2 ≤ le_at 8 72 primary)
        × (front ≡ le_at 8 72 primary + (le_at 4 80 primary * 128 + 511) / 512)
        × (le_at 4 84 primary ≡ 128)
  unfolding gpt_backup_layout
  gpt_backup_layout-eq-ok primary backup sectors front tail e =
      let (a, ea, e1) = >>=-eq-ok (header crc32 decode primary 2) _ e in
      let (b, eb, e2) = >>=-eq-ok (header crc32 decode backup sectors) _ e1 in
      let (c, e3) =
        raise_if-eq-ok
          (not (a.alternate + 1 == sectors)
            || not (b.alternate == 1)
            || not (eq_bytes a.disk_guid b.disk_guid)
            || not (eq_bytes a.geometry b.geometry))
          copies_disagree _ e2 in
      let (d, e4) =
        raise_if-eq-ok
          (not (
            leb 2 a.table
            && ltb a.table (a.table + a.span)
            && leb (a.table + a.span) 4096
            && leb sectors (b.table + 4096)
            && b.table + b.span + 1 == sectors))
          bad_range _ e3 in
      let (at, span, size) = header-eq-ok primary 2 a ea in
      let same : a.table + a.span ≡ front =
        ap (λ (x : ℕ × ℕ). x.0) (ok-injective (a.table + a.span, b.table) (front, tail) e4) in
      (
        omega (arith, at, low a.table _ _ _ _ d),
        sym same ∙ ap (λ (n : ℕ). n + a.span) at ∙ ap (λ (n : ℕ). le_at 8 72 primary + n) span,
        size,
      )
    where
      low : (n : ℕ) (p q r t : Bool) → not (leb 2 n && p && q && r && t) ≡ false → 2 ≤ n
      low n p q r t h = ground arith

  -- The place of the table in a snapshot that is taken.
  pub gpt_space-IsPlaced :
      (first last : Bytes) (sectors : ℕ) (info : Space)
      → gpt_space crc32 decode first last sectors ≡ ok info
      → IsPlaced first
        × All
            (IsRow
              (slice
                (le_at 8 584 first * 512)
                (le_at 8 584 first * 512 + le_at 4 592 first * 128)
                first)
              (le_at 4 592 first))
            info.parts
  unfolding gpt_space read_table
  gpt_space-IsPlaced first last sectors info e =
      let (l, layout, e1) =
        >>=-eq-ok
          (gpt_backup_layout crc32 decode (slice 512 1024 first) (drop (length last - 512) last)
            sectors)
          _ e in
      let (behind, front, size) =
        gpt_backup_layout-eq-ok (slice 512 1024 first) (drop (length last - 512) last) sectors l.0
          l.1 layout in
      let (whole, e2) =
        raise_if-eq-ok
          (not (length first == l.0 * 512) || not (length last == (sectors - l.1) * 512)) incomplete
          _ e1 in
      let scanned = gpt_space-Scanned crc32 decode first last sectors info e in
      let at : le_at 8 72 (slice 512 1024 first) ≡ le_at 8 584 first =
        le_at-slice 8 72 512 1024 first (omega arith) in
      let count : le_at 4 80 (slice 512 1024 first) ≡ le_at 4 592 first =
        le_at-slice 4 80 512 1024 first (omega arith) in
      let long : length first ≡ l.0 * 512 = sized (length first) (l.0 * 512) _ whole in
      let rows =
        read_entries-IsRow (first_usable first) (last_usable first) (table_of first)
          (le_at 4 80 (slice 512 1024 first)) 0 (le_at 4 80 (slice 512 1024 first)) info.parts
          info.empty (omega arith)
          (subst
            (λ (w : ℕ).
              read_entries crc32 decode (first_usable first) (last_usable first) w (table_of first)
                (le_at 4 80 (slice 512 1024 first)) 0
              ≡ ok (info.parts, info.empty))
            size scanned.entries) in
      (
        record { behind = omega (arith, at); fits = omega (arith, at, count, front, long) },
        moved at count size rows,
      )
    where
      sized : (n m : ℕ) (t : Bool) → (not (n == m) || t) ≡ false → n ≡ m
      sized n m t h = ground arith

      moved :
          le_at 8 72 (slice 512 1024 first) ≡ le_at 8 584 first
          → le_at 4 80 (slice 512 1024 first) ≡ le_at 4 592 first
          → le_at 4 84 (slice 512 1024 first) ≡ 128
          → All (IsRow (table_of first) (le_at 4 80 (slice 512 1024 first))) info.parts
          → All
              (IsRow
                (slice
                  (le_at 8 584 first * 512)
                  (le_at 8 584 first * 512 + le_at 4 592 first * 128)
                  first)
                (le_at 4 592 first))
              info.parts
      moved at count size rows =
          subst
            (λ (c : ℕ).
              All
                (IsRow (slice (le_at 8 584 first * 512) (le_at 8 584 first * 512 + c * 128) first)
                  c)
                info.parts)
            count
            (subst
              (λ (a : ℕ).
                All
                  (IsRow (slice (a * 512) (a * 512 + le_at 4 80 (slice 512 1024 first) * 128) first)
                    (le_at 4 80 (slice 512 1024 first)))
                  info.parts)
              at
              (subst
                (λ (w : ℕ).
                  All
                    (IsRow
                      (slice (le_at 8 72 (slice 512 1024 first) * 512)
                        (le_at 8 72 (slice 512 1024 first) * 512
                          + le_at 4 80 (slice 512 1024 first) * w)
                        first)
                      (le_at 4 80 (slice 512 1024 first)))
                    info.parts)
                size rows))
