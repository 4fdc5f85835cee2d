-- ===== src/Uninstall/Restored.antt =====
-- restored_layout of installer/backend/uninstall.py: the table that it writes is the table of the
-- backup.
use e5_linux.Base.{
  ℕ, ◌+◌, ◌-◌, ◌*◌, ◌/◌, ◌<◌, ◌≡◌, sym, ap, ◌∙◌, subst, Bool, true, false, not, ◌||◌, ◌==◌, ltb,
  Option, List, [], ◌∷◌, All, All-take, All-drop, arith, length, if◌then◌else◌,
}
use e5_linux.Base.Bytes.{Bytes, IsByte, slice, eq_bytes, le_at, le_at-slice}
use e5_linux.Base.Result.{Result, ok, err, >>=-eq-ok, raise_if-eq-ok, ok-injective}
use e5_linux.Gpt.{Part, Space, GptError, gpt_space, any_named}
use e5_linux.Gpt.Rows.{IsPlaced, IsRow, gpt_space-IsPlaced}
use e5_linux.Uninstall.{
  identity_differs, not_removed, Snapshots, userdata, gpt_checked, rows_named, only_row, partition,
  table, is_empty_entry, is_other_disk, compare_entries, proven_origin, restored_table, with_copy,
  with_table, restore_rows, restore_scanned, restored_layout,
}
use e5_linux.Uninstall.Table.{
  row_at, IsLike, compare_entries-IsLike, restored_table_lem, length-slice,
}
use e5_linux.Uninstall.Written.{table-with_copy}

pub gpt_checked-eq-ok :
    {A : Type 0} (r : Result GptError A) (a : A) → gpt_checked r ≡ ok a → r ≡ ok a
gpt_checked-eq-ok (err e) a h = cc
gpt_checked-eq-ok (ok b) a h = ap ok (ok-injective b a h)

-- What holds for every row holds for the one row of a name.
module _ (P : Part → Type 0) where
  All-rows_named : (name : List ℕ) (ps : List Part) → All P ps → All P (rows_named name ps)
  unfolding rows_named
  All-rows_named name [] h = tt
  All-rows_named name (p ∷ ps) (hp, h) =
      by_name (eq_bytes p.name name) (rows_named name ps) (All-rows_named name ps h)
    where
      by_name : (t : Bool) (rest : List Part) → All P rest → All P (if t then p ∷ rest else rest)
      by_name true rest k = (hp, k)
      by_name false rest k = k

  only_row-P : (ps : List Part) (p : Part) → only_row ps ≡ ok p → All P ps → P p
  only_row-P [] p e h = cc
  only_row-P (q ∷ []) p e h = subst P (ok-injective q p e) h.0
  only_row-P (q ∷ r ∷ ps) p e h = cc

  pub partition-P :
      (info : Space) (name : List ℕ) (p : Part)
      → partition info name ≡ ok p
      → All P info.parts
      → P p
  unfolding partition
  partition-P info name p e h =
      only_row-P (rows_named name info.parts) p e (All-rows_named name info.parts h)

module _ (crc32 : Bytes → ℕ) (decode : Bytes → Option (List ℕ)) where
  pub with_table-eq-ok :
      (current : Snapshots) (updated : Bytes) (sectors : ℕ) (output : Snapshots)
      → with_table crc32 decode current updated sectors ≡ ok output
      → (output.0 ≡ with_copy crc32 decode updated current.0 512 (le_at 8 584 current.0 * 512))
        × (output.1 ≡ with_copy crc32 decode updated current.1 (length current.1 - 512) 0)
        × ((info : Space) × (gpt_space crc32 decode output.0 output.1 sectors ≡ ok info))
  unfolding with_table
  with_table-eq-ok (first, last) updated sectors output e =
      let first' = with_copy crc32 decode updated first 512 (le_at 8 584 first * 512) in
      let last' = with_copy crc32 decode updated last (length last - 512) 0 in
      let (info, checked, e1) =
        >>=-eq-ok (gpt_checked (gpt_space crc32 decode first' last' sectors)) _ e in
      let same : (first', last') ≡ output = ok-injective (first', last') output e1 in
      (
        sym (ap (λ (x : Snapshots). x.0) same),
        sym (ap (λ (x : Snapshots). x.1) same),
        subst (λ (x : Snapshots). (i : Space) × (gpt_space crc32 decode x.0 x.1 sectors ≡ ok i))
            same
            (info, gpt_checked-eq-ok (gpt_space crc32 decode first' last' sectors) info checked),
      )

  pub length-table :
      (first : Bytes) → IsPlaced first → length (table first) ≡ le_at 4 592 first * 128
  unfolding table
  length-table first placed =
      length-slice (le_at 8 584 first * 512) (le_at 8 584 first * 512 + le_at 4 592 first * 128)
        first placed.fits
      ∙ omega arith

  table-IsByte : (first : Bytes) → All IsByte first → All IsByte (table first)
  unfolding table
  table-IsByte first bytes = All-take IsByte _ _ (All-drop IsByte _ first bytes)

  -- The step from both scans to the written bytes.
  same_table :
      (original current : Snapshots) (user root prior : Part)
      → IsPlaced original.0
      → IsPlaced current.0
      → IsRow (table current.0) (le_at 4 592 current.0) user
      → IsRow (table current.0) (le_at 4 592 current.0) root
      → IsRow (table original.0) (le_at 4 592 original.0) prior
      → length (table original.0) ≡ length (table current.0)
      → user.n ≡ prior.n
      → All IsByte original.0
      → ((index : ℕ)
          → index < le_at 4 592 current.0
          → IsLike
              (user.n - 1)
              (root.n - 1)
              index
              (row_at index (table original.0))
              (row_at index (table current.0)))
      → restored_table (table original.0) (table current.0) (root.n - 1) (user.n - 1) prior.end
        ≡ table original.0
  same_table original current user root prior placed placed_now user_row root_row prior_row sizes n
        bytes alike =
      ap
        (λ (end : ℕ).
          restored_table (table original.0) (table current.0) (root.n - 1) (user.n - 1) end)
        end_read
      ∙ restored_table_lem (user.n - 1) (root.n - 1) (le_at 4 592 current.0) (table original.0)
          (table current.0) (sizes ∙ length-table current.0 placed_now)
          (length-table current.0 placed_now) (omega (arith, user_row.0, user_row.1))
          (omega (arith, root_row.0, root_row.1)) table_bytes alike
    where
      table_bytes : All IsByte (table original.0)
      table_bytes = table-IsByte original.0 bytes

      end_read : prior.end ≡ le_at 8 ((user.n - 1) * 128 + 40) (table original.0)
      end_read =
          prior_row.3
          ∙ le_at-slice 8 40 ((prior.n - 1) * 128) (prior.n * 128) (table original.0)
              (omega (arith, prior_row.0))
          ∙ ap (λ (m : ℕ). le_at 8 ((m - 1) * 128 + 40) (table original.0)) (sym n)

  identity_kept :
      (original current : Snapshots) (old now : Space) (user root prior : Part)
      → is_other_disk original current old now user root prior ≡ false
      → (length (table original.0) ≡ length (table current.0)) × (user.n ≡ prior.n)
  unfolding is_other_disk
  identity_kept original current old now user root prior h =
      agreed (not (eq_bytes (slice 568 584 original.0) (slice 568 584 current.0)))
        (not (old.front == now.front)) (not (old.tail == now.tail)) (length (table original.0))
        (length (table current.0)) user.n prior.n (not (user.start == prior.start))
        (not (is_empty_entry (root.n - 1) old.empty)) h
    where
      agreed :
          (a b c : Bool) (x y n m : ℕ) (d e : Bool)
          → (a || b || c || not (x == y) || not (n == m) || d || e) ≡ false
          → (x ≡ y) × (n ≡ m)
      agreed a b c x y n m d e h = ground arith

  -- The output is a table that gpt_space takes, and the one of the backup.
  abbrev pub IsRestored : Snapshots → ℕ → Snapshots → Type 0
  IsRestored original sectors output =
      (table output.0 ≡ table original.0)
      × ((info : Space) × (gpt_space crc32 decode output.0 output.1 sectors ≡ ok info))

  written-IsRestored :
      (original current : Snapshots) (sectors : ℕ) (updated : Bytes) (output : Snapshots)
      → IsPlaced current.0
      → length (table original.0) ≡ length (table current.0)
      → updated ≡ table original.0
      → with_table crc32 decode current updated sectors ≡ ok output
      → IsRestored original sectors output
  written-IsRestored original current sectors updated output placed sizes same e =
      let (first, last, checked) = with_table-eq-ok current updated sectors output e in
      let long : length updated ≡ le_at 4 592 current.0 * 128 =
        ap length same ∙ sizes ∙ length-table current.0 placed in
      (
        ap table first
            ∙ table-with_copy crc32 decode updated current.0 long placed.behind
                (omega (arith, long, placed.fits))
            ∙ same,
        checked,
      )

  module _ (original current : Snapshots) (sectors : ℕ) (name : List ℕ)
      (bytes : All IsByte original.0) (placed : IsPlaced original.0)
      (placed_now : IsPlaced current.0) where
    restore_rows-IsRestored :
        (gaps : List (ℕ × ℕ)) (user root prior : Part) (y : Snapshots × Part × Part × Bool)
        → IsRow (table current.0) (le_at 4 592 current.0) user
        → IsRow (table current.0) (le_at 4 592 current.0) root
        → IsRow (table original.0) (le_at 4 592 original.0) prior
        → length (table original.0) ≡ length (table current.0)
        → user.n ≡ prior.n
        → restore_rows crc32 decode original current sectors name gaps user root prior ≡ ok y
        → IsRestored original sectors y.0
    unfolding restore_rows
    restore_rows-IsRestored gaps user root prior y user_row root_row prior_row sizes n e =
        let (u, compared, e1) =
          >>=-eq-ok
            (compare_entries (user.n - 1) (root.n - 1) (table original.0) (table current.0)
              (length (table current.0) / 128) 0)
            _ e in
        let (v, origin, e2) = >>=-eq-ok (proven_origin prior user root gaps) _ e1 in
        let updated =
          restored_table (table original.0) (table current.0) (root.n - 1) (user.n - 1) prior.end in
        let (output, written, e3) =
          >>=-eq-ok (with_table crc32 decode current updated sectors) _ e2 in
        let (verified, again, e4) =
          >>=-eq-ok (gpt_checked (gpt_space crc32 decode output.0 output.1 sectors)) _ e3 in
        let (removed, e5) = raise_if-eq-ok (any_named name verified.parts) not_removed _ e4 in
        let same = ok-injective (output, prior, root, ltb user.end prior.end) y e5 in
        let count : length (table current.0) / 128 ≡ le_at 4 592 current.0 =
          omega (arith, length-table current.0 placed_now) in
        let alike = λ (index : ℕ) (lt : index < le_at 4 592 current.0).
          compare_entries-IsLike (user.n - 1) (root.n - 1) (table original.0) (table current.0)
            (length (table current.0) / 128) 0 u compared index (omega arith)
            (omega (arith, count)) in
        subst (λ (z : Snapshots × Part × Part × Bool). IsRestored original sectors z.0) same
          (written-IsRestored original current sectors updated output placed_now sizes
            (same_table original current user root prior placed placed_now user_row root_row
              prior_row sizes n bytes alike)
            written)

    restore_scanned-IsRestored :
        (old now : Space) (y : Snapshots × Part × Part × Bool)
        → All (IsRow (table original.0) (le_at 4 592 original.0)) old.parts
        → All (IsRow (table current.0) (le_at 4 592 current.0)) now.parts
        → restore_scanned crc32 decode original current sectors name old now ≡ ok y
        → IsRestored original sectors y.0
    unfolding restore_scanned
    restore_scanned-IsRestored old now y old_rows now_rows e =
        let (user, e_user, e1) = >>=-eq-ok (partition now userdata) _ e in
        let (root, e_root, e2) = >>=-eq-ok (partition now name) _ e1 in
        let (prior, e_prior, e3) = >>=-eq-ok (partition old userdata) _ e2 in
        let (same, e4) =
          raise_if-eq-ok (is_other_disk original current old now user root prior) identity_differs _
            e3 in
        let (sizes, n) = identity_kept original current old now user root prior same in
        restore_rows-IsRestored old.gaps user root prior y
          (partition-P (IsRow (table current.0) (le_at 4 592 current.0)) now userdata user e_user
            now_rows)
          (partition-P (IsRow (table current.0) (le_at 4 592 current.0)) now name root e_root
            now_rows)
          (partition-P (IsRow (table original.0) (le_at 4 592 original.0)) old userdata prior
            e_prior old_rows)
          sizes n e4

  -- When restored_layout returns, the snapshots it gives are a partition table that gpt_space takes,
  -- and their table is the table of the backup taken before the installation, byte for byte: every
  -- entry, the userdata partition and the entry that the installation used. The backup is a string
  -- of bytes.
  pub restored_layout-IsRestored :
      (original current : Snapshots) (sectors : ℕ) (name : List ℕ)
      (y : Snapshots × Part × Part × Bool)
      → restored_layout crc32 decode original current sectors name ≡ ok y
      → All IsByte original.0
      → IsRestored original sectors y.0
  unfolding restored_layout table
  restored_layout-IsRestored original current sectors name y e bytes =
      let (old, e_old, e1) =
        >>=-eq-ok (gpt_checked (gpt_space crc32 decode original.0 original.1 sectors)) _ e in
      let (now, e_now, e2) =
        >>=-eq-ok (gpt_checked (gpt_space crc32 decode current.0 current.1 sectors)) _ e1 in
      let (placed, old_rows) =
        gpt_space-IsPlaced crc32 decode original.0 original.1 sectors old
          (gpt_checked-eq-ok (gpt_space crc32 decode original.0 original.1 sectors) old e_old) in
      let (placed_now, now_rows) =
        gpt_space-IsPlaced crc32 decode current.0 current.1 sectors now
          (gpt_checked-eq-ok (gpt_space crc32 decode current.0 current.1 sectors) now e_now) in
      restore_scanned-IsRestored original current sectors name bytes placed placed_now old now y
        old_rows now_rows e2
