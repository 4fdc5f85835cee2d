-- ===== src/Uninstall/Layout.antt =====
-- device_layout of installer/backend/uninstall.py: what the new table keeps, and what it frees.
use e5_linux.Base.{
  ℕ, zero, suc, ◌+◌, ◌-◌, ◌*◌, ◌%◌, ◌≤◌, ◌<◌, ◌≡◌, ◌⊎◌, refl, sym, ap, ◌∙◌, subst, Bool, true,
  false, not, ◌||◌, ◌==◌, ==_iff, ltb, if◌then◌else◌, Option, List, arith, length, take, replicate,
  length-replicate,
}
use e5_linux.Base.Bytes.{
  Bytes, byte, slice, le_at, eq_bytes, le_bytes, put_at, length-le_bytes, length-put_at,
  get_or-put_at_in,
}
use e5_linux.Base.Result.{ok, >>=-eq-ok, raise_if-eq-ok, ok-injective}
use e5_linux.Gpt.{Part, Space, gpt_space, linux_type}
use e5_linux.Gpt.Sealed.{splice-put_at, byte-put_at_outside}
use e5_linux.Gpt.Rows.{IsPlaced, IsRow, gpt_space-IsPlaced}
use e5_linux.Uninstall.{
  unsupported, duplicated, Snapshots, userdata, gpt_checked, partition, table, any_guid,
  is_unsupported, grown, freed_table, with_table, free_rows, device_layout,
}
use e5_linux.Uninstall.Restored.{gpt_checked-eq-ok, partition-P, with_table-eq-ok, length-table}
use e5_linux.Uninstall.Written.{table-with_copy}

-- The new userdata row: it takes the sectors of OpenWrt where they follow, and only there.
abbrev pub IsGrown : Part → Part → Part → Bool → Type 0
IsGrown user root target expands =
    (target.n ≡ user.n)
    × (target.start ≡ user.start)
    × (expands ≡ true → (root.start ≡ user.end + 1) × (target.end ≡ root.end))
    × (expands ≡ false → target.end ≡ user.end)

-- The bytes of the new table: zero in the freed entry, the number of the last sector in userdata's,
-- and those of the old table elsewhere.
pub record IsFreed (old new : Bytes) (user root end : ℕ) : Type 0 where
  pub same_length : length new ≡ length old
  pub kept :
      (k : ℕ)
      → (k < root * 128) ⊎ (root * 128 + 128 ≤ k)
      → (k < user * 128 + 40) ⊎ (user * 128 + 48 ≤ k)
      → byte new k ≡ byte old k
  pub cleared :
      (k : ℕ)
      → k < 128
      → (root * 128 + k < user * 128 + 40) ⊎ (user * 128 + 48 ≤ root * 128 + k)
      → byte new (root * 128 + k) ≡ 0
  pub written : (k : ℕ) → k < 8 → byte new (user * 128 + 40 + k) ≡ byte (le_bytes 8 end) k

grown-IsGrown :
    (user root : Part) → IsGrown user root (grown user root) (root.start == user.end + 1)
unfolding grown
grown-IsGrown user root = by_place (root.start == user.end + 1) refl
  where
    by_place :
        (t : Bool)
        → (root.start == user.end + 1) ≡ t
        → IsGrown user root (if t then record user { end = root.end } else user) t
    by_place true e = (refl, refl, (λ h. ((==_iff root.start (user.end + 1)).0 e, refl)), (λ h. cc))
    by_place false e = (refl, refl, (λ h. cc), (λ h. refl))

byte_zeros : (n k : ℕ) → byte (replicate n 0) k ≡ 0
byte_zeros zero k = refl
byte_zeros (suc n) zero = refl
byte_zeros (suc n) (suc k) = byte_zeros n k

-- bytes(128)
abbrev blank : Bytes
blank = replicate 128 0

length-blank : length blank ≡ 128
length-blank = length-replicate {A = ℕ} 128 0

module _ (old : Bytes) (user root end : ℕ) (user_in : user * 128 + 128 ≤ length old)
    (root_in : root * 128 + 128 ≤ length old) where
  without_root : Bytes
  without_root = put_at (root * 128) blank old

  length-without_root : length without_root ≡ length old
  unfolding without_root
  length-without_root = length-put_at (root * 128) blank old (omega (arith, length-blank))

  freed_table_lem :
      freed_table old root user end ≡ put_at (user * 128 + 40) (le_bytes 8 end) without_root
  unfolding freed_table without_root
  freed_table_lem =
      ap (put_at (user * 128 + 40) (le_bytes 8 end))
        (splice-put_at (root * 128) ((root + 1) * 128) blank old (omega (arith, length-blank)))

  freed_table-IsFreed : IsFreed old (freed_table old root user end) user root end
  unfolding without_root
  freed_table-IsFreed =
      subst (λ (new : Bytes). IsFreed old new user root end) (sym freed_table_lem)
        (record {
          same_length =
              length-put_at (user * 128 + 40) (le_bytes 8 end) without_root fits
              ∙ length-without_root;
          kept = λ k far out.
              outside k out ∙ byte-put_at_outside (root * 128) blank old k zeros_fit (apart k far);
          cleared = λ k lt out.
              outside (root * 128 + k) out
              ∙ get_or-put_at_in (root * 128) blank old zeros_fit k 0 (omega (arith, length-blank))
              ∙ byte_zeros 128 k;
          written = λ k lt.
              get_or-put_at_in (user * 128 + 40) (le_bytes 8 end) without_root fits k 0
                (omega (arith, length-le_bytes 8 end));
        })
    where
      fits : user * 128 + 40 + length (le_bytes 8 end) ≤ length without_root
      fits = omega (arith, length-le_bytes 8 end, length-without_root)

      zeros_fit : root * 128 + length blank ≤ length old
      zeros_fit = omega (arith, length-blank)

      apart :
          (k : ℕ)
          → (k < root * 128) ⊎ (root * 128 + 128 ≤ k)
          → (k < root * 128) ⊎ (root * 128 + length blank ≤ k)
      apart k h = omega (arith, length-blank)

      outside :
          (k : ℕ)
          → (k < user * 128 + 40) ⊎ (user * 128 + 48 ≤ k)
          → byte (put_at (user * 128 + 40) (le_bytes 8 end) without_root) k ≡ byte without_root k
      outside k h =
          byte-put_at_outside (user * 128 + 40) (le_bytes 8 end) without_root k fits
            (omega (arith, length-le_bytes 8 end))

module _ (crc32 : Bytes → ℕ) (decode : Bytes → Option (List ℕ)) where
  -- What device_layout returns, for the row of userdata that it has found.
  abbrev pub IsLayout : Snapshots → ℕ → Part → Snapshots × Part × Part × Bool → Type 0
  IsLayout current sectors user (output, target, root, expands) =
      IsGrown user root target expands
      × IsFreed (table current.0) (table output.0) (user.n - 1) (root.n - 1) target.end
      × (root.start % 2048 ≡ 0)
      × (4194304 + root.start ≤ root.end + 1)
      × ((info : Space) × (gpt_space crc32 decode output.0 output.1 sectors ≡ ok info))

  supported :
      (entry : Bytes) (root : Part)
      → is_unsupported entry root ≡ false
      → (root.start % 2048 ≡ 0) × (4194304 + root.start ≤ root.end + 1)
  unfolding is_unsupported
  supported entry root h =
      sized (not (eq_bytes (take 16 entry) linux_type))
        (eq_bytes (slice 16 32 entry) (replicate 16 0))
        (not (eq_bytes (slice 48 56 entry) (replicate 8 0))) root.start root.end h
    where
      sized :
          (a b c : Bool) (s e : ℕ)
          → (a
              || b
              || c
              || not (s % 2048 == 0)
              || not ((e + 1) % 2048 == 0)
              || ltb (e + 1 - s) 4194304)
            ≡ false
          → (s % 2048 ≡ 0) × (4194304 + s ≤ e + 1)
      sized a b c s e h = ground arith

  free_rows-IsLayout :
      (current : Snapshots) (sectors : ℕ) (parts : List Part) (user root : Part)
      (y : Snapshots × Part × Part × Bool)
      → IsPlaced current.0
      → IsRow (table current.0) (le_at 4 592 current.0) user
      → IsRow (table current.0) (le_at 4 592 current.0) root
      → free_rows crc32 decode current sectors parts user root ≡ ok y
      → IsLayout current sectors user y × (root ≡ y.2)
  unfolding free_rows
  free_rows-IsLayout current sectors parts user root y placed user_row root_row e =
      let old : Bytes = table current.0 in
      let entry : Bytes = slice ((root.n - 1) * 128) (root.n * 128) old in
      let (sound, e1) = raise_if-eq-ok (is_unsupported entry root) unsupported _ e in
      let (single, e2) =
        raise_if-eq-ok (any_guid old root.n (slice 16 32 entry) parts) duplicated _ e1 in
      let updated = freed_table old (root.n - 1) (user.n - 1) (grown user root).end in
      let (output, written, e3) =
        >>=-eq-ok (with_table crc32 decode current updated sectors) _ e2 in
      let same = ok-injective (output, grown user root, root, root.start == user.end + 1) y e3 in
      let (first, last, checked) =
        with_table-eq-ok crc32 decode current updated sectors output written in
      let (aligned, large) = supported entry root sound in
      let long = length-table crc32 decode current.0 placed in
      let freed =
        freed_table-IsFreed old (user.n - 1) (root.n - 1) (grown user root).end
          (omega (arith, long, user_row.0, user_row.1))
          (omega (arith, long, root_row.0, root_row.1)) in
      let stands : table output.0 ≡ updated =
        ap table first
        ∙ table-with_copy crc32 decode updated current.0 (freed.same_length ∙ long) placed.behind
            (omega (arith, freed.same_length, long, placed.fits)) in
      (
        subst (IsLayout current sectors user) same (
          grown-IsGrown user root,
          subst (λ (t : Bytes). IsFreed old t (user.n - 1) (root.n - 1) (grown user root).end)
              (sym stands) freed,
          aligned,
          large,
          checked,
        ),
        ap (λ (z : Snapshots × Part × Part × Bool). z.2) same,
      )

  -- When device_layout returns, its output is a partition table that gpt_space takes. The row of
  -- OpenWrt that it returns is the only one of its name in the scan of the given snapshots, aligned
  -- and of at least 2 GiB; the new table is zero in that entry up to the field of userdata's last
  -- sector, which is OpenWrt's last one if OpenWrt began right behind userdata and is unchanged
  -- otherwise, and every other byte of the table is what it was.
  pub device_layout-IsLayout :
      (current : Snapshots) (sectors : ℕ) (name : List ℕ) (y : Snapshots × Part × Part × Bool)
      → device_layout crc32 decode current sectors name ≡ ok y
      → (info : Space) × (user : Part) × (gpt_space crc32 decode current.0 current.1 sectors
          ≡ ok info)
        × (partition info userdata ≡ ok user)
        × (partition info name ≡ ok y.2)
        × IsLayout current sectors user y
  unfolding device_layout table
  device_layout-IsLayout current sectors name y e =
      let (info, e_info, e1) =
        >>=-eq-ok (gpt_checked (gpt_space crc32 decode current.0 current.1 sectors)) _ e in
      let (user, e_user, e2) = >>=-eq-ok (partition info userdata) _ e1 in
      let (root, e_root, e3) = >>=-eq-ok (partition info name) _ e2 in
      let scan =
        gpt_checked-eq-ok (gpt_space crc32 decode current.0 current.1 sectors) info e_info in
      let (placed, rows) = gpt_space-IsPlaced crc32 decode current.0 current.1 sectors info scan in
      let (layout, same) =
        free_rows-IsLayout current sectors info.parts user root y placed
          (partition-P (IsRow (table current.0) (le_at 4 592 current.0)) info userdata user e_user
            rows)
          (partition-P (IsRow (table current.0) (le_at 4 592 current.0)) info name root e_root rows)
          e3 in
      (info, user, scan, e_user, e_root ∙ ap ok same, layout)
