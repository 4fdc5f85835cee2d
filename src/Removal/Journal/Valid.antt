-- ===== src/Removal/Journal/Valid.antt =====
-- What a journal that validate_snapshots accepts says about the disk.
use e5_linux.Base.{
  ℕ, ◌+◌, ◌*◌, ◌≡◌, ◌⊎◌, inl, inr, refl, sym, ap, ◌∙◌, subst, Bool, true, false, not, ◌||◌, leb,
  Option, some, none, List, arith, Bool-cases, same_bool, same_bool→≡, eq_of_not, true_of_not,
  neither, any_of, test_at, get_or,
}
use e5_linux.Base.Bytes.{Bytes, eq_bytes→eq}
use e5_linux.Base.Result.{Result, ok, err, >>=-eq-ok, raise_if, raise_if-eq-ok, ok-injective}
use e5_linux.Gpt.{Part, Space, gpt_space}
use e5_linux.BootImage.{Family, is_known}
use e5_linux.TwoStage.{disk_of}
use e5_linux.Uninstall.{Snapshots, RemovalError, userdata, gpt_checked, partition}
use e5_linux.Uninstall.Restored.{gpt_checked-eq-ok}
use e5_linux.Removal.{Action, gap, reset, grow_ext4, grow_f2fs, unknown, Device}
use e5_linux.Removal.Journal.{
  Nodes, Plan, Meta, Files, root_name, sectors_of, same_action, is_flag, same_snapshots,
  layout_checked, expected_nodes, geometry_tests, check_action, check_growth, calculated_layout,
  check_geometry, validate_snapshots, known_version, is_node, incomplete, bad_node, other_action,
  unauthorized, is_listed,
}

-- Whether Android may be wiped: by a journal of the first version where userdata grows; by a later
-- one exactly for the action `reset`, to which the flag of the authorization agrees.
abbrev pub IsConsent : Plan → Meta → Bool → Type 0
IsConsent plan meta expands =
    ((leb 2 meta.version ≡ false) × (plan.wipe ≡ expands))
    ⊎ ((meta.action ≡ plan.action)
        × (plan.wipe ≡ same_action meta.action reset)
        × (meta.reset_authorized ≡ some plan.wipe)
        × (same_action meta.action gap ≡ not expands))

same_action→≡ : (x y : Action) → same_action x y ≡ true → x ≡ y
same_action→≡ gap gap h = refl
same_action→≡ gap reset h = cc
same_action→≡ gap grow_ext4 h = cc
same_action→≡ gap grow_f2fs h = cc
same_action→≡ gap unknown h = cc
same_action→≡ reset reset h = refl
same_action→≡ reset gap h = cc
same_action→≡ reset grow_ext4 h = cc
same_action→≡ reset grow_f2fs h = cc
same_action→≡ reset unknown h = cc
same_action→≡ grow_ext4 grow_ext4 h = refl
same_action→≡ grow_ext4 gap h = cc
same_action→≡ grow_ext4 reset h = cc
same_action→≡ grow_ext4 grow_f2fs h = cc
same_action→≡ grow_ext4 unknown h = cc
same_action→≡ grow_f2fs grow_f2fs h = refl
same_action→≡ grow_f2fs gap h = cc
same_action→≡ grow_f2fs reset h = cc
same_action→≡ grow_f2fs grow_ext4 h = cc
same_action→≡ grow_f2fs unknown h = cc
same_action→≡ unknown unknown h = refl
same_action→≡ unknown gap h = cc
same_action→≡ unknown reset h = cc
same_action→≡ unknown grow_ext4 h = cc
same_action→≡ unknown grow_f2fs h = cc

is_flag→≡ : (f : Option Bool) (b : Bool) → is_flag f b ≡ true → f ≡ some b
is_flag→≡ none b h = cc
is_flag→≡ (some a) b h = ap some (same_bool→≡ a b h)

same_snapshots→≡ : (x y : Snapshots) → same_snapshots x y ≡ true → x ≡ y
same_snapshots→≡ (a, b) (c, d) h = ground (arith, eq_bytes→eq a c, eq_bytes→eq b d)

layout_checked-eq-ok :
    {A : Type 0} (r : Result RemovalError A) (a : A) → layout_checked r ≡ ok a → r ≡ ok a
layout_checked-eq-ok (err e) a h = cc
layout_checked-eq-ok (ok b) a h = cc

raise_if-ok : {E : Type 0} (t : Bool) (e : E) → raise_if t e ≡ ok tt → t ≡ false
raise_if-ok true e h = cc
raise_if-ok false e h = refl

-- The kernel's numbers for userdata are those of its row, the plan's sizes those of the layout.
pub record Agrees (device : Device) (plan : Plan) (meta : Meta) (files : Files) (info : Space)
    (user : Part) (nodes : Nodes) (calculated : Snapshots) (prior root : Part) (wipe : Bool)
    : Type 0 where
  pub after : calculated ≡ files.after
  pub disk : meta.total ≡ device.storage.disk_size
  pub front : meta.front ≡ info.front
  pub tail : meta.tail ≡ info.tail
  pub root_start : meta.root_start ≡ root.start
  pub root_size : meta.root_size ≡ sectors_of root
  pub start : device.storage.start ≡ user.start
  pub size : device.storage.size ≡ sectors_of user
  pub userdata_bytes : device.userdata_bytes ≡ device.storage.size * 512
  pub previous : plan.previous_bytes ≡ device.storage.size * 512
  pub target : plan.target ≡ nodes.root
  pub wiped : plan.wipe ≡ wipe
  pub android : plan.android_bytes ≡ sectors_of prior * 512
  pub reclaimed : plan.reclaimed_bytes + device.storage.size * 512 ≡ plan.android_bytes
  pub openwrt : plan.openwrt_bytes ≡ sectors_of root * 512

module _ (device : Device) (plan : Plan) (meta : Meta) (files : Files) (info : Space) (user : Part)
    (nodes : Nodes) (calculated : Snapshots) (prior root : Part) (wipe : Bool) where
  tests : List Bool
  tests = geometry_tests device plan meta files info user nodes calculated prior root wipe

  Agrees_lem :
      any_of tests ≡ false
      → Agrees device plan meta files info user nodes calculated prior root wipe
  unfolding tests geometry_tests
  Agrees_lem h =
      let at : (i : ℕ) → get_or tests i false ≡ false = test_at tests h in
      record {
        after = same_snapshots→≡ calculated files.after (true_of_not _ (at 0));
        disk = eq_of_not meta.total device.storage.disk_size (at 1);
        front = eq_of_not meta.front info.front (at 2);
        tail = eq_of_not meta.tail info.tail (at 3);
        root_start = eq_of_not meta.root_start root.start (at 5);
        root_size = eq_of_not meta.root_size (sectors_of root) (at 6);
        start = eq_of_not device.storage.start user.start (at 8);
        size = eq_of_not device.storage.size (sectors_of user) (at 9);
        userdata_bytes = eq_of_not device.userdata_bytes (device.storage.size * 512) (at 10);
        previous = eq_of_not plan.previous_bytes (device.storage.size * 512) (at 11);
        target = eq_bytes→eq plan.target nodes.root (true_of_not _ (at 12));
        wiped = same_bool→≡ plan.wipe wipe (true_of_not _ (at 13));
        android = eq_of_not plan.android_bytes (sectors_of prior * 512) (at 14);
        reclaimed =
            eq_of_not (plan.reclaimed_bytes + device.storage.size * 512) plan.android_bytes (at 15);
        openwrt = eq_of_not plan.openwrt_bytes (sectors_of root * 512) (at 16);
      }

module _ (crc32 : Bytes → ℕ) (decode : Bytes → Option (List ℕ)) where
  -- The table before is a partition table whose userdata is the kernel's; the table after is the
  -- one that the code computes from it, and the plan has the sizes of that layout.
  pub record IsRemoval (family : Family) (device : Device) (plan : Plan) (meta : Meta)
      (files : Files) : Type 0 where
    pub info : Space
    pub user : Part
    pub prior : Part
    pub root : Part
    pub nodes : Nodes
    pub calculated : Snapshots
    pub expands : Bool
    pub scanned :
        gpt_space crc32 decode files.before.0 files.before.1 device.storage.disk_size ≡ ok info
    pub user_row : partition info userdata ≡ ok user
    pub named : expected_nodes (disk_of device.storage.node) info (root_name family) ≡ ok nodes
    pub computed :
        calculated_layout crc32 decode family device plan meta files
        ≡ ok (calculated, prior, root, expands)
    pub agrees : Agrees device plan meta files info user nodes calculated prior root plan.wipe
    pub consent : IsConsent plan meta expands

  check_action-IsConsent :
      (device : Device) (plan : Plan) (meta : Meta) (expands wipe : Bool)
      → check_action device plan meta expands ≡ ok wipe
      → plan.wipe ≡ wipe
      → IsConsent plan meta expands
  unfolding check_action
  check_action-IsConsent device plan meta expands wipe e w =
      elim (Bool-cases (leb 2 meta.version)) [
        | inr first ↦ inl (first, w ∙ sym (ok-injective expands wipe (rw first at e)))
        | inl later ↦
            let e0 = rw later at e in
            let (listed, e1) =
              raise_if-eq-ok
                (not (same_action meta.action plan.action) || not (is_listed meta.action))
                other_action _ e0 in
            let (flags, e2) =
              raise_if-eq-ok
                (not (same_bool (same_action meta.action gap) (not expands))
                  || not (is_flag meta.reset_authorized (same_action meta.action reset)))
                unauthorized _ e1 in
            let (u, grown, e3) = >>=-eq-ok (check_growth device meta) _ e2 in
            let wiped = w ∙ sym (ok-injective (same_action meta.action reset) wipe e3) in
            let (a, b) = neither _ _ listed in
            let (c, d) = neither _ _ flags in
            inr (
              same_action→≡ meta.action plan.action (true_of_not _ a),
              wiped,
              is_flag→≡ meta.reset_authorized (same_action meta.action reset) (true_of_not _ d)
                  ∙ ap some (sym wiped),
              same_bool→≡ (same_action meta.action gap) (not expands) (true_of_not _ c),
            )
      ]

  -- A journal passes validate_snapshots only if its first table is a partition table in which the
  -- rows that the plan names are there once, and userdata is where the kernel has it; its second
  -- table is the one that device_layout or restored_layout computes from it; the plan's sizes are
  -- those of the rows; and Android is wiped as agreed: in the first version where userdata grows,
  -- later exactly for the action `reset`, with the flag of the authorization set to it.
  pub validate_snapshots-IsRemoval :
      (family : Family) (device : Device) (plan : Plan) (meta : Meta) (files : Files)
      → validate_snapshots crc32 decode family device plan meta files ≡ ok tt
      → IsRemoval family device plan meta files
  unfolding validate_snapshots check_geometry tests
  validate_snapshots-IsRemoval family device plan meta files e =
      let (versions, e1) =
        raise_if-eq-ok (not (known_version meta.version) || not plan.is_uninstall) incomplete _ e in
      let (noded, e2) =
        raise_if-eq-ok (not (is_known family) || not (is_node device.storage.node)) bad_node _ e1 in
      let ((calculated, prior, root, expands), computed, e3) =
        >>=-eq-ok (calculated_layout crc32 decode family device plan meta files) _ e2 in
      let (wipe, acted, e4) = >>=-eq-ok (check_action device plan meta expands) _ e3 in
      let (info, scan, e5) =
        >>=-eq-ok
          (layout_checked (
            gpt_checked
              (gpt_space crc32 decode files.before.0 files.before.1 device.storage.disk_size)))
          _ e4 in
      let (user, user_row, e6) = >>=-eq-ok (layout_checked (partition info userdata)) _ e5 in
      let (nodes, named, e7) =
        >>=-eq-ok (expected_nodes (disk_of device.storage.node) info (root_name family)) _ e6 in
      let tested = raise_if-ok _ _ e7 in
      let agrees =
        Agrees_lem device plan meta files info user nodes calculated prior root wipe tested in
      record {
        info = info;
        user = user;
        prior = prior;
        root = root;
        nodes = nodes;
        calculated = calculated;
        expands = expands;
        scanned = gpt_checked-eq-ok _ info (layout_checked-eq-ok _ info scan);
        user_row = layout_checked-eq-ok _ user user_row;
        named = named;
        computed = computed;
        agrees =
            subst (Agrees device plan meta files info user nodes calculated prior root)
              (sym agrees.wiped) agrees;
        consent = check_action-IsConsent device plan meta expands wipe acted agrees.wiped;
      }
