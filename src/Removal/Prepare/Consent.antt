-- ===== src/Removal/Prepare/Consent.antt =====
-- What a plan of prepare rests on: where its layout comes from, and who agreed to a reset.
use e5_linux.Base.{
  ℕ, ◌*◌, ◌≡◌, ◌⊎◌, inl, inr, refl, sym, ap, subst, Bool, true, false, not, ◌||◌, Option, none,
  some, List, [], ◌∷◌, All, Bool-cases, true_of_not,
}
use e5_linux.Base.Text.{String}
use e5_linux.Base.Bytes.{Bytes}
use e5_linux.Base.Result.{
  Result, ok, err, >>=-eq-ok, raise_if-eq-ok, ok-injective, or_raise, or_raise-eq-ok,
}
use e5_linux.Base.Assoc.{Dict}
use e5_linux.Gpt.{Part}
use e5_linux.BootImage.{Family}
use e5_linux.TwoStage.{disk_of}
use e5_linux.Uninstall.{RemovalError, Snapshots, device_layout, restored_layout}
use e5_linux.Adapter.{ScanError, Scan, read_gpt}
use e5_linux.Removal.{
  gap, reset, Filesystem, EligibleError, Device, Volume, VolumeAnswers, android_volume, eligible,
}
use e5_linux.Removal.Journal.{
  Proof, Plan, Meta, Files, root_name, sectors_of, expected_nodes, same_action,
}
use e5_linux.Removal.Prepare.{
  Source, Skip, gpt_first, gpt_last, identity, damaged, other_method, other_identity, other_size,
  Reason, no_tools, not_eligible, PrepareError, not_prepared, records_disagree, stale_nodes,
  unproven, unavailable, Layout, Evidence, Decision, skip_bad, layout_ok, scan_ok, nodes_ok,
  grow_action, any_other, consistent, is_authorized, backed_up, match_of, matches, layout_from,
  is_stale, plan_of, meta_of, volume_or, grown_tools, evidence_of, or_reset, decide, plan_layout,
  prepare,
}

module _ (crc32 : Bytes → ℕ) (decode : Bytes → Option (List ℕ)) where
  -- The layout is one that device_layout computes from the tables at hand, or one that
  -- restored_layout computes from them and some backup.
  abbrev pub IsOrigin : Family → Device → Snapshots → Layout → Type 0
  IsOrigin family device current l =
      (device_layout crc32 decode current device.storage.disk_size (root_name family)
        ≡ ok (l.after, l.user, l.root, l.expands))
      ⊎ ((original : Snapshots) × (restored_layout crc32 decode original current
              device.storage.disk_size (root_name family)
            ≡ ok (l.after, l.user, l.root, l.expands)))

-- Userdata stays as it is; or it grows in place, on a device that is eligible with the tools at
-- hand; or it is reset, and the fingerprint of exactly this evidence was authorized.
abbrev pub IsAgreed :
    (Evidence → Bytes)
    → Option (Bytes → Bool)
    → (Filesystem → Option (Dict Bytes))
    → Device
    → Snapshots
    → Layout
    → Volume
    → Decision
    → Type 0
IsAgreed digest authorize equip device current l volume d =
    ((l.expands ≡ false) × (d.action ≡ gap))
    ⊎ ((l.expands ≡ true)
        × (d.action ≡ grow_action volume.filesystem)
        × (eligible device volume ≡ ok tt)
        × (equip volume.filesystem ≡ some d.tools))
    ⊎ ((l.expands ≡ true)
        × (d.action ≡ reset)
        × ((asks : Bytes → Bool) × (reason : Reason) × (authorize ≡ some asks)
            × (asks (digest (evidence_of device current l.proof volume reason)) ≡ true)))

authorized :
    (authorize : Option (Bytes → Bool)) (fingerprint : Bytes)
    → is_authorized authorize fingerprint ≡ true
    → (asks : Bytes → Bool) × (authorize ≡ some asks) × (asks fingerprint ≡ true)
authorized none fingerprint h = cc
authorized (some asks) fingerprint h = (asks, refl, h)

grown_tools-eq-ok :
    (device : Device) (equip : Filesystem → Option (Dict Bytes)) (volume : Volume)
    (reason : Option Reason) (tools : Dict Bytes)
    → grown_tools device equip volume reason ≡ ok tools
    → (eligible device volume ≡ ok tt) × (equip volume.filesystem ≡ some tools)
unfolding grown_tools
grown_tools-eq-ok device equip volume (some reason) tools h = cc
grown_tools-eq-ok device equip volume none tools h = by_test (eligible device volume) refl h
  where
    by_test :
        (r : Result EligibleError (Unit {0}))
        → eligible device volume ≡ r
        → (elim r [
          | err e ↦ err (not_eligible e)
          | ok u ↦ or_raise (equip volume.filesystem) no_tools
        ])
          ≡ ok tools
        → (eligible device volume ≡ ok tt) × (equip volume.filesystem ≡ some tools)
    by_test (err e) same h = cc
    by_test (ok u) same h = (same, or_raise-eq-ok (equip volume.filesystem) no_tools tools h)

module _ (digest : Evidence → Bytes) (authorize : Option (Bytes → Bool)) (device : Device)
    (current : Snapshots) (equip : Filesystem → Option (Dict Bytes)) (l : Layout)
    (volume : Volume) where
  or_reset-IsAgreed :
      (r : Result Reason (Dict Bytes)) (d : Decision)
      → l.expands ≡ true
      → ((tools : Dict Bytes)
          → r ≡ ok tools
          → (eligible device volume ≡ ok tt) × (equip volume.filesystem ≡ some tools))
      → or_reset digest authorize device current l.proof volume r ≡ ok d
      → IsAgreed digest authorize equip device current l volume d
  unfolding or_reset
  or_reset-IsAgreed (ok tools) d grows able e =
      let (fit, equipped) = able tools refl in
      rw (← ok-injective _ d e) (inr (inl (grows, refl, fit, equipped)))
  or_reset-IsAgreed (err reason) d grows able e =
      let fingerprint = digest (evidence_of device current l.proof volume reason) in
      let (agreed, e1) =
        raise_if-eq-ok (not (is_authorized authorize fingerprint)) (unavailable reason fingerprint)
          _ e in
      let (asks, given, yes_said) =
        authorized authorize fingerprint
          (true_of_not (is_authorized authorize fingerprint) agreed) in
      rw (← ok-injective _ d e1) (inr (inr (grows, refl, (asks, reason, given, yes_said))))

  decide-IsAgreed :
      (reason : Option Reason) (d : Decision)
      → decide digest authorize device current equip l volume reason ≡ ok d
      → IsAgreed digest authorize equip device current l volume d
  unfolding decide
  decide-IsAgreed reason d e = elim (Bool-cases l.expands) [
    | inl grows ↦
        or_reset-IsAgreed (grown_tools device equip volume reason) d grows
          (grown_tools-eq-ok device equip volume reason) (rw grows at e)
    | inr stays ↦
        inl (stays, ap (λ (x : Decision). x.action) (sym (ok-injective _ d (rw stays at e))))
  ]

skip_bad-eq-ok : {A : Type 0} (r : Result RemovalError A) (a : A) → skip_bad r ≡ ok a → r ≡ ok a
skip_bad-eq-ok (err e) a h = cc
skip_bad-eq-ok (ok b) a h = cc

layout_ok-eq-ok : {A : Type 0} (r : Result RemovalError A) (a : A) → layout_ok r ≡ ok a → r ≡ ok a
layout_ok-eq-ok (err e) a h = cc
layout_ok-eq-ok (ok b) a h = cc

scan_ok-eq-ok : {A : Type 0} (r : Result ScanError A) (a : A) → scan_ok r ≡ ok a → r ≡ ok a
scan_ok-eq-ok (err e) a h = cc
scan_ok-eq-ok (ok b) a h = cc

module _ (sha : Bytes → Bytes) (crc32 : Bytes → ℕ) (decode : Bytes → Option (List ℕ))
    (numbers : Bytes → Option (String × ℕ)) (family : Family) (device : Device)
    (current : Snapshots) where
  match_of-IsOrigin :
      (s : Source) (l : Layout)
      → match_of sha crc32 decode numbers family device current s ≡ ok l
      → IsOrigin crc32 decode family device current l
  unfolding match_of
  match_of-IsOrigin s l e =
      let (asked, e1) = raise_if-eq-ok _ other_method _ e in
      let (first, read_first, e2) = >>=-eq-ok (backed_up sha s gpt_first) _ e1 in
      let (last, read_last, e3) = >>=-eq-ok (backed_up sha s gpt_last) _ e2 in
      let (written, read_written, e4) = >>=-eq-ok (backed_up sha s identity) _ e3 in
      let ((cid, sectors), parsed, e5) = >>=-eq-ok (or_raise (numbers written) damaged) _ e4 in
      let (same_disk, e6) = raise_if-eq-ok _ other_identity _ e5 in
      let ((after, user, root, expands), restored, e7) =
        >>=-eq-ok
          (skip_bad (
            restored_layout crc32 decode (first, last) current device.storage.disk_size
              (root_name family)))
          _ e6 in
      let (sized, e8) = raise_if-eq-ok _ other_size _ e7 in
      let (placed, e9) = raise_if-eq-ok _ Skip.other_gap _ e8 in
      subst (IsOrigin crc32 decode family device current) (ok-injective _ l e9)
        (inr ((first, last), skip_bad-eq-ok _ (after, user, root, expands) restored))

  matches-All :
      (ss : List Source)
      → All
          (IsOrigin crc32 decode family device current)
          (matches sha crc32 decode numbers family device current ss)
  unfolding matches
  matches-All [] = tt
  matches-All (s ∷ ss) =
      by_match (match_of sha crc32 decode numbers family device current s) refl (matches-All ss)
    where
      by_match :
          (r : Result Skip Layout)
          → match_of sha crc32 decode numbers family device current s ≡ r
          → All
              (IsOrigin crc32 decode family device current)
              (matches sha crc32 decode numbers family device current ss)
          → All (IsOrigin crc32 decode family device current) (elim r [
            | err e ↦ matches sha crc32 decode numbers family device current ss
            | ok m ↦ m ∷ matches sha crc32 decode numbers family device current ss
          ])
      by_match (err e) same rest = rest
      by_match (ok m) same rest = (match_of-IsOrigin s m same, rest)

  consistent-P :
      (P : Layout → Type 0) (ms : List Layout) (m : Layout)
      → All P ms
      → consistent ms ≡ ok (some m)
      → P m
  unfolding consistent
  consistent-P P [] m h e = cc
  consistent-P P (x ∷ ms) m h e =
      let (same, e1) = raise_if-eq-ok (any_other x.after ms) records_disagree _ e in
      rw (unwrap x m e1) at h.0
    where
      unwrap :
          (x m : Layout)
          → (let r : Result PrepareError (Option Layout) = ok (some x) in r ≡ ok (some m))
          → x ≡ m
      unwrap x m h = cc

  layout_from-IsOrigin :
      (inspect : Part → Option Proof) (ss : List Source) (known : Option Layout) (l : Layout)
      → consistent (matches sha crc32 decode numbers family device current ss) ≡ ok known
      → layout_from sha crc32 decode numbers family device current inspect known ≡ ok l
      → IsOrigin crc32 decode family device current l
  unfolding layout_from
  layout_from-IsOrigin inspect ss (some m) l found e = rw (← ok-injective m l e) (
      consistent-P (IsOrigin crc32 decode family device current)
        (matches sha crc32 decode numbers family device current ss) m (matches-All ss) found)
  layout_from-IsOrigin inspect ss none l found e =
      let ((after, user, root, expands), computed, e1) =
        >>=-eq-ok
          (layout_ok
            (device_layout crc32 decode current device.storage.disk_size (root_name family)))
          _ e in
      let (proof, proven, e2) = >>=-eq-ok (or_raise (inspect root) unproven) _ e1 in
      rw (← ok-injective _ l e2) (inl (layout_ok-eq-ok _ (after, user, root, expands) computed))

module _ (sha : Bytes → Bytes) (crc32 : Bytes → ℕ) (decode : Bytes → Option (List ℕ))
    (numbers : Bytes → Option (String × ℕ)) (is_mapping : Bytes → Bool) (int : Bytes → Option ℕ)
    (digest : Evidence → Bytes) (authorize : Option (Bytes → Bool))
    (equip : Filesystem → Option (Dict Bytes)) (answers : VolumeAnswers)
    (inspect : Part → Option Proof) (read : ℕ → ℕ → Bytes) (sources : List Source) (family : Family)
    (device : Device) where
  -- What the plan, the metadata and the snapshots are made of.
  pub record IsPlanned (plan : Plan) (meta : Meta) (files : Files) : Type 0 where
    pub scan : Scan
    pub layout : Layout
    pub decision : Decision
    pub scanned : read_gpt read crc32 decode family device.storage.disk_size ≡ ok scan
    pub before : files.before ≡ (scan.first, scan.last)
    pub after : files.after ≡ layout.after
    pub origin : IsOrigin crc32 decode family device files.before layout
    pub agreed : IsAgreed digest authorize equip device files.before layout meta.volume decision
    pub action : (plan.action ≡ decision.action) × (meta.action ≡ decision.action)
    pub wipe :
        (plan.wipe ≡ same_action decision.action reset) × (meta.reset_authorized ≡ some plan.wipe)
    pub openwrt : plan.openwrt_bytes ≡ sectors_of layout.root * 512
    pub android : plan.android_bytes ≡ sectors_of layout.user * 512

  plan_layout-IsPlanned :
      (scan : Scan) (l : Layout) (plan : Plan) (meta : Meta) (files : Files)
      → read_gpt read crc32 decode family device.storage.disk_size ≡ ok scan
      → IsOrigin crc32 decode family device (scan.first, scan.last) l
      → plan_layout sha crc32 decode numbers is_mapping int digest authorize equip answers family
          device scan l
        ≡ ok (plan, meta, files)
      → IsPlanned plan meta files
  unfolding plan_layout plan_of meta_of
  plan_layout-IsPlanned scan l plan meta files scanned origin e =
      let (fresh, e1) = raise_if-eq-ok (is_stale device l.user l.root) stale_nodes _ e in
      let (nodes, named, e2) =
        >>=-eq-ok
          (nodes_ok (expected_nodes (disk_of device.storage.node) scan.space (root_name family))) _
          e1 in
      let ((volume, reason), measured, e3) =
        >>=-eq-ok
          (volume_or l.expands (android_volume is_mapping int false device.userdata_bytes answers))
          _ e2 in
      let (d, decided, e4) =
        >>=-eq-ok (decide digest authorize device (scan.first, scan.last) equip l volume reason) _
          e3 in
      let agreed =
        decide-IsAgreed digest authorize device (scan.first, scan.last) equip l volume reason d
          decided in
      subst (λ (x : Plan × Meta × Files). IsPlanned x.0 x.1 x.2)
        (ok-injective _ (plan, meta, files) e4)
        (record {
          scan = scan;
          layout = l;
          decision = d;
          scanned = scanned;
          before = refl;
          after = refl;
          origin = origin;
          agreed = agreed;
          action = (refl, refl);
          wipe = (refl, refl);
          openwrt = refl;
          android = refl;
        })

  -- A plan of prepare rests on the scan of the table at hand; its new table is the one that
  -- device_layout computes, or restored_layout from a backup; the sizes are those of the rows; and
  -- either userdata does not grow and nothing is done to it, or it grows in place on a device that
  -- eligible accepts and with the tools at hand, or it is wiped, and the caller's function has
  -- authorized the fingerprint of this device, table, evidence, volume and reason.
  pub prepare-IsPlanned :
      (plan : Plan) (meta : Meta) (files : Files)
      → prepare sha crc32 decode numbers is_mapping int digest authorize equip answers inspect read
          sources family device
        ≡ ok (plan, meta, files)
      → IsPlanned plan meta files
  unfolding prepare
  prepare-IsPlanned plan meta files e =
      let (ready, e1) =
        raise_if-eq-ok (not device.is_ready || not device.existing) not_prepared _ e in
      let (scan, scanned, e2) =
        >>=-eq-ok (scan_ok (read_gpt read crc32 decode family device.storage.disk_size)) _ e1 in
      let current : Snapshots = (scan.first, scan.last) in
      let (known, found, e3) =
        >>=-eq-ok (consistent (matches sha crc32 decode numbers family device current sources)) _
          e2 in
      let (l, chosen, e4) =
        >>=-eq-ok (layout_from sha crc32 decode numbers family device current inspect known) _ e3 in
      plan_layout-IsPlanned scan l plan meta files (scan_ok-eq-ok _ scan scanned)
        (layout_from-IsOrigin sha crc32 decode numbers family device current inspect sources known l
          found chosen)
        e4
