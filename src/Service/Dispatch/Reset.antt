-- ===== src/Service/Dispatch/Reset.antt =====
-- The command `plan` of installer/backend/service.py for a removal that wipes userdata.
use e5_linux.Base.{
  ℕ, ◌≡◌, refl, sym, ap, ◌∙◌, ◌≢◌, inl, inr, Bool, true, false, if◌then◌else◌, Option, none, some,
  List, both_of_and, subst,
}
use e5_linux.Base.Text.{String}
use e5_linux.Base.Bytes.{Bytes, eq_bytes, eq_bytes→eq}
use e5_linux.Base.Result.{Result, ok, err}
use e5_linux.Plan.{PlanError, plan_install}
use e5_linux.Plan
use e5_linux.Service.Running.{is_uninstall}
use e5_linux.Removal.{Filesystem, ext4, f2fs, unreadable, reset}
use e5_linux.Removal.Journal.{Meta, Files, same_action}
use e5_linux.Removal.Journal
use e5_linux.Removal.Prepare.{
  Evidence, PrepareError, not_prepared, records_disagree, stale_nodes, bad_scan, bad_layout,
  bad_nodes, unproven, bad_volume, unavailable, grow_action, evidence_of, is_authorized,
}
use e5_linux.Removal.Prepare.Consent.{prepare-IsPlanned}
use e5_linux.Service.Dispatch.{
  Bundle, Found, installing, removing, Stored, Prompt, Server, Refusal, shown, Outcome, or_stay,
}
use e5_linux.Service.Dispatch.Planning.{
  PlanWorld, PlanRequest, check_pending, authorizes, store_new, prepare_for, ask, plan_new,
  plan_found, plan_from, plan, created,
}

-- The request repeats the token of the prompt, whose fingerprint is that of this device, the table
-- before, the volume, and a reason.
pub record IsConsent (digest : Evidence → Bytes) (device : Option Found) (prompt : Option Prompt)
    (token : Option Bytes) (meta : Meta) (files : Files) : Type 0 where
  pub found : Found
  pub expected : Prompt
  pub evidence : Evidence
  pub at_hand : device ≡ some found
  pub asked : prompt ≡ some expected
  pub repeated : token ≡ some expected.token
  pub fingerprint : expected.fingerprint ≡ digest evidence
  pub same_device : (evidence.cid ≡ found.storage.cid) × (evidence.slot ≡ found.storage.slot)
  pub same_table : evidence.layout ≡ files.before
  pub same_volume : evidence.volume ≡ meta.volume

authorizes-eq-true :
    (prompt : Option Prompt) (token : Option Bytes) (fingerprint : Bytes)
    → authorizes prompt token fingerprint ≡ true
    → (expected : Prompt) × (prompt ≡ some expected)
      × (token ≡ some expected.token)
      × (expected.fingerprint ≡ fingerprint)
unfolding authorizes
authorizes-eq-true none token fingerprint h = cc
authorizes-eq-true (some expected) none fingerprint h = cc
authorizes-eq-true (some expected) (some token) fingerprint h =
    let (same, named) = both_of_and (eq_bytes token expected.token) _ h in
    (
      expected,
      refl,
      ap some (eq_bytes→eq token expected.token same),
      sym (eq_bytes→eq fingerprint expected.fingerprint named),
    )

grow_action-reset : (f : Filesystem) → same_action (grow_action f) reset ≡ false
grow_action-reset ext4 = refl
grow_action-reset f2fs = refl
grow_action-reset unreadable = refl

shown_record :
    {x y : Stored} {s s' : Server}
    → (let o : Outcome = (ok (shown x), s) in o ≡ (ok (shown y), s'))
    → x ≡ y
shown_record h = let g = ap (λ (o : Outcome). o.0) h in cc

removing-injective :
    {p p' : Journal.Plan} {meta meta' : Meta} {files files' : Files}
    → removing p meta files ≡ removing p' meta' files'
    → (p ≡ p') × (meta ≡ meta') × (files ≡ files')
removing-injective e = (cc, cc, cc)

installing-removing :
    {p : Plan.Plan} {p' : Journal.Plan} {meta : Meta} {files : Files}
    → installing p ≢ removing p' meta files
installing-removing e = cc

or_stay-eq-shown :
    {A : Type 0} {r : Stored} {s' : Server} (s : Server) (x : Result Refusal A) (rest : A → Outcome)
    → or_stay s x rest ≡ (ok (shown r), s')
    → (a : A) × (x ≡ ok a) × (rest a ≡ (ok (shown r), s'))
or_stay-eq-shown s (err x) rest e = cc
or_stay-eq-shown s (ok a) rest e = (a, refl, e)

module _ (sha : Bytes → Bytes) (crc32 : Bytes → ℕ) (decode : Bytes → Option (List ℕ))
    (numbers : Bytes → Option (String × ℕ)) (is_mapping : Bytes → Bool) (int : Bytes → Option ℕ)
    (digest : Evidence → Bytes) where
  -- A wiping plan of prepare, with the test of the token, has the consent.
  prepare_for-IsConsent :
      (w : PlanWorld) (prompt : Option Prompt) (token : Option Bytes) (bundle : Bundle)
      (found : Found) (p : Journal.Plan) (meta : Meta) (files : Files)
      → prepare_for sha crc32 decode numbers is_mapping int digest w prompt token bundle found
        ≡ ok (p, meta, files)
      → p.wipe ≡ true
      → IsConsent digest (some found) prompt token meta files
  unfolding prepare_for
  prepare_for-IsConsent w prompt token bundle found p meta files e wipes =
      let planned =
        prepare-IsPlanned sha crc32 decode numbers is_mapping int digest
          (some (authorizes prompt token)) w.equip w.answers w.inspect w.read w.sources
          bundle.family found.storage p meta files e in
      let is_reset : same_action planned.decision.action reset ≡ true =
        sym planned.wipe.0 ∙ wipes in
      elim planned.agreed [
        | inl (stays, none_done) ↦ let h = rw none_done at is_reset in cc
        | inr (inl (grows, in_place, fit, equipped)) ↦
            let h = rw in_place at is_reset in
            let g = grow_action-reset meta.volume.filesystem in cc
        | inr (inr (grows, wiped, (asks, reason, given, agreed))) ↦
            let evidence =
              evidence_of found.storage files.before planned.layout.proof meta.volume reason in
            let (expected, asked, repeated, same) =
              authorizes-eq-true prompt token (digest evidence)
                (subst (λ f. is_authorized f (digest evidence) ≡ true) (sym given) agreed) in
            record {
              found = found;
              expected = expected;
              evidence = evidence;
              at_hand = refl;
              asked = asked;
              repeated = repeated;
              fingerprint = same;
              same_device = (refl, refl);
              same_table = refl;
              same_volume = refl;
            }
      ]

  -- A question or an error is no record.
  ask-eq-shown :
      (w : PlanWorld) (bundle : Bundle) (method : Plan.Method) (found : Found) (s s' : Server)
      (r : Stored) (made : Result PrepareError (Journal.Plan × Meta × Files))
      → ask sha crc32 decode numbers is_mapping int digest w bundle method found s made
        ≡ (ok (shown r), s')
      → (p : Journal.Plan) × (meta : Meta) × (files : Files) × (made ≡ ok (p, meta, files))
        × (r.plan ≡ removing p meta files)
  unfolding ask store_new created
  ask-eq-shown w bundle method found s s' r (err (unavailable reason fingerprint)) e = cc
  ask-eq-shown w bundle method found s s' r (err not_prepared) e = cc
  ask-eq-shown w bundle method found s s' r (err records_disagree) e = cc
  ask-eq-shown w bundle method found s s' r (err stale_nodes) e = cc
  ask-eq-shown w bundle method found s s' r (err (bad_scan x)) e = cc
  ask-eq-shown w bundle method found s s' r (err (bad_layout x)) e = cc
  ask-eq-shown w bundle method found s s' r (err (bad_nodes x)) e = cc
  ask-eq-shown w bundle method found s s' r (err unproven) e = cc
  ask-eq-shown w bundle method found s s' r (err (bad_volume x)) e = cc
  ask-eq-shown w bundle method found s s' r (ok (p, meta, files)) e =
      (p, meta, files, refl, ap (λ (x : Stored). x.plan) (sym (shown_record e)))

  module _ {N : Type 0} (is_positive : N → Bool) (units : N → ℕ) where
    plan_new-eq-shown :
        (bundle : Bundle) (choices : Plan.Choices N) (w : PlanWorld) (found : Found) (s s' : Server)
        (r : Stored) (made : Result PlanError Plan.Plan)
        → plan_new sha crc32 decode numbers is_mapping int digest is_positive units bundle choices w
            found s made
          ≡ (ok (shown r), s')
        → (p : Plan.Plan) × (r.plan ≡ installing p)
    unfolding plan_new store_new created
    plan_new-eq-shown bundle choices w found s s' r (err x) e = cc
    plan_new-eq-shown bundle choices w found s s' r (ok p) e =
        (p, ap (λ (x : Stored). x.plan) (sym (shown_record e)))

    -- The two ways to a record, by the method.
    made-IsConsent :
        (removes : Bool) (q : PlanRequest N) (w : PlanWorld) (s s' : Server) (bundle : Bundle)
        (found : Found) (r : Stored) (p : Journal.Plan) (meta : Meta) (files : Files)
        → (if removes
            then ask sha crc32 decode numbers is_mapping int digest w bundle q.choices.method found
                s
                (prepare_for sha crc32 decode numbers is_mapping int digest w s.prompt q.reset_token
                  bundle found)
            else plan_new sha crc32 decode numbers is_mapping int digest is_positive units bundle
                q.choices w found s
                (plan_install is_positive units bundle.sizes found.sized q.choices))
          ≡ (ok (shown r), s')
        → r.plan ≡ removing p meta files
        → p.wipe ≡ true
        → IsConsent digest (some found) s.prompt q.reset_token meta files
    made-IsConsent true q w s s' bundle found r p meta files e kept wipes =
        let (p', meta', files', made, stored) =
          ask-eq-shown w bundle q.choices.method found s s' r
            (prepare_for sha crc32 decode numbers is_mapping int digest w s.prompt q.reset_token
              bundle found)
            e in
        let (same_p, same_meta, same_files) = removing-injective (sym stored ∙ kept) in
        subst (λ (x : Meta). IsConsent digest (some found) s.prompt q.reset_token x files) same_meta
          (subst (λ (x : Files). IsConsent digest (some found) s.prompt q.reset_token meta' x)
            same_files
            (prepare_for-IsConsent w s.prompt q.reset_token bundle found p' meta' files' made
              (ap (λ (x : Journal.Plan). x.wipe) same_p ∙ wipes)))
    made-IsConsent false q w s s' bundle found r p meta files e kept wipes =
        let (p', stored) =
          plan_new-eq-shown bundle q.choices w found s s' r
            (plan_install is_positive units bundle.sizes found.sized q.choices) e in
        let same = sym stored ∙ kept in absurd (installing-removing same)

    plan_from-IsConsent :
        (q : PlanRequest N) (w : PlanWorld) (s s' : Server) (bundle : Option Bundle)
        (device : Option Found) (r : Stored) (p : Journal.Plan) (meta : Meta) (files : Files)
        → plan_from sha crc32 decode numbers is_mapping int digest is_positive units q w s bundle
            device
          ≡ (ok (shown r), s')
        → r.plan ≡ removing p meta files
        → p.wipe ≡ true
        → IsConsent digest device s.prompt q.reset_token meta files
    unfolding plan_from plan_found
    plan_from-IsConsent q w s s' none device r p meta files e kept wipes = cc
    plan_from-IsConsent q w s s' (some bundle) none r p meta files e kept wipes = cc
    plan_from-IsConsent q w s s' (some bundle) (some found) r p meta files e kept wipes =
        let (u, checked, e1) =
          or_stay-eq-shown s (check_pending q.choices.method found w.header s.disk) _ e in
        made-IsConsent (is_uninstall q.choices.method) q w s s' bundle found r p meta files e1 kept
          wipes

    -- When the command plan returns the record of a removal that wipes userdata, the service held a
    -- prompt, the request has repeated the prompt's token, and the prompt's fingerprint is the digest
    -- of evidence with the card and the slot of the device at hand, the partition table that the
    -- removal starts from, and its volume.
    pub plan-IsConsent :
        (q : PlanRequest N) (w : PlanWorld) (s s' : Server) (r : Stored) (p : Journal.Plan)
        (meta : Meta) (files : Files)
        → plan sha crc32 decode numbers is_mapping int digest is_positive units q w s
          ≡ (ok (shown r), s')
        → r.plan ≡ removing p meta files
        → p.wipe ≡ true
        → IsConsent digest w.device s.prompt q.reset_token meta files
    unfolding plan
    plan-IsConsent q w s s' r p meta files e kept wipes =
        plan_from-IsConsent q w s s' s.bundle w.device r p meta files e kept wipes
