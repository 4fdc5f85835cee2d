-- ===== src/Service/Dispatch/Start.antt =====
-- The commands start, resume and retry of installer/backend/service.py, with rebind_uninstall.
use e5_linux.Base.{
  ◌≡◌, refl, sym, ◌⊎◌, inl, inr, Bool, true, false, ◌&&◌, ◌||◌, not, Option, none, some, ◌∷◌,
  Bool-cases, subst, neither, true_of_not,
}
use e5_linux.Base.Text.{String}
use e5_linux.Base.Result.{
  Result, ok, err, >>=-eq-ok, raise_if-eq-ok, or_raise, or_raise-eq-ok, ok-injective,
}
use e5_linux.Identity.{compatible}
use e5_linux.Identity
use e5_linux.Service.Running.{same_text, is_uninstall}
use e5_linux.Service.Dispatch.{
  Found, Stored, Server, Refusal, old_removal, no_package, unconfirmed, bad_serial, owned,
  no_device, not_ready, other_device, shown, load, RunRequest, RunWorld, same_slot,
  rebind_uninstall, is_old_removal, accept, rebound, admit, launch, start,
}

-- The new connection is to a ready device with the card, profile and slot of the record.
pub record IsSameDevice (w : RunWorld) (r : Stored) : Type 0 where
  pub found : Found
  pub at_hand : w.device ≡ some found
  pub unlocked : w.locked ≡ false
  pub ready : same_text found.readiness "ready" ≡ true
  pub cid : same_text found.cid r.cid ≡ true
  pub profile : same_text found.profile r.profile ≡ true
  pub slot : same_slot found.slot r.slot ≡ true

-- What the run that starts has of the stored record.
pub record IsAdmitted (q : RunRequest) (w : RunWorld) (r run : Stored) : Type 0 where
  pub confirmed :
      (q.is_start ≡ true) × (q.confirmed ≡ true)
      ⊎ (q.is_start ≡ false) × (same_text r.status "ready" ≡ false)
  pub current : w.current ≡ some run.bundle
  pub fits : compatible r.bundle.identity run.bundle.identity ≡ ok tt
  pub not_old : is_old_removal r ≡ false
  pub plan : run.plan ≡ r.plan
  pub hardware :
      (run.id ≡ r.id) × (run.cid ≡ r.cid) × (run.slot ≡ r.slot) × (run.profile ≡ r.profile)
  pub connection :
      (run.serial ≡ r.serial)
      ⊎ (q.is_start ≡ false) × (is_uninstall r.method ≡ true) × IsSameDevice w r

rebind_uninstall-eq-ok :
    (r : Stored) (serial : String) (w : RunWorld) (run : Stored)
    → rebind_uninstall r serial w ≡ ok run
    → IsSameDevice w r × (run ≡ record r { serial = serial; moved_from = r.serial ∷ r.moved_from })
unfolding rebind_uninstall
rebind_uninstall-eq-ok r serial w run e =
    let (good, e1) = raise_if-eq-ok (not w.serial_ok) bad_serial _ e in
    let (free, e2) = raise_if-eq-ok w.locked owned _ e1 in
    let (found, at_hand, e3) = >>=-eq-ok (or_raise w.device no_device) _ e2 in
    let (is_ready, e4) = raise_if-eq-ok (not (same_text found.readiness "ready")) not_ready _ e3 in
    let (same, e5) =
      raise_if-eq-ok
        (not (same_text found.cid r.cid)
          || not (same_text found.profile r.profile)
          || not (same_slot found.slot r.slot))
        other_device _ e4 in
    let (both, slot) = neither _ _ same in
    let (cid, profile) = neither _ _ both in
    (
      record {
        found = found;
        at_hand = or_raise-eq-ok w.device no_device found at_hand;
        unlocked = free;
        ready = true_of_not _ is_ready;
        cid = true_of_not _ cid;
        profile = true_of_not _ profile;
        slot = true_of_not _ slot;
      },
      sym (ok-injective _ run e5),
    )

Result-cases : {E A : Type 0} (x : Result E A) → ((e : E) × (x ≡ err e)) ⊎ ((a : A) × (x ≡ ok a))
Result-cases (err e) = inl (e, refl)
Result-cases (ok a) = inr (a, refl)

not_started : (a b c : Bool) → (not a && b && c) ≡ true → (a ≡ false) × (b ≡ true)
not_started false true true h = (refl, refl)
not_started true b c h = cc
not_started false false c h = cc
not_started false true false h = cc

rebound-eq-ok :
    (is_start : Bool) (serial : Option String) (w : RunWorld) (r run : Stored)
    → rebound is_start serial w r ≡ ok run
    → (run ≡ r)
      ⊎ ((t : String) × (is_start ≡ false)
          × (is_uninstall r.method ≡ true)
          × IsSameDevice w r
          × (run ≡ record r { serial = t; moved_from = r.serial ∷ r.moved_from }))
unfolding rebound
rebound-eq-ok is_start none w r run e = inl (sym (ok-injective r run e))
rebound-eq-ok is_start (some t) w r run e =
    elim (Bool-cases
      (not is_start && is_uninstall r.method && not (same_text t "" || same_text t r.serial))) [
        | inl moves ↦
            let (resumed, removes) = not_started is_start (is_uninstall r.method) _ moves in
            let (same, moved) = rebind_uninstall-eq-ok r t w run (rw moves at e) in
            inr (t, resumed, removes, same, moved)
        | inr stays ↦ inl (sym (ok-injective r run (rw stays at e)))
      ]

confirmed_lem :
    (a b c : Bool)
    → (a && not b) ≡ false
    → (not a && c) ≡ false
    → (a ≡ true) × (b ≡ true) ⊎ (a ≡ false) × (c ≡ false)
confirmed_lem true true c h k = inl (refl, refl)
confirmed_lem true false c h k = cc
confirmed_lem false b false h k = inr (refl, refl)
confirmed_lem false b true h k = cc

accept-eq-ok : (old new : Identity.Package) → accept old new ≡ ok tt → compatible old new ≡ ok tt
accept-eq-ok old new e = elim (Result-cases (compatible old new)) [
  | inl (x, raised) ↦ let h = rw (accept, raised) at e in cc
  | inr (u, fine) ↦ fine
]

admit-IsAdmitted :
    (q : RunRequest) (w : RunWorld) (r run : Stored) → admit q w r ≡ ok run → IsAdmitted q w r run
unfolding admit
admit-IsAdmitted q w r run e =
    let (fresh, e1) = raise_if-eq-ok (is_old_removal r) old_removal _ e in
    let (current, at_hand, e2) = >>=-eq-ok (or_raise w.current no_package) _ e1 in
    let (u, fits, e3) = >>=-eq-ok (accept r.bundle.identity current.identity) _ e2 in
    let (a, e4) = raise_if-eq-ok (q.is_start && not q.confirmed) unconfirmed _ e3 in
    let (b, e5) = raise_if-eq-ok (not q.is_start && same_text r.status "ready") unconfirmed _ e4 in
    let known = or_raise-eq-ok w.current no_package current at_hand in
    let yes_said = confirmed_lem q.is_start q.confirmed (same_text r.status "ready") a b in
    elim (rebound-eq-ok q.is_start q.serial w (record r { bundle = current }) run e5) [
      | inl same ↦ subst (IsAdmitted q w r) (sym same) (record {
        confirmed = yes_said;
        current = known;
        fits = accept-eq-ok _ _ fits;
        not_old = fresh;
        plan = refl;
        hardware = (refl, refl, refl, refl);
        connection = inl refl;
      })
      | inr (t, resumed, removes, checked, moved) ↦ subst (IsAdmitted q w r) (sym moved) (record {
        confirmed = yes_said;
        current = known;
        fits = accept-eq-ok _ _ fits;
        not_old = fresh;
        plan = refl;
        hardware = (refl, refl, refl, refl);
        connection = inr (
          resumed,
          removes,
          record {
            found = checked.found;
            at_hand = checked.at_hand;
            unlocked = checked.unlocked;
            ready = checked.ready;
            cid = checked.cid;
            profile = checked.profile;
            slot = checked.slot;
          },
        );
      })
    ]

-- Refused, done before, or launched.
abbrev pub StartOutcome : RunRequest → RunWorld → Server → Type 0
StartOutcome q w s =
    ((e : Refusal) × (start q w s ≡ (err e, s)))
    ⊎ ((r : Stored) × (load q.id s.disk ≡ ok r)
        × (same_text r.status "completed" ≡ true)
        × (start q w s ≡ (ok (shown r), s)))
    ⊎ ((r run : Stored) × (load q.id s.disk ≡ ok r)
        × (same_text r.status "completed" ≡ false)
        × IsAdmitted q w r run
        × (start q w s ≡ launch run s))

-- The commands start, resume and retry either raise and leave the service as it is, or return a
-- transaction that is completed and leave it as it is, or launch a worker on the stored record of
-- the id: with a package that is compatible with the record's, after a confirmation of a start and
-- never from `ready` without a start, with the stored plan, id, card, slot and profile, and with the
-- stored connection, or for a removal that is resumed with one to a ready device that has them too.
pub start-outcomes : (q : RunRequest) (w : RunWorld) (s : Server) → StartOutcome q w s
unfolding start
start-outcomes q w s = elim (Result-cases (load q.id s.disk)) [
  | inl (e, missing) ↦ inl (e, rw missing refl)
  | inr (r, found) ↦ elim (Bool-cases (same_text r.status "completed")) [
    | inl done ↦ inr (inl (r, found, done, rw found (rw done refl)))
    | inr undone ↦ elim (Result-cases (admit q w r)) [
      | inl (e, refused) ↦ inl (e, rw found (rw undone (rw refused refl)))
      | inr (run, admitted) ↦ inr (
          inr (
            r,
            run,
            found,
            undone,
            admit-IsAdmitted q w r run admitted,
            rw found (rw undone (rw admitted refl)),
          ))
    ]
  ]
]
