-- ===== src/Plan/Safe.antt =====
-- What every plan of installer/backend/service.py promises for the data on the device.
use e5_linux.Base.{
  ℕ, ◌+◌, ◌-◌, ◌≤◌, ◌≡◌, ◌≢◌, refl, sym, ◌∙◌, Bool, true, false, ◌&&◌, ◌||◌, not, ltb, Option, none,
  some, arith,
}
use e5_linux.Base.Result.{Result, ok, ◌>>◌, raise_if, raise_if-eq-ok, >>=-eq-ok, or_raise}
use e5_linux.Plan.{
  Method, tf, part, reinstall, image, boot, update, uninstall, other, PlanError, not_ready,
  bad_size, no_card, card_too_small, nothing_to_reinstall, encrypted_image, image_size,
  partition_exists, too_small, no_room, Package, Device, Choices, Plan, userdata_image, unallocated,
  userdata_shrink, two_gib, image_reserve, leaves_too_little, base_plan, update_plan, plan_card,
  plan_reinstall, plan_image, plan_place, plan_partition, plan_sized, plan_method, plan_install,
  chosen_gap,
}

-- Userdata is divided: both parts have 2 GiB, and Android's is wiped or holds what it has and 2 GiB.
pub record IsDivided (device : Device) (wish : Bool) (plan : Plan) (android : ℕ) : Type 0 where
  pub kept : plan.android_bytes ≡ some android
  pub whole : android + plan.openwrt_bytes ≡ device.userdata_bytes
  pub android_room : two_gib ≤ android
  pub openwrt_room : two_gib ≤ plan.openwrt_bytes
  pub used_room : plan.wipe ≡ false → device.userdata_bytes + two_gib ≤ android + device.free_bytes
  pub encrypted_wiped : (device.encrypted || wish) ≡ plan.wipe
  pub alone : device.existing ≡ false

-- What a plan may do, by its target; nothing but a division of userdata wipes.
pub record IsSafePlan (bundle : Package) (device : Device) (wish : Bool) (plan : Plan)
    : Type 0 where
  pub wiped : plan.wipe ≡ true → plan.target ≡ some userdata_shrink
  pub divided :
      plan.target ≡ some userdata_shrink → (android : ℕ) × IsDivided device wish plan android
  pub imaged :
      plan.target ≡ some userdata_image
      → (device.encrypted ≡ false)
        × (two_gib ≤ plan.openwrt_bytes)
        × (plan.openwrt_bytes + image_reserve bundle ≤ device.free_bytes)
  pub placed :
      plan.target ≡ some unallocated
      → (device.existing ≡ false)
        × (two_gib ≤ plan.openwrt_bytes)
        × (plan.gap_start ≡ chosen_gap device plan.openwrt_bytes)
        × (plan.gap_start ≢ none)

room_of_test :
    (userdata free size : ℕ) (wipe : Bool)
    → (ltb userdata (size + two_gib)
        || (not wipe && ltb (userdata + free) (size + userdata + two_gib)))
      ≡ false
    → (size + two_gib ≤ userdata) × (wipe ≡ false → userdata + two_gib ≤ userdata - size + free)
room_of_test userdata free size true e = (ground arith, λ w. cc)
room_of_test userdata free size false e = (ground arith, λ w. ground arith)

size_of_test :
    (size free reserve : ℕ)
    → (ltb size two_gib || ltb free (size + reserve)) ≡ false
    → (two_gib ≤ size) × (size + reserve ≤ free)
size_of_test size free reserve e = ground arith

le_of_test : (size : ℕ) → ltb size two_gib ≡ false → two_gib ≤ size
le_of_test size e = ground arith

passed :
    {y : Plan} (ready positive : Bool) (k : Result PlanError Plan)
    → (raise_if (not ready) not_ready >> (raise_if (not positive) bad_size >> k)) ≡ ok y
    → k ≡ ok y
passed ready positive k e =
    (raise_if-eq-ok (not positive) bad_size k
      (raise_if-eq-ok (not ready) not_ready (raise_if (not positive) bad_size >> k) e).1).1

module _ (bundle : Package) (device : Device) (wish : Bool) where
  -- A plan whose target is none of the three and that does not wipe.
  plain :
      (plan : Plan)
      → plan.wipe ≡ false
      → plan.target ≢ some userdata_shrink
      → plan.target ≢ some userdata_image
      → plan.target ≢ some unallocated
      → IsSafePlan bundle device wish plan
  plain plan w s i u = record {
    wiped = λ e. cc;
    divided = λ e. absurd (s e);
    imaged = λ e. absurd (i e);
    placed = λ e. absurd (u e);
  }

  module _ (method : Method) (grow : Bool) (size : ℕ) (y : Plan) where
    card-IsSafePlan :
        plan_card device (base_plan method grow device size) ≡ ok y
        → IsSafePlan bundle device wish y
    unfolding plan_card base_plan
    card-IsSafePlan e =
        let (at, e1, e2) = >>=-eq-ok (or_raise device.card no_card) _ e in
        let (fits, e3) = raise_if-eq-ok (ltb device.card_bytes two_gib) card_too_small _ e2 in
        plain y (cc) (cc) (cc) (cc)

    reinstall-IsSafePlan :
        plan_reinstall device (base_plan method grow device size) ≡ ok y
        → IsSafePlan bundle device wish y
    unfolding plan_reinstall base_plan
    reinstall-IsSafePlan e =
        let (there, e1) = raise_if-eq-ok (not device.existing) nothing_to_reinstall _ e in
        plain y (cc) (cc) (cc) (cc)

    image-IsSafePlan :
        plan_image bundle device size (base_plan method grow device size) ≡ ok y
        → IsSafePlan bundle device wish y
    unfolding plan_image base_plan
    image-IsSafePlan e =
        let (open_data, e1) = raise_if-eq-ok device.encrypted encrypted_image _ e in
        let (room, e2) =
          raise_if-eq-ok (ltb size two_gib || ltb device.free_bytes (size + image_reserve bundle))
            image_size _ e1 in
        let bytes : y.openwrt_bytes ≡ size = cc in
        let (big, fits) = size_of_test size device.free_bytes (image_reserve bundle) room in
        record {
          wiped = λ w. cc;
          divided = λ t. cc;
          imaged = λ t. rw bytes (open_data, big, fits);
          placed = λ t. cc;
        }

    place-IsSafePlan :
        (o : Option ℕ)
        → o ≡ chosen_gap device size
        → device.existing ≡ false
        → two_gib ≤ size
        → plan_place bundle device wish size (base_plan method grow device size) o ≡ ok y
        → IsSafePlan bundle device wish y
    unfolding plan_place base_plan leaves_too_little
    place-IsSafePlan (some gap) chosen alone big e =
        let bytes : y.openwrt_bytes ≡ size = cc in
        let start : y.gap_start ≡ some gap = cc in
        record {
          wiped = λ w. cc;
          divided = λ t. cc;
          imaged = λ t. cc;
          placed = λ t. rw (bytes, start) (alone, big, chosen, λ n. cc);
        }
    place-IsSafePlan none chosen alone big e =
        let (room, e1) = raise_if-eq-ok _ no_room _ e in
        let (fits, used) =
          room_of_test device.userdata_bytes device.free_bytes size (device.encrypted || wish)
            room in
        let bytes : y.openwrt_bytes ≡ size = cc in
        let wipe : y.wipe ≡ (device.encrypted || wish) = cc in
        record {
          wiped = λ w. cc;
          divided = λ t. (
            device.userdata_bytes - size,
            record {
              kept = cc;
              whole = rw bytes (omega arith);
              android_room = omega arith;
              openwrt_room = rw bytes big;
              used_room = λ w. used (sym wipe ∙ w);
              encrypted_wiped = sym wipe;
              alone = alone;
            },
          );
          imaged = λ t. cc;
          placed = λ t. cc;
        }

    partition-IsSafePlan :
        plan_partition bundle device wish size (base_plan method grow device size) ≡ ok y
        → IsSafePlan bundle device wish y
    unfolding plan_partition
    partition-IsSafePlan e =
        let (alone, e1) = raise_if-eq-ok device.existing partition_exists _ e in
        let (big, e2) = raise_if-eq-ok (ltb size two_gib) too_small _ e1 in
        place-IsSafePlan (chosen_gap device size) refl alone (le_of_test size big) e2

module _ {N : Type 0} (is_positive : N → Bool) (units : N → ℕ) where
  -- A plan is safe: only a division of userdata wipes, and it wipes exactly where userdata is
  -- encrypted or the user wishes it; a division leaves both systems 2 GiB and, without a wipe,
  -- Android what it holds and 2 GiB more; an image leaves the reserve free and goes on no encrypted
  -- userdata; a partition in unallocated space starts at the chosen gap and comes beside no other.
  pub plan_install-IsSafePlan :
      (bundle : Package) (device : Device) (choices : Choices N) (plan : Plan)
      → plan_install is_positive units bundle device choices ≡ ok plan
      → IsSafePlan bundle device choices.wipe plan
  unfolding plan_install plan_method plan_sized update_plan base_plan
  plan_install-IsSafePlan bundle device choices plan e = by_method choices.method e
    where
      by_method :
          (method : Method)
          → plan_method is_positive units method bundle device choices ≡ ok plan
          → IsSafePlan bundle device choices.wipe plan
      by_method other h = cc
      by_method uninstall h = let (r, h1) = raise_if-eq-ok (not device.is_ready) not_ready _ h in cc
      by_method update h =
          let (r, h1) = raise_if-eq-ok (not device.is_ready) not_ready _ h in
          plain bundle device choices.wipe plan (cc) (cc) (cc) (cc)
      by_method boot h =
          let h2 = passed device.is_ready (is_positive choices.size) _ h in
          plain bundle device choices.wipe plan (cc) (cc) (cc) (cc)
      by_method tf h =
          card-IsSafePlan bundle device choices.wipe tf choices.grow _ plan
            (passed device.is_ready (is_positive choices.size) _ h)
      by_method reinstall h =
          reinstall-IsSafePlan bundle device choices.wipe reinstall choices.grow _ plan
            (passed device.is_ready (is_positive choices.size) _ h)
      by_method image h =
          image-IsSafePlan bundle device choices.wipe image choices.grow _ plan
            (passed device.is_ready (is_positive choices.size) _ h)
      by_method part h =
          partition-IsSafePlan bundle device choices.wipe part choices.grow _ plan
            (passed device.is_ready (is_positive choices.size) _ h)
