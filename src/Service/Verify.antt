-- ===== src/Service/Verify.antt =====
-- The proof that a round of wait_openwrt of installer/backend/service.py asks for before it calls an
-- installation complete.
use e5_linux.Base.{ℕ, ◌≡◌, refl, ◌∙◌, Bool, true, false, not, Option, none, some, true_of_not, ap}
use e5_linux.Base.Text.{String, ◌==◌, eq_iff}
use e5_linux.Base.Bytes.{Bytes}
use e5_linux.Base.Result.{Result, ok, err, raise_if, >>=-eq-ok, raise_if-eq-ok, ok-injective}
use e5_linux.Capacity.{
  CapacityError, not_ext4, bad_block_size, bad_capacity, differs, verify_ext4_capacity,
}
use e5_linux.Capacity.Verified.{IsVerified, verify_ext4_capacity_iff}
use e5_linux.Service.{
  operation_failed, Reply, got, failed, lost, Connection, connected, denied, unreachable, Stop,
  not_yet, foreign, faulty, Job, Progress, Observation, is_update, reply, connect, expected_bytes,
  new_boot, identify, measure, conclude, compare_size, attempt_from,
}

-- What a round has seen that completes the installation with this capacity.
pub record IsProof (job : Job) (o : Observation) (capacity : ℕ) : Type 0 where
  pub wanted : o.cancel ≡ false
  pub reached : o.connection ≡ connected
  pub same_device : o.cid ≡ got job.cid
  pub rebooted :
      is_update job.method ≡ true
      → (before after : String) × (job.update_boot_id ≡ some before)
        × (o.boot_id ≡ got after)
        × (after == before ≡ false)
  pub sized :
      (raw : Bytes) × (o.superblock ≡ got raw) × IsVerified raw (some (expected_bytes job)) capacity
  pub usable : o.usable ≡ got tt

reply-eq-ok : {A : Type 0} (r : Reply A) (a : A) → reply r ≡ ok a → r ≡ got a
reply-eq-ok (got b) a e = ap got (ok-injective b a e)
reply-eq-ok failed a e = cc
reply-eq-ok lost a e = cc

connect-eq-ok : (c : Connection) (u : Unit {0}) → connect c ≡ ok u → c ≡ connected
unfolding connect
connect-eq-ok connected u e = refl
connect-eq-ok denied u e = cc
connect-eq-ok unreachable u e = cc

module _ (is_block is_boot_id : String → Bool) where
  new_boot-eq-ok :
      (before : Option String) (answer : Reply String) (u : Unit {0})
      → new_boot is_block is_boot_id before answer ≡ ok u
      → (b a : String) × (before ≡ some b) × (answer ≡ got a) × (a == b ≡ false)
  unfolding new_boot
  new_boot-eq-ok none answer u e = cc
  new_boot-eq-ok (some b) answer u e0 =
      let (given, e) = raise_if-eq-ok (b == "") (faulty operation_failed) _ e0 in
      let (a, e1, e2) = >>=-eq-ok (reply answer) _ e in
      let (shape, e3) = raise_if-eq-ok (not (is_boot_id a)) (faulty operation_failed) _ e2 in
      (b, a, refl, reply-eq-ok answer a e1, fresh (a == b) e3)
    where
      fresh : (t : Bool) → raise_if t not_yet ≡ ok u → t ≡ false
      fresh true h = cc
      fresh false h = refl

  -- What `identify` has seen.
  identify-eq-ok :
      (job : Job) (o : Observation) (u : Unit {0})
      → identify is_block is_boot_id job o ≡ ok u
      → (o.connection ≡ connected)
        × (o.cid ≡ got job.cid)
        × (is_update job.method ≡ true
            → new_boot is_block is_boot_id job.update_boot_id o.boot_id ≡ ok u)
  unfolding identify
  identify-eq-ok job o u e =
      let (c, e1, e2) = >>=-eq-ok (connect o.connection) _ e in
      let (cid, e3, e4) = >>=-eq-ok (reply o.cid) _ e2 in
      let (same, e5) = raise_if-eq-ok (not (cid == job.cid)) foreign _ e4 in
      let cid_eq : cid ≡ job.cid = (eq_iff cid job.cid).0 (true_of_not _ same) in
      (connect-eq-ok o.connection c e1, reply-eq-ok o.cid cid e3 ∙ ap got cid_eq, λ up. rw up at e5)

  measured :
      (raw : Bytes) (r : Result CapacityError ℕ) (raw' : Bytes)
      → (elim r as (λ x. Result Stop Bytes) [
        | ok capacity ↦ ok raw
        | err e ↦ err (faulty operation_failed)
      ])
        ≡ ok raw'
      → raw ≡ raw'
  measured raw (ok c) raw' e = ok-injective raw raw' e
  measured raw (err x) raw' e = cc

  measure-eq-ok :
      (o : Observation) (raw : Bytes)
      → measure is_block is_boot_id o ≡ ok raw
      → o.superblock ≡ got raw
  unfolding measure
  measure-eq-ok o raw e =
      let (device, e1, e2) = >>=-eq-ok (reply o.device) _ e in
      let (shape, e3) = raise_if-eq-ok (not (is_block device)) (faulty operation_failed) _ e2 in
      let (raw', e4, e5) = >>=-eq-ok (reply o.superblock) _ e3 in
      reply-eq-ok o.superblock raw' e4
      ∙ ap got (measured raw' (verify_ext4_capacity raw' (some 0)) raw e5)

  conclude-eq-ok :
      (o : Observation) (r : Result CapacityError ℕ) (p q : Progress) (capacity : ℕ)
      → conclude is_block is_boot_id o r p ≡ (ok capacity, q)
      → (r ≡ ok capacity) × (o.usable ≡ got tt)
  unfolding conclude
  conclude-eq-ok o (err not_ext4) p q capacity e = cc
  conclude-eq-ok o (err bad_block_size) p q capacity e = cc
  conclude-eq-ok o (err bad_capacity) p q capacity e = cc
  conclude-eq-ok o (err (differs a b)) p q capacity e = cc
  conclude-eq-ok o (ok c) p q capacity e =
      let (u, e1, e2) =
        >>=-eq-ok (reply o.usable) (λ v. ok c) (ap (λ (x : Result Stop ℕ × Progress). x.0) e) in
      (ap ok (ok-injective c capacity e2), reply-eq-ok o.usable tt (e1 ∙ ap ok (only u)))
    where
      only : (u : Unit {0}) → u ≡ tt
      only u = refl

  compare_size-eq-ok :
      (job : Job) (o : Observation) (m : Result Stop Bytes) (p q : Progress) (capacity : ℕ)
      → compare_size is_block is_boot_id job o m p ≡ (ok capacity, q)
      → (raw : Bytes) × (m ≡ ok raw)
        × (verify_ext4_capacity raw (some (expected_bytes job)) ≡ ok capacity)
        × (o.usable ≡ got tt)
  unfolding compare_size
  compare_size-eq-ok job o (err x) p q capacity e = cc
  compare_size-eq-ok job o (ok raw) p q capacity e =
      let (sized, usable) =
        conclude-eq-ok o (verify_ext4_capacity raw (some (expected_bytes job))) p q capacity e in
      (raw, refl, sized, usable)

  pub attempt_from-IsProof :
      (job : Job) (o : Observation) (r : Result Stop (Unit {0})) (p q : Progress) (capacity : ℕ)
      → o.cancel ≡ false
      → identify is_block is_boot_id job o ≡ r
      → attempt_from is_block is_boot_id job o r p ≡ (ok capacity, q)
      → IsProof job o capacity
  unfolding attempt_from
  attempt_from-IsProof job o (err x) p q capacity w i e = cc
  attempt_from-IsProof job o (ok u) p q capacity w i e =
      let (reached, same, boot) = identify-eq-ok job o u i in
      let (raw, m, sized, usable) =
        compare_size-eq-ok job o (measure is_block is_boot_id o) _ q capacity e in
      record {
        wanted = w;
        reached = reached;
        same_device = same;
        rebooted = λ up. new_boot-eq-ok job.update_boot_id o.boot_id u (boot up);
        sized = (
          raw,
          measure-eq-ok o raw m,
          (verify_ext4_capacity_iff raw (some (expected_bytes job)) capacity).0 sized,
        );
        usable = usable;
      }
