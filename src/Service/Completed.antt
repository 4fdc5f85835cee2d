-- ===== src/Service/Completed.antt =====
-- When wait_openwrt of installer/backend/service.py calls an installation complete.
use e5_linux.Base.{
  ℕ, ◌≡◌, ◌⊎◌, inl, inr, refl, Bool, true, false, if◌then◌else◌, some, List, [], ◌∷◌, subst, ap,
}
use e5_linux.Base.Text.{String}
use e5_linux.Base.Result.{Result, ok, err}
use e5_linux.Service.Verify.{IsProof, attempt_from-IsProof}
use e5_linux.Service.{
  cancelled, Stop, not_yet, foreign, faulty, no_login, gone, Ending, waiting, completed, raised,
  Job, Progress, Observation, take_request, identify, attempt_from, settle, stop_behind, round,
  go_on, wait_openwrt, at_stage,
}

-- The record says that the installation is complete, with this capacity.
abbrev pub IsClosed : ℕ → Progress → Type 0
IsClosed capacity q =
    (q.stage ≡ "complete") × (q.status ≡ "completed") × (q.outcome ≡ some capacity)

-- One of the rounds is the proof of what the record says.
abbrev pub IsProven : Job → Progress → List Observation → Type 0
IsProven job q [] = ⊥
IsProven job q (o ∷ os) =
    ((capacity : ℕ) × IsProof job o capacity × IsClosed capacity q) ⊎ IsProven job q os

module _ (is_block is_boot_id : String → Bool) where
  settle-completed :
      (job : Job) (a : Result Stop ℕ) (p q : Progress)
      → settle job (a, p) ≡ (completed, q)
      → (capacity : ℕ) × (a ≡ ok capacity) × IsClosed capacity q
  unfolding settle
  settle-completed job (ok c) p q e =
      let same : at_stage "complete" "completed" (record p { outcome = some c }) ≡ q = cc in
      subst
        (λ (x : Progress).
          (capacity : ℕ) × (Path (Result Stop ℕ) (ok c) (ok capacity)) × IsClosed capacity x)
        same (c, refl, (refl, refl, refl))
  settle-completed job (err not_yet) p q e = cc
  settle-completed job (err foreign) p q e = cc
  settle-completed job (err (faulty f)) p q e = cc
  settle-completed job (err no_login) p q e = cc
  settle-completed job (err gone) p q e = cc

  stop_behind-completed :
      (stopped : Bool) (x : Ending × Progress) (q : Progress)
      → stop_behind stopped x ≡ (completed, q)
      → x ≡ (completed, q)
  unfolding stop_behind
  stop_behind-completed true (waiting, p) q e = cc
  stop_behind-completed false (waiting, p) q e = cc
  stop_behind-completed stopped (completed, p) q e = e
  stop_behind-completed stopped (raised f, p) q e = e

  round-completed :
      (job : Job) (o : Observation) (p q : Progress)
      → round is_block is_boot_id job o p ≡ (completed, q)
      → (capacity : ℕ) × IsProof job o capacity × IsClosed capacity q
  unfolding round
  round-completed job o p q e = by_wish o.cancel refl e
    where
      start : Progress
      start = take_request job o.request p

      by_wish :
          (c : Bool)
          → o.cancel ≡ c
          → (if c
              then (raised cancelled, p)
              else stop_behind o.stopped (
                  settle job (
                    attempt_from is_block is_boot_id job o
                      (identify is_block is_boot_id job o)
                      start)))
            ≡ (completed, q)
          → (capacity : ℕ) × IsProof job o capacity × IsClosed capacity q
      by_wish true w h = cc
      by_wish false w h =
          let a : Result Stop ℕ × Progress =
            attempt_from is_block is_boot_id job o (identify is_block is_boot_id job o) start in
          let settled = stop_behind-completed o.stopped _ q h in
          let (capacity, ok_a, closed) = settle-completed job a.0 a.1 q settled in
          (
            capacity,
            attempt_from-IsProof is_block is_boot_id job o (identify is_block is_boot_id job o)
                start a.1 capacity w refl (ap (λ r. (r, a.1)) ok_a),
            closed,
          )

  go_on-completed :
      (x : Ending × Progress) (rest : Progress → Ending × Progress) (q : Progress)
      → go_on x rest ≡ (completed, q)
      → (x ≡ (completed, q)) ⊎ (rest x.1 ≡ (completed, q))
  unfolding go_on
  go_on-completed (waiting, p) rest q e = inr e
  go_on-completed (completed, p) rest q e = inl e
  go_on-completed (raised f, p) rest q e = inl e

  -- When wait_openwrt returns and does not raise or wait, one of its rounds reached the device of
  -- the record without a wish to cancel, for an update after another boot than the one before it,
  -- read a superblock whose capacity verify_ext4_capacity accepts for the expected size, and found
  -- the root usable; the record then says complete, completed, and that capacity.
  pub wait_openwrt-IsProven :
      (job : Job) (os : List Observation) (p q : Progress)
      → wait_openwrt is_block is_boot_id job os p ≡ (completed, q)
      → IsProven job q os
  unfolding wait_openwrt
  wait_openwrt-IsProven job [] p q e = cc
  wait_openwrt-IsProven job (o ∷ os) p q e =
      elim (go_on-completed (round is_block is_boot_id job o p)
        (wait_openwrt is_block is_boot_id job os) q e) [
          | inl now ↦ inl (round-completed job o p q now)
          | inr later ↦
              inr (wait_openwrt-IsProven job os (round is_block is_boot_id job o p).1 q later)
        ]
