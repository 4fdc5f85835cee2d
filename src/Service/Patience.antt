-- ===== src/Service/Patience.antt =====
-- What an outage before the device is known does to the wait of installer/backend/service.py.
use e5_linux.Base.{
  ◌≡◌, ◌⊎◌, inl, inr, refl, ◌∙◌, Bool, true, false, Option, none, some, List, [], ◌∷◌, ◌++◌, All,
}
use e5_linux.Base.Text.{String, ◌==◌}
use e5_linux.Base.Result.{Result, err}
use e5_linux.Service.{
  got, lost, connected, denied, unreachable, Stop, foreign, no_login, gone, waiting, Job, Progress,
  Observation, connect, take_request, identify, attempt_from, settle, stop_behind, round, go_on,
  wait_openwrt, openwrt_wait_stage,
}

-- Nobody stops the run, and the host is not reached, refuses the login, drops the connection while
-- its card is read, or is another device.
abbrev pub IsOutage : Job → Observation → Type 0
IsOutage job o =
    (o.cancel ≡ false)
    × (o.stopped ≡ false)
    × ((o.connection ≡ unreachable)
        ⊎ ((o.connection ≡ denied)
            ⊎ ((o.connection ≡ connected)
                × ((o.cid ≡ lost) ⊎ ((c : String) × (o.cid ≡ got c) × ((c == job.cid) ≡ false))))))

-- The record keeps what it says of the capacity, the result and the error.
abbrev pub IsKept : Progress → Progress → Type 0
IsKept p q = (q.check ≡ p.check) × (q.outcome ≡ p.outcome) × (q.error ≡ p.error)

IsKept_trans : (p q r : Progress) → IsKept p q → IsKept q r → IsKept p r
IsKept_trans p q r (a, b, c) (x, y, z) = (x ∙ a, y ∙ b, z ∙ c)

take_request-IsKept :
    (job : Job) (o : Option String) (p : Progress) → IsKept p (take_request job o p)
unfolding take_request openwrt_wait_stage
take_request-IsKept job none p = (refl, refl, refl)
take_request-IsKept job (some host) p = (refl, refl, refl)

openwrt_wait_stage-IsKept :
    (job : Job) (error : Bool) (p : Progress) → IsKept p (openwrt_wait_stage job error p)
unfolding openwrt_wait_stage
openwrt_wait_stage-IsKept job error p = (refl, refl, refl)

module _ (is_block is_boot_id : String → Bool) where
  identify-outage :
      (job : Job) (o : Observation)
      → IsOutage job o
      → let r = identify is_block is_boot_id job o in
        (r ≡ err gone) ⊎ ((r ≡ err no_login) ⊎ (r ≡ err foreign))
  unfolding identify connect
  identify-outage job o (w, s, inl e) = inl (simp (e) refl)
  identify-outage job o (w, s, inr (inl e)) = inr (inl (simp (e) refl))
  identify-outage job o (w, s, inr (inr (e, inl l))) = inl (simp (e, l) refl)
  identify-outage job o (w, s, inr (inr (e, inr (c, l, d)))) = inr (inr (simp (e, l, d) refl))

  settled :
      (job : Job) (o : Observation) (r : Result Stop (Unit {0})) (p : Progress)
      → (r ≡ err gone) ⊎ ((r ≡ err no_login) ⊎ (r ≡ err foreign))
      → (q : Progress) × (settle job (attempt_from is_block is_boot_id job o r p) ≡ (waiting, q))
        × IsKept p q
  unfolding settle attempt_from
  settled job o r p (inl e) =
      (openwrt_wait_stage job false p, rw e refl, openwrt_wait_stage-IsKept job false p)
  settled job o r p (inr (inl e)) =
      (openwrt_wait_stage job true p, rw e refl, openwrt_wait_stage-IsKept job true p)
  settled job o r p (inr (inr e)) =
      (openwrt_wait_stage job true p, rw e refl, openwrt_wait_stage-IsKept job true p)

  round-outage :
      (job : Job) (o : Observation) (p : Progress)
      → IsOutage job o
      → (q : Progress) × (round is_block is_boot_id job o p ≡ (waiting, q)) × IsKept p q
  unfolding round stop_behind
  round-outage job o p out =
      let start : Progress = take_request job o.request p in
      let (q, e, kept) =
        settled job o (identify is_block is_boot_id job o) start (identify-outage job o out) in
      (
        q,
        simp (out.0, out.1, e) refl,
        IsKept_trans p start q (take_request-IsKept job o.request p) kept,
      )

  -- Any number of rounds, in any order, in which nobody cancels or stops the run and the host is not
  -- reached, refuses the login, drops the connection before it has told its card, or tells the card
  -- of another device, leaves the wait where it was: what comes after them runs as if it came first,
  -- from a record that keeps its capacity check, its result and its error.
  pub wait_openwrt-outages :
      (job : Job) (os : List Observation) (p : Progress)
      → All (IsOutage job) os
      → (q : Progress) × IsKept p q
        × ((rest : List Observation)
            → wait_openwrt is_block is_boot_id job (os ++ rest) p
              ≡ wait_openwrt is_block is_boot_id job rest q)
  unfolding wait_openwrt go_on
  wait_openwrt-outages job [] p out = (p, (refl, refl, refl), λ rest. refl)
  wait_openwrt-outages job (o ∷ os) p (out, outs) =
      let (q, e, kept) = round-outage job o p out in
      let (q', kept', same) = wait_openwrt-outages job os q outs in
      (q', IsKept_trans p q q' kept kept', λ rest. rw e (same rest))
