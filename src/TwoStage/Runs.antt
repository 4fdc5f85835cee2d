-- ===== src/TwoStage/Runs.antt =====
-- Interrupted and resumed runs of finish in openwrt/bundle/part-two-stage.py.
use e5_linux.Base.{◌≡◌, refl, sym, if◌then◌else◌, List, [], ◌∷◌, Bool-cases, inl, inr, subst}
use e5_linux.Base.Result.{Result, ok, err}
use e5_linux.TwoStage.{
  Phase, prepared, awaiting_android, writing, installed, complete, unknown, Region, State, Answers,
  Event, rewriting, rewritten, flashing, arming, World, StageError, is_marked, check, finish_boot,
  write_root, install, proceed, finish_in, finish, resume_all, in_phase,
}
use e5_linux.TwoStage.Checks.{IsTarget, check-IsTarget}

-- The partition was written to the end.
abbrev pub IsRewritten : List Event → Type 0
IsRewritten [] = ⊥
IsRewritten (rewritten root ∷ es) = Unit {0}
IsRewritten (e ∷ es) = IsRewritten es

-- boot_b is written only behind a complete write of the partition, and each write of the partition
-- goes to the one that the transaction expects.
abbrev pub IsSequenced : State → List Event → Type 0
IsSequenced s [] = Unit {0}
IsSequenced s (rewriting root ∷ es) = IsTarget s root × IsSequenced s es
IsSequenced s (rewritten root ∷ es) = IsTarget s root × IsSequenced s es
IsSequenced s (flashing ∷ es) = IsRewritten es × IsSequenced s es
IsSequenced s (arming ∷ es) = IsRewritten es × IsSequenced s es

-- What the phase in the file says of the device.
abbrev pub Promises : Phase → List Event → Type 0
Promises installed es = IsRewritten es
Promises complete es = (rest : List Event) × (es ≡ arming ∷ (flashing ∷ rest)) × IsRewritten rest
Promises _ es = Unit {0}

pub record IsSafe (w : World) : Type 0 where
  pub sequenced : IsSequenced w.state w.events
  pub promised : Promises w.state.phase w.events

finish_boot-IsSafe :
    (a : Answers) (w : World)
    → IsSequenced w.state w.events
    → IsRewritten w.events
    → Promises w.state.phase w.events
    → w.state.phase ≡ installed
    → IsSafe (finish_boot a w)
unfolding finish_boot
finish_boot-IsSafe a w s r p e = elim (Bool-cases a.final_boot) [
  | inr off ↦ rw off (record { sequenced = s; promised = p })
  | inl on ↦ elim (Bool-cases a.flashed) [
    | inr torn ↦
        rw (on, torn)
          (record {
            sequenced = (r, s);
            promised = subst (λ (q : Phase). Promises q (flashing ∷ w.events)) (sym e) r;
          })
    | inl flashed ↦ elim (Bool-cases a.armed) [
      | inr unarmed ↦
          rw (on, flashed, unarmed)
            (record {
              sequenced = (r, (r, s));
              promised =
                  subst (λ (q : Phase). Promises q (arming ∷ (flashing ∷ w.events))) (sym e) r;
            })
      | inl armed ↦
          rw (on, flashed, armed)
            (record { sequenced = (r, (r, s)); promised = (w.events, refl, r) })
    ]
  ]
]

write_root-IsSafe :
    (a : Answers) (root : Region) (w : World)
    → IsSafe w
    → IsTarget w.state root
    → IsSafe (write_root a root w)
unfolding write_root
write_root-IsSafe a root w s t = elim (Bool-cases a.pushed) [
  | inr off ↦ rw off s
  | inl pushed ↦ elim (Bool-cases a.wrote) [
    | inr torn ↦ rw (pushed, torn) (record { sequenced = (t, s.sequenced); promised = tt })
    | inl wrote ↦
        simp (pushed, wrote)
          (finish_boot-IsSafe a
            (record {
              state = in_phase installed w.state;
              events = rewritten root ∷ (rewriting root ∷ w.events);
            })
            (t, (t, s.sequenced)) tt tt refl)
  ]
]

marked-IsSafe :
    (a : Answers) (root : Region) (w : World)
    → IsSafe w
    → IsTarget w.state root
    → IsSafe (if is_marked w.state a then write_root a root w else w)
marked-IsSafe a root w s t = elim (Bool-cases (is_marked w.state a)) [
  | inl on ↦ rw on (write_root-IsSafe a root w s t)
  | inr off ↦ rw off s
]

install-IsSafe :
    (a : Answers) (root : Region) (w : World) (p : Phase)
    → w.state.phase ≡ p
    → IsSafe w
    → IsTarget w.state root
    → IsSafe (install a root w p)
unfolding install
install-IsSafe a root w installed e s t =
    finish_boot-IsSafe a w s.sequenced (subst (λ (q : Phase). Promises q w.events) e s.promised)
      s.promised e
install-IsSafe a root w writing e s t = write_root-IsSafe a root w s t
install-IsSafe a root w prepared e s t = marked-IsSafe a root w s t
install-IsSafe a root w awaiting_android e s t = marked-IsSafe a root w s t
install-IsSafe a root w complete e s t = marked-IsSafe a root w s t
install-IsSafe a root w unknown e s t = marked-IsSafe a root w s t

proceed-IsSafe :
    (a : Answers) (w : World) (p : Phase) (r : Result StageError Region)
    → w.state.phase ≡ p
    → check a w.state ≡ r
    → IsSafe w
    → IsSafe (proceed a w p r)
unfolding proceed
proceed-IsSafe a w p (err x) e c s = s
proceed-IsSafe a w p (ok root) e c s =
    install-IsSafe a root w p e s (check-IsTarget a w.state root c)

finish_in-IsSafe :
    (a : Answers) (w : World) (p : Phase) → w.state.phase ≡ p → IsSafe w → IsSafe (finish_in a w p)
unfolding finish_in
finish_in-IsSafe a w complete e s = s
finish_in-IsSafe a w prepared e s = proceed-IsSafe a w prepared _ e refl s
finish_in-IsSafe a w awaiting_android e s = proceed-IsSafe a w awaiting_android _ e refl s
finish_in-IsSafe a w writing e s = proceed-IsSafe a w writing _ e refl s
finish_in-IsSafe a w installed e s = proceed-IsSafe a w installed _ e refl s
finish_in-IsSafe a w unknown e s = proceed-IsSafe a w unknown _ e refl s

-- However often finish is interrupted and resumed, from a safe state every write of the partition
-- goes to the one that the transaction expects, boot_b is written and slot b armed only behind a
-- write of the partition that succeeded, and a transaction that is recorded as complete has both
-- behind it, last and in that order.
pub resume_all-IsSafe :
    (answers : List Answers) (w : World) → IsSafe w → IsSafe (resume_all answers w)
unfolding resume_all
resume_all-IsSafe [] w s = s
resume_all-IsSafe (a ∷ answers) w s =
    resume_all-IsSafe answers (finish a w)
      (unfold finish in finish_in-IsSafe a w w.state.phase refl s)
