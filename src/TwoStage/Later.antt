-- ===== src/TwoStage/Later.antt =====
-- What interrupted runs of finish in openwrt/bundle/part-two-stage.py leave of the transaction's file.
use e5_linux.Base.{◌≡◌, refl, true, if◌then◌else◌, List, [], ◌∷◌, ap, Bool-cases, inl, inr}
use e5_linux.Base.Result.{Result, ok, err}
use e5_linux.TwoStage.{
  Phase, prepared, awaiting_android, writing, installed, complete, unknown, Region, State, Answers,
  World, Event, rewriting, in_phase, is_known, validate_state, verify_geometry, StageError,
  is_marked, check, finish_boot, write_root, install, proceed, finish_in, finish, resume_all,
}

-- A write of the partition has begun.
abbrev pub HasBegun : List Event → Type 0
HasBegun [] = ⊥
HasBegun (rewriting root ∷ es) = Unit {0}
HasBegun (e ∷ es) = HasBegun es

abbrev pub IsBegun : Phase → Type 0
IsBegun writing = Unit {0}
IsBegun installed = Unit {0}
IsBegun complete = Unit {0}
IsBegun _ = ⊥

-- What is left of a transaction whose file held `s`: the same but for the phase, which says so if a
-- write has begun.
pub record IsLater (s : State) (w : World) : Type 0 where
  pub phase : Phase
  pub same : w.state ≡ in_phase phase s
  pub known : is_known phase ≡ true
  pub begun : HasBegun w.events → IsBegun phase

pub phase_lem : (s : State) (w : World) (l : IsLater s w) → w.state.phase ≡ l.phase
phase_lem s w l = ap (λ (x : State). x.phase) l.same

finish_boot-IsLater :
    (a : Answers) (s : State) (w : World) → IsLater s w → IsLater s (finish_boot a w)
unfolding finish_boot
finish_boot-IsLater a s w l = elim (Bool-cases a.final_boot) [
  | inr off ↦ rw off l
  | inl on ↦ elim (Bool-cases a.flashed) [
    | inr torn ↦
        rw (on, torn) (record { phase = l.phase; same = l.same; known = l.known; begun = l.begun })
    | inl flashed ↦ elim (Bool-cases a.armed) [
      | inr unarmed ↦
          rw (on, flashed, unarmed)
            (record { phase = l.phase; same = l.same; known = l.known; begun = l.begun })
      | inl armed ↦
          rw (on, flashed, armed)
            (record {
              phase = complete;
              same = ap (in_phase complete) l.same;
              known = refl;
              begun = λ h. tt;
            })
    ]
  ]
]

write_root-IsLater :
    (a : Answers) (root : Region) (s : State) (w : World)
    → IsLater s w
    → IsLater s (write_root a root w)
unfolding write_root
write_root-IsLater a root s w l = elim (Bool-cases a.pushed) [
  | inr off ↦ rw off l
  | inl pushed ↦ elim (Bool-cases a.wrote) [
    | inr torn ↦
        rw (pushed, torn)
          (record {
            phase = writing;
            same = ap (in_phase writing) l.same;
            known = refl;
            begun = λ h. tt;
          })
    | inl wrote ↦
        simp (pushed, wrote)
          (finish_boot-IsLater a s _ (record {
            phase = installed;
            same = ap (in_phase installed) l.same;
            known = refl;
            begun = λ h. tt;
          }))
  ]
]

marked-IsLater :
    (a : Answers) (root : Region) (s : State) (w : World)
    → IsLater s w
    → IsLater s (if is_marked w.state a then write_root a root w else w)
marked-IsLater a root s w l = elim (Bool-cases (is_marked w.state a)) [
  | inl on ↦ rw on (write_root-IsLater a root s w l)
  | inr off ↦ rw off l
]

proceed-IsLater :
    (a : Answers) (s : State) (w : World) (p : Phase) (r : Result StageError Region)
    → IsLater s w
    → IsLater s (proceed a w p r)
unfolding proceed install
proceed-IsLater a s w p (err x) l = l
proceed-IsLater a s w installed (ok root) l = finish_boot-IsLater a s w l
proceed-IsLater a s w writing (ok root) l = write_root-IsLater a root s w l
proceed-IsLater a s w prepared (ok root) l = marked-IsLater a root s w l
proceed-IsLater a s w awaiting_android (ok root) l = marked-IsLater a root s w l
proceed-IsLater a s w complete (ok root) l = marked-IsLater a root s w l
proceed-IsLater a s w unknown (ok root) l = marked-IsLater a root s w l

finish_in-IsLater :
    (a : Answers) (s : State) (w : World) (p : Phase) → IsLater s w → IsLater s (finish_in a w p)
unfolding finish_in
finish_in-IsLater a s w complete l = l
finish_in-IsLater a s w prepared l = proceed-IsLater a s w prepared _ l
finish_in-IsLater a s w awaiting_android l = proceed-IsLater a s w awaiting_android _ l
finish_in-IsLater a s w writing l = proceed-IsLater a s w writing _ l
finish_in-IsLater a s w installed l = proceed-IsLater a s w installed _ l
finish_in-IsLater a s w unknown l = proceed-IsLater a s w unknown _ l

pub resume_all-IsLater :
    (answers : List Answers) (s : State) (w : World)
    → IsLater s w
    → IsLater s (resume_all answers w)
unfolding resume_all finish
resume_all-IsLater [] s w l = l
resume_all-IsLater (a ∷ answers) s w l =
    resume_all-IsLater answers s (finish a w) (finish_in-IsLater a s w w.state.phase l)

-- The checks read no more of the phase than that it is known.
pub check-in_phase :
    (a : Answers) (s : State) (p : Phase)
    → is_known s.phase ≡ true
    → is_known p ≡ true
    → check a (in_phase p s) ≡ check a s
unfolding check validate_state verify_geometry
check-in_phase a s p known known' = rw (known, known') refl
