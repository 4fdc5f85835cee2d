-- ===== src/TwoStage/Outcomes.antt =====
-- Runs of finish in openwrt/bundle/part-two-stage.py that change nothing.
use e5_linux.Base.{◌≡◌, refl, ◌∙◌, false, List, [], ◌∷◌, All, ap}
use e5_linux.Base.Result.{Result, ok, err}
use e5_linux.TwoStage.{
  Phase, prepared, awaiting_android, writing, installed, complete, unknown, Region, Answers, World,
  StageError, is_marked, install, proceed, finish_in, finish, resume_all,
}

-- Before the first write.
abbrev pub IsFresh : Phase → Type 0
IsFresh prepared = Unit {0}
IsFresh awaiting_android = Unit {0}
IsFresh _ = ⊥

proceed_unmarked :
    (a : Answers) (w : World) (p : Phase) (r : Result StageError Region)
    → IsFresh p
    → is_marked w.state a ≡ false
    → proceed a w p r ≡ w
unfolding proceed install
proceed_unmarked a w p (err x) f m = refl
proceed_unmarked a w prepared (ok root) f m = rw m refl
proceed_unmarked a w awaiting_android (ok root) f m = rw m refl
proceed_unmarked a w writing (ok root) f m = absurd f
proceed_unmarked a w installed (ok root) f m = absurd f
proceed_unmarked a w complete (ok root) f m = absurd f
proceed_unmarked a w unknown (ok root) f m = absurd f

finish_in_unmarked :
    (a : Answers) (w : World) (p : Phase)
    → IsFresh p
    → is_marked w.state a ≡ false
    → finish_in a w p ≡ w
unfolding finish_in
finish_in_unmarked a w prepared f m = proceed_unmarked a w prepared _ f m
finish_in_unmarked a w awaiting_android f m = proceed_unmarked a w awaiting_android _ f m
finish_in_unmarked a w writing f m = absurd f
finish_in_unmarked a w installed f m = absurd f
finish_in_unmarked a w complete f m = absurd f
finish_in_unmarked a w unknown f m = absurd f

-- A transaction that waits for its prepared partition changes nothing, neither on the device nor in
-- its file, in any number of runs in which the partition does not begin with its marker.
pub resume_all_unmarked :
    (answers : List Answers) (w : World)
    → IsFresh w.state.phase
    → All (λ a. is_marked w.state a ≡ false) answers
    → resume_all answers w ≡ w
unfolding resume_all
resume_all_unmarked [] w f m = refl
resume_all_unmarked (a ∷ answers) w f (m, ms) =
    let same : finish a w ≡ w = unfold finish in finish_in_unmarked a w w.state.phase f m in
    ap (resume_all answers) same ∙ resume_all_unmarked answers w f ms
