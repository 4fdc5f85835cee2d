-- ===== src/TwoStage/Completion.antt =====
-- The run of finish in openwrt/bundle/part-two-stage.py that completes a transaction.
use e5_linux.Base.{◌≡◌, refl, sym, ◌∙◌, true, List, [], ◌∷◌, ap, subst, ◌⊎◌, inl, inr}
use e5_linux.Base.Result.{ok}
use e5_linux.TwoStage.{
  Phase, prepared, awaiting_android, writing, installed, complete, unknown, Region, State, Answers,
  World, in_phase, is_known, is_marked, check, finish_boot, write_root, install, proceed, finish_in,
  finish, resume_all,
}
use e5_linux.TwoStage.Runs.{IsSafe, Promises, resume_all-IsSafe}
use e5_linux.TwoStage.Outcomes.{IsFresh}
use e5_linux.TwoStage.Later.{
  HasBegun, IsBegun, IsLater, phase_lem, resume_all-IsLater, check-in_phase,
}

-- Each step that finish attempts succeeds.
pub record AllSucceed (a : Answers) : Type 0 where
  pub pushed : a.pushed ≡ true
  pub wrote : a.wrote ≡ true
  pub final_boot : a.final_boot ≡ true
  pub flashed : a.flashed ≡ true
  pub armed : a.armed ≡ true

-- Nothing is written yet.
abbrev pub at_start : State → World
at_start s = record { state = s; events = [] }

-- The marker is there where the phase wants it.
abbrev IsOpen : Phase → State → Answers → Type 0
IsOpen writing s a = Unit {0}
IsOpen installed s a = Unit {0}
IsOpen _ s a = is_marked s a ≡ true

install_completes :
    (a : Answers) (root : Region) (w : World) (p : Phase)
    → AllSucceed a
    → IsOpen p w.state a
    → (install a root w p).state ≡ in_phase complete w.state
unfolding install write_root finish_boot
install_completes a root w installed g m = simp (g.final_boot, g.flashed, g.armed) refl
install_completes a root w writing g m =
    simp (g.pushed, g.wrote, g.final_boot, g.flashed, g.armed) refl
install_completes a root w prepared g m =
    simp (m, g.pushed, g.wrote, g.final_boot, g.flashed, g.armed) refl
install_completes a root w awaiting_android g m =
    simp (m, g.pushed, g.wrote, g.final_boot, g.flashed, g.armed) refl
install_completes a root w complete g m =
    simp (m, g.pushed, g.wrote, g.final_boot, g.flashed, g.armed) refl
install_completes a root w unknown g m =
    simp (m, g.pushed, g.wrote, g.final_boot, g.flashed, g.armed) refl

finish_in_completes :
    (a : Answers) (root : Region) (s : State) (w : World) (p : Phase)
    → w.state ≡ in_phase p s
    → check a w.state ≡ ok root
    → AllSucceed a
    → (is_marked w.state a ≡ true) ⊎ IsBegun p
    → (finish_in a w p).state ≡ in_phase complete s
unfolding finish_in proceed
finish_in_completes a root s w complete e c g m = e
finish_in_completes a root s w writing e c g m =
    rw c (install_completes a root w writing g tt) ∙ ap (in_phase complete) e
finish_in_completes a root s w installed e c g m =
    rw c (install_completes a root w installed g tt) ∙ ap (in_phase complete) e
finish_in_completes a root s w prepared e c g (inl m) =
    rw c (install_completes a root w prepared g m) ∙ ap (in_phase complete) e
finish_in_completes a root s w awaiting_android e c g (inl m) =
    rw c (install_completes a root w awaiting_android g m) ∙ ap (in_phase complete) e
finish_in_completes a root s w unknown e c g (inl m) =
    rw c (install_completes a root w unknown g m) ∙ ap (in_phase complete) e
finish_in_completes a root s w prepared e c g (inr b) = absurd b
finish_in_completes a root s w awaiting_android e c g (inr b) = absurd b
finish_in_completes a root s w unknown e c g (inr b) = absurd b

complete_stays :
    (more : List Answers) (w : World) → w.state.phase ≡ complete → resume_all more w ≡ w
unfolding resume_all
complete_stays [] w e = refl
complete_stays (a ∷ more) w e =
    let same : finish a w ≡ w = unfold finish finish_in in ap (finish_in a w) e in
    ap (resume_all more) same ∙ complete_stays more w e

fresh-IsSafe : (s : State) (p : Phase) → IsFresh p → IsSafe (at_start (in_phase p s))
fresh-IsSafe s prepared f = record { sequenced = tt; promised = tt }
fresh-IsSafe s awaiting_android f = record { sequenced = tt; promised = tt }
fresh-IsSafe s writing f = absurd f
fresh-IsSafe s installed f = absurd f
fresh-IsSafe s complete f = absurd f
fresh-IsSafe s unknown f = absurd f

fresh_known : (p : Phase) → IsFresh p → is_known p ≡ true
fresh_known prepared f = refl
fresh_known awaiting_android f = refl
fresh_known writing f = refl
fresh_known installed f = refl
fresh_known complete f = refl
fresh_known unknown f = absurd f

-- The file of `s` says complete and nothing else has changed in it, slot b is armed behind boot_b
-- and a complete write of the partition, and further runs change nothing.
pub record IsCompleted (s : State) (w : World) : Type 0 where
  pub state : w.state ≡ in_phase complete s
  pub armed : Promises complete w.events
  pub stays : (more : List Answers) → resume_all more w ≡ w

-- A transaction whose partition is prepared and not written yet can be completed after any runs that
-- were interrupted anywhere: one more run completes it, whose steps succeed, which meets a device
-- that passed the checks against the file at the start, and which finds the marker, unless an
-- earlier run has begun to write the partition; then what stands at its start does not matter. The
-- run leaves the file as it was but for the phase, boot_b written and slot b armed behind a complete
-- write of the partition, and every further run changes nothing.
pub resume_all_completes :
    (answers : List Answers) (a : Answers) (root : Region) (s : State)
    → IsFresh s.phase
    → check a s ≡ ok root
    → AllSucceed a
    → (is_marked s a ≡ true) ⊎ HasBegun (resume_all answers (at_start s)).events
    → IsCompleted s (finish a (resume_all answers (at_start s)))
unfolding finish finish_in resume_all is_marked
resume_all_completes answers a root s f c g m =
    let start : World = at_start s in
    let w : World = resume_all answers start in
    let known = fresh_known s.phase f in
    let l : IsLater s w =
      resume_all-IsLater answers s start
        (record { phase = s.phase; same = refl; known = known; begun = λ h. absurd h }) in
    let open_or_begun : (is_marked w.state a ≡ true) ⊎ IsBegun l.phase = elim m [
      | inl marked ↦ inl (subst (λ (x : State). is_marked x a ≡ true) (sym l.same) marked)
      | inr begun ↦ inr (l.begun begun)
    ] in
    let checked : check a w.state ≡ ok root =
      subst (λ (x : State). check a x ≡ ok root) (sym l.same)
        (check-in_phase a s l.phase known l.known ∙ c) in
    let done : (finish a w).state ≡ in_phase complete s =
      subst (λ (p : Phase). (finish_in a w p).state ≡ in_phase complete s) (sym (phase_lem s w l))
        (finish_in_completes a root s w l.phase l.same checked g open_or_begun) in
    let phase : (finish a w).state.phase ≡ complete = ap (λ (x : State). x.phase) done in
    let safe : IsSafe (finish a w) =
      resume_all-IsSafe (a ∷ []) w (resume_all-IsSafe answers start (fresh-IsSafe s s.phase f)) in
    record {
      state = done;
      armed = subst (λ (p : Phase). Promises p (finish a w).events) phase safe.promised;
      stays = λ more. complete_stays more (finish a w) phase;
    }
