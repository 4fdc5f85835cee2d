-- ===== src/Plan/Range.antt =====
-- The range that plan_install of installer/backend/service.py picks against free_root_range of
-- installer/backend/gpt.py, which is written apart and counts sectors.
use e5_linux.Base.{ℕ, ◌*◌, ◌≡◌, refl, Bool, leb, some, List, [], ◌∷◌, arith}
use e5_linux.Gpt.{Space, candidates, usable_gaps, free_root_range}
use e5_linux.Plan.{Device, gap_candidates, chosen_gap, size_bytes, mib}

leb_scaled : (a b : ℕ) → leb (a * 512) (b * 512) ≡ leb a b
leb_scaled a b = ground arith

gap_candidates_lem :
    (need : ℕ) (gaps : List (ℕ × ℕ)) → gap_candidates (need * 512) gaps ≡ candidates need gaps
unfolding gap_candidates candidates
gap_candidates_lem need [] = refl
gap_candidates_lem need ((a, n) ∷ gaps) = rw (leb_scaled need n, gap_candidates_lem need gaps) refl

-- The planner looks for the range that free_root_range gives for the size in sectors, with the
-- device's safe gaps and unused entries.
chosen_gap-free_root_range :
    {N : Type 0} (is_positive : N → Bool) (units : N → ℕ) (size : N) (device : Device)
    (info : Space)
    → info.empty ≡ device.empty
    → info.safe_gaps ≡ some device.safe_gaps
    → chosen_gap device (size_bytes is_positive units size)
      ≡ free_root_range info (units size * 8192)
unfolding chosen_gap free_root_range usable_gaps size_bytes
chosen_gap-free_root_range is_positive units size device info e g =
    let sectors : units size * 4 * mib ≡ units size * 8192 * 512 = omega arith in
    rw (e, g, sectors, gap_candidates_lem (units size * 8192) device.safe_gaps) refl
