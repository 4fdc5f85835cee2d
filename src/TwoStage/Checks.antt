-- ===== src/TwoStage/Checks.antt =====
-- What the checks of openwrt/bundle/part-two-stage.py establish of the partition to be written.
use e5_linux.Base.{ℕ, ◌≡◌, Bool, true, false, ◌||◌, not, ◌==◌, Option, arith, subst}
use e5_linux.Base.Bytes.{eq_bytes→eq}
use e5_linux.Base.Result.{ok, >>=-eq-ok, raise_if-eq-ok, ok-injective, or_raise}
use e5_linux.TwoStage.{
  Region, State, Answers, other_geometry, other_device, not_ready, disk_of, root_start_of,
  validate_state, verify_geometry, check,
}

-- The partition is the one that the transaction expects: its card, first sector, size and disk.
abbrev pub IsTarget : State → Region → Type 0
IsTarget s root =
    (root.cid ≡ s.data_region.cid)
    × (root.start ≡ root_start_of s)
    × (root.size ≡ s.need)
    × (disk_of root.node ≡ disk_of s.data_region.node)

target_of_test :
    (b1 b2 b3 b4 b5 b8 : Bool) (start start' size size' : ℕ)
    → (not b1
        || not b2
        || not b3
        || not b4
        || not b5
        || not (start == start')
        || not (size == size')
        || not b8)
      ≡ false
    → (b5 ≡ true) × (start ≡ start') × (size ≡ size') × (b8 ≡ true)
target_of_test b1 b2 b3 b4 b5 b8 start start' size size' e = ground arith

verify_geometry-IsTarget :
    (s : State) (user_data root_row : Option Region) (root : Region)
    → verify_geometry s user_data root_row ≡ ok root
    → IsTarget s root
unfolding verify_geometry
verify_geometry-IsTarget s user_data root_row root e =
    let (data_row, e1, e2) = >>=-eq-ok (or_raise user_data other_geometry) _ e in
    let (found, e3, e4) = >>=-eq-ok (or_raise root_row other_geometry) _ e2 in
    let (test, e5) = raise_if-eq-ok _ other_geometry _ e4 in
    let (cid, start, size, disk) = target_of_test _ _ _ _ _ _ _ _ _ _ test in
    let same : found ≡ root = ok-injective found root e5 in
    subst (IsTarget s) same (eq_bytes→eq _ _ cid, start, size, eq_bytes→eq _ _ disk)

pub check-IsTarget :
    (a : Answers) (s : State) (root : Region) → check a s ≡ ok root → IsTarget s root
unfolding check
check-IsTarget a s root e =
    let (valid, e1, e2) = >>=-eq-ok (validate_state s) _ e in
    let (same_device, e3) = raise_if-eq-ok _ other_device _ e2 in
    let (found, e4, e5) = >>=-eq-ok (verify_geometry s a.user_data a.root_row) _ e3 in
    let (ready, e6) = raise_if-eq-ok _ not_ready _ e5 in
    let same : found ≡ root = ok-injective found root e6 in
    subst (IsTarget s) same (verify_geometry-IsTarget s a.user_data a.root_row found e4)
