-- ===== src/Capacity/Verified.antt =====
-- What verify_ext4_capacity of installer/backend/service.py accepts.
use e5_linux.Base.{
  ℕ, ◌+◌, ◌*◌, ◌≤◌, ◌<◌, ◌≡◌, ◌↔◌, refl, sym, Bool, true, false, ◌||◌, not, ◌==◌, ltb, Option, none,
  some, length, arith, subst,
}
use e5_linux.Base.Bytes.{Bytes, slice, eq_bytes, eq_bytes→eq, eq_bytes_refl, le_at}
use e5_linux.Base.Result.{ok, raise_if-eq-ok, ok-injective}
use e5_linux.Capacity.{
  not_ext4, bad_block_size, bad_capacity, differs, ext_magic, wide_blocks, block_bytes, is_off,
  wanted, verify_ext4_capacity,
}

-- The capacity is as expected where one is: at most 4 MiB less, and not more; 0 stands for none.
abbrev pub IsNear : Option ℕ → ℕ → Type 0
IsNear none capacity = Unit {0}
IsNear (some expected) capacity =
    0 < expected → (expected ≤ capacity + 4 * 0x100000) × (capacity ≤ expected)

pub record IsVerified (sb : Bytes) (expected : Option ℕ) (capacity : ℕ) : Type 0 where
  pub long : 340 ≤ length sb
  pub magic : slice 56 58 sb ≡ ext_magic
  pub shift : le_at 4 24 sb ≤ 6
  pub computed : wide_blocks sb * block_bytes sb ≡ capacity
  pub filled : 0 < capacity
  pub near : IsNear expected capacity

is_off_iff : (expected : Option ℕ) (c : ℕ) → (is_off expected c ≡ false) ↔ IsNear expected c
is_off_iff none c = ((λ e. tt), (λ h. refl))
is_off_iff (some n) c = ((λ e lt. ground arith), (λ h. ground arith))

header_test_iff :
    (n : ℕ) (magic : Bool) → ((ltb n 340 || not magic) ≡ false) ↔ ((340 ≤ n) × (magic ≡ true))
header_test_iff n magic = ground arith

shift_iff : (n : ℕ) → (ltb 6 n ≡ false) ↔ (n ≤ 6)
shift_iff n = ground arith

filled_iff : (n : ℕ) → ((n == 0) ≡ false) ↔ (0 < n)
filled_iff n = ground arith

-- The check returns a capacity exactly if the superblock is long enough and ext4's, its blocks have
-- at most 64 KiB, the capacity is the number of blocks times their size and not 0, and it is at most
-- 4 MiB below what is expected and not above, where a capacity is expected.
pub verify_ext4_capacity_iff :
    (sb : Bytes) (expected : Option ℕ) (capacity : ℕ)
    → (verify_ext4_capacity sb expected ≡ ok capacity) ↔ IsVerified sb expected capacity
unfolding verify_ext4_capacity
verify_ext4_capacity_iff sb expected capacity = (
  λ e.
      let c : ℕ = wide_blocks sb * block_bytes sb in
      let (head, e1) =
        raise_if-eq-ok (ltb (length sb) 340 || not (eq_bytes (slice 56 58 sb) ext_magic)) not_ext4 _
          e in
      let (shift, e2) = raise_if-eq-ok (ltb 6 (le_at 4 24 sb)) bad_block_size _ e1 in
      let (filled, e3) = raise_if-eq-ok (c == 0) bad_capacity _ e2 in
      let (near, e4) = raise_if-eq-ok (is_off expected c) (differs c (wanted expected)) _ e3 in
      let (long, magic) =
        (header_test_iff (length sb) (eq_bytes (slice 56 58 sb) ext_magic)).0 head in
      subst (IsVerified sb expected) (ok-injective c capacity e4) (record {
        long = long;
        magic = eq_bytes→eq _ _ magic;
        shift = (shift_iff (le_at 4 24 sb)).0 shift;
        computed = refl;
        filled = (filled_iff c).0 filled;
        near = (is_off_iff expected c).0 near;
      }),
  λ v.
      let c : ℕ = wide_blocks sb * block_bytes sb in
      let same : eq_bytes (slice 56 58 sb) ext_magic ≡ true =
        subst (λ (t : Bytes). eq_bytes t ext_magic ≡ true) (sym v.magic)
          (eq_bytes_refl ext_magic) in
      let head : (ltb (length sb) 340 || not (eq_bytes (slice 56 58 sb) ext_magic)) ≡ false =
        (header_test_iff (length sb) (eq_bytes (slice 56 58 sb) ext_magic)).1 (v.long, same) in
      let shift : ltb 6 (le_at 4 24 sb) ≡ false = (shift_iff (le_at 4 24 sb)).1 v.shift in
      let filled : (capacity == 0) ≡ false = (filled_iff capacity).1 v.filled in
      let near : is_off expected capacity ≡ false = (is_off_iff expected capacity).1 v.near in
      rw (head, shift, v.computed, filled, near) refl,
)
