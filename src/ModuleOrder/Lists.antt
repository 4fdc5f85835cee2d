-- ===== src/ModuleOrder/Lists.antt =====
-- Membership, repetition and order of module lists, for boot/gen-module-order.py.
use e5_linux.Base.{
  ◌≡◌, refl, Bool, true, false, ◌||◌, Option, none, some, List, [], ◌∷◌, ◌++◌, arith,
}
use e5_linux.Base.Text.{String, ◌==◌, eq_iff}
use e5_linux.Base.Assoc.{contains, append_new}
use e5_linux.ModuleOrder.{and_then}

pub and_then-eq-some {ℓ κ} :
    {A : Type ℓ} {B : Type κ} (o : Option A) (rest : A → Option B) {b : B}
    → and_then o rest ≡ some b
    → (a : A) × (o ≡ some a) × (rest a ≡ some b)
and_then-eq-some none rest e = cc
and_then-eq-some (some a) rest e = (a, refl, e)

or_assoc : (a b c : Bool) → (a || (b || c)) ≡ ((a || b) || c)
or_assoc true b c = refl
or_assoc false b c = refl

pub contains-append :
    (k : String) (xs ys : List String) → contains k (xs ++ ys) ≡ (contains k xs || contains k ys)
unfolding contains
contains-append k [] ys = refl
contains-append k (x ∷ xs) ys =
    rw (contains-append k xs ys) (or_assoc (x == k) (contains k xs) (contains k ys))

-- One more at the end.
pub contains_snoc :
    (k x : String) (xs : List String) → contains k (xs ++ (x ∷ [])) ≡ (contains k xs || x == k)
unfolding contains
contains_snoc k x xs = ground (arith, contains-append k xs (x ∷ []))

pub append_new_fresh :
    (k : String) (xs : List String) → contains k xs ≡ false → append_new k xs ≡ xs ++ (k ∷ [])
unfolding append_new
append_new_fresh k xs e = rw e

-- No entry stands twice.
abbrev pub NoDup : List String → Type 0
NoDup [] = Unit {0}
NoDup (x ∷ xs) = (contains x xs ≡ false) × NoDup xs

pub NoDup-snoc :
    (x : String) (xs : List String) → NoDup xs → contains x xs ≡ false → NoDup (xs ++ (x ∷ []))
unfolding contains
NoDup-snoc x [] h e = (refl, tt)
NoDup-snoc x (y ∷ ys) (fresh, h) e =
    (ground (arith, contains_snoc y x ys, eq_iff x y, eq_iff y x), NoDup-snoc x ys h (ground arith))

module _ (deps : String → List String) where
  -- Every dependency of an entry stands before it, or in `before`.
  abbrev pub IsDepsFirst : List String → List String → Type 0
  IsDepsFirst before [] = Unit {0}
  IsDepsFirst before (x ∷ xs) =
      ((d : String) → contains d (deps x) ≡ true → contains d before ≡ true)
      × IsDepsFirst (x ∷ before) xs

  pub IsDepsFirst-snoc :
      (before : List String) (x : String) (xs : List String)
      → IsDepsFirst before xs
      → ((d : String) → contains d (deps x) ≡ true → (contains d before || contains d xs) ≡ true)
      → IsDepsFirst before (xs ++ (x ∷ []))
  unfolding contains
  IsDepsFirst-snoc before x [] h e = ((λ d here. ground (arith, e d here)), tt)
  IsDepsFirst-snoc before x (y ∷ ys) (here, h) e =
      (here, IsDepsFirst-snoc (y ∷ before) x ys h (λ d there. ground (arith, e d there)))
