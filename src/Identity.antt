-- ===== src/Identity.antt =====
-- Which package may continue a transaction: compatible of installer/backend/state.py, and the start
-- and resume commands of installer/backend/service.py, which put the new package in the record.
-- The reasons are counted and their text is left out.
pub mod Same
mod Examples
use e5_linux.Base.{
  ℕ, ◌+◌, Bool, true, false, ◌&&◌, ◌||◌, not, if◌then◌else◌, Option, none, some, List, [], ◌∷◌,
  ◌++◌,
}
use e5_linux.Base.Text.{String, ◌==◌}
use e5_linux.Base.Assoc.{Dict, lookup, append_new}
use e5_linux.Base.Result.{Result, ok, err, ◌>>=◌, ◌>>◌, raise_if}

-- The dictionary of a package; `values` has its text keys.
pub record Package : Type 0 where
  pub values : Dict String
  pub payloads : Dict String

-- `old.get(key) != new.get(key)`
unfoldable pub is_other : Option String → Option String → Bool
is_other none none = false
is_other (some a) (some b) = not (a == b)
is_other _ _ = true

abbrev pub identity_keys : List String
identity_keys = "protocol" ∷ "adapter" ∷ "profile" ∷ "layout" ∷ "kernel" ∷ []

-- The names for which a reason is appended.
unfoldable pub reasons : List String → Dict String → Dict String → List String
reasons [] old new = []
reasons (k ∷ ks) old new =
    let rest = reasons ks old new in
    if is_other (lookup k old) (lookup k new) then k ∷ rest else rest

-- `set(old) | set(new)`, in the order of insertion in place of the alphabetical one.
unfoldable pub add_names : Dict String → List String → List String
add_names [] names = names
add_names ((k, v) ∷ d) names = add_names d (append_new k names)

-- `if reasons: raise`, else True.
unfoldable pub verdict : List String → Result (List String) (Unit {0})
verdict [] = ok tt
verdict (r ∷ rs) = err (r ∷ rs)

unfoldable pub compatible : Package → Package → Result (List String) (Unit {0})
compatible old new =
    let names = add_names new.payloads (add_names old.payloads []) in
    let found =
      reasons identity_keys old.values new.values ++ reasons names old.payloads new.payloads in
    verdict found

-- Each start or resume checks the package at hand against the recorded one and records it.
unfoldable pub accept_all : Package → List Package → Result (List String) Package
accept_all recorded [] = ok recorded
accept_all recorded (p ∷ ps) = do compatible recorded p; accept_all p ps
