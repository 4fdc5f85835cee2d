-- ===== src/Identity/Examples.antt =====
-- Two releases with the same payload, listed in another order.
use e5_linux.Base.{◌≡◌, refl, [], ◌∷◌}
use e5_linux.Base.Assoc.{lookup, contains, append_new}
use e5_linux.Base.Result.{ok}
use e5_linux.Identity.{Package, is_other, reasons, add_names, verdict, compatible, accept_all}
use e5_linux.Identity.Same.{IsSame, accept_all-IsSame}

abbrev release : Package
release = record {
  values = ("protocol", "1") ∷ ("adapter", "e5") ∷ ("name", "june") ∷ [];
  payloads = ("boot.img", "aa") ∷ ("ext4", "bb") ∷ [];
}

abbrev repaired : Package
repaired = record {
  values = ("adapter", "e5") ∷ ("protocol", "1") ∷ [];
  payloads = ("ext4", "bb") ∷ ("boot.img", "aa") ∷ [];
}

accept_run : accept_all release (release ∷ repaired ∷ []) ≡ ok repaired
unfolding accept_all compatible verdict reasons is_other add_names append_new contains lookup
accept_run = refl

accept_all-IsSame_example : IsSame release repaired
accept_all-IsSame_example = accept_all-IsSame release (release ∷ repaired ∷ []) repaired accept_run
