-- ===== src/Evidence/Ends.antt =====
-- The loop over a directory of Ext4Evidence.file in installer/backend/install_evidence.py ends.
use e5_linux.Base.{
  ℕ, zero, suc, ◌+◌, ◌≤◌, ◌<◌, ◌≡◌, ◌≢◌, refl, Bool, true, false, not, ◌&&◌, ◌||◌, ◌==◌, ltb, leb,
  leb_false→lt, if◌then◌else◌, Option, none, some, List, [], ◌∷◌, arith, length,
}
use e5_linux.Base.Bytes.{Bytes, byte, slice, eq_bytes, le_at}
use e5_linux.Base.Result.{Result, ok, err}
use e5_linux.Evidence.{
  EvidenceError, truncated_directory, bad_entry, Reader, Geometry, Reading, next, ◌>>=◌, ◌>>◌, give,
  raise_when,
}
use e5_linux.Evidence.Tree.{is_bad_entry, found_in}

-- The fuel was enough: the loop has ended or has raised.
abbrev pub IsKnown : Result EvidenceError (Option (List ℕ)) × Reader → Type 0
IsKnown x = x.0 ≢ ok none

module _ (read : ℕ → ℕ → Bytes) (g : Geometry) where
  raise_when-IsKnown :
      (t : Bool) (e : EvidenceError) (rest : Reading (Option (List ℕ))) (s : Reader)
      → (t ≡ false → IsKnown (rest s))
      → IsKnown ((raise_when t e >> rest) s)
  unfolding raise_when ◌>>◌ ◌>>=◌
  raise_when-IsKnown true e rest s h k = cc
  raise_when-IsKnown false e rest s h k = h refl k

  found-IsKnown :
      (t : Bool) (n : ℕ) (x : Result EvidenceError (Option (List ℕ)) × Reader)
      → IsKnown x
      → IsKnown (
          next x λ found.
            give (if t then elim found [ none ↦ none | some ns ↦ some (n ∷ ns) ] else found))
  unfolding give
  found-IsKnown t n (err e, s) h k = cc
  found-IsKnown t n (ok none, s) h k = absurd (h refl)
  found-IsKnown true n (ok (some ns), s) h k = cc
  found-IsKnown false n (ok (some ns), s) h k = cc

  wide_enough :
      (content : Bytes) (at : ℕ)
      → is_bad_entry read g content at ≡ false
      → 8 ≤ le_at 2 (at + 4) content
  unfolding is_bad_entry
  wide_enough content at h = low (le_at 2 (at + 4) content) _ _ _ _ h
    where
      low : (n : ℕ) (a b c d : Bool) → (ltb n 8 || a || b || c || d) ≡ false → 8 ≤ n
      low n a b c d h = ground arith

  found_in_from :
      (content name : Bytes) (fuel at : ℕ) (s : Reader)
      → 0 < fuel
      → length content < fuel + at
      → IsKnown (found_in read g content name fuel at s)
  unfolding found_in give ◌>>=◌
  found_in_from content name zero at s room enough = absurd (omega arith)
  found_in_from content name (suc fuel) at s room enough =
      by_end (leb (length content) at) refl λ more wide.
        found_in_from content name fuel (at + le_at 2 (at + 4) content) s
          (omega (arith, leb_false→lt (length content) at more)) (omega arith)
    where
      is_found : Bool
      is_found =
          not (le_at 4 at content == 0)
          && eq_bytes (slice (at + 8) (at + 8 + byte content (at + 6)) content) name

      rest : Reading (Option (List ℕ))
      rest = found_in read g content name fuel (at + le_at 2 (at + 4) content)

      by_end :
          (t : Bool)
          → leb (length content) at ≡ t
          → (leb (length content) at ≡ false → 8 ≤ le_at 2 (at + 4) content → IsKnown (rest s))
          → IsKnown (
              (if t
                  then give (some [])
                  else (raise_when (ltb (length content) (at + 8)) truncated_directory
                      >> (raise_when (is_bad_entry read g content at) bad_entry
                          >> (rest >>= λ found. give (
                              if is_found
                              then elim found [
                                | none ↦ none
                                | some ns ↦ some (le_at 4 at content ∷ ns)
                              ]
                              else found)))))
                s)
      by_end true e h k = cc
      by_end false e h k =
          raise_when-IsKnown (ltb (length content) (at + 8)) truncated_directory _ s
            (λ long. raise_when-IsKnown (is_bad_entry read g content at) bad_entry _ s λ good.
              found-IsKnown is_found (le_at 4 at content) (rest s)
                (h e (wide_enough content at good)))
            k

  -- With one unit more of fuel than the directory has bytes, which is what `enter` gives it, the loop
  -- over the entries ends or raises in every directory, from every state of the reader: each entry
  -- that is not refused moves on by 8 bytes or more.
  pub found_in-IsKnown :
      (content name : Bytes) (s : Reader)
      → IsKnown (found_in read g content name (length content + 1) 0 s)
  found_in-IsKnown content name s =
      found_in_from content name (length content + 1) 0 s (omega arith) (omega arith)
