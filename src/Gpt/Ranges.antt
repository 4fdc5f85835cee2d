-- ===== src/Gpt/Ranges.antt =====
-- gpt_space: the gaps that it returns are free, none is missed, and the entries do not overlap.
use e5_linux.Base.{ℕ, ◌+◌, ◌%◌, ◌≤◌, ◌<◌, ◌≡◌, Option, List, [], ◌∷◌, ◌++◌, map, All, arith}
use e5_linux.Base.Bytes.{Bytes}
use e5_linux.Base.Result.{ok}
use e5_linux.Gpt.{Part, Space, extent, sort_parts, gpt_space}
use e5_linux.Gpt.Gaps.{
  Clear, Holds, IsGap, IsExtent, gap_loop-IsApart, gap_loop-IsGap, gap_loop-ends, gap_loop_complete,
}
use e5_linux.Gpt.Sorting.{
  All-sort_parts, All-sort_parts_inv, IsDisjoint, IsDisjoint-sort_parts, IsOrdered,
  IsApart-IsDisjoint,
}
use e5_linux.Gpt.FreeSpace.{
  first_usable, last_usable, IsInside, IsFree, read_entries-IsInside, Scanned, gpt_space-Scanned,
}

-- Moving a predicate between entries and their extents.
All-extent :
    (P : ℕ × ℕ → Type 0) (Q : Part → Type 0)
    → ((p : Part) → Q p → P (extent p))
    → (ps : List Part) (stop : ℕ × ℕ) → P stop
    → All Q ps
    → All P (map extent ps ++ (stop ∷ []))
All-extent P Q f [] stop h a = (h, tt)
All-extent P Q f (p ∷ ps) stop h (q, a) = (f p q, All-extent P Q f ps stop h a)

All-extent_inv :
    (P : ℕ × ℕ → Type 0) (ps : List Part) (stop : ℕ × ℕ)
    → All P (map extent ps ++ (stop ∷ []))
    → All (λ p. P (extent p)) ps × P stop
All-extent_inv P [] stop h = (tt, h.0)
All-extent_inv P (p ∷ ps) stop (hp, h) = let (a, b) = All-extent_inv P ps stop h in ((hp, a), b)

All-extent_only :
    (P : ℕ × ℕ → Type 0) (ps : List Part) → All (λ p. P (extent p)) ps → All P (map extent ps)
All-extent_only P [] h = tt
All-extent_only P (p ∷ ps) (hp, h) = (hp, All-extent_only P ps h)

All-weaken {ℓ κ μ} :
    {A : Type ℓ} (P : A → Type κ) (Q : A → Type μ)
    → ((a : A) → P a → Q a)
    → (xs : List A) → All P xs
    → All Q xs
All-weaken P Q f [] h = tt
All-weaken P Q f (x ∷ xs) (hx, h) = (f x hx, All-weaken P Q f xs h)

module _ (crc32 : Bytes → ℕ) (decode : Bytes → Option (List ℕ)) where
  module _ (first last : Bytes) (sectors : ℕ) (info : Space)
      (e : gpt_space crc32 decode first last sectors ≡ ok info) where
    scanned : Scanned crc32 decode first last sectors info
    scanned = gpt_space-Scanned crc32 decode first last sectors info e

    sentinel : ℕ × ℕ
    sentinel = (last_usable first + 1, last_usable first)

    inside : All (IsInside (first_usable first) (last_usable first)) info.parts
    inside =
        read_entries-IsInside crc32 decode (first_usable first) (last_usable first) _ _ _ 0
          info.parts info.empty scanned.entries

    sorted_extents : All IsExtent (map extent (sort_parts info.parts) ++ (sentinel ∷ []))
    unfolding sentinel
    sorted_extents =
        All-extent IsExtent (IsInside (first_usable first) (last_usable first))
          (λ p q. omega (arith, q.1)) (sort_parts info.parts) sentinel (omega arith)
          (All-sort_parts (IsInside (first_usable first) (last_usable first)) info.parts inside)

    gap-IsFree :
        (g : ℕ × ℕ)
        → IsGap (first_usable first) (map extent (sort_parts info.parts) ++ (sentinel ∷ [])) g
        → g.0 + g.1 ≤ last_usable first + 1
        → IsFree info g
    unfolding sentinel
    gap-IsFree g i ends =
        let (clear, stop) = All-extent_inv (Clear g) (sort_parts info.parts) sentinel i.clear in
        record {
          aligned = i.aligned;
          whole = i.whole;
          some_room = i.some_room;
          behind_front = omega (arith, i.from_at, scanned.from_front);
          before_tail = omega (arith, ends, scanned.to_tail);
          clear = All-sort_parts_inv (λ p. Clear g (extent p)) info.parts clear;
        }

    gaps-IsFree :
        (gs : List (ℕ × ℕ))
        → All
            (IsGap (first_usable first) (map extent (sort_parts info.parts) ++ (sentinel ∷ [])))
            gs
        → All (λ g. g.0 + g.1 ≤ last_usable first + 1) gs
        → All (IsFree info) gs
    gaps-IsFree [] h k = tt
    gaps-IsFree (g ∷ gs) (hg, h) (kg, k) = (gap-IsFree g hg kg, gaps-IsFree gs h k)

    -- Every gap of a successful gpt_space starts and ends on a multiple of 2048 sectors, is not
    -- empty, lies between the two tables, and meets no entry of the partition table.
    pub gpt_space_gaps : All (IsFree info) info.gaps
    unfolding sentinel
    gpt_space_gaps =
        gaps-IsFree info.gaps
          (gap_loop-IsGap (first_usable first)
            (map extent (sort_parts info.parts) ++ (sentinel ∷ [])) info.gaps sorted_extents
            scanned.scan)
          (gap_loop-ends (first_usable first) (map extent (sort_parts info.parts)) sentinel
            info.gaps sorted_extents scanned.scan)

    -- No range is missed: one of whole multiples of 2048 sectors inside the usable bounds that meets
    -- no entry lies in one of the gaps.
    pub gpt_space_complete :
        (x : ℕ × ℕ)
        → x.0 % 2048 ≡ 0
        → x.1 % 2048 ≡ 0
        → 0 < x.1
        → first_usable first ≤ x.0
        → x.0 + x.1 ≤ last_usable first + 1
        → All (λ p. Clear x (extent p)) info.parts
        → Holds x info.gaps
    unfolding sentinel
    gpt_space_complete x a n room lo hi clear =
        gap_loop_complete (first_usable first) (map extent (sort_parts info.parts)) sentinel x
          info.gaps scanned.scan a n room lo hi
          (All-extent_only (Clear x) (sort_parts info.parts)
            (All-sort_parts (λ p. Clear x (extent p)) info.parts clear))

    -- In a table that gpt_space takes, every entry lies inside the usable bounds and no two entries
    -- share a sector.
    pub gpt_space_entries :
        All (IsInside (first_usable first) (last_usable first)) info.parts × IsDisjoint info.parts
    unfolding sentinel
    gpt_space_entries = (
      inside,
      IsDisjoint-sort_parts info.parts (
          IsApart-IsDisjoint (first_usable first) (sort_parts info.parts) sentinel
            (All-sort_parts IsOrdered info.parts (
              All-weaken (IsInside (first_usable first) (last_usable first)) IsOrdered (λ p q. q.1)
                info.parts inside))
            (gap_loop-IsApart (first_usable first)
              (map extent (sort_parts info.parts) ++ (sentinel ∷ [])) info.gaps scanned.scan)),
    )
