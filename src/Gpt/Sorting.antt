-- ===== src/Gpt/Sorting.antt =====
-- Sorting the entries by their first sector loses and adds none, and keeps them apart.
use e5_linux.Base.{
  ℕ, ◌+◌, ◌≤◌, ◌<◌, ◌⊎◌, inl, inr, leb, List, [], ◌∷◌, ◌++◌, map, All, arith, Bool-cases,
}
use e5_linux.Gpt.{Part, extent, insert_part, sort_parts}
use e5_linux.Gpt.Gaps.{IsApart}

module _ (P : Part → Type 0) where
  All-insert_part : (p : Part) (qs : List Part) → P p → All P qs → All P (insert_part p qs)
  unfolding insert_part
  All-insert_part p [] hp h = (hp, tt)
  All-insert_part p (q ∷ qs) hp (hq, h) = elim (Bool-cases (leb p.start q.start)) [
    | inl le ↦ rw le (hp, (hq, h))
    | inr gt ↦ rw gt (hq, All-insert_part p qs hp h)
  ]

  All-insert_part_inv : (p : Part) (qs : List Part) → All P (insert_part p qs) → P p × All P qs
  unfolding insert_part
  All-insert_part_inv p [] h = h
  All-insert_part_inv p (q ∷ qs) h = elim (Bool-cases (leb p.start q.start)) [
    | inl le ↦ let (hp, hs) = rw le at h in (hp, hs)
    | inr gt ↦
        let (hq, hs) = rw gt at h in let (hp, ht) = All-insert_part_inv p qs hs in (hp, (hq, ht))
  ]

  pub All-sort_parts : (ps : List Part) → All P ps → All P (sort_parts ps)
  unfolding sort_parts
  All-sort_parts [] h = tt
  All-sort_parts (p ∷ ps) (hp, h) = All-insert_part p (sort_parts ps) hp (All-sort_parts ps h)

  pub All-sort_parts_inv : (ps : List Part) → All P (sort_parts ps) → All P ps
  unfolding sort_parts
  All-sort_parts_inv [] h = tt
  All-sort_parts_inv (p ∷ ps) h =
      let (hp, hs) = All-insert_part_inv p (sort_parts ps) h in (hp, All-sort_parts_inv ps hs)

-- No sector belongs to both entries.
abbrev pub Disjoint : Part → Part → Type 0
Disjoint p q = (p.end < q.start) ⊎ (q.end < p.start)

abbrev pub IsDisjoint : List Part → Type 0
IsDisjoint [] = Unit
IsDisjoint (p ∷ ps) = All (Disjoint p) ps × IsDisjoint ps

IsDisjoint-insert_part :
    (p : Part) (qs : List Part) → IsDisjoint (insert_part p qs) → IsDisjoint (p ∷ qs)
unfolding insert_part
IsDisjoint-insert_part p [] h = h
IsDisjoint-insert_part p (q ∷ qs) h = elim (Bool-cases (leb p.start q.start)) [
  | inl le ↦ rw le at h
  | inr gt ↦
      let (hq, hs) = rw gt at h in
      let (hqp, hqs) = All-insert_part_inv (Disjoint q) p qs hq in
      let (hp, ht) = IsDisjoint-insert_part p qs hs in ((flip hqp, hp), (hqs, ht))
]
  where
    flip : Disjoint q p → Disjoint p q
    flip (inl l) = inr l
    flip (inr r) = inl r

pub IsDisjoint-sort_parts : (ps : List Part) → IsDisjoint (sort_parts ps) → IsDisjoint ps
unfolding sort_parts
IsDisjoint-sort_parts [] h = tt
IsDisjoint-sort_parts (p ∷ ps) h =
    let (hp, hs) = IsDisjoint-insert_part p (sort_parts ps) h in
    (All-sort_parts_inv (Disjoint p) ps hp, IsDisjoint-sort_parts ps hs)

-- Entries with a first and a last sector in order.
abbrev pub IsOrdered : Part → Type 0
IsOrdered p = p.start ≤ p.end

IsApart-behind :
    (p : Part) (at : ℕ) (qs : List Part) (stop : ℕ × ℕ)
    → p.end < at
    → All IsOrdered qs
    → IsApart at (map extent qs ++ (stop ∷ []))
    → All (Disjoint p) qs
IsApart-behind p at [] stop lt o a = tt
IsApart-behind p at (q ∷ qs) stop lt (oq, o) (aq, a) =
    (inl (omega arith), IsApart-behind p (q.end + 1) qs stop (omega arith) o a)

pub IsApart-IsDisjoint :
    (at : ℕ) (qs : List Part) (stop : ℕ × ℕ)
    → All IsOrdered qs
    → IsApart at (map extent qs ++ (stop ∷ []))
    → IsDisjoint qs
IsApart-IsDisjoint at [] stop o a = tt
IsApart-IsDisjoint at (q ∷ qs) stop (oq, o) (aq, a) = (
  IsApart-behind q (q.end + 1) qs stop (omega arith) o a,
  IsApart-IsDisjoint (q.end + 1) qs stop o a,
)
