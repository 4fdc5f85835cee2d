-- ===== src/Evidence/Bounds.antt =====
-- What the reader of installer/backend/install_evidence.py asks of the device, whatever the partition
-- holds: an invariant of its state, and results that satisfy a predicate.
use e5_linux.Base.{
  ℕ, ◌+◌, ◌-◌, ◌≤◌, ◌<◌, ◌≡◌, inl, inr, refl, sym, ap, ◌∙◌, subst, Bool, true, false, ◌&&◌, ◌||◌,
  ◌==◌, ltb, Bool-cases, ==_iff, both_of_and, if◌then◌else◌, Option, none, some, List, [], ◌∷◌, All,
  arith, length,
}
use e5_linux.Base.Bytes.{Bytes}
use e5_linux.Base.Result.{Result, ok, err, ok-injective}
use e5_linux.Evidence.{
  EvidenceError, beyond_partition, over_limit, short_read, Reader, Reading, next, ◌>>=◌, ◌>>◌, give,
  raise_when, budget, fresh, cached, limit_or, keep_read, fetch, raw_from, raw, set_limit,
}

abbrev pub asked_bytes : List (ℕ × ℕ) → ℕ
asked_bytes [] = 0
asked_bytes ((offset, size) ∷ rest) = size + asked_bytes rest

module _ (read : ℕ → ℕ → Bytes) (capacity : ℕ) where
  -- Every request lies inside the partition, all of them together ask for no more than 4 MiB, and
  -- the cache holds what the device has answered, in full.
  pub record IsBounded (s : Reader) : Type 0 where
    pub same_capacity : s.capacity ≡ capacity
    pub inside : All (λ r. (0 < r.1) × (r.0 + r.1 ≤ capacity)) s.asked
    pub spent : asked_bytes s.asked + s.remaining ≤ budget
    pub limited : limit_or s.limit s.capacity ≤ capacity
    pub whole : All (λ c. (c.1 ≡ read c.0.0 c.0.1) × (length c.1 ≡ c.0.1)) s.cache

  -- The invariant is kept, and a returned value satisfies P.
  abbrev pub Ends : {A : Type 0} → (A → Type 0) → Result EvidenceError A × Reader → Type 0
  Ends P x = IsBounded x.1 × ((a : _) → x.0 ≡ ok a → P a)

  unfoldable pub Gives : {A : Type 0} → (A → Type 0) → Reading A → Type 0
  Gives P action = (s : Reader) → IsBounded s → Ends P (action s)

  module _ {A : Type 0} where
    pub give-Gives : (P : A → Type 0) (a : A) → P a → Gives P (give a)
    unfolding Gives give
    give-Gives P a p s h = (h, λ b e. subst P (ok-injective a b e) p)

    pub >>=-Gives :
        {B : Type 0} (P : A → Type 0) (Q : B → Type 0) (first : Reading A) (rest : A → Reading B)
        → Gives P first
        → ((a : A) → P a → Gives Q (rest a))
        → Gives Q (first >>= rest)
    unfolding Gives ◌>>=◌
    >>=-Gives P Q first rest hf hr s h = step (first s) (hf s h)
      where
        step : (x : Result EvidenceError A × Reader) → Ends P x → Ends Q (next x rest)
        step (err e, s') (kept, p) = (kept, λ b k. cc)
        step (ok a, s') (kept, p) = hr a (p a refl) s' kept

    -- A guard that has passed.
    pub raise_when-Gives :
        (Q : A → Type 0) (t : Bool) (e : EvidenceError) (rest : Reading A)
        → (t ≡ false → Gives Q rest)
        → Gives Q (raise_when t e >> rest)
    unfolding Gives raise_when ◌>>◌
    raise_when-Gives Q true e rest hr s h = (h, λ b k. cc)
    raise_when-Gives Q false e rest hr s h = hr refl s h

  pub >>-Gives :
      {A : Type 0} (Q : A → Type 0) (first : Reading (Unit {0})) (rest : Reading A)
      → Gives (λ u. Unit {0}) first
      → Gives Q rest
      → Gives Q (first >> rest)
  unfolding ◌>>◌
  >>-Gives Q first rest hf hr = >>=-Gives (λ u. Unit {0}) Q first (λ done. rest) hf (λ u p. hr)

  all_cached :
      (offset size : ℕ) (cache : List ((ℕ × ℕ) × Bytes)) (value : Bytes)
      → All (λ c. (c.1 ≡ read c.0.0 c.0.1) × (length c.1 ≡ c.0.1)) cache
      → cached offset size cache ≡ some value
      → (value ≡ read offset size) × (length value ≡ size)
  unfolding cached
  all_cached offset size [] value h e = cc
  all_cached offset size (((o, n), v) ∷ rest) value ((same, long), h) e =
      elim (Bool-cases (o == offset && n == size)) [
        | inl hit ↦
            let e' : some v ≡ some value = rw hit at e in
            let v_eq : v ≡ value = cc in
            let (eo, en) = both_of_and (o == offset) (n == size) hit in
            let o_eq : o ≡ offset = (==_iff o offset).0 eo in
            let n_eq : n ≡ size = (==_iff n size).0 en in
            (
              sym v_eq ∙ same ∙ ap (λ (x : ℕ). read x n) o_eq ∙ ap (λ (x : ℕ). read offset x) n_eq,
              ap length (sym v_eq) ∙ long ∙ n_eq,
            )
        | inr miss ↦ all_cached offset size rest value h (rw miss at e)
      ]

  -- The bytes that a request gives.
  abbrev pub IsAnswer : ℕ → ℕ → Bytes → Type 0
  IsAnswer offset size value = (value ≡ read offset size) × (length value ≡ size)

  module _ (offset size : ℕ) where
    keep_read-Ends :
        (s : Reader)
        → 0 < size
        → offset + size ≤ capacity
        → size ≤ s.remaining
        → IsBounded s
        → Ends (IsAnswer offset size) (keep_read read offset size (read offset size) s)
    unfolding keep_read
    keep_read-Ends s room inside left h = by_length (length (read offset size) == size) refl
      where
        s' : Reader
        s' = record s { remaining = s.remaining - size; asked = (offset, size) ∷ s.asked }

        kept : IsBounded s'
        kept = record {
          same_capacity = h.same_capacity;
          inside = ((room, inside), h.inside);
          spent = omega (arith, h.spent);
          limited = h.limited;
          whole = h.whole;
        }

        by_length :
            (t : Bool)
            → (length (read offset size) == size) ≡ t
            → Ends (IsAnswer offset size) (
                if t
                then (
                  ok (read offset size),
                  record s' { cache = ((offset, size), read offset size) ∷ s.cache },
                )
                else (err short_read, s'))
        by_length true e =
            let long : length (read offset size) ≡ size =
              (==_iff (length (read offset size)) size).0 e in
            (
              record {
                same_capacity = kept.same_capacity;
                inside = kept.inside;
                spent = kept.spent;
                limited = kept.limited;
                whole = ((refl, long), h.whole);
              },
              λ b k.
                  subst (IsAnswer offset size) (ok-injective (read offset size) b k) (refl, long),
            )
        by_length false e = (kept, λ b k. cc)

    fetch-Ends :
        (s : Reader)
        → 0 < size
        → offset + size ≤ capacity
        → IsBounded s
        → Ends (IsAnswer offset size) (fetch read offset size s)
    unfolding fetch
    fetch-Ends s room inside h = by_budget (ltb s.remaining size) refl
      where
        by_budget :
            (t : Bool)
            → ltb s.remaining size ≡ t
            → Ends (IsAnswer offset size) (
                if t
                then (err over_limit, record s { remaining = 0 })
                else keep_read read offset size (read offset size) s)
        by_budget true e = (
          record {
            same_capacity = h.same_capacity;
            inside = h.inside;
            spent = omega (arith, h.spent);
            limited = h.limited;
            whole = h.whole;
          },
          λ b k. cc,
        )
        by_budget false e = keep_read-Ends s room inside (ground arith) h

    -- `raw` keeps the bounds, and what it returns is what the device holds there.
    pub raw-Gives : Gives (IsAnswer offset size) (raw read offset size)
    unfolding raw raw_from Gives
    raw-Gives s h = by_range (size == 0 || ltb (limit_or s.limit s.capacity) (offset + size)) refl
      where
        by_cache :
            (o : Option Bytes)
            → cached offset size s.cache ≡ o
            → 0 < size
            → offset + size ≤ capacity
            → Ends (IsAnswer offset size) (raw_from read offset size o s)
        by_cache (some value) e room inside = (
          h,
          λ b k.
              subst (IsAnswer offset size) (ok-injective value b k)
                (all_cached offset size s.cache value h.whole e),
        )
        by_cache none e room inside = fetch-Ends s room inside h

        in_range : (n l m : ℕ) → (n == 0 || ltb l m) ≡ false → (0 < n) × (m ≤ l)
        in_range n l m e = ground arith

        by_range :
            (t : Bool)
            → (size == 0 || ltb (limit_or s.limit s.capacity) (offset + size)) ≡ t
            → Ends (IsAnswer offset size) (
                if t
                then (err beyond_partition, s)
                else raw_from read offset size (cached offset size s.cache) s)
        by_range true e = (h, λ b k. cc)
        by_range false e =
            let (room, inside) = in_range size (limit_or s.limit s.capacity) (offset + size) e in
            by_cache (cached offset size s.cache) refl room (omega (arith, inside, h.limited))

  pub set_limit-Gives : (n : ℕ) → n ≤ capacity → Gives (λ u. Unit {0}) (set_limit read n)
  unfolding set_limit Gives
  set_limit-Gives n fits s h = (
    record {
      same_capacity = h.same_capacity;
      inside = h.inside;
      spent = h.spent;
      limited = fits;
      whole = h.whole;
    },
    λ b k. tt,
  )

  -- A weaker predicate.
  pub Gives-mono :
      {A : Type 0} (P Q : A → Type 0) (action : Reading A)
      → ((a : A) → P a → Q a)
      → Gives P action
      → Gives Q action
  unfolding Gives
  Gives-mono P Q action f h s k = ((h s k).0, λ a e. f a ((h s k).1 a e))

  -- A run from a state within the bounds.
  pub Gives-Ends :
      {A : Type 0} (P : A → Type 0) (action : Reading A) (s : Reader)
      → Gives P action
      → IsBounded s
      → Ends P (action s)
  unfolding Gives
  Gives-Ends P action s h k = h s k

  pub fresh-IsBounded : IsBounded (fresh capacity)
  fresh-IsBounded = record {
    same_capacity = refl;
    inside = tt;
    spent = omega arith;
    limited = omega arith;
    whole = tt;
  }
