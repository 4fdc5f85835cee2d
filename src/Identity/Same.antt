-- ===== src/Identity/Same.antt =====
-- The identity of a package, as installer/backend/state.py compares it.
use e5_linux.Base.{
  ◌≡◌, ◌≢◌, ◌↔◌, refl, sym, ◌∙◌, true, false, Option, none, some, List, [], ◌∷◌, ◌++◌, All, arith,
  Bool-cases, Option-cases, inl, inr, subst, ap,
}
use e5_linux.Base.Text.{String, ◌==◌, eq_iff, eq_refl}
use e5_linux.Base.Assoc.{Dict, lookup, contains, append_new}
use e5_linux.Base.Result.{ok, >>=-eq-ok, ok-injective}
use e5_linux.ModuleOrder.Lists.{contains_snoc}
use e5_linux.Identity.{
  Package, is_other, identity_keys, reasons, add_names, verdict, compatible, accept_all,
}

-- The same five values, and the same digest under every payload's name, or none in both.
pub record IsSame (old new : Package) : Type 0 where
  pub identity : All (λ k. lookup k old.values ≡ lookup k new.values) identity_keys
  pub content : (name : String) → lookup name old.payloads ≡ lookup name new.payloads

is_other_iff : (a b : Option String) → (is_other a b ≡ false) ↔ (a ≡ b)
unfolding is_other
is_other_iff none none = ((λ e. refl), (λ e. refl))
is_other_iff (some a) (some b) = ground (arith, eq_iff a b)
is_other_iff none (some b) = ((λ e. cc), (λ e. cc))
is_other_iff (some a) none = ((λ e. cc), (λ e. cc))

reasons-eq-nil :
    (ks : List String) (old new : Dict String)
    → reasons ks old new ≡ []
    → All (λ k. lookup k old ≡ lookup k new) ks
unfolding reasons
reasons-eq-nil [] old new e = tt
reasons-eq-nil (k ∷ ks) old new e = elim (Bool-cases (is_other (lookup k old) (lookup k new))) [
  | inl other ↦ cc (rw other at e)
  | inr same ↦ (
    (is_other_iff (lookup k old) (lookup k new)).0 same,
    reasons-eq-nil ks old new (rw same at e),
  )
]

reasons-nil :
    (ks : List String) (old new : Dict String)
    → All (λ k. lookup k old ≡ lookup k new) ks
    → reasons ks old new ≡ []
unfolding reasons
reasons-nil [] old new h = refl
reasons-nil (k ∷ ks) old new (e, h) =
    rw ((is_other_iff (lookup k old) (lookup k new)).1 e) (reasons-nil ks old new h)

contains-append_new :
    (k j : String) (xs : List String) → contains k xs ≡ true → contains k (append_new j xs) ≡ true
unfolding append_new
contains-append_new k j xs e = elim (Bool-cases (contains j xs)) [
  | inl old ↦ rw old e
  | inr new ↦ rw new (contains_snoc k j xs ∙ rw e refl)
]

own_name : (j : String) (xs : List String) → contains j (append_new j xs) ≡ true
unfolding append_new
own_name j xs = elim (Bool-cases (contains j xs)) [
  | inl old ↦ rw old old
  | inr new ↦ rw new (contains_snoc j j xs ∙ rw (new, eq_refl j) refl)
]

contains-add_names :
    (k : String) (d : Dict String) (names : List String)
    → contains k names ≡ true
    → contains k (add_names d names) ≡ true
unfolding add_names
contains-add_names k [] names e = e
contains-add_names k ((j, v) ∷ d) names e =
    contains-add_names k d (append_new j names) (contains-append_new k j names e)

-- Every key of the dictionary is among the names.
key-add_names :
    (k : String) (d : Dict String) (names : List String)
    → lookup k d ≢ none
    → contains k (add_names d names) ≡ true
unfolding add_names lookup
key-add_names k [] names n = absurd (n refl)
key-add_names k ((j, v) ∷ d) names n = elim (Bool-cases (j == k)) [
  | inl same ↦
      let jk : j ≡ k = (eq_iff j k).0 same in
      contains-add_names k d (append_new j names)
        (subst (λ (x : String). contains x (append_new j names) ≡ true) jk (own_name j names))
  | inr other ↦ key-add_names k d (append_new j names) (rw other at n)
]

key_among :
    (P : String → Type 0) (k : String) (ks : List String) → All P ks → contains k ks ≡ true → P k
unfolding contains
key_among P k [] h e = cc
key_among P k (j ∷ ks) (here, h) e = elim (Bool-cases (j == k)) [
  | inl same ↦ subst P ((eq_iff j k).0 same) here
  | inr other ↦ key_among P k ks h (rw other at e)
]

every_key : (P : String → Type 0) → ((k : String) → P k) → (ks : List String) → All P ks
every_key P h [] = tt
every_key P h (k ∷ ks) = (h k, every_key P h ks)

append_nil_left : (xs ys : List String) → xs ++ ys ≡ [] → (xs ≡ []) × (ys ≡ [])
append_nil_left [] ys e = (refl, e)
append_nil_left (x ∷ xs) ys e = cc

module _ (old new : Package) where
  -- A name that neither package has is the same in both.
  content_of_names :
      All
        (λ k. lookup k old.payloads ≡ lookup k new.payloads)
        (add_names new.payloads (add_names old.payloads []))
      → (name : String) → lookup name old.payloads ≡ lookup name new.payloads
  content_of_names h name =
      let names : List String = add_names new.payloads (add_names old.payloads []) in
      elim (Bool-cases (contains name names)) [
        | inl there ↦
            key_among (λ k. lookup k old.payloads ≡ lookup k new.payloads) name names h there
        | inr gone ↦ elim (Option-cases (lookup name old.payloads)) [
          | inr (v, in_old) ↦ absurd (
              cc (
                gone,
                contains-add_names name new.payloads (add_names old.payloads [])
                    (key-add_names name old.payloads [] (λ n. cc (in_old, n))),
              ))
          | inl not_old ↦ elim (Option-cases (lookup name new.payloads)) [
            | inr (v, in_new) ↦ absurd (
                cc (
                  gone,
                  key-add_names name new.payloads (add_names old.payloads []) (λ n. cc (in_new, n)),
                ))
            | inl not_new ↦ not_old ∙ sym not_new
          ]
        ]
      ]

  found_nil : (found : List String) → verdict found ≡ ok tt → found ≡ []
  unfolding verdict
  found_nil [] e = refl
  found_nil (r ∷ rs) e = cc

  -- A package is compatible exactly if it has the same five identity values and, name by name, the
  -- same payloads.
  compatible_iff : (compatible old new ≡ ok tt) ↔ IsSame old new
  unfolding compatible verdict
  compatible_iff = (
    λ e.
        let (a, b) = append_nil_left _ _ (found_nil _ e) in
        record {
          identity = reasons-eq-nil identity_keys old.values new.values a;
          content = content_of_names (reasons-eq-nil _ old.payloads new.payloads b);
        },
    λ s.
        rw
          (
            reasons-nil identity_keys old.values new.values s.identity,
            reasons-nil (add_names new.payloads (add_names old.payloads [])) old.payloads
                new.payloads
                (every_key (λ k. lookup k old.payloads ≡ lookup k new.payloads) s.content
                  (add_names new.payloads (add_names old.payloads []))),
          )
          refl,
  )

unit_only : (u : Unit {0}) → tt ≡ u
unit_only tt = refl

IsSame-trans : (p q r : Package) → IsSame p q → IsSame q r → IsSame p r
IsSame-trans p q r s t = record {
  identity = (
    s.identity.0 ∙ t.identity.0,
    (
      s.identity.1.0 ∙ t.identity.1.0,
      (
        s.identity.1.1.0 ∙ t.identity.1.1.0,
        (
          s.identity.1.1.1.0 ∙ t.identity.1.1.1.0,
          (s.identity.1.1.1.1.0 ∙ t.identity.1.1.1.1.0, tt),
        ),
      ),
    ),
  );
  content = λ name. s.content name ∙ t.content name;
}

-- Through any number of starts and resumes, each of which puts its own package in the record, the
-- recorded package stays the same in identity and content as the first.
pub accept_all-IsSame :
    (first : Package) (packages : List Package) (last : Package)
    → accept_all first packages ≡ ok last
    → IsSame first last
unfolding accept_all
accept_all-IsSame first [] last e =
    let same : first ≡ last = ok-injective first last e in
    subst (IsSame first) same
      (record { identity = (refl, (refl, (refl, (refl, (refl, tt))))); content = λ name. refl })
accept_all-IsSame first (p ∷ ps) last e =
    let (u, e1, e2) = >>=-eq-ok (compatible first p) _ e in
    IsSame-trans first p last ((compatible_iff first p).0 (e1 ∙ ap ok (sym (unit_only u))))
      (accept_all-IsSame p ps last e2)
