-- ===== src/Controller/Oldest.antt =====
-- The primary that `canaryAssignments` pairs with a canary is the oldest one that has its footprints.
use ingress_nginx_gateway_br.Common.{
  ◌≡◌, ◌≢◌, subst, inl, inr, true, false, not, ◌||◌, none, some, List, [], ◌∷◌, Memᴰ, arith, All,
  All-keep, Mem-keep, All-mem, All-self, All-sort_by, sort_by-All, IsWeakOrder, IsFirst,
  sort_by-IsFirst, Bool-cases,
}
use ingress_nginx_gateway_br.Text.Order.{text_lt-asym, text_lt-behind_trans}
use ingress_nginx_gateway_br.Api.{Ingress}
use ingress_nginx_gateway_br.Controller.Canary.{
  is_canary_ingress, spec_route_footprints, footprints_contain, older, primaries_of, candidates_for,
  first_of, primary_for, no_texts,
}

older-IsWeakOrder : IsWeakOrder older
unfolding older
older-IsWeakOrder = record {
  asym = λ x y h. ground (arith, h, text_lt-asym x.name y.name);
  behind_trans = λ x y z h k. ground (arith, h, k, text_lt-behind_trans x.name y.name z.name);
}

-- A primary Ingress of the list that has all footprints of the canary.
abbrev pub IsPrimaryFor : List Ingress → Ingress → Ingress → Type 0
IsPrimaryFor ingresses canary ing =
    Memᴰ ing ingresses
    × ((is_canary_ingress ing ≡ false)
        × (footprints_contain (spec_route_footprints ing) (spec_route_footprints canary) ≡ true))

candidates_for-IsPrimaryFor :
    (ingresses : List Ingress) (canary : Ingress)
    → All (IsPrimaryFor ingresses canary) (candidates_for ingresses canary)
unfolding candidates_for primaries_of
candidates_for-IsPrimaryFor ingresses canary = All-sort_by older (IsPrimaryFor ingresses canary) _ (
    All-keep (λ ing. Memᴰ ing ingresses × (is_canary_ingress ing ≡ false))
      (IsPrimaryFor ingresses canary) _ _ (λ ing has known. (known.0, (known.1, has)))
      (All-keep (λ ing. Memᴰ ing ingresses)
        (λ ing. Memᴰ ing ingresses × (is_canary_ingress ing ≡ false)) _ ingresses
        (λ ing primary member. (member, ground (arith, primary)))
        (All-self ingresses ingresses (λ ing m. m))))

candidates_for-All :
    (R : Ingress → Type 0) (ingresses : List Ingress) (canary ing : Ingress)
    → IsPrimaryFor ingresses canary ing
    → All R (candidates_for ingresses canary)
    → R ing
unfolding candidates_for primaries_of
candidates_for-All R ingresses canary ing (member, (primary, has)) h =
    All-mem R (Mem-keep _ ing _ (Mem-keep _ ing ingresses member (ground (arith, primary))) has)
      (sort_by-All older R _ h)

candidates_for-IsFirst :
    (ingresses : List Ingress) (canary : Ingress)
    → IsFirst older older-IsWeakOrder (candidates_for ingresses canary)
unfolding candidates_for
candidates_for-IsFirst ingresses canary = sort_by-IsFirst older older-IsWeakOrder _

-- The first of the candidates is a candidate that none goes before.
first_candidate :
    (ingresses : List Ingress) (canary primary : Ingress) (candidates : List Ingress)
    → All (IsPrimaryFor ingresses canary) candidates
    → IsFirst older older-IsWeakOrder candidates
    → first_of candidates ≡ some primary
    → IsPrimaryFor ingresses canary primary × All (λ ing. older ing primary ≡ false) candidates
first_candidate ingresses canary primary [] all_primary first e = absurd cc
first_candidate ingresses canary primary (c ∷ cs) all_primary first e =
    let same : c ≡ primary = cc in
    (
      subst (IsPrimaryFor ingresses canary) same all_primary.0,
      subst (λ p. All (λ ing. older ing p ≡ false) (c ∷ cs)) same first,
    )

-- The primary that a canary is merged into is a primary Ingress of the list that has all hosts and paths of
-- the canary, and no other such Ingress of the list is older.
pub primary_for-oldest :
    (ingresses : List Ingress) (canary primary : Ingress)
    → primary_for ingresses canary ≡ some primary
    → IsPrimaryFor ingresses canary primary
      × ((other : Ingress) → IsPrimaryFor ingresses canary other → older other primary ≡ false)
unfolding primary_for
primary_for-oldest ingresses canary primary chosen =
    elim (Bool-cases (not (is_canary_ingress canary) || no_texts (spec_route_footprints canary))) [
      | inl unfit ↦ let h : none ≡ some primary = rw unfit at chosen in absurd cc
      | inr fit ↦
          let h : first_of (candidates_for ingresses canary) ≡ some primary = rw fit at chosen in
          let (is_primary, first) =
            first_candidate ingresses canary primary (candidates_for ingresses canary)
              (candidates_for-IsPrimaryFor ingresses canary)
              (candidates_for-IsFirst ingresses canary) h in
          (
            is_primary,
            λ other fits.
                candidates_for-All (λ ing. older ing primary ≡ false) ingresses canary other fits
                  first,
          )
    ]

-- A canary that has a host and path finds a primary where some primary Ingress of the list has all its hosts and
-- paths.
pub primary_for-found :
    (ingresses : List Ingress) (canary other : Ingress)
    → is_canary_ingress canary ≡ true
    → no_texts (spec_route_footprints canary) ≡ false
    → IsPrimaryFor ingresses canary other
    → primary_for ingresses canary ≢ none
unfolding primary_for
primary_for-found ingresses canary other is_canary declares fits chosen =
    let h : first_of (candidates_for ingresses canary) ≡ none =
      rw (is_canary, declares) at chosen in
    candidates_for-All (λ ing. ⊥) ingresses canary other fits
      (no_first (candidates_for ingresses canary) h)
  where
    no_first : (candidates : List Ingress) → first_of candidates ≡ none → All (λ ing. ⊥) candidates
    no_first [] e = tt
    no_first (c ∷ cs) e = absurd cc
