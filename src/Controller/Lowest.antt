-- ===== src/Controller/Lowest.antt =====
-- The placements that `observedListenerPlacements` reads back: no hostname is recorded above the
-- lowest index at which it stands.
use ingress_nginx_gateway_br.Common.{
  ℕ, ◌≤◌, ◌≡◌, refl, sym, ap, ◌∙◌, subst, inl, inr, Bool, true, false, Option, none, some, List, [],
  ◌∷◌, Memᴰ, arith, leb, lookup, insert, lookup-insert, Bool-cases, true-false, if◌then◌else◌,
}
use ingress_nginx_gateway_br.Text.{Text, text_key, text_eq, text_eq_iff}
use ingress_nginx_gateway_br.Api.{NamespacedName, Listener, get_text}
use ingress_nginx_gateway_br.Types.{managed_by_label, controller_name, listener_set_index_label}
use ingress_nginx_gateway_br.Gateway.{ListenerPlacement, Placements}
use ingress_nginx_gateway_br.Gateway.Refs.{managed_listener_set_name}
use ingress_nginx_gateway_br.Controller.Selection.{Config}
use ingress_nginx_gateway_br.Controller.Observed.{
  is_lower, observed_listener, record_observed, record_observed_listeners, ListenerObject, found,
  is_managed_set, record_at, observe_sets, observe_gateway, has_label, parse_index,
  observed_listener_placements,
}

-- Whether a hostname has a placement, at this index or below.
abbrev pub at_most : ℕ → Option ListenerPlacement → Bool
at_most index none = false
at_most index (some p) = leb p.listener_set index

pub lookup-insert_same :
    (host wanted : Text) (p : ListenerPlacement) (ps : Placements)
    → host ≡ wanted
    → lookup wanted (insert host p ps) ≡ some p
lookup-insert_same host wanted p ps e =
    ground (arith, lookup-insert host wanted p ps, text_eq_iff host wanted, e)

pub lookup-insert_other :
    (host wanted : Text) (p : ListenerPlacement) (ps : Placements)
    → text_eq host wanted ≡ false
    → lookup wanted (insert host p ps) ≡ lookup wanted ps
lookup-insert_other host wanted p ps e = ground (arith, lookup-insert host wanted p ps, e)

-- What is recorded at the index leaves every bound in place.
at_most-insert :
    (n index : ℕ) (host wanted : Text) (secret : NamespacedName) (ps : Placements)
    → is_lower index (lookup host ps) ≡ true
    → at_most n (lookup wanted ps) ≡ true
    → at_most n (lookup wanted (insert host (record { listener_set = index; secret = secret }) ps))
      ≡ true
unfolding is_lower
at_most-insert n index host wanted secret ps lower bound = elim (Bool-cases (text_eq host wanted)) [
  | inl same ↦
      let e = (text_eq_iff host wanted).0 same in
      let h : is_lower index (lookup wanted ps) ≡ true =
        subst (λ h. is_lower index (lookup h ps) ≡ true) e lower in
      rw (lookup-insert_same host wanted _ ps e) (below n index (lookup wanted ps) h bound)
  | inr other ↦ rw (lookup-insert_other host wanted _ ps other) bound
]
  where
    below :
        (n index : ℕ) (o : Option ListenerPlacement)
        → is_lower index o ≡ true
        → at_most n o ≡ true
        → leb index n ≡ true
    below n index none lower bound = absurd (true-false (sym bound))
    below n index (some p) lower bound = ground arith

at_most-record_observed :
    (n index : ℕ) (seen : Option (Text × NamespacedName)) (wanted : Text) (ps : Placements)
    → at_most n (lookup wanted ps) ≡ true
    → at_most n (lookup wanted (record_observed index seen ps)) ≡ true
unfolding record_observed
at_most-record_observed n index none wanted ps bound = bound
at_most-record_observed n index (some (host, secret)) wanted ps bound =
    elim (Bool-cases (is_lower index (lookup host ps))) [
      | inl lower ↦ rw lower (at_most-insert n index host wanted secret ps lower bound)
      | inr higher ↦ rw higher bound
    ]

not_lower :
    (index : ℕ) (o : Option ListenerPlacement) → is_lower index o ≡ false → at_most index o ≡ true
unfolding is_lower
not_lower index none higher = absurd (true-false higher)
not_lower index (some p) higher = ground arith

-- What is recorded is at the index or below.
at_most-record_observed_self :
    (index : ℕ) (host : Text) (secret : NamespacedName) (ps : Placements)
    → at_most index (lookup host (record_observed index (some (host, secret)) ps)) ≡ true
unfolding record_observed
at_most-record_observed_self index host secret ps =
    elim (Bool-cases (is_lower index (lookup host ps))) [
      | inl lower ↦ rw (lower, lookup-insert_same host host _ ps refl) (ground arith)
      | inr higher ↦ rw higher (not_lower index (lookup host ps) higher)
    ]

pub at_most-later :
    (n : ℕ) (ps : Placements) (namespace : Text) (index : ℕ) (listeners : List Listener)
    (host : Text)
    → at_most n (lookup host ps) ≡ true
    → at_most n (lookup host (record_observed_listeners ps namespace index listeners)) ≡ true
unfolding record_observed_listeners
at_most-later n ps namespace index [] host bound = bound
at_most-later n ps namespace index (listener ∷ listeners) host bound =
    at_most-later n (record_observed index (observed_listener namespace listener) ps) namespace
      index listeners host
      (at_most-record_observed n index (observed_listener namespace listener) host ps bound)

-- Every hostname that the parent serves is then placed at the parent's index or below.
pub record_observed_listeners-at_most :
    (ps : Placements) (namespace : Text) (index : ℕ) (listeners : List Listener)
    (listener : Listener) (host : Text) (secret : NamespacedName)
    → Memᴰ listener listeners
    → observed_listener namespace listener ≡ some (host, secret)
    → at_most index (lookup host (record_observed_listeners ps namespace index listeners)) ≡ true
unfolding record_observed_listeners
record_observed_listeners-at_most ps namespace index [] listener host secret member seen =
    elim member [ ]
record_observed_listeners-at_most ps namespace index (l ∷ ls) listener host secret (Memᴰ.head e)
      seen =
    at_most-later index _ namespace index ls host (
      subst (λ o. at_most index (lookup host (record_observed index o ps)) ≡ true)
        (sym seen ∙ ap (observed_listener namespace) e)
        (at_most-record_observed_self index host secret ps))
record_observed_listeners-at_most ps namespace index (l ∷ ls) listener host secret (Memᴰ.tail m)
      seen =
    record_observed_listeners-at_most (record_observed index (observed_listener namespace l) ps)
      namespace index ls listener host secret m seen

-- The lower of an index and the recorded one, where there is one.
abbrev pub lowest : ℕ → Option ListenerPlacement → ℕ
lowest index none = index
lowest index (some p) = if leb index p.listener_set then index else p.listener_set

-- A hostname is placed at an index.
abbrev pub IsPlacedAt : ℕ → Option ListenerPlacement → Type 0
IsPlacedAt n o = (p : ListenerPlacement) × (o ≡ some p) × (p.listener_set ≡ n)

IsPlacedAt-lower :
    (index : ℕ) (o : Option ListenerPlacement) (secret : NamespacedName)
    → is_lower index o ≡ true
    → IsPlacedAt (lowest index o) (some (record { listener_set = index; secret = secret }))
unfolding is_lower
IsPlacedAt-lower index none secret lower = (_, refl, refl)
IsPlacedAt-lower index (some p) secret lower = (_, refl, ground arith)

IsPlacedAt-higher :
    (index : ℕ) (o : Option ListenerPlacement)
    → is_lower index o ≡ false
    → IsPlacedAt (lowest index o) o
unfolding is_lower
IsPlacedAt-higher index none higher = absurd (true-false higher)
IsPlacedAt-higher index (some p) higher = (p, refl, ground arith)

IsPlacedAt-record_observed :
    (index : ℕ) (host : Text) (secret : NamespacedName) (ps : Placements)
    → IsPlacedAt
        (lowest index (lookup host ps))
        (lookup host (record_observed index (some (host, secret)) ps))
unfolding record_observed
IsPlacedAt-record_observed index host secret ps =
    elim (Bool-cases (is_lower index (lookup host ps))) [
      | inl lower ↦
          rw (lower, lookup-insert_same host host _ ps refl)
            (IsPlacedAt-lower index (lookup host ps) secret lower)
      | inr higher ↦ rw higher (IsPlacedAt-higher index (lookup host ps) higher)
    ]

lowest_idem :
    (index : ℕ) (o later : Option ListenerPlacement)
    → IsPlacedAt (lowest index o) later
    → lowest index later ≡ lowest index o
lowest_idem index none later (p, here, at) = rw here (ground arith)
lowest_idem index (some q) later (p, here, at) = rw here (ground arith)

lowest-record_observed :
    (index : ℕ) (seen : Option (Text × NamespacedName)) (wanted : Text) (ps : Placements)
    → lowest index (lookup wanted (record_observed index seen ps)) ≡ lowest index (lookup wanted ps)
unfolding record_observed
lowest-record_observed index none wanted ps = refl
lowest-record_observed index (some (host, secret)) wanted ps =
    elim (Bool-cases (text_eq host wanted)) [
      | inl same ↦
          let e = (text_eq_iff host wanted).0 same in
          subst
            (λ h.
              lowest index (lookup h (record_observed index (some (host, secret)) ps))
              ≡ lowest index (lookup h ps))
            e
            (lowest_idem index (lookup host ps) _ (IsPlacedAt-record_observed index host secret ps))
      | inr other ↦ elim (Bool-cases (is_lower index (lookup host ps))) [
        | inl lower ↦ rw (lower, lookup-insert_other host wanted _ ps other) refl
        | inr higher ↦ rw higher refl
      ]
    ]

not_lower_at :
    (index : ℕ) (p : ListenerPlacement) → p.listener_set ≤ index → is_lower index (some p) ≡ false
unfolding is_lower
not_lower_at index p le = ground arith

-- A placement at or below the index stays.
IsPlacedAt-stays :
    (n index : ℕ) (seen : Option (Text × NamespacedName)) (wanted : Text) (ps : Placements)
    → n ≤ index
    → IsPlacedAt n (lookup wanted ps)
    → IsPlacedAt n (lookup wanted (record_observed index seen ps))
unfolding record_observed
IsPlacedAt-stays n index none wanted ps le here = here
IsPlacedAt-stays n index (some (host, secret)) wanted ps le (p, here, at) =
    elim (Bool-cases (text_eq host wanted)) [
      | inl same ↦
          let e = (text_eq_iff host wanted).0 same in
          let kept : is_lower index (lookup host ps) ≡ false =
            subst (λ o. is_lower index o ≡ false) (sym (ap (λ h. lookup h ps) e ∙ here))
              (not_lower_at index p (omega (arith, le, at))) in
          rw kept (p, here, at)
      | inr other ↦ elim (Bool-cases (is_lower index (lookup host ps))) [
        | inl lower ↦ rw (lower, lookup-insert_other host wanted _ ps other) (p, here, at)
        | inr higher ↦ rw higher (p, here, at)
      ]
    ]

IsPlacedAt-later :
    (n : ℕ) (ps : Placements) (namespace : Text) (index : ℕ) (listeners : List Listener)
    (host : Text)
    → n ≤ index
    → IsPlacedAt n (lookup host ps)
    → IsPlacedAt n (lookup host (record_observed_listeners ps namespace index listeners))
unfolding record_observed_listeners
IsPlacedAt-later n ps namespace index [] host le here = here
IsPlacedAt-later n ps namespace index (listener ∷ listeners) host le here =
    IsPlacedAt-later n (record_observed index (observed_listener namespace listener) ps) namespace
      index listeners host le
      (IsPlacedAt-stays n index (observed_listener namespace listener) host ps le here)

lowest_le : (index : ℕ) (o : Option ListenerPlacement) → lowest index o ≤ index
lowest_le index none = omega arith
lowest_le index (some p) = ground arith

-- After the listeners of a parent are recorded, every hostname that the parent serves is placed at the
-- lower of the parent's index and the index that was recorded for the hostname before, where one was.
pub record_observed_listeners-lowest :
    (ps : Placements) (namespace : Text) (index : ℕ) (listeners : List Listener)
    (listener : Listener) (host : Text) (secret : NamespacedName)
    → Memᴰ listener listeners
    → observed_listener namespace listener ≡ some (host, secret)
    → IsPlacedAt
        (lowest index (lookup host ps))
        (lookup host (record_observed_listeners ps namespace index listeners))
unfolding record_observed_listeners
record_observed_listeners-lowest ps namespace index [] listener host secret member seen =
    elim member [ ]
record_observed_listeners-lowest ps namespace index (l ∷ ls) listener host secret (Memᴰ.head e)
      seen =
    IsPlacedAt-later (lowest index (lookup host ps)) _ namespace index ls host
      (lowest_le index (lookup host ps))
      (subst
        (λ o. IsPlacedAt (lowest index (lookup host ps)) (lookup host (record_observed index o ps)))
        (sym seen ∙ ap (observed_listener namespace) e)
        (IsPlacedAt-record_observed index host secret ps))
record_observed_listeners-lowest ps namespace index (l ∷ ls) listener host secret (Memᴰ.tail m)
      seen =
    let seen_now = record_observed index (observed_listener namespace l) ps in
    subst (λ n. IsPlacedAt n (lookup host (record_observed_listeners seen_now namespace index ls)))
      (lowest-record_observed index (observed_listener namespace l) host ps)
      (record_observed_listeners-lowest seen_now namespace index ls listener host secret m seen)

module _ (sha256 : Text → List ℕ) where
  at_most-record_at :
      (n : ℕ) (config : Config) (parsed : Option ℕ) (set : ListenerObject) (ps : Placements)
      (host : Text)
      → at_most n (lookup host ps) ≡ true
      → at_most n (lookup host (record_at sha256 config parsed set ps)) ≡ true
  at_most-record_at n config none set ps host bound = bound
  at_most-record_at n config (some index) set ps host bound =
      elim (Bool-cases
        (text_eq set.name (managed_listener_set_name sha256 config.gateway_name index))) [
          | inl named ↦ rw named (at_most-later n ps set.namespace index set.listeners host bound)
          | inr other ↦ rw other bound
        ]

  -- What one listed set does to the placements.
  abbrev pub observe_set : Config → Placements → ListenerObject → Placements
  observe_set config ps set =
      if is_managed_set sha256 config set
      then record_at sha256 config (parse_index (get_text listener_set_index_label set.labels)) set
          ps
      else ps

  at_most-observe_set :
      (n : ℕ) (config : Config) (ps : Placements) (set : ListenerObject) (host : Text)
      → at_most n (lookup host ps) ≡ true
      → at_most n (lookup host (observe_set config ps set)) ≡ true
  at_most-observe_set n config ps set host bound =
      elim (Bool-cases (is_managed_set sha256 config set)) [
        | inl managed ↦ rw managed (at_most-record_at n config _ set ps host bound)
        | inr other ↦ rw other bound
      ]

  pub at_most-observe_sets :
      (n : ℕ) (config : Config) (ps : Placements) (sets : List ListenerObject) (host : Text)
      → at_most n (lookup host ps) ≡ true
      → at_most n (lookup host (observe_sets sha256 config ps sets)) ≡ true
  unfolding observe_sets
  at_most-observe_sets n config ps [] host bound = bound
  at_most-observe_sets n config ps (set ∷ sets) host bound =
      at_most-observe_sets n config (observe_set config ps set) sets host
        (at_most-observe_set n config ps set host bound)

  -- A hostname that the bridge's own Gateway serves is read back at the Gateway, whatever the listed sets are.
  pub observed_listener_placements-gateway :
      (config : Config) (gateway : ListenerObject) (sets : List ListenerObject) (ps : Placements)
      (listener : Listener) (host : Text) (secret : NamespacedName)
      → has_label managed_by_label controller_name gateway.labels ≡ true
      → Memᴰ listener gateway.listeners
      → observed_listener gateway.namespace listener ≡ some (host, secret)
      → observed_listener_placements sha256 config (found gateway) (some sets) ≡ some ps
      → at_most 0 (lookup host ps) ≡ true
  unfolding observed_listener_placements observe_gateway observe_sets is_managed_set
  observed_listener_placements-gateway config gateway sets ps listener host secret ours member seen
        read =
      let start : at_most 0 (lookup host (observe_gateway sha256 gateway)) ≡ true = rw ours (
        record_observed_listeners-at_most [] gateway.namespace 0 gateway.listeners listener host
          secret member seen) in
      elim (Bool-cases config.listener_sets_available) [
        | inl available ↦
            let h : some (observe_sets sha256 config (observe_gateway sha256 gateway) sets)
                ≡ some ps =
              rw available at read in
            let e : observe_sets sha256 config (observe_gateway sha256 gateway) sets ≡ ps = cc in
            subst (λ q. at_most 0 (lookup host q) ≡ true) e
              (at_most-observe_sets 0 config (observe_gateway sha256 gateway) sets host start)
        | inr missing ↦
            let h : some (observe_gateway sha256 gateway) ≡ some ps = rw missing at read in
            let e : observe_gateway sha256 gateway ≡ ps = cc in
            subst (λ q. at_most 0 (lookup host q) ≡ true) e start
      ]
