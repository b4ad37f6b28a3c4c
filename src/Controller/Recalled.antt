-- ===== src/Controller/Recalled.antt =====
-- The placements that are read back from what the loop of `BuildManagedGateway` emitted.
use ingress_nginx_gateway_br.Common.{
  inr, ℕ, zero, suc, ◌≡◌, ◌≤◌, ◌<◌, refl, sym, ap, ◌∙◌, subst, inl, inr, true, false, Option, none,
  some, List, [], ◌∷◌, Memᴰ, arith, length, All, All-map, lookup, nat_key, Option-cases, none-some,
  true-false,
}
use ingress_nginx_gateway_br.Text.{Text, text_key, is_empty}
use ingress_nginx_gateway_br.Api.{NamespacedName, Listener}
use ingress_nginx_gateway_br.Certificates.{CertificateInfo}
use ingress_nginx_gateway_br.Gateway.{
  ListenerPlacement, Placements, ManagedGatewayOptions, ProjectedListener,
}
use ingress_nginx_gateway_br.Gateway.Emission.{Emitted, placed_index, find_listener, http_listener}
use ingress_nginx_gateway_br.Gateway.Emission.Limits.{IsFilled}
use ingress_nginx_gateway_br.Gateway.Emission.Parents.{listeners_at, IsBounded, IsPlaced, IsExact}
use ingress_nginx_gateway_br.Controller.Selection.{Config}
use ingress_nginx_gateway_br.Controller.Observed.{observed_listener, record_observed_listeners}
use ingress_nginx_gateway_br.Controller.Lowest.{
  at_most, record_observed_listeners-at_most, at_most-observe_sets,
}
use ingress_nginx_gateway_br.Controller.ReadBack.{
  Agrees, IsRecorded, Agrees-record_observed_listeners, options,
  observed_listener-https_listener_of,
}
use ingress_nginx_gateway_br.Controller.ReadSets.{
  AreRecorded, observed_from, emitted_from, Agrees-observed_from, at_most-observed_from,
}

-- Whether each placed Secret has a namespace, and each index is one of Go's `int`.
abbrev pub AreReadable : Placements → Type 0
AreReadable placements =
    (h : Text) (p : ListenerPlacement)
    → lookup h placements ≡ some p
    → (is_empty p.secret.namespace ≡ false) × (p.listener_set < 9223372036854775808)

at_most-some :
    (n : ℕ) (o : Option ListenerPlacement)
    → at_most n o ≡ true
    → (q : ListenerPlacement) × (o ≡ some q)
at_most-some n none bound = absurd (true-false (sym bound))
at_most-some n (some q) bound = (q, refl)

listeners_at-set :
    (e : Emitted) (j : ℕ) (entries : List Listener)
    → 1 ≤ j
    → lookup j e.set_entries ≡ some entries
    → listeners_at j e ≡ entries
listeners_at-set e j entries positive at = ground (arith, positive, at)

module _ (sha256 : Text → List ℕ) (config : Config)
    (certificates : List (NamespacedName × CertificateInfo)) (previous : Placements)
    (by_hostname : List (Text × ProjectedListener)) (placed : List (Text × ℕ)) (e : Emitted)
    (exact : IsExact sha256 (options sha256 config certificates previous) by_hostname placed e)
    (bounded : IsBounded e) (filled : IsFilled e) (readable : AreReadable e.placements) where
  abbrev gateway_options : ManagedGatewayOptions
  gateway_options = options sha256 config certificates previous

  abbrev StandsAt : ℕ → Listener → Type 0
  StandsAt i l = IsPlaced sha256 gateway_options by_hostname placed e.placements i l

  StandsAt-IsRecorded :
      (i : ℕ) (l : Listener) → StandsAt i l → IsRecorded e.placements config.gateway_namespace i l
  StandsAt-IsRecorded i l (h, is, at, known) = inr (
    h,
    (find_listener h by_hostname).secret,
    ap (observed_listener config.gateway_namespace) is
        ∙ observed_listener-https_listener_of config.gateway_namespace h _ _ (readable h _ known).0,
    subst
        (λ j.
          lookup h e.placements
          ≡ some (record { listener_set = j; secret = (find_listener h by_hostname).secret }))
        at known,
  )

  StandsAt-fits :
      (i : ℕ) (ls : List Listener) → 1 ≤ length ls → All (StandsAt i) ls → i < 9223372036854775808
  StandsAt-fits i [] nonempty all = absurd (omega (arith, nonempty))
  StandsAt-fits i (l ∷ ls) nonempty ((h, is, at, known), rest) =
      subst (λ j. j < 9223372036854775808) at (readable h _ known).1

  sets-AreRecorded : AreRecorded sha256 config certificates previous e.placements e.set_entries
  unfolding IsFilled
  sets-AreRecorded j entries positive at =
      let all : All (StandsAt j) entries =
        subst (All (StandsAt j)) (listeners_at-set e j entries positive at) (exact.0 j) in
      (
        StandsAt-fits j entries (filled j entries at) all,
        All-map (StandsAt j) (IsRecorded e.placements config.gateway_namespace j) entries
            (StandsAt-IsRecorded j) all,
      )

  abbrev gateway_listeners : List Listener
  gateway_listeners = http_listener sha256 gateway_options ∷ e.gateway_listeners

  gateway-AreRecorded : All (IsRecorded e.placements config.gateway_namespace 0) gateway_listeners
  unfolding http_listener observed_listener
  gateway-AreRecorded = (
    inl refl,
    All-map (StandsAt 0) (IsRecorded e.placements config.gateway_namespace 0) e.gateway_listeners
        (StandsAt-IsRecorded 0) (exact.0 0),
  )

  abbrev pub read_placements : Placements
  read_placements =
      observed_from sha256 config certificates previous e.placements e.set_entries
        (record_observed_listeners [] config.gateway_namespace 0 gateway_listeners) 1 e.max_index

  read-Agrees : Agrees e.placements read_placements
  unfolding lookup
  read-Agrees =
      Agrees-observed_from sha256 config certificates previous e.placements e.set_entries _ 1
        e.max_index sets-AreRecorded (omega arith)
        (Agrees-record_observed_listeners e.placements config.gateway_namespace 0 gateway_listeners
          [] gateway-AreRecorded (λ h p known. absurd (none-some known)))

  -- A listener of a parent is read at the parent or below.
  read-listener :
      (i : ℕ) (l : Listener) (h : Text) (s : NamespacedName)
      → Memᴰ l (listeners_at i e)
      → observed_listener config.gateway_namespace l ≡ some (h, s)
      → at_most i (lookup h read_placements) ≡ true
  read-listener zero l h s member seen =
      at_most-observe_sets sha256 0 config _
        (emitted_from sha256 config certificates previous e.placements e.set_entries 1 e.max_index)
        h
        (record_observed_listeners-at_most [] config.gateway_namespace 0 gateway_listeners l h s
          (Memᴰ.tail member) seen)
  read-listener (suc i) l h s member seen = elim (Option-cases (lookup (suc i) e.set_entries)) [
    | inl missing ↦
        let nothing : listeners_at (suc i) e ≡ [] = ground (arith, missing) in
        elim (subst (Memᴰ l) nothing member) [ ]
    | inr (entries, at) ↦
        at_most-observed_from sha256 config certificates previous e.placements e.set_entries _ 1
          e.max_index (suc i) entries l h s sets-AreRecorded (omega arith) (omega arith)
          (omega (arith, bounded (suc i) entries at)) at
          (subst (Memᴰ l) (listeners_at-set e (suc i) entries (omega arith) at) member) seen
  ]

  read_complete :
      (h : Text) (p : ListenerPlacement)
      → lookup h e.placements ≡ some p
      → at_most (placed_index h placed) (lookup h read_placements) ≡ true
  read_complete h p known =
      let (is, member) = exact.1 h p known in
      read-listener (placed_index h placed) _ h (find_listener h by_hostname).secret member (
        observed_listener-https_listener_of config.gateway_namespace h _ _
          (readable h _ (known ∙ ap some is)).0)

  pub read_back : (h : Text) → lookup h read_placements ≡ lookup h e.placements
  read_back h = elim (Option-cases (lookup h e.placements)) [
    | inl missing ↦ elim (Option-cases (lookup h read_placements)) [
      | inl unread ↦ unread ∙ sym missing
      | inr (q, read) ↦ absurd (none-some (sym missing ∙ read-Agrees h q read))
    ]
    | inr (p, known) ↦
        let (q, read) = at_most-some _ (lookup h read_placements) (read_complete h p known) in
        read ∙ sym (read-Agrees h q read)
  ]
