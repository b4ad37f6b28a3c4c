-- ===== src/Gateway/Replan.antt =====
-- Two calls of `BuildManagedGateway` whose current placements say the same give the same plan.
use ingress_nginx_gateway_br.Common.{
  ℕ, zero, suc, ◌≡◌, refl, ap, ◌∙◌, Bool, Option, List, [], ◌∷◌, arith, keys, sort_by, length,
}
use ingress_nginx_gateway_br.Text.{Text, text_key, sort_texts}
use ingress_nginx_gateway_br.Api.{name_key, Ingress, Listener}
use ingress_nginx_gateway_br.Gateway.{Placements, ManagedGatewayOptions, ProjectedListener}
use ingress_nginx_gateway_br.Gateway.Hosts.{Declared, declared_hosts}
use ingress_nginx_gateway_br.Gateway.Groups.{projected_listeners}
use ingress_nginx_gateway_br.Gateway.Refs.{listener_ref}
use ingress_nginx_gateway_br.Gateway.Placement.{
  by_hostname, no_placing, pass, place_anywhere, previous_placement, inherited_placement,
  place_listeners,
}
use ingress_nginx_gateway_br.Gateway.Emission.{
  Emitted, emit_hostname, emit_hostnames, index_listeners, nothing_emitted, managed_listener_set,
  emit_sets, certificate_reference_grant, grant_secrets, grants, http_listener, emit, assemble,
  build_managed_gateway,
}
use ingress_nginx_gateway_br.Gateway.Known.{
  knowing, SaysSame, previous_placement-same, inherited_placement-same, projected_listeners-same,
}

-- The three passes, from what the first two of them want for a listener.
abbrev place_wanted :
    Bool
    → (ProjectedListener → Option ℕ)
    → (ProjectedListener → Option ℕ)
    → List ProjectedListener
    → List (Text × ℕ) × List ProjectedListener
place_wanted overflow previous inherited listeners =
    let first = pass overflow previous no_placing (sort_by by_hostname listeners) in
    let second = pass overflow inherited first.0 first.1 in
    let third = place_anywhere overflow (suc (length listeners)) second.0 second.1 in
    (third.0.placed, third.1)

module _ (options : ManagedGatewayOptions) (a b : Placements) (same : SaysSame a b) where
  place_listeners-same :
      (listeners : List ProjectedListener)
      → place_listeners listeners (knowing options a)
        ≡ place_listeners listeners (knowing options b)
  unfolding place_listeners
  place_listeners-same listeners =
      let overflow = options.listener_set_overflow in
      let known : previous_placement a ≡ previous_placement b =
        λ i l. previous_placement-same a b same l i in
      let inherited : inherited_placement a ≡ inherited_placement b =
        λ i l. inherited_placement-same a b same l i in
      ap (λ wanted. place_wanted overflow wanted (inherited_placement a) listeners) known
      ∙ ap (λ wanted. place_wanted overflow (previous_placement b) wanted listeners) inherited

module _ (sha256 : Text → List ℕ) (options : ManagedGatewayOptions) (a b : Placements) where
  emit_hostnames-same :
      (projected : List (Text × ProjectedListener)) (placed : List (Text × ℕ)) (e : Emitted)
      (hostnames : List Text)
      → emit_hostnames sha256 (knowing options a) projected placed e hostnames
        ≡ emit_hostnames sha256 (knowing options b) projected placed e hostnames
  unfolding emit_hostnames emit_hostname listener_ref
  emit_hostnames-same projected placed e [] = refl
  emit_hostnames-same projected placed e (h ∷ hs) =
      emit_hostnames-same projected placed
        (emit_hostname sha256 (knowing options a) projected placed e h) hs

  emit_sets-same :
      (sets : List (ℕ × List Listener)) (idx rounds : ℕ)
      → emit_sets sha256 (knowing options a) sets idx rounds
        ≡ emit_sets sha256 (knowing options b) sets idx rounds
  unfolding emit_sets managed_listener_set
  emit_sets-same sets idx zero = refl
  emit_sets-same sets idx (suc rounds) = ground (arith, emit_sets-same sets (suc idx) rounds)

  grant_secrets-same :
      (placements : Placements)
      → grant_secrets sha256 (knowing options a) placements
        ≡ grant_secrets sha256 (knowing options b) placements
  unfolding grant_secrets
  grant_secrets-same [] = refl
  grant_secrets-same ((h, p) ∷ placements) = ground (arith, grant_secrets-same placements)

  assemble-same :
      (declared : Declared) (unplaced : List ProjectedListener) (e : Emitted)
      → assemble sha256 (knowing options a) declared unplaced e
        ≡ assemble sha256 (knowing options b) declared unplaced e
  unfolding assemble grants http_listener certificate_reference_grant
  assemble-same declared unplaced e =
      rw (emit_sets-same e.set_entries 1 e.max_index, grant_secrets-same e.placements) refl

module _ (sha256 : Text → List ℕ) (options : ManagedGatewayOptions) (a b : Placements)
    (same : SaysSame a b) where
  pub build_managed_gateway-same :
      (ingresses : List Ingress)
      → build_managed_gateway sha256 (knowing options a) ingresses
        ≡ build_managed_gateway sha256 (knowing options b) ingresses
  unfolding build_managed_gateway emit
  build_managed_gateway-same ingresses =
      let declared = declared_hosts ingresses in
      let projected = projected_listeners (knowing options b) declared.certificates in
      let placed = place_listeners projected (knowing options b) in
      rw
        (
          projected_listeners-same options a b same declared.certificates,
          place_listeners-same options a b same projected,
          emit_hostnames-same sha256 options a b (index_listeners [] projected) placed.0
              nothing_emitted (sort_texts (keys placed.0)),
        )
        (assemble-same sha256 options a b declared placed.1 _)
