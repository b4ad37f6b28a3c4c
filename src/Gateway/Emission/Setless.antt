-- ===== src/Gateway/Emission/Setless.antt =====
-- A cluster without the ListenerSet API gets no ListenerSets from `BuildManagedGateway`.
use ingress_nginx_gateway_br.Common.{
  ℕ, zero, suc, ◌≡◌, ◌≤◌, refl, ◌∙◌, inl, inr, false, none, List, [], arith, lookup, nat_key,
  Option-cases,
}
use ingress_nginx_gateway_br.Text.{Text}
use ingress_nginx_gateway_br.Api.{Listener}
use ingress_nginx_gateway_br.Gateway.{ManagedGatewayOptions, ProjectedListener}
use ingress_nginx_gateway_br.Gateway.Placement.{place_listeners}
use ingress_nginx_gateway_br.Gateway.Emission.{emit_sets, emit}
use ingress_nginx_gateway_br.Gateway.Emission.Limits.{size_at-emit, IsFilled, emit-IsFilled}

module _ (sha256 : Text → List ℕ) (options : ManagedGatewayOptions) where
  emit_sets-nil :
      (sets : List (ℕ × List Listener)) (idx rounds : ℕ)
      → ((i : ℕ) → 1 ≤ i → lookup i sets ≡ none)
      → 1 ≤ idx
      → emit_sets sha256 options sets idx rounds ≡ []
  unfolding emit_sets
  emit_sets-nil sets idx zero empty positive = refl
  emit_sets-nil sets idx (suc rounds) empty positive =
      let e : emit_sets sha256 options sets idx (suc rounds)
          ≡ emit_sets sha256 options sets (suc idx) rounds =
        rw (emit_sets, empty idx positive) refl in
      e ∙ emit_sets-nil sets (suc idx) rounds empty (omega arith)

  emit-nowhere :
      (projected : List ProjectedListener) (i : ℕ)
      → options.listener_set_overflow ≡ false
      → 1 ≤ i
      → lookup i (emit sha256 options projected (place_listeners projected options).0).set_entries
        ≡ none
  unfolding IsFilled
  emit-nowhere projected i missing positive =
      let sets =
        (emit sha256 options projected (place_listeners projected options).0).set_entries in
      elim (Option-cases (lookup i sets)) [
        | inl none_there ↦ none_there
        | inr (entries, at) ↦ absurd (
            ground (
              arith,
              size_at-emit sha256 options i projected,
              emit-IsFilled sha256 options projected i entries at,
              at,
              missing,
              positive,
            ))
      ]

  pub emit_sets-setless :
      (projected : List ProjectedListener) (rounds : ℕ)
      → options.listener_set_overflow ≡ false
      → emit_sets sha256 options
          (emit sha256 options projected (place_listeners projected options).0).set_entries
          1
          rounds
        ≡ []
  emit_sets-setless projected rounds missing =
      emit_sets-nil _ 1 rounds (λ i positive. emit-nowhere projected i missing positive)
        (omega arith)
