-- ===== src/Controller/ReadSets.antt =====
-- How the ListenerSets of the plan are read back, one after the other, by `observedListenerPlacements`.
use ingress_nginx_gateway_br.Common.{
  ℕ, zero, suc, ◌+◌, ◌≡◌, ◌≤◌, ◌<◌, refl, sym, ap, ◌∙◌, subst, inl, inr, true, none, some, List,
  ◌∷◌, map, Memᴰ, arith, All, lookup, nat_beq, nat_beq_iff, nat_key, Bool-cases, Option-cases,
}
use ingress_nginx_gateway_br.Text.{Text, text_key}
use ingress_nginx_gateway_br.Api.{NamespacedName, Listener}
use ingress_nginx_gateway_br.Certificates.{CertificateInfo}
use ingress_nginx_gateway_br.Gateway.{Placements}
use ingress_nginx_gateway_br.Gateway.Emission.{managed_listener_set, emit_sets}
use ingress_nginx_gateway_br.Controller.Selection.{Config}
use ingress_nginx_gateway_br.Controller.Observed.{
  observed_listener, record_observed_listeners, ListenerObject, observe_sets,
}
use ingress_nginx_gateway_br.Controller.Lowest.{
  at_most, record_observed_listeners-at_most, at_most-observe_sets,
}
use ingress_nginx_gateway_br.Controller.ReadBack.{
  Agrees, IsRecorded, Agrees-record_observed_listeners, options, read_set,
  observe_set-managed_listener_set,
}

module _ (sha256 : Text → List ℕ) (config : Config)
    (certificates : List (NamespacedName × CertificateInfo)) (previous planned : Placements)
    (sets : List (ℕ × List Listener)) where
  -- What is known of the entries of a set.
  abbrev pub AreRecorded : Type 0
  AreRecorded =
      (j : ℕ) (entries : List Listener)
      → 1 ≤ j
      → lookup j sets ≡ some entries
      → (j < 9223372036854775808) × All (IsRecorded planned config.gateway_namespace j) entries

  abbrev pub emitted_from : ℕ → ℕ → List ListenerObject
  emitted_from idx rounds =
      map (read_set sha256 config certificates previous)
        (emit_sets sha256 (options sha256 config certificates previous) sets idx rounds)

  abbrev pub observed_from : Placements → ℕ → ℕ → Placements
  observed_from ps idx rounds = observe_sets sha256 config ps (emitted_from idx rounds)

  -- The round of an index at which the plan has no set, and of one at which it has.
  observed_from-missing :
      (ps : Placements) (idx rounds : ℕ)
      → lookup idx sets ≡ none
      → observed_from ps idx (suc rounds) ≡ observed_from ps (suc idx) rounds
  unfolding emit_sets
  observed_from-missing ps idx rounds missing =
      let gateway = options sha256 config certificates previous in
      let e : emit_sets sha256 gateway sets idx (suc rounds)
          ≡ emit_sets sha256 gateway sets (suc idx) rounds =
        rw (emit_sets, missing) refl in
      ap
        (λ plan.
          observe_sets sha256 config ps (map (read_set sha256 config certificates previous) plan))
        e

  observed_from-found :
      (ps : Placements) (idx rounds : ℕ) (entries : List Listener)
      → 1 ≤ idx
      → idx < 9223372036854775808
      → lookup idx sets ≡ some entries
      → observed_from ps idx (suc rounds)
        ≡ observed_from
            (record_observed_listeners ps config.gateway_namespace idx entries)
            (suc idx)
            rounds
  unfolding emit_sets observe_sets
  observed_from-found ps idx rounds entries positive fits found =
      let gateway = options sha256 config certificates previous in
      let e : emit_sets sha256 gateway sets idx (suc rounds)
          ≡ managed_listener_set sha256 gateway idx entries
            ∷ emit_sets sha256 gateway sets (suc idx) rounds =
        rw (emit_sets, found) refl in
      ap
        (λ plan.
          observe_sets sha256 config ps (map (read_set sha256 config certificates previous) plan))
        e
      ∙ ap (λ qs. observed_from qs (suc idx) rounds)
          (observe_set-managed_listener_set sha256 config certificates previous ps idx entries
            positive fits)

  pub Agrees-observed_from :
      (ps : Placements) (idx rounds : ℕ)
      → AreRecorded
      → 1 ≤ idx
      → Agrees planned ps
      → Agrees planned (observed_from ps idx rounds)
  unfolding emit_sets observe_sets
  Agrees-observed_from ps idx zero recorded positive agrees = agrees
  Agrees-observed_from ps idx (suc rounds) recorded positive agrees =
      elim (Option-cases (lookup idx sets)) [
        | inl missing ↦
            subst (Agrees planned) (sym (observed_from-missing ps idx rounds missing))
              (Agrees-observed_from ps (suc idx) rounds recorded (omega arith) agrees)
        | inr (entries, found) ↦
            let (fits, all) = recorded idx entries positive found in
            subst (Agrees planned)
              (sym (observed_from-found ps idx rounds entries positive fits found))
              (Agrees-observed_from
                (record_observed_listeners ps config.gateway_namespace idx entries) (suc idx) rounds
                recorded (omega arith)
                (Agrees-record_observed_listeners planned config.gateway_namespace idx entries ps
                  all agrees))
      ]

  pub at_most-observed_from :
      (ps : Placements) (idx rounds j : ℕ) (entries : List Listener) (l : Listener) (h : Text)
      (s : NamespacedName)
      → AreRecorded
      → 1 ≤ idx
      → idx ≤ j
      → j < idx + rounds
      → lookup j sets ≡ some entries
      → Memᴰ l entries
      → observed_listener config.gateway_namespace l ≡ some (h, s)
      → at_most j (lookup h (observed_from ps idx rounds)) ≡ true
  at_most-observed_from ps idx zero j entries l h s recorded positive from below found member read =
      absurd (omega (arith, from, below))
  at_most-observed_from ps idx (suc rounds) j entries l h s recorded positive from below found
        member read =
      elim (Bool-cases (nat_beq idx j)) [
        | inl same ↦
            let e = (nat_beq_iff idx j).0 same in
            let here : lookup idx sets ≡ some entries =
              subst (λ i. lookup i sets ≡ some entries) (sym e) found in
            subst (λ i. at_most i (lookup h (observed_from ps idx (suc rounds))) ≡ true) e
              (subst (λ q. at_most idx (lookup h q) ≡ true)
                (sym (
                  observed_from-found ps idx rounds entries positive
                    (recorded idx entries positive here).0 here))
                (at_most-observe_sets sha256 idx config _ (emitted_from (suc idx) rounds) h (
                  record_observed_listeners-at_most ps config.gateway_namespace idx entries l h s
                    member read)))
        | inr other ↦
            let later : suc idx ≤ j = ground (arith, from, other) in
            elim (Option-cases (lookup idx sets)) [
              | inl missing ↦
                  subst (λ q. at_most j (lookup h q) ≡ true)
                    (sym (observed_from-missing ps idx rounds missing))
                    (at_most-observed_from ps (suc idx) rounds j entries l h s recorded
                      (omega arith) later (omega (arith, below)) found member read)
              | inr (others, at) ↦
                  subst (λ q. at_most j (lookup h q) ≡ true)
                    (sym (
                      observed_from-found ps idx rounds others positive
                        (recorded idx others positive at).0 at))
                    (at_most-observed_from
                      (record_observed_listeners ps config.gateway_namespace idx others) (suc idx)
                      rounds j entries l h s recorded (omega arith) later (omega (arith, below))
                      found member read)
            ]
      ]
