-- ===== src/Controller/ReadBack.antt =====
-- How one parent of the plan is read back by `observedListenerPlacements`.
use ingress_nginx_gateway_br.Common.{
  ℕ, ◌≡◌, ◌≤◌, ◌<◌, ◌⊎◌, refl, sym, ◌∙◌, subst, inl, inr, true, false, none, some, List, [], ◌∷◌,
  All, lookup, nat_key, Bool-cases,
}
use ingress_nginx_gateway_br.Text.{Text, text_key, text_eq, text_eq_iff, is_empty}
use ingress_nginx_gateway_br.Api.{NamespacedName, Listener, get_text}
use ingress_nginx_gateway_br.Types.{listener_set_index_label, gateway_label_value}
use ingress_nginx_gateway_br.Certificates.{CertificateInfo}
use ingress_nginx_gateway_br.Gateway.{ListenerPlacement, Placements, ManagedGatewayOptions}
use ingress_nginx_gateway_br.Gateway.Refs.{managed_listener_set_name, itoa}
use ingress_nginx_gateway_br.Gateway.Emission.{ListenerSet, https_listener_of, managed_listener_set}
use ingress_nginx_gateway_br.Gateway.Emission.Limits.{text_eq_same}
use ingress_nginx_gateway_br.Controller.Selection.{Config}
use ingress_nginx_gateway_br.Controller.Observed.{
  observed_listener, is_lower, record_observed, record_observed_listeners, ListenerObject,
  has_label, is_managed_set,
}
use ingress_nginx_gateway_br.Controller.Indexed.{parse_index-itoa}
use ingress_nginx_gateway_br.Controller.Lowest.{
  lookup-insert_same, lookup-insert_other, observe_set,
}
use ingress_nginx_gateway_br.Controller.ManagedObjects.{listener_object, listener_set_object}
use ingress_nginx_gateway_br.Controller.ManagedPlan.{managed_options}

-- Every placement that was read is one of the plan's.
abbrev pub Agrees : Placements → Placements → Type 0
Agrees planned ps =
    (h : Text) (p : ListenerPlacement) → lookup h ps ≡ some p → lookup h planned ≡ some p

-- Whether a listener of a parent is not read, or is read as the plan has it.
abbrev pub IsRecorded : Placements → Text → ℕ → Listener → Type 0
IsRecorded planned namespace i l =
    (observed_listener namespace l ≡ none)
    ⊎ ((h : Text) × (s : NamespacedName) × (observed_listener namespace l ≡ some (h, s))
        × (lookup h planned ≡ some (record { listener_set = i; secret = s })))

pub observed_listener-https_listener_of :
    (namespace h section : Text) (secret : NamespacedName)
    → is_empty secret.namespace ≡ false
    → observed_listener namespace (https_listener_of h secret section) ≡ some (h, secret)
unfolding observed_listener https_listener_of
observed_listener-https_listener_of namespace h section secret named = rw named refl

module _ (planned : Placements) where
  Agrees-record_observed :
      (i : ℕ) (h : Text) (s : NamespacedName) (ps : Placements)
      → lookup h planned ≡ some (record { listener_set = i; secret = s })
      → Agrees planned ps
      → Agrees planned (record_observed i (some (h, s)) ps)
  unfolding record_observed
  Agrees-record_observed i h s ps known agrees wanted p read =
      elim (Bool-cases (is_lower i (lookup h ps))) [
        | inl lower ↦ elim (Bool-cases (text_eq h wanted)) [
          | inl same ↦
              let e = (text_eq_iff h wanted).0 same in
              let seen = rw lower at read in
              let h' : some (record { listener_set = i; secret = s }) ≡ some p =
                sym (lookup-insert_same h wanted _ ps e) ∙ seen in
              subst (λ w. lookup w planned ≡ some p) e (known ∙ h')
          | inr other ↦
              let seen = rw lower at read in
              agrees wanted p (sym (lookup-insert_other h wanted _ ps other) ∙ seen)
        ]
        | inr higher ↦ agrees wanted p (rw higher at read)
      ]

  pub Agrees-record_observed_listeners :
      (namespace : Text) (i : ℕ) (ls : List Listener) (ps : Placements)
      → All (IsRecorded planned namespace i) ls
      → Agrees planned ps
      → Agrees planned (record_observed_listeners ps namespace i ls)
  unfolding record_observed_listeners record_observed
  Agrees-record_observed_listeners namespace i [] ps recorded agrees = agrees
  Agrees-record_observed_listeners namespace i (l ∷ ls) ps (first, rest) agrees =
      Agrees-record_observed_listeners namespace i ls _ rest (elim first [
        | inl skipped ↦ rw skipped agrees
        | inr (h, s, read, known) ↦ rw read (Agrees-record_observed i h s ps known agrees)
      ])

module _ (sha256 : Text → List ℕ) (config : Config)
    (certificates : List (NamespacedName × CertificateInfo)) (previous : Placements) where
  abbrev pub options : ManagedGatewayOptions
  options = managed_options config certificates previous

  abbrev pub read_set : ListenerSet → ListenerObject
  read_set set = listener_object (listener_set_object set)

  is_managed_set-read_set :
      (j : ℕ) (entries : List Listener)
      → is_managed_set sha256 config (read_set (managed_listener_set sha256 options j entries))
        ≡ true
  unfolding managed_options managed_listener_set listener_set_object is_managed_set has_label lookup
      text_eq
  is_managed_set-read_set j entries =
      rw
        (
          text_eq_same config.gateway_namespace,
          text_eq_same (gateway_label_value sha256 config.gateway_namespace config.gateway_name),
        )
        refl

  index-read_set :
      (j : ℕ) (entries : List Listener)
      → get_text listener_set_index_label
          (read_set (managed_listener_set sha256 options j entries)).labels
        ≡ itoa j
  unfolding managed_options managed_listener_set listener_set_object get_text lookup itoa text_eq
  index-read_set j entries = refl

  name-read_set :
      (j : ℕ) (entries : List Listener)
      → text_eq
          (read_set (managed_listener_set sha256 options j entries)).name
          (managed_listener_set_name sha256 config.gateway_name j)
        ≡ true
  unfolding managed_options managed_listener_set listener_set_object
  name-read_set j entries = text_eq_same _

  listeners-read_set :
      (j : ℕ) (entries : List Listener) (ps : Placements)
      → record_observed_listeners ps
          (read_set (managed_listener_set sha256 options j entries)).namespace
          j
          (read_set (managed_listener_set sha256 options j entries)).listeners
        ≡ record_observed_listeners ps config.gateway_namespace j entries
  unfolding managed_options managed_listener_set listener_set_object
  listeners-read_set j entries ps = refl

  -- A set that the plan has is read at its index.
  pub observe_set-managed_listener_set :
      (ps : Placements) (j : ℕ) (entries : List Listener)
      → 1 ≤ j
      → j < 9223372036854775808
      → observe_set sha256 config ps (read_set (managed_listener_set sha256 options j entries))
        ≡ record_observed_listeners ps config.gateway_namespace j entries
  observe_set-managed_listener_set ps j entries positive fits =
      rw
        (
          is_managed_set-read_set j entries,
          index-read_set j entries,
          parse_index-itoa j positive fits,
          name-read_set j entries,
        )
        (listeners-read_set j entries ps)
