-- ===== src/Gateway/Emission/Grants.antt =====
-- The ReferenceGrants of the plan are those that the placed listeners need.
use ingress_nginx_gateway_br.Common.{
  ℕ, ◌≡◌, refl, sym, ap, ◌∙◌, subst, inl, inr, Bool, true, false, not, ◌&&◌, List, [], ◌∷◌, map,
  Memᴰ, arith, All, contains, contains-add, contains-sort_by, any, Bool-cases, true-false,
  if◌then◌else◌,
}
use ingress_nginx_gateway_br.Types.{gateway, listener_set}
use ingress_nginx_gateway_br.Text.{Text, text_eq}
use ingress_nginx_gateway_br.Api.{NamespacedName, name_key, name_eq, name_eq_iff, Ingress}
use ingress_nginx_gateway_br.Gateway.{ListenerPlacement, Placements, ManagedGatewayOptions}
use ingress_nginx_gateway_br.Gateway.Groups.{sorted_names}
use ingress_nginx_gateway_br.Gateway.Emission.{
  ReferenceGrant, certificate_reference_grant, grant_secrets, grants, build_managed_gateway,
  assemble,
}

module _ (sha256 : Text → List ℕ) (options : ManagedGatewayOptions) where
  -- Whether a placement's Secret is this one, in another namespace than the Gateway's.
  abbrev pub needs : NamespacedName → Text × ListenerPlacement → Bool
  needs secret (hostname, p) =
      not (text_eq p.secret.namespace options.namespace) && name_eq p.secret secret

  contains-grant_secrets :
      (secret : NamespacedName) (placements : Placements)
      → contains secret (grant_secrets sha256 options placements) ≡ any (needs secret) placements
  unfolding grant_secrets any contains
  contains-grant_secrets secret [] = refl
  contains-grant_secrets secret ((hostname, p) ∷ placements) = ground (
    arith,
    contains-grant_secrets secret placements,
    contains-add secret p.secret (grant_secrets sha256 options placements),
  )

  Mem-map :
      (secret : NamespacedName) (secrets : List NamespacedName)
      → contains secret secrets ≡ true
      → Memᴰ
          (certificate_reference_grant sha256 options secret)
          (map (certificate_reference_grant sha256 options) secrets)
  unfolding contains
  Mem-map secret [] known = absurd (true-false (sym known))
  Mem-map secret (s ∷ ss) known = elim (Bool-cases (name_eq s secret)) [
    | inl same ↦
        Memᴰ.head
          (ap (certificate_reference_grant sha256 options) (sym ((name_eq_iff s secret).0 same)))
    | inr other ↦ Memᴰ.tail (Mem-map secret ss (ground (arith, known, other)))
  ]

  Mem-any :
      (secret : NamespacedName) (hostname : Text) (p : ListenerPlacement) (placements : Placements)
      → Memᴰ (hostname, p) placements
      → needs secret (hostname, p) ≡ true
      → any (needs secret) placements ≡ true
  unfolding any
  Mem-any secret hostname p [] member needed = elim member [ ]
  Mem-any secret hostname p (q ∷ qs) (Memᴰ.head e) needed =
      let h : needs secret q ≡ true = subst (λ r. needs secret r ≡ true) e needed in
      ground (arith, h)
  Mem-any secret hostname p (q ∷ qs) (Memᴰ.tail m) needed =
      ground (arith, Mem-any secret hostname p qs m needed)

  -- A placed listener whose Secret is in another namespace than the Gateway's has a grant in the Secret's
  -- namespace, for the Secret's name, from the Gateway's namespace, and for Gateways, and for ListenerSets
  -- where the cluster has them.
  pub grants_complete :
      (ingresses : List Ingress) (hostname : Text) (p : ListenerPlacement)
      → Memᴰ (hostname, p) (build_managed_gateway sha256 options ingresses).placements
      → text_eq p.secret.namespace options.namespace ≡ false
      → (grant : ReferenceGrant) × Memᴰ grant
          (build_managed_gateway sha256 options ingresses).reference_grants
        × (grant.namespace ≡ p.secret.namespace)
        × (grant.secret ≡ p.secret.name)
        × (grant.from_namespace ≡ options.namespace)
        × (grant.from_kinds
            ≡ (if options.listener_set_overflow then gateway ∷ listener_set ∷ [] else gateway ∷ []))
  unfolding build_managed_gateway assemble grants sorted_names certificate_reference_grant
  grants_complete ingresses hostname p member elsewhere = (
    certificate_reference_grant sha256 options p.secret,
    Mem-map p.secret _ (
        contains-sort_by _ p.secret _
        ∙ contains-grant_secrets p.secret _
        ∙ Mem-any p.secret hostname p _ member
            (ground (arith, elsewhere, name_eq_iff p.secret p.secret))),
    refl,
    refl,
    refl,
    ground arith,
  )

  -- Whether a placed listener needs the grant.
  abbrev pub IsNeeded : Placements → ReferenceGrant → Type 0
  IsNeeded placements grant =
      any (needs (record { namespace = grant.namespace; name = grant.secret })) placements ≡ true

  All-map_grant :
      (placements : Placements) (secrets : List NamespacedName)
      → ((s : NamespacedName) → contains s secrets ≡ true → any (needs s) placements ≡ true)
      → All (IsNeeded placements) (map (certificate_reference_grant sha256 options) secrets)
  unfolding contains certificate_reference_grant
  All-map_grant placements [] needed = tt
  All-map_grant placements (s ∷ ss) needed = (
    needed s (ground (arith, name_eq_iff s s)),
    All-map_grant placements ss (λ t known. needed t (ground (arith, known))),
  )

  -- Each grant of the plan is for the Secret of a placed listener that is in another namespace than the
  -- Gateway's.
  pub grants-IsNeeded :
      (ingresses : List Ingress)
      → All
          (IsNeeded (build_managed_gateway sha256 options ingresses).placements)
          (build_managed_gateway sha256 options ingresses).reference_grants
  unfolding build_managed_gateway assemble grants sorted_names
  grants-IsNeeded ingresses =
      All-map_grant _ _
        (λ s known. sym (contains-grant_secrets s _) ∙ (sym (contains-sort_by _ s _) ∙ known))
