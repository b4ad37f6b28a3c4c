-- ===== src/Gateway/Emission/Parents.antt =====
-- Where the emission loop of `BuildManagedGateway` puts the listener of each hostname: at the parent
-- that the plan's placements name.
use ingress_nginx_gateway_br.Common.{
  ℕ, ◌≤◌, ◌≡◌, refl, sym, ap, ◌∙◌, subst, inl, inr, some, List, [], ◌∷◌, ◌++◌, Memᴰ, arith, All,
  All-append, All-map, Mem-append_left, Mem-append_last, lookup, lookup-insert, nat_beq, nat_key,
  nat_beq_iff, Bool-cases, if◌then◌else◌,
}
use ingress_nginx_gateway_br.Text.{Text, text_key, text_eq, text_eq_iff}
use ingress_nginx_gateway_br.Api.{Listener}
use ingress_nginx_gateway_br.Naming.{dns_label}
use ingress_nginx_gateway_br.Gateway.{
  ListenerPlacement, Placements, ManagedGatewayOptions, ProjectedListener,
}
use ingress_nginx_gateway_br.Gateway.Emission.{
  Emitted, entries_of, placed_index, find_listener, nothing_emitted, https_listener_of,
  emit_listener, emit_hostname, emit_hostnames,
}

-- The listeners of a parent, the HTTP listener of the Gateway apart.
abbrev pub listeners_at : ℕ → Emitted → List Listener
listeners_at i e = if nat_beq i 0 then e.gateway_listeners else entries_of i e.set_entries

listeners_at-emit_listener :
    (i idx : ℕ) (listener : Listener) (e : Emitted)
    → listeners_at i (emit_listener idx listener e)
      ≡ (if nat_beq idx i then listeners_at i e ++ listener ∷ [] else listeners_at i e)
unfolding emit_listener
listeners_at-emit_listener i idx listener e = ground (
  arith,
  lookup-insert idx i (entries_of idx e.set_entries ++ listener ∷ []) e.set_entries,
  nat_beq_iff idx i,
)

-- No ListenerSet stands behind the last index.
abbrev pub IsBounded : Emitted → Type 0
IsBounded e =
    (i : ℕ) (entries : List Listener) → lookup i e.set_entries ≡ some entries → i ≤ e.max_index

IsBounded-emit_listener :
    (idx : ℕ) (listener : Listener) (e : Emitted)
    → IsBounded e
    → IsBounded (emit_listener idx listener e)
unfolding emit_listener
IsBounded-emit_listener idx listener e bounded i entries found = ground (
  arith,
  lookup-insert idx i (entries_of idx e.set_entries ++ listener ∷ []) e.set_entries,
  nat_beq_iff idx i,
  bounded i entries,
)

module _ (sha256 : Text → List ℕ) (options : ManagedGatewayOptions)
    (by_hostname : List (Text × ProjectedListener)) (placed : List (Text × ℕ)) where
  -- The listener of a hostname, and its placement.
  abbrev pub listener_for : Text → Listener
  listener_for h =
      https_listener_of h (find_listener h by_hostname).secret
        (dns_label sha256 (options.https_section_name ∷ h ∷ []))

  abbrev pub placement_for : Text → ListenerPlacement
  placement_for h = record {
    listener_set = placed_index h placed;
    secret = (find_listener h by_hostname).secret;
  }

  -- Whether a listener is that of a hostname which is recorded at the parent.
  abbrev pub IsPlaced : Placements → ℕ → Listener → Type 0
  IsPlaced placements i l =
      (h : Text) × (l ≡ listener_for h)
      × (placed_index h placed ≡ i)
      × (lookup h placements ≡ some (placement_for h))

  -- The listeners are those of the recorded placements, and each stands at its parent.
  abbrev pub IsExact : Emitted → Type 0
  IsExact e =
      ((i : ℕ) → All (IsPlaced e.placements i) (listeners_at i e))
      × ((h : Text) (p : ListenerPlacement)
          → lookup h e.placements ≡ some p
          → (p ≡ placement_for h) × Memᴰ (listener_for h) (listeners_at (placed_index h placed) e))

  -- A further hostname keeps what is recorded.
  lookup-emit_hostname :
      (e : Emitted) (new h : Text)
      → lookup h (emit_hostname sha256 options by_hostname placed e new).placements
        ≡ (if text_eq new h then some (placement_for new) else lookup h e.placements)
  unfolding emit_hostname emit_listener
  lookup-emit_hostname e new h =
      ground (arith, lookup-insert new h (placement_for new) e.placements)

  listeners_at-emit_hostname :
      (i : ℕ) (e : Emitted) (new : Text)
      → listeners_at i (emit_hostname sha256 options by_hostname placed e new) ≡ (
          if nat_beq (placed_index new placed) i
          then listeners_at i e ++ listener_for new ∷ []
          else listeners_at i e)
  unfolding emit_hostname
  listeners_at-emit_hostname i e new =
      listeners_at-emit_listener i (placed_index new placed) (listener_for new) e

  -- What was recorded stays recorded, at the same parent.
  lookup-emit_hostname_kept :
      (e : Emitted) (new h : Text)
      → lookup h e.placements ≡ some (placement_for h)
      → lookup h (emit_hostname sha256 options by_hostname placed e new).placements
        ≡ some (placement_for h)
  lookup-emit_hostname_kept e new h known = elim (Bool-cases (text_eq new h)) [
    | inl same ↦
        lookup-emit_hostname e new h
        ∙ rw same (ap (λ n. some (placement_for n)) ((text_eq_iff new h).0 same))
    | inr other ↦ lookup-emit_hostname e new h ∙ rw other known
  ]

  IsPlaced-kept :
      (e : Emitted) (new : Text) (i : ℕ) (l : Listener)
      → IsPlaced e.placements i l
      → IsPlaced (emit_hostname sha256 options by_hostname placed e new).placements i l
  IsPlaced-kept e new i l (h, is, at, known) = (h, is, at, lookup-emit_hostname_kept e new h known)

  IsPlaced-new :
      (e : Emitted) (new : Text)
      → IsPlaced
          (emit_hostname sha256 options by_hostname placed e new).placements
          (placed_index new placed)
          (listener_for new)
  IsPlaced-new e new =
      (new, refl, refl, lookup-emit_hostname e new new ∙ rw ((text_eq_iff new new).1 refl) refl)

  All-emit_hostname :
      (e : Emitted) (new : Text) (i : ℕ)
      → All (IsPlaced e.placements i) (listeners_at i e)
      → All
          (IsPlaced (emit_hostname sha256 options by_hostname placed e new).placements i)
          (listeners_at i (emit_hostname sha256 options by_hostname placed e new))
  All-emit_hostname e new i all =
      let after = (emit_hostname sha256 options by_hostname placed e new).placements in
      let kept = All-map _ (IsPlaced after i) (listeners_at i e) (IsPlaced-kept e new i) all in
      subst (All (IsPlaced after i)) (sym (listeners_at-emit_hostname i e new))
        (elim (Bool-cases (nat_beq (placed_index new placed) i)) [
          | inl same ↦ rw same (
              All-append (IsPlaced after i) (listeners_at i e) (listener_for new ∷ []) kept (
                subst (λ j. IsPlaced after j (listener_for new)) ((nat_beq_iff _ i).0 same)
                    (IsPlaced-new e new),
                tt,
              ))
          | inr other ↦ rw other kept
        ])

  Mem-emit_hostname :
      (e : Emitted) (new : Text) (i : ℕ) (l : Listener)
      → Memᴰ l (listeners_at i e)
      → Memᴰ l (listeners_at i (emit_hostname sha256 options by_hostname placed e new))
  Mem-emit_hostname e new i l member =
      subst (Memᴰ l) (sym (listeners_at-emit_hostname i e new))
        (elim (Bool-cases (nat_beq (placed_index new placed) i)) [
          | inl same ↦ rw same (Mem-append_left l (listeners_at i e) _ member)
          | inr other ↦ rw other member
        ])

  Mem-emit_hostname_new :
      (e : Emitted) (new : Text)
      → Memᴰ (listener_for new) (
          listeners_at
            (placed_index new placed)
            (emit_hostname sha256 options by_hostname placed e new))
  Mem-emit_hostname_new e new =
      let i = placed_index new placed in
      subst (Memᴰ (listener_for new)) (sym (listeners_at-emit_hostname i e new))
        (rw ((nat_beq_iff i i).1 refl) (Mem-append_last (listener_for new) (listeners_at i e)))

  IsExact-emit_hostname :
      (e : Emitted) (new : Text)
      → IsExact e
      → IsExact (emit_hostname sha256 options by_hostname placed e new)
  IsExact-emit_hostname e new (sound, complete) = (
    λ i. All-emit_hostname e new i (sound i),
    λ h p known. elim (Bool-cases (text_eq new h)) [
      | inl same ↦
          let seen : some (placement_for new) ≡ some p =
            rw same at (sym (lookup-emit_hostname e new h) ∙ known) in
          let is : placement_for new ≡ p = cc in
          subst
            (λ n.
              (p ≡ placement_for n)
              × Memᴰ (listener_for n) (
                  listeners_at (placed_index n placed)
                    (emit_hostname sha256 options by_hostname placed e new)))
            ((text_eq_iff new h).0 same) (sym is, Mem-emit_hostname_new e new)
      | inr other ↦
          let before : lookup h e.placements ≡ some p =
            rw other at (sym (lookup-emit_hostname e new h) ∙ known) in
          let (is, member) = complete h p before in
          (is, Mem-emit_hostname e new (placed_index h placed) (listener_for h) member)
    ],
  )

  pub emit_hostnames-IsExact :
      (e : Emitted) (hostnames : List Text)
      → IsExact e
      → IsExact (emit_hostnames sha256 options by_hostname placed e hostnames)
  unfolding emit_hostnames
  emit_hostnames-IsExact e [] exact = exact
  emit_hostnames-IsExact e (h ∷ hs) exact =
      emit_hostnames-IsExact (emit_hostname sha256 options by_hostname placed e h) hs
        (IsExact-emit_hostname e h exact)

  pub emit_hostnames-IsBounded :
      (e : Emitted) (hostnames : List Text)
      → IsBounded e
      → IsBounded (emit_hostnames sha256 options by_hostname placed e hostnames)
  unfolding emit_hostnames emit_hostname
  emit_hostnames-IsBounded e [] bounded = bounded
  emit_hostnames-IsBounded e (h ∷ hs) bounded =
      emit_hostnames-IsBounded (emit_hostname sha256 options by_hostname placed e h) hs
        (IsBounded-emit_listener (placed_index h placed) _ e bounded)

  pub nothing-IsExact : IsExact nothing_emitted
  unfolding lookup
  nothing-IsExact = (
    λ i. elim (Bool-cases (nat_beq i 0)) [ inl same ↦ rw same tt | inr other ↦ rw other tt ],
    λ h p known. absurd cc,
  )

pub nothing-IsBounded : IsBounded nothing_emitted
unfolding lookup
nothing-IsBounded i entries found = absurd cc
