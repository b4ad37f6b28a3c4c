-- ===== src/Gateway/Emission/Limits.antt =====
-- The sizes of the Gateway and of its ListenerSets in the plan of `BuildManagedGateway`.
use ingress_nginx_gateway_br.Common.{
  ℕ, zero, suc, ◌+◌, ◌≤◌, ◌≡◌, refl, sym, subst, inl, inr, true, false, some, List, [], ◌∷◌, ◌++◌,
  arith, All, length, length-append, total, total-sort_by, lookup, keys, lookup-insert, contains,
  IsNodup, IsNodup-keys-insert, nat_beq, nat_key, nat_beq_iff, Option-cases, if◌then◌else◌,
}
use ingress_nginx_gateway_br.Text.{Text, text_key, text_eq, text_eq_iff, text_lt, sort_texts}
use ingress_nginx_gateway_br.Api.{Ingress, Listener}
use ingress_nginx_gateway_br.Gateway.{ProjectedListener, ManagedGatewayOptions}
use ingress_nginx_gateway_br.Gateway.Hosts.{declared_hosts}
use ingress_nginx_gateway_br.Gateway.Groups.{projected_listeners}
use ingress_nginx_gateway_br.Gateway.Placement.{place_listeners}
use ingress_nginx_gateway_br.Gateway.Placement.Passes.{final_pass-keeps, try_place-some}
use ingress_nginx_gateway_br.Gateway.Placement.Capacity.{
  count_at, room_at, place_listeners-capacity,
}
use ingress_nginx_gateway_br.Gateway.Emission.{
  ListenerSet, Emitted, entries_of, placed_index, nothing_emitted, emit_listener, emit_hostname,
  emit_hostnames, managed_listener_set, emit_sets, emit, assemble, build_managed_gateway,
}

-- Each hostname is placed once.
place_listeners-IsNodup :
    (listeners : List ProjectedListener) (options : ManagedGatewayOptions)
    → IsNodup (keys (place_listeners listeners options).0)
unfolding place_listeners
place_listeners-IsNodup listeners options =
    final_pass-keeps listeners options (λ s. IsNodup (keys s.placed))
      (λ l idx s s' e distinct.
        let (u, room, same, more) = try_place-some options.listener_set_overflow l idx s s' e in
        subst (λ placed. IsNodup (keys placed)) (sym same)
          (IsNodup-keys-insert l.hostname idx s.placed distinct))
      tt

pub text_eq_same : (k : Text) → text_eq k k ≡ true
text_eq_same k = (text_eq_iff k k).1 refl

text_eq_swap : (k h : Text) → text_eq h k ≡ text_eq k h
text_eq_swap k h = ground (arith, text_eq_iff h k, text_eq_iff k h)

-- Whether a hostname stands at the index.
abbrev stands_at : ℕ → List (Text × ℕ) → Text → ℕ
stands_at i placed hostname = if nat_beq (placed_index hostname placed) i then 1 else 0

-- An entry for another hostname changes nothing.
total-stands_at :
    (i v : ℕ) (k : Text) (placed : List (Text × ℕ)) (hostnames : List Text)
    → contains k hostnames ≡ false
    → total (stands_at i ((k, v) ∷ placed)) hostnames ≡ total (stands_at i placed) hostnames
unfolding total contains lookup
total-stands_at i v k placed [] fresh = refl
total-stands_at i v k placed (h ∷ hs) fresh =
    ground (arith, total-stands_at i v k placed hs, text_eq_swap k h)

total-count_at :
    (i : ℕ) (placed : List (Text × ℕ))
    → IsNodup (keys placed)
    → total (stands_at i placed) (keys placed) ≡ count_at i placed
unfolding total count_at lookup
total-count_at i [] distinct = refl
total-count_at i ((k, v) ∷ placed) (first, rest) = ground (
  arith,
  total-stands_at i v k placed (keys placed) first,
  total-count_at i placed rest,
  text_eq_same k,
)

-- The listeners that are emitted for a parent.
abbrev pub size_at : ℕ → Emitted → ℕ
size_at i e =
    if nat_beq i 0 then length e.gateway_listeners else length (entries_of i e.set_entries)

size_at-emit_listener :
    (i idx : ℕ) (listener : Listener) (e : Emitted)
    → size_at i (emit_listener idx listener e) ≡ size_at i e + (if nat_beq idx i then 1 else 0)
unfolding emit_listener
size_at-emit_listener i idx listener e = ground (
  arith,
  length-append e.gateway_listeners (listener ∷ []),
  length-append (entries_of idx e.set_entries) (listener ∷ []),
  lookup-insert idx i (entries_of idx e.set_entries ++ listener ∷ []) e.set_entries,
  nat_beq_iff idx i,
)

-- The number of listeners that the API admits in a ListenerSet.
abbrev pub IsAdmitted : ListenerSet → Type 0
IsAdmitted set = (1 ≤ length set.listeners) × (length set.listeners ≤ 64)

-- No ListenerSet is empty.
unfoldable pub IsFilled : Emitted → Type 0
IsFilled e =
    (i : ℕ) (entries : List Listener) → lookup i e.set_entries ≡ some entries → 1 ≤ length entries

IsFilled-emit_listener :
    (idx : ℕ) (listener : Listener) (e : Emitted)
    → IsFilled e
    → IsFilled (emit_listener idx listener e)
unfolding emit_listener IsFilled
IsFilled-emit_listener idx listener e filled i entries found = ground (
  arith,
  length-append (entries_of idx e.set_entries) (listener ∷ []),
  lookup-insert idx i (entries_of idx e.set_entries ++ listener ∷ []) e.set_entries,
  nat_beq_iff idx i,
  filled i entries,
)

nothing-IsFilled : IsFilled nothing_emitted
unfolding IsFilled lookup
nothing-IsFilled i entries found = absurd cc

module _ (sha256 : Text → List ℕ) (options : ManagedGatewayOptions)
    (by_hostname : List (Text × ProjectedListener)) (placed : List (Text × ℕ)) where
  size_at-emit_hostnames :
      (i : ℕ) (e : Emitted) (hostnames : List Text)
      → size_at i (emit_hostnames sha256 options by_hostname placed e hostnames)
        ≡ size_at i e + total (stands_at i placed) hostnames
  unfolding emit_hostnames emit_hostname total
  size_at-emit_hostnames i e [] = omega arith
  size_at-emit_hostnames i e (h ∷ hs) = omega (
    arith,
    size_at-emit_hostnames i (emit_hostname sha256 options by_hostname placed e h) hs,
    size_at-emit_listener i (placed_index h placed) _ e,
  )

  IsFilled-emit_hostnames :
      (e : Emitted) (hostnames : List Text)
      → IsFilled e
      → IsFilled (emit_hostnames sha256 options by_hostname placed e hostnames)
  unfolding emit_hostnames emit_hostname IsFilled
  IsFilled-emit_hostnames e [] filled = filled
  IsFilled-emit_hostnames e (h ∷ hs) filled =
      IsFilled-emit_hostnames (emit_hostname sha256 options by_hostname placed e h) hs
        (IsFilled-emit_listener (placed_index h placed) _ e filled)

size_at-nothing : (i : ℕ) → size_at i nothing_emitted ≡ 0
unfolding lookup
size_at-nothing i = ground arith

module _ (sha256 : Text → List ℕ) (options : ManagedGatewayOptions) where
  pub size_at-emit :
      (i : ℕ) (projected : List ProjectedListener)
      → size_at i (emit sha256 options projected (place_listeners projected options).0)
        ≤ room_at options.listener_set_overflow i
  unfolding emit sort_texts lookup
  size_at-emit i projected =
      let placed = (place_listeners projected options).0 in
      omega (
        arith,
        size_at-nothing i,
        size_at-emit_hostnames sha256 options _ placed i nothing_emitted (sort_texts (keys placed)),
        total-sort_by (stands_at i placed) text_lt (keys placed),
        total-count_at i placed (place_listeners-IsNodup projected options),
        place_listeners-capacity projected options i,
      )

  -- A property of every entry at an index from `idx` on is one of every ListenerSet.
  emit_sets-All :
      (sets : List (ℕ × List Listener)) (idx rounds : ℕ)
      → ((i : ℕ) (entries : List Listener)
          → 1 ≤ i
          → lookup i sets ≡ some entries
          → (1 ≤ length entries) × (length entries ≤ 64))
      → 1 ≤ idx
      → All IsAdmitted (emit_sets sha256 options sets idx rounds)
  unfolding emit_sets managed_listener_set
  emit_sets-All sets idx zero fits positive = tt
  emit_sets-All sets idx (suc rounds) fits positive =
      let rest = emit_sets sha256 options sets (suc idx) rounds in
      let smaller = emit_sets-All sets (suc idx) rounds fits (omega (arith, positive)) in
      elim (Option-cases (lookup idx sets)) [
        | inl missing ↦
            let e : emit_sets sha256 options sets idx (suc rounds) ≡ rest =
              rw (emit_sets, missing) refl in
            subst (All IsAdmitted) (sym e) smaller
        | inr (entries, found) ↦
            let e : emit_sets sha256 options sets idx (suc rounds)
                ≡ managed_listener_set sha256 options idx entries ∷ rest =
              rw (emit_sets, found) refl in
            subst (All IsAdmitted) (sym e) (fits idx entries positive found, smaller)
      ]

  pub emit-IsFilled :
      (projected : List ProjectedListener)
      → IsFilled (emit sha256 options projected (place_listeners projected options).0)
  unfolding emit
  emit-IsFilled projected =
      IsFilled-emit_hostnames sha256 options _ _ nothing_emitted _ nothing-IsFilled

  entries_le :
      (projected : List ProjectedListener) (i : ℕ) (entries : List Listener)
      → 1 ≤ i
      → lookup i (emit sha256 options projected (place_listeners projected options).0).set_entries
        ≡ some entries
      → length entries ≤ 64
  entries_le projected i entries positive found =
      ground (arith, size_at-emit i projected, positive, found)

  -- For all Ingresses: the managed Gateway has at most 64 listeners, the HTTP one included, and each
  -- ListenerSet has at least one listener and at most 64.
  pub build_managed_gateway-limits :
      (ingresses : List Ingress)
      → (length (build_managed_gateway sha256 options ingresses).managed.listeners ≤ 64)
        × All IsAdmitted (build_managed_gateway sha256 options ingresses).listener_sets
  unfolding build_managed_gateway assemble IsFilled
  build_managed_gateway-limits ingresses =
      let projected = projected_listeners options (declared_hosts ingresses).certificates in
      let e = emit sha256 options projected (place_listeners projected options).0 in
      (
        omega (arith, size_at-emit 0 projected),
        emit_sets-All e.set_entries 1 e.max_index
            (λ i entries positive found. (
              emit-IsFilled projected i entries found,
              entries_le projected i entries positive found,
            ))
            (omega arith),
      )
