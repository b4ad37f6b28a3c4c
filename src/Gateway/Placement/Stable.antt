-- ===== src/Gateway/Placement/Stable.antt =====
-- Planning again from the plan's own placement moves no listener.
use ingress_nginx_gateway_br.Common.{
  ℕ, ◌+◌, ◌≤◌, ◌≡◌, refl, ap, ◌∙◌, inl, inr, false, Option, none, some, List, [], ◌∷◌, Memᴰ,
  nat_beq, if◌then◌else◌, arith, lookup, Bool-cases, contains, IsNodup, total,
}
use ingress_nginx_gateway_br.Text.{Text, text_key, text_eq, text_eq_iff}
use ingress_nginx_gateway_br.Gateway.{
  ListenerPlacement, Placements, ProjectedListener, ManagedGatewayOptions,
}
use ingress_nginx_gateway_br.Gateway.Placement.{place_listeners, previous_index, previous_placement}
use ingress_nginx_gateway_br.Gateway.Placement.Capacity.{
  count_at, room_at, place_listeners-capacity,
}
use ingress_nginx_gateway_br.Gateway.Placement.Sticky.{wants, demand, place_listeners-sticky}

abbrev pub hostnames : List ProjectedListener → List Text
hostnames [] = []
hostnames (l ∷ ls) = l.hostname ∷ hostnames ls

-- How many of the listeners stand at parent `i` in a placement.
standing : ℕ → List (Text × ℕ) → List ProjectedListener → ℕ
standing i placed [] = 0
standing i placed (l ∷ ls) = wants i (lookup l.hostname placed) + standing i placed ls

standing-nil : (i : ℕ) (ls : List ProjectedListener) → standing i [] ls ≡ 0
unfolding standing lookup
standing-nil i [] = refl
standing-nil i (l ∷ ls) = omega (arith, standing-nil i ls)

standing-cons_absent :
    (i : ℕ) (k : Text) (j : ℕ) (m : List (Text × ℕ)) (ls : List ProjectedListener)
    → contains k (hostnames ls) ≡ false
    → standing i ((k, j) ∷ m) ls ≡ standing i m ls
unfolding standing lookup contains
standing-cons_absent i k j m [] h = refl
standing-cons_absent i k j m (l ∷ ls) h =
    ground
      (arith, standing-cons_absent i k j m ls, text_eq_iff k l.hostname, text_eq_iff l.hostname k)

standing-cons_le :
    (i : ℕ) (k : Text) (j : ℕ) (m : List (Text × ℕ)) (ls : List ProjectedListener)
    → IsNodup (hostnames ls)
    → standing i ((k, j) ∷ m) ls ≤ (if nat_beq j i then 1 else 0) + standing i m ls
unfolding standing lookup
standing-cons_le i k j m [] h = omega arith
standing-cons_le i k j m (l ∷ ls) h = elim (Bool-cases (text_eq k l.hostname)) [
  | inl same ↦
      let e = (text_eq_iff k l.hostname).0 same in
      let rest = standing-cons_absent i k j m ls (rw e h.0) in
      let here : lookup l.hostname ((k, j) ∷ m) ≡ some j = rw (same, lookup) in
      rw (here, rest) (omega arith)
  | inr other ↦
      let here : lookup l.hostname ((k, j) ∷ m) ≡ lookup l.hostname m = rw (other, lookup) in
      rw here (omega (arith, standing-cons_le i k j m ls h.1))
]

-- Distinct hostnames take no entry twice.
standing_le :
    (i : ℕ) (m : List (Text × ℕ)) (ls : List ProjectedListener)
    → IsNodup (hostnames ls)
    → standing i m ls ≤ count_at i m
unfolding count_at
standing_le i [] ls h = omega (arith, standing-nil i ls)
standing_le i ((k, j) ∷ m) ls h = omega (arith, standing-cons_le i k j m ls h, standing_le i m ls h)

-- The previous placement holds the parents that a plan gave.
abbrev pub Agrees : Placements → List (Text × ℕ) → Type 0
Agrees current placed = (h : Text) → previous_index current h ≡ lookup h placed

demand-standing :
    (i : ℕ) (current : Placements) (placed : List (Text × ℕ)) (ls : List ProjectedListener)
    → Agrees current placed
    → demand i current ls ≡ standing i placed ls
unfolding demand total standing previous_placement
demand-standing i current placed [] h = refl
demand-standing i current placed (l ∷ ls) h =
    let e = ap (wants i) (h l.hostname) in omega (arith, e, demand-standing i current placed ls h)

index_of : Option ListenerPlacement → Option ℕ
index_of o = elim o [ some p ↦ some p.listener_set | none ↦ none ]

index_of-some :
    (o : Option ListenerPlacement) (idx : ℕ)
    → index_of o ≡ some idx
    → (p : ListenerPlacement) × (o ≡ some p) × (p.listener_set ≡ idx)
unfolding index_of
index_of-some none idx e = cc
index_of-some (some p) idx e = (p, refl, cc)

found_previous :
    (current : Placements) (h : Text) (idx : ℕ)
    → previous_index current h ≡ some idx
    → (p : ListenerPlacement) × (lookup h current ≡ some p) × (p.listener_set ≡ idx)
unfolding index_of
found_previous current h idx e = index_of-some (lookup h current) idx e

demand_le :
    (listeners : List ProjectedListener) (options again : ManagedGatewayOptions)
    → IsNodup (hostnames listeners)
    → again.listener_set_overflow ≡ options.listener_set_overflow
    → Agrees again.current_placements (place_listeners listeners options).0
    → (i : ℕ) → demand i again.current_placements listeners ≤ room_at again.listener_set_overflow i
demand_le listeners options again distinct same agrees i =
    rw (same, demand-standing i again.current_placements _ listeners agrees)
      (omega (
        arith,
        standing_le i (place_listeners listeners options).0 listeners distinct,
        place_listeners-capacity listeners options i,
      ))

-- Planning the same listeners again, from the placement that the last plan gave and under the same
-- ListenerSet setting, leaves every placed listener at its parent. The hostnames are distinct.
pub place_listeners-stable :
    (listeners : List ProjectedListener) (options again : ManagedGatewayOptions)
    (l : ProjectedListener) (idx : ℕ)
    → IsNodup (hostnames listeners)
    → again.listener_set_overflow ≡ options.listener_set_overflow
    → Agrees again.current_placements (place_listeners listeners options).0
    → Memᴰ l listeners
    → lookup l.hostname (place_listeners listeners options).0 ≡ some idx
    → lookup l.hostname (place_listeners listeners again).0 ≡ some idx
place_listeners-stable listeners options again l idx distinct same agrees member found =
    let (p, known, at) =
      found_previous again.current_placements l.hostname idx (agrees l.hostname ∙ found) in
    place_listeners-sticky listeners again l p
      (demand_le listeners options again distinct same agrees) member known
    ∙ ap some at
