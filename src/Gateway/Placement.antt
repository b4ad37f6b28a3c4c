-- ===== src/Gateway/Placement.antt =====
-- `placeListeners` and `inheritedPlacement` of internal/translator/gateway.go: which parent serves
-- each projected listener. `counts` is the code's map from parent to number of listeners.
pub mod Passes
pub mod Capacity
pub mod Spread
pub mod Complete
pub mod Sticky
pub mod Stable
use ingress_nginx_gateway_br.Common.{
  ℕ, zero, suc, ◌+◌, ◌≡◌, Bool, true, false, not, ◌&&◌, ◌||◌, Option, none, some, List, [], ◌∷◌,
  ltb, nat_beq, if◌then◌else◌, length, lookup, insert, sort_by,
}
use ingress_nginx_gateway_br.Text.{Text, text_key, text_eq, text_lt, codes, has_prefix}
use ingress_nginx_gateway_br.Certificates.{is_wildcard, parent_wildcard}
use ingress_nginx_gateway_br.Gateway.{
  gateway_https_capacity, listener_set_capacity, ListenerPlacement, Placements,
  ManagedGatewayOptions, ProjectedListener, to_set, sorted_strings,
}

pub record Placing : Type 0 where
  pub placed : List (Text × ℕ)
  pub counts : ℕ → ℕ

abbrev pub no_placing : Placing
no_placing = record { placed = []; counts = λ idx. 0 }

unfoldable pub capacity : ℕ → ℕ
capacity idx = if nat_beq idx 0 then gateway_https_capacity else listener_set_capacity

unfoldable pub usable : Bool → ℕ → Bool
usable overflow idx = nat_beq idx 0 || overflow

-- `counts[idx]++`
unfoldable pub increment : (ℕ → ℕ) → ℕ → ℕ → ℕ
increment counts idx i = if nat_beq i idx then suc (counts i) else counts i

-- The closure `tryPlace`; `none` is `false`.
unfoldable pub try_place : Bool → ProjectedListener → ℕ → Placing → Option Placing
try_place overflow l idx s =
    if not (usable overflow idx) || not (ltb (s.counts idx) (capacity idx))
    then none
    else some (record { placed = insert l.hostname idx s.placed; counts = increment s.counts idx })

-- The index at which a listener already stands, or one that it inherits, and `tryPlace` there.
abbrev pub try_wanted : Bool → ProjectedListener → Option ℕ → Placing → Option Placing
try_wanted overflow l none s = none
try_wanted overflow l (some idx) s = try_place overflow l idx s

-- The loops of the first and the second pass: place each listener where `wanted` says, and hand on
-- those that find no room there.
unfoldable pub pass :
    Bool
    → (ProjectedListener → Option ℕ)
    → Placing
    → List ProjectedListener
    → Placing × List ProjectedListener
pass overflow wanted s [] = (s, [])
pass overflow wanted s (l ∷ ls) = elim (try_wanted overflow l (wanted l) s) [
  | some s' ↦ pass overflow wanted s' ls
  | none ↦ let (s', rest) = pass overflow wanted s ls in (s', l ∷ rest)
]

-- `for idx := 1; ; idx++`: the first ListenerSet with room, from `idx` on.
unfoldable pub first_free : ℕ → (ℕ → ℕ) → ℕ → ℕ
first_free zero counts idx = idx
first_free (suc fuel) counts idx =
    let next = first_free fuel counts (suc idx) in
    if ltb (counts idx) (capacity idx) then idx else next

abbrev pub or_same : Placing → Option Placing → Placing
or_same s none = s
or_same s (some s') = s'

-- The loop of the third pass.
unfoldable pub place_anywhere :
    Bool → ℕ → Placing → List ProjectedListener → Placing × List ProjectedListener
place_anywhere overflow fuel s [] = (s, [])
place_anywhere overflow fuel s (l ∷ ls) = elim (try_place overflow l 0 s) [
  | some s' ↦ place_anywhere overflow fuel s' ls
  | none ↦
      let stays = place_anywhere overflow fuel s ls in
      let moved = or_same s (try_place overflow l (first_free fuel s.counts 1) s) in
      let placed_in_set = place_anywhere overflow fuel moved ls in
      if overflow then placed_in_set else (stays.0, l ∷ stays.1)
]

-- The index of the first member, other than the listener itself, that has a placement.
unfoldable pub member_placement : Text → Placements → List Text → Option ℕ
member_placement hostname current [] = none
member_placement hostname current (member ∷ members) =
    let rest = member_placement hostname current members in
    if text_eq member hostname
    then rest
    else elim (lookup member current) [ some p ↦ some p.listener_set | none ↦ rest ]

-- `inheritedPlacement`
unfoldable pub inherited_placement : Placements → ProjectedListener → Option ℕ
unfolding has_prefix member_placement sorted_strings to_set parent_wildcard lookup text_eq
inherited_placement current l =
    if is_wildcard l.hostname
    then member_placement l.hostname current (sorted_strings (to_set l.hosts))
    else elim (parent_wildcard l.hostname) [
      | none ↦ none
      | some candidate ↦ elim (lookup candidate current) [
        | some p ↦ some p.listener_set
        | none ↦ none
      ]
    ]

-- `options.CurrentPlacements[hostname]`
abbrev pub previous_index : Placements → Text → Option ℕ
previous_index current hostname = elim (lookup hostname current) [
  | some p ↦ some p.listener_set
  | none ↦ none
]

unfoldable pub previous_placement : Placements → ProjectedListener → Option ℕ
previous_placement current l = previous_index current l.hostname

unfoldable pub by_hostname : ProjectedListener → ProjectedListener → Bool
unfolding text_lt
by_hostname a b = text_lt a.hostname b.hostname

-- The three passes of `placeListeners`, each with the listeners that it leaves over.
module _ (listeners : List ProjectedListener) (options : ManagedGatewayOptions) where
  abbrev pub sticky_pass : Placing × List ProjectedListener
  sticky_pass =
      pass options.listener_set_overflow (previous_placement options.current_placements) no_placing
        (sort_by by_hostname listeners)

  abbrev pub inherited_pass : Placing × List ProjectedListener
  inherited_pass =
      pass options.listener_set_overflow (inherited_placement options.current_placements)
        sticky_pass.0 sticky_pass.1

  abbrev pub final_pass : Placing × List ProjectedListener
  final_pass =
      place_anywhere options.listener_set_overflow (suc (length listeners)) inherited_pass.0
        inherited_pass.1

  -- `placeListeners`: the parent of each hostname, and the listeners that found none.
  unfoldable pub place_listeners : List (Text × ℕ) × List ProjectedListener
  place_listeners = (final_pass.0.placed, final_pass.1)

-- The functions above, for the tests.
unfoldable pub placement_functions : Unit {0}
unfolding place_listeners sort_by by_hostname pass try_place place_anywhere first_free
    inherited_placement previous_placement capacity usable increment insert lookup text_eq
    member_placement
placement_functions = tt
