-- ===== src/Gateway/Placement/Passes.antt =====
-- Rules for the passes of `placeListeners`: what every `tryPlace` keeps, the passes keep.
use ingress_nginx_gateway_br.Common.{
  ℕ, ◌≡◌, Bool, true, false, Option, none, some, List, [], ◌∷◌, All, arith, Option-cases, insert,
  ◌<◌, inl, inr,
}
use ingress_nginx_gateway_br.Text.{text_key}
use ingress_nginx_gateway_br.Gateway.{ProjectedListener, ManagedGatewayOptions}
use ingress_nginx_gateway_br.Gateway.Placement.{
  Placing, no_placing, try_place, try_wanted, final_pass, pass, first_free, or_same, capacity,
  usable, increment, place_anywhere,
}

-- The equations of the passes, by the outcome of `tryPlace`.
module _ (overflow : Bool) (wanted : ProjectedListener → Option ℕ) (s : Placing)
    (l : ProjectedListener) (ls : List ProjectedListener) where
  pub pass-hit :
      (s' : Placing)
      → try_wanted overflow l (wanted l) s ≡ some s'
      → pass overflow wanted s (l ∷ ls) ≡ pass overflow wanted s' ls
  unfolding pass
  pass-hit s' e = rw (e, pass)

  pub pass-miss :
      try_wanted overflow l (wanted l) s ≡ none
      → pass overflow wanted s (l ∷ ls)
        ≡ ((pass overflow wanted s ls).0, l ∷ (pass overflow wanted s ls).1)
  unfolding pass
  pass-miss e = rw (e, pass)

module _ (fuel : ℕ) (s : Placing) (l : ProjectedListener) (ls : List ProjectedListener) where
  pub place_anywhere-hit :
      (overflow : Bool) (s' : Placing)
      → try_place overflow l 0 s ≡ some s'
      → place_anywhere overflow fuel s (l ∷ ls) ≡ place_anywhere overflow fuel s' ls
  unfolding place_anywhere
  place_anywhere-hit overflow s' e = rw (e, place_anywhere)

  pub place_anywhere-set :
      try_place true l 0 s ≡ none
      → place_anywhere true fuel s (l ∷ ls)
        ≡ place_anywhere true fuel (or_same s (try_place true l (first_free fuel s.counts 1) s)) ls
  unfolding place_anywhere
  place_anywhere-set e = rw (e, place_anywhere)

  pub place_anywhere-unset :
      try_place false l 0 s ≡ none
      → place_anywhere false fuel s (l ∷ ls)
        ≡ ((place_anywhere false fuel s ls).0, l ∷ (place_anywhere false fuel s ls).1)
  unfolding place_anywhere
  place_anywhere-unset e = rw (e, place_anywhere)

module _ (overflow : Bool) (Q : ProjectedListener → Type 0) (P : Placing → Type 0)
    (keep : (l : ProjectedListener) (idx : ℕ) (s s' : Placing)
      → Q l
      → try_place overflow l idx s ≡ some s'
      → P s
      → P s') where
  try_wanted-keeps :
      (l : ProjectedListener) (wanted : Option ℕ) (s s' : Placing)
      → Q l
      → try_wanted overflow l wanted s ≡ some s'
      → P s
      → P s'
  try_wanted-keeps l none s s' q e p = cc
  try_wanted-keeps l (some idx) s s' q e p = keep l idx s s' q e p

  or_same-keeps :
      (l : ProjectedListener) (idx : ℕ) (s : Placing)
      → Q l
      → P s
      → P (or_same s (try_place overflow l idx s))
  or_same-keeps l idx s q p = elim (Option-cases (try_place overflow l idx s)) [
    | inl e ↦ rw e p
    | inr (s', e) ↦ rw e (keep l idx s s' q e p)
  ]

  pub pass-keeps :
      (wanted : ProjectedListener → Option ℕ) (s : Placing) (ls : List ProjectedListener)
      → All Q ls
      → P s
      → P (pass overflow wanted s ls).0
  unfolding pass
  pass-keeps wanted s [] q p = p
  pass-keeps wanted s (l ∷ ls) q p = elim (Option-cases (try_wanted overflow l (wanted l) s)) [
    | inl e ↦ rw (pass-miss overflow wanted s l ls e) (pass-keeps wanted s ls q.1 p)
    | inr (s', e) ↦
        rw (pass-hit overflow wanted s l ls s' e)
          (pass-keeps wanted s' ls q.1 (try_wanted-keeps l (wanted l) s s' q.0 e p))
  ]

-- The same for the third pass, whose listeners go to the Gateway or to a ListenerSet.
pub place_anywhere-keeps :
    (overflow : Bool) (Q : ProjectedListener → Type 0) (P : Placing → Type 0)
    → ((l : ProjectedListener) (idx : ℕ) (s s' : Placing)
        → Q l
        → try_place overflow l idx s ≡ some s'
        → P s
        → P s')
    → (fuel : ℕ) (s : Placing) (ls : List ProjectedListener) → All Q ls
    → P s
    → P (place_anywhere overflow fuel s ls).0
unfolding place_anywhere
place_anywhere-keeps overflow Q P keep fuel s [] q p = p
place_anywhere-keeps true Q P keep fuel s (l ∷ ls) q p =
    elim (Option-cases (try_place true l 0 s)) [
      | inl e ↦ rw (place_anywhere-set fuel s l ls e) (
          place_anywhere-keeps true Q P keep fuel _ ls q.1
            (or_same-keeps true Q P keep l (first_free fuel s.counts 1) s q.0 p))
      | inr (s', e) ↦
          rw (place_anywhere-hit fuel s l ls true s' e)
            (place_anywhere-keeps true Q P keep fuel s' ls q.1 (keep l 0 s s' q.0 e p))
    ]
place_anywhere-keeps false Q P keep fuel s (l ∷ ls) q p =
    elim (Option-cases (try_place false l 0 s)) [
      | inl e ↦
          rw (place_anywhere-unset fuel s l ls e)
            (place_anywhere-keeps false Q P keep fuel s ls q.1 p)
      | inr (s', e) ↦
          rw (place_anywhere-hit fuel s l ls false s' e)
            (place_anywhere-keeps false Q P keep fuel s' ls q.1 (keep l 0 s s' q.0 e p))
    ]

-- What a pass hands on is part of what it was given.
pub pass-All :
    (overflow : Bool) (Q : ProjectedListener → Type 0) (wanted : ProjectedListener → Option ℕ)
    (s : Placing) (ls : List ProjectedListener)
    → All Q ls
    → All Q (pass overflow wanted s ls).1
unfolding pass
pass-All overflow Q wanted s [] q = tt
pass-All overflow Q wanted s (l ∷ ls) q = elim (Option-cases (try_wanted overflow l (wanted l) s)) [
  | inl e ↦ rw (pass-miss overflow wanted s l ls e) (q.0, pass-All overflow Q wanted s ls q.1)
  | inr (s', e) ↦ rw (pass-hit overflow wanted s l ls s' e) (pass-All overflow Q wanted s' ls q.1)
]

-- What a successful `tryPlace` says.
pub try_place-some :
    (overflow : Bool) (l : ProjectedListener) (idx : ℕ) (s s' : Placing)
    → try_place overflow l idx s ≡ some s'
    → (usable overflow idx ≡ true)
      × (s.counts idx < capacity idx)
      × (s'.placed ≡ insert l.hostname idx s.placed)
      × (s'.counts ≡ increment s.counts idx)
unfolding try_place
try_place-some overflow l idx s s' e = ground arith

-- When `tryPlace` succeeds.
pub try_place-room :
    (overflow : Bool) (l : ProjectedListener) (idx : ℕ) (s : Placing)
    → usable overflow idx ≡ true
    → s.counts idx < capacity idx
    → try_place overflow l idx s
      ≡ some (record { placed = insert l.hostname idx s.placed; counts = increment s.counts idx })
unfolding try_place
try_place-room overflow l idx s u h = ground arith

All-Unit : (ls : List ProjectedListener) → All (λ l. Unit {0}) ls
All-Unit [] = tt
All-Unit (l ∷ ls) = (tt, All-Unit ls)

-- What every `tryPlace` keeps holds in the end.
pub final_pass-keeps :
    (listeners : List ProjectedListener) (options : ManagedGatewayOptions) (P : Placing → Type 0)
    → ((l : ProjectedListener) (idx : ℕ) (s s' : Placing)
        → try_place options.listener_set_overflow l idx s ≡ some s'
        → P s
        → P s')
    → P no_placing
    → P (final_pass listeners options).0
final_pass-keeps listeners options P keep start =
    place_anywhere-keeps options.listener_set_overflow (λ l. Unit) P
      (λ l idx s s' _. keep l idx s s') _ _ _ (All-Unit _)
      (pass-keeps options.listener_set_overflow (λ l. Unit) P (λ l idx s s' _. keep l idx s s') _ _
        _ (All-Unit _)
        (pass-keeps options.listener_set_overflow (λ l. Unit) P (λ l idx s s' _. keep l idx s s') _
          _ _ (All-Unit _) start))
