-- ===== src/Gateway/Placement/Spread.antt =====
-- How many listeners a run of parents holds: enough tries find a ListenerSet with room.
use ingress_nginx_gateway_br.Common.{
  ℕ, zero, suc, ◌+◌, ◌≤◌, ◌<◌, ◌≡◌, refl, inl, inr, Bool, Option, none, some, List, [], ◌∷◌, length,
  if◌then◌else◌, arith, Option-cases, ltb,
}
use ingress_nginx_gateway_br.Text.{text_key}
use ingress_nginx_gateway_br.Gateway.{ProjectedListener}
use ingress_nginx_gateway_br.Gateway.Placement.{
  Placing, no_placing, try_place, try_wanted, capacity, increment, pass, first_free,
}
use ingress_nginx_gateway_br.Gateway.Placement.Passes.{try_place-some, pass-hit, pass-miss}

-- The listeners of the parents from `k` on, `f` of them.
unfoldable pub range_sum : (ℕ → ℕ) → ℕ → ℕ → ℕ
range_sum counts k zero = 0
range_sum counts k (suc f) = counts k + range_sum counts (suc k) f

range_sum-increment :
    (counts : ℕ → ℕ) (idx k f : ℕ)
    → range_sum (increment counts idx) k f ≤ range_sum counts k f + (if ltb idx k then 0 else 1)
unfolding range_sum increment
range_sum-increment counts idx k zero = omega arith
range_sum-increment counts idx k (suc f) = ground (arith, range_sum-increment counts idx (suc k) f)

capacity_pos : (i : ℕ) → 0 < capacity i
unfolding capacity
capacity_pos i = ground arith

-- Where fewer listeners than tries stand in the sets from `idx` on, the search finds room.
pub first_free-room :
    (fuel : ℕ) (counts : ℕ → ℕ) (idx : ℕ)
    → range_sum counts idx (suc fuel) ≤ fuel
    → counts (first_free fuel counts idx) < capacity (first_free fuel counts idx)
unfolding first_free range_sum
first_free-room zero counts idx h = omega (arith, capacity_pos idx)
first_free-room (suc fuel) counts idx h =
    ground (arith, first_free-room fuel counts (suc idx), capacity_pos idx)

-- At most `n` listeners stand in any run of parents.
abbrev pub Spread : ℕ → Placing → Type 0
Spread n s = (k f : ℕ) → range_sum s.counts k f ≤ n

pub Spread-no_placing : Spread 0 no_placing
unfolding range_sum
Spread-no_placing k zero = omega arith
Spread-no_placing k (suc f) = omega (arith, Spread-no_placing (suc k) f)

pub try_place-Spread :
    (overflow : Bool) (l : ProjectedListener) (idx : ℕ) (s s' : Placing) (n : ℕ)
    → try_place overflow l idx s ≡ some s'
    → Spread n s
    → Spread (suc n) s'
try_place-Spread overflow l idx s s' n e h k f =
    let (u, room, same, more) = try_place-some overflow l idx s s' e in
    rw more (ground (arith, range_sum-increment s.counts idx k f, h k f))

try_wanted-Spread :
    (overflow : Bool) (l : ProjectedListener) (wanted : Option ℕ) (s s' : Placing) (n : ℕ)
    → try_wanted overflow l wanted s ≡ some s'
    → Spread n s
    → Spread (suc n) s'
try_wanted-Spread overflow l none s s' n e h = cc
try_wanted-Spread overflow l (some idx) s s' n e h = try_place-Spread overflow l idx s s' n e h

-- What a pass places and what it hands on add up.
pub pass-Spread :
    (overflow : Bool) (wanted : ProjectedListener → Option ℕ) (n : ℕ) (s : Placing)
    (ls : List ProjectedListener)
    → Spread n s
    → (m : ℕ) × Spread m (pass overflow wanted s ls).0
      × (m + length (pass overflow wanted s ls).1 ≡ n + length ls)
unfolding pass
pass-Spread overflow wanted n s [] h = (n, h, refl)
pass-Spread overflow wanted n s (l ∷ ls) h =
    elim (Option-cases (try_wanted overflow l (wanted l) s)) [
      | inl e ↦
          let (m, spread, sum) = pass-Spread overflow wanted n s ls h in
          rw (pass-miss overflow wanted s l ls e) (m, spread, omega arith)
      | inr (s', e) ↦
          let (m, spread, sum) =
            pass-Spread overflow wanted (suc n) s' ls
              (try_wanted-Spread overflow l (wanted l) s s' n e h) in
          rw (pass-hit overflow wanted s l ls s' e) (m, spread, omega arith)
    ]
