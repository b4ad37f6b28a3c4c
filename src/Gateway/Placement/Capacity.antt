-- ===== src/Gateway/Placement/Capacity.antt =====
-- No parent holds more listeners than the Gateway API admits.
use ingress_nginx_gateway_br.Common.{
  ℕ, ◌+◌, ◌≤◌, ◌<◌, ◌≡◌, sym, subst, Bool, true, List, [], ◌∷◌, nat_beq, if◌then◌else◌, arith, some,
  insert,
}
use ingress_nginx_gateway_br.Text.{Text, text_key}
use ingress_nginx_gateway_br.Gateway.{ProjectedListener, ManagedGatewayOptions}
use ingress_nginx_gateway_br.Gateway.Placement.{
  Placing, no_placing, try_place, capacity, usable, increment, place_listeners, final_pass,
}
use ingress_nginx_gateway_br.Gateway.Placement.Passes.{final_pass-keeps, try_place-some}

-- How many hostnames stand at parent `i`.
unfoldable pub count_at : ℕ → List (Text × ℕ) → ℕ
count_at i [] = 0
count_at i ((k, v) ∷ m) = (if nat_beq v i then 1 else 0) + count_at i m

pub count_at-insert_le :
    (i : ℕ) (k : Text) (j : ℕ) (m : List (Text × ℕ))
    → count_at i (insert k j m) ≤ count_at i m + (if nat_beq j i then 1 else 0)
unfolding count_at insert
count_at-insert_le i k j [] = omega arith
count_at-insert_le i k j ((k', v) ∷ m) = ground (arith, count_at-insert_le i k j m)

pub increment_lem :
    (counts : ℕ → ℕ) (idx i : ℕ)
    → increment counts idx i ≡ counts i + (if nat_beq idx i then 1 else 0)
unfolding increment
increment_lem counts idx i = ground arith

pub record IsBounded (overflow : Bool) (s : Placing) : Type 0 where
  pub within : (i : ℕ) → s.counts i ≤ capacity i
  pub counted : (i : ℕ) → count_at i s.placed ≤ s.counts i
  pub gated : (i : ℕ) → 0 < s.counts i → usable overflow i ≡ true

no_placing-IsBounded : (overflow : Bool) → IsBounded overflow no_placing
unfolding count_at
no_placing-IsBounded overflow = record {
  within = λ i. omega arith;
  counted = λ i. omega arith;
  gated = λ i h. absurd (omega arith);
}

module _ (overflow : Bool) (l : ProjectedListener) (idx : ℕ) (s s' : Placing)
    (e : try_place overflow l idx s ≡ some s') (b : IsBounded overflow s) where
  counts-try_place : (i : ℕ) → s'.counts i ≡ s.counts i + (if nat_beq idx i then 1 else 0)
  counts-try_place i =
      let (u, room, same, more) = try_place-some overflow l idx s s' e in
      subst (λ c. c i ≡ s.counts i + (if nat_beq idx i then 1 else 0)) (sym more)
        (increment_lem s.counts idx i)

  try_place-IsBounded : IsBounded overflow s'
  try_place-IsBounded =
      let (u, room, same, more) = try_place-some overflow l idx s s' e in
      record {
        within = λ i. ground (arith, counts-try_place i, b.within i);
        counted = λ i. rw same (
            omega (
              arith,
              count_at-insert_le i l.hostname idx s.placed,
              counts-try_place i,
              b.counted i,
            ));
        gated = λ i h. ground (arith, counts-try_place i, b.gated i);
      }

pub final_pass-IsBounded :
    (listeners : List ProjectedListener) (options : ManagedGatewayOptions)
    → IsBounded options.listener_set_overflow (final_pass listeners options).0
final_pass-IsBounded listeners options =
    final_pass-keeps listeners options (IsBounded options.listener_set_overflow)
      (try_place-IsBounded options.listener_set_overflow)
      (no_placing-IsBounded options.listener_set_overflow)

-- The listeners that the API admits at a parent: ListenerSets count only where it has them.
abbrev pub room_at : Bool → ℕ → ℕ
room_at overflow i = if nat_beq i 0 then 63 else if overflow then 64 else 0

-- Whatever the listeners and the previous placement, the Gateway gets at most 63 HTTPS listeners and
-- each ListenerSet at most 64, and no ListenerSet gets any where the ListenerSet API is missing.
pub place_listeners-capacity :
    (listeners : List ProjectedListener) (options : ManagedGatewayOptions) (i : ℕ)
    → count_at i (place_listeners listeners options).0 ≤ room_at options.listener_set_overflow i
unfolding place_listeners capacity usable
place_listeners-capacity listeners options i =
    let b = final_pass-IsBounded listeners options in
    ground (arith, b.counted i, b.within i, b.gated i)
