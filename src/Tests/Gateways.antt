-- ===== src/Tests/Gateways.antt =====
-- The managed Gateway on small inputs.
use ingress_nginx_gateway_br.Common.{
  ℕ, ◌≤◌, ◌≡◌, refl, true, false, some, List, [], ◌∷◌, map, lookup, keys, arith, Memᴰ, All, has_key,
  ◌⊎◌, total,
}
use ingress_nginx_gateway_br.Text.{Text, text_key, codes, text_functions}
use ingress_nginx_gateway_br.Naming.{dns_label}
use ingress_nginx_gateway_br.Naming.Label.{IsLabel, dns_label-IsLabel}
use ingress_nginx_gateway_br.Gateway.{ListenerPlacement, ProjectedListener}
use ingress_nginx_gateway_br.Gateway.Placement.{place_listeners, placement_functions}
use ingress_nginx_gateway_br.Gateway.Placement.Capacity.{
  count_at, room_at, place_listeners-capacity,
}
use ingress_nginx_gateway_br.Gateway.Placement.Complete.{
  place_listeners-IsCovered, place_listeners-overflow,
}
use ingress_nginx_gateway_br.Gateway.Placement.Sticky.{demand, place_listeners-sticky}
use ingress_nginx_gateway_br.Gateway.Placement.Stable.{Agrees, place_listeners-stable}
use ingress_nginx_gateway_br.Gateway.Hosts.{declared_hosts, hosts_functions}
use ingress_nginx_gateway_br.Gateway.Groups.{projected_listeners, groups_functions}
use ingress_nginx_gateway_br.Tests.Samples.{
  toy_sha256, toy_sha256-IsDigest, listener, options_with, placement, two_ingresses,
}

gateway_functions : Unit {0}
unfolding text_functions placement_functions hosts_functions groups_functions
gateway_functions = tt

declared_two :
    keys (declared_hosts two_ingresses).certificates
    ≡ codes "b.dev" ∷ codes "x.a.dev" ∷ codes "y.a.dev" ∷ []
unfolding gateway_functions
declared_two = refl

projected_two :
    map
      (λ l. l.hostname)
      (projected_listeners (options_with false []) (declared_hosts two_ingresses).certificates)
    ≡ codes "*.a.dev" ∷ codes "b.dev" ∷ []
unfolding gateway_functions
projected_two = refl

dns_label-IsLabel_example : IsLabel (dns_label toy_sha256 (codes "https" ∷ codes "*.A.dev" ∷ []))
dns_label-IsLabel_example =
    dns_label-IsLabel toy_sha256 toy_sha256-IsDigest (codes "https" ∷ codes "*.A.dev" ∷ [])
      (ground arith)

abbrev one_listener : List ProjectedListener
one_listener = listener (codes "a.dev") ∷ []

-- It stood in the second ListenerSet.
abbrev stood : List (Text × ListenerPlacement)
stood = (codes "a.dev", placement 2) ∷ []

stays : (place_listeners one_listener (options_with true stood)).0 ≡ (codes "a.dev", 2) ∷ []
unfolding gateway_functions
stays = refl

place_listeners-capacity_example :
    count_at 2 (place_listeners one_listener (options_with true stood)).0 ≤ 64
place_listeners-capacity_example = place_listeners-capacity one_listener (options_with true stood) 2

place_listeners-IsCovered_example :
    All
      (λ l.
        (has_key l.hostname (place_listeners one_listener (options_with false stood)).0 ≡ true)
        ⊎ Memᴰ l (place_listeners one_listener (options_with false stood)).1)
      one_listener
place_listeners-IsCovered_example =
    place_listeners-IsCovered one_listener (options_with false stood)

place_listeners-overflow_example :
    (idx : ℕ) × (lookup (codes "a.dev") (place_listeners one_listener (options_with true stood)).0
      ≡ some idx)
place_listeners-overflow_example =
    place_listeners-overflow one_listener (options_with true stood) (listener (codes "a.dev")) refl
      (Memᴰ.head refl)

stood_fits : (i : ℕ) → demand i stood one_listener ≤ room_at true i
unfolding gateway_functions demand total
stood_fits i = ground arith

place_listeners-sticky_example :
    lookup (codes "a.dev") (place_listeners one_listener (options_with true stood)).0 ≡ some 2
unfolding gateway_functions
place_listeners-sticky_example =
    place_listeners-sticky one_listener (options_with true stood) (listener (codes "a.dev"))
      (placement 2) stood_fits (Memᴰ.head refl) refl

stood-Agrees : Agrees stood (place_listeners one_listener (options_with true stood)).0
unfolding gateway_functions
stood-Agrees h = ground arith

place_listeners-stable_example :
    lookup (codes "a.dev") (place_listeners one_listener (options_with true stood)).0 ≡ some 2
unfolding gateway_functions
place_listeners-stable_example =
    place_listeners-stable one_listener (options_with true stood) (options_with true stood)
      (listener (codes "a.dev")) 2 (refl, tt) refl stood-Agrees (Memᴰ.head refl) refl
