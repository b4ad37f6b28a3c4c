-- ===== src/Controller/Mirror.antt =====
-- `mirrorIngressStatus` in internal/controller/status.go: the addresses of the Gateway become those of an
-- Ingress whose routes are in effect.
use ingress_nginx_gateway_br.Common.{
  Bool, true, false, not, ◌||◌, Option, none, some, List, [], ◌∷◌, if◌then◌else◌,
}
use ingress_nginx_gateway_br.Text.{Text, text_key, codes}
use ingress_nginx_gateway_br.Controller.Observed.{Found, found, not_found, failed}
use ingress_nginx_gateway_br.Controller.Readiness.{
  Outcome, ready, pending, rejected, broken, find_condition, Reported, reported_outcome,
}
use ingress_nginx_gateway_br.Controller.TranslationStatus.{IngressObject, Writes}

-- An address of the Gateway's status; `is_ip` says that its type is IPAddress.
pub record GatewayAddress : Type 0 where
  pub is_ip : Bool
  pub value : Text

unfoldable pub mirrored_addresses : List GatewayAddress → List (Option Text × Option Text)
mirrored_addresses [] = []
mirrored_addresses (address ∷ addresses) =
    (if address.is_ip then (some address.value, none) else (none, some address.value))
    ∷ mirrored_addresses addresses

-- A Gateway with what `mirrorIngressStatus` reads of its status.
pub record GatewayStatus : Type 0 where
  pub reported : Reported
  pub addresses : List GatewayAddress

abbrev pub is_ready : Outcome → Bool
is_ready ready = true
is_ready pending = false
is_ready rejected = false
is_ready broken = false

module _ {S : Type 0} (writes : Writes S) where
  abbrev pub mirror_addresses :
      IngressObject → Bool → List (Option Text × Option Text) → S → Bool × S
  mirror_addresses object programmed [] s = (true, s)
  mirror_addresses object programmed (address ∷ addresses) s =
      if not programmed || writes.same_addresses object.addresses (address ∷ addresses)
      then (true, s)
      else writes.patch_ingress_status s (record object { addresses = address ∷ addresses })

  abbrev pub mirror_found : IngressObject → Found GatewayStatus → S → Bool × S
  mirror_found object not_found s = (true, s)
  mirror_found object failed s = (false, s)
  mirror_found object (found gateway) s =
      mirror_addresses object
        (is_ready (
          reported_outcome gateway.reported.generation
            (find_condition (codes "Programmed") gateway.reported.conditions)))
        (mirrored_addresses gateway.addresses) s

  -- `mirrorIngressStatus`; the outcome is what `generatedReady` gives.
  unfoldable pub mirror_ingress_status :
      IngressObject → Outcome → Found GatewayStatus → S → Bool × S
  mirror_ingress_status object broken gateway s = (false, s)
  mirror_ingress_status object pending gateway s = (true, s)
  mirror_ingress_status object rejected gateway s = (true, s)
  mirror_ingress_status object ready gateway s = mirror_found object gateway s

-- The functions above, for the tests.
unfoldable pub mirror_functions : Unit {0}
unfolding mirrored_addresses mirror_ingress_status find_condition reported_outcome
mirror_functions = tt
