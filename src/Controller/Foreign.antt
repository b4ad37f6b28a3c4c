-- ===== src/Controller/Foreign.antt =====
-- Objects that are not the bridge's own.
use ingress_nginx_gateway_br.Common.{
  ℕ, ◌≡◌, Bool, false, Option, some, List, [], ◌∷◌, map, any, all, arith,
}
use ingress_nginx_gateway_br.Text.{Text}
use ingress_nginx_gateway_br.Api.{NamespacedName}
use ingress_nginx_gateway_br.Types.{managed_by_label, controller_name}
use ingress_nginx_gateway_br.Controller.Selection.{Config}
use ingress_nginx_gateway_br.Controller.Cluster.{
  Kind, ObjectKey, Object, Client, IsServer, is_managed, is_listed, matches_labels,
}
use ingress_nginx_gateway_br.Controller.Apply.{prune_source, pruned_kinds, source_labels}
use ingress_nginx_gateway_br.Controller.Keeps.{Keeps, Keeps-trans, apply-Keeps}
use ingress_nginx_gateway_br.Controller.Pruned.{is_owned, prune_kinds-Keeps, prune_listed-Keeps}
use ingress_nginx_gateway_br.Controller.ManagedObjects.{gateway_labels}
use ingress_nginx_gateway_br.Controller.GatewayFrame.{IsFrame}

-- No list call for the bridge's own objects gives an object that is not one of them.
unlisted :
    (kind : Kind) (namespace : Option Text) (rest : List (Text × Text)) (object : Object)
    → is_managed object ≡ false
    → is_listed kind namespace ((managed_by_label, controller_name) ∷ rest) object ≡ false
unfolding is_listed matches_labels all is_managed
unlisted kind namespace rest object foreign = ground (arith, foreign)

unowned :
    (namespace : Text) (rest : List (Text × Text)) (kinds : List Kind) (object : Object)
    → is_managed object ≡ false
    → is_owned namespace ((managed_by_label, controller_name) ∷ rest) kinds object ≡ false
unfolding is_owned any
unowned namespace rest [] object foreign = ground arith
unowned namespace rest (kind ∷ kinds) object foreign = ground (
  arith,
  unlisted kind (some namespace) rest object foreign,
  unowned namespace rest kinds object foreign,
)

module _ {S : Type 0} {client : Client S} {view cached : S → ObjectKey → Option Object}
    (server : IsServer client view cached) (object : Object)
    (foreign : is_managed object ≡ false) where
  pub prune_source-Keeps :
      (sha256 : Text → List ℕ) (source : NamespacedName) (desired : List Object)
      (include_status : Bool) (s : S)
      → Keeps view cached object s (prune_source client sha256 source desired include_status s).1
  unfolding prune_source source_labels
  prune_source-Keeps sha256 source desired include_status s =
      prune_kinds-Keeps server object source.namespace (source_labels sha256 source)
        (map (λ o. o.key) desired) (pruned_kinds include_status) s
        (unowned source.namespace _ (pruned_kinds include_status) object foreign)

  pub gateway-IsFrame :
      (sha256 : Text → List ℕ) (config : Config)
      → IsFrame sha256 client config (Keeps view cached object)
  unfolding gateway_labels
  gateway-IsFrame sha256 config = record {
    frame_refl = λ s shows. shows;
    frame_trans = Keeps-trans view cached object;
    frame_apply = λ applied s gateways. apply-Keeps server object applied s foreign;
    frame_prune = λ kind namespace kept s gateways.
        prune_listed-Keeps server object kind namespace _ kept s
          (unlisted kind namespace _ object foreign);
  }
