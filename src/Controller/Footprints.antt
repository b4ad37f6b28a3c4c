-- ===== src/Controller/Footprints.antt =====
-- `ingressRouteFootprints` and `requiresSettingsSnippets` in internal/controller/ingress_controller.go:
-- the hosts and paths of an Ingress, its aliases included, and whether another Ingress has one too.
use ingress_nginx_gateway_br.Common.{
  Bool, not, ◌&&◌, Option, none, some, List, [], ◌∷◌, ◌++◌, if◌then◌else◌, contains, any, add,
}
use ingress_nginx_gateway_br.Text.{Text, text_key, text_eq, codes, is_empty, split}
use ingress_nginx_gateway_br.Api.{Ingress, IngressRule, HttpIngressPath, Backend, get_text}
use ingress_nginx_gateway_br.Annotations.{ann_server_alias}
use ingress_nginx_gateway_br.Gateway.Hosts.{clean_host}
use ingress_nginx_gateway_br.Controller.Selection.{Config, selected}
use ingress_nginx_gateway_br.Controller.Canary.{footprint}

-- The variables of the loop over the rules; `first_host` is `none` before the first rule with paths.
pub record RouteFootprints : Type 0 where
  pub result : List Text
  pub first_paths : List Text
  pub first_host : Option Text

abbrev pub path_value : Text → Text
path_value path = if is_empty path then codes "/" else path

unfoldable pub add_path_footprints :
    Text → Bool → List HttpIngressPath → RouteFootprints → RouteFootprints
add_path_footprints host is_first [] f = f
add_path_footprints host is_first (path ∷ paths) f =
    add_path_footprints host is_first paths (record f {
      result = add (footprint host (path_value path.path)) f.result;
      first_paths = if is_first then f.first_paths ++ path_value path.path ∷ [] else f.first_paths;
    })

abbrev first_host_of : Text → Option Text → Text
first_host_of host none = host
first_host_of host (some first) = first

-- One rule: a rule without paths is skipped.
abbrev pub add_rule_footprints :
    Text → Option (List HttpIngressPath) → RouteFootprints → RouteFootprints
add_rule_footprints raw none f = f
add_rule_footprints raw (some paths) f =
    let host = clean_host raw in
    let first = first_host_of host f.first_host in
    add_path_footprints host (text_eq host first) paths (record f { first_host = some first })

unfoldable pub add_rules_footprints : List IngressRule → RouteFootprints → RouteFootprints
add_rules_footprints [] f = f
add_rules_footprints (rule ∷ rules) f =
    add_rules_footprints rules (add_rule_footprints rule.host rule.http f)

abbrev add_default_footprint : Option Backend → List Text → List Text
add_default_footprint none result = result
add_default_footprint (some backend) result = add (footprint [] (codes "/")) result

unfoldable pub add_alias_paths : Text → List Text → List Text → List Text
add_alias_paths alias [] result = result
add_alias_paths alias (path ∷ paths) result =
    add_alias_paths alias paths (add (footprint alias path) result)

unfoldable pub add_aliases : List Text → List Text → List Text → List Text
add_aliases [] first_paths result = result
add_aliases (raw ∷ aliases) first_paths result =
    let alias = clean_host raw in
    add_aliases aliases first_paths
      (if is_empty alias then result else add_alias_paths alias first_paths result)

-- `ingressRouteFootprints`
unfoldable pub ingress_route_footprints : Ingress → List Text
ingress_route_footprints ing =
    let f =
      add_rules_footprints ing.rules
        (record { result = []; first_paths = []; first_host = none }) in
    add_aliases (split (get_text ann_server_alias ing.annotations) b',') f.first_paths
      (add_default_footprint ing.default_backend f.result)

-- Whether two Ingresses have a host and path in common.
unfoldable pub overlaps : Ingress → Ingress → Bool
overlaps ing candidate =
    any (λ footprint. contains footprint (ingress_route_footprints ing))
      (ingress_route_footprints candidate)

-- Whether the loop looks at the footprints of a candidate.
unfoldable pub is_competitor : Config → Ingress → List Text → Ingress → Bool
is_competitor config ing excluded candidate =
    not (text_eq candidate.name ing.name)
    && (not candidate.deleting
        && (selected config candidate && not (contains candidate.name excluded)))

-- `requiresSettingsSnippets`, over the Ingresses of the namespace; `none` is an error of the list.
unfoldable pub requires_settings_snippets :
    Config → Ingress → List Text → Option (List Ingress) → Option Bool
requires_settings_snippets config ing excluded none = none
requires_settings_snippets config ing excluded (some ingresses) = some (
    any (λ candidate. is_competitor config ing excluded candidate && overlaps ing candidate)
      ingresses)

-- The functions above, for the tests.
unfoldable pub footprint_functions : Unit {0}
unfolding add_path_footprints add_rules_footprints add_alias_paths add_aliases
    ingress_route_footprints overlaps is_competitor requires_settings_snippets contains any add
footprint_functions = tt
