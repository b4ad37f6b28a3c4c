-- ===== src/Controller/Canary.antt =====
-- internal/controller/canary.go: each canary Ingress is merged into the oldest primary Ingress that
-- has all of its hosts and paths.
use ingress_nginx_gateway_br.Common.{
  Bool, true, false, not, ◌||◌, Option, none, some, List, [], ◌∷◌, ◌++◌, if◌then◌else◌, ltb,
  nat_beq, keep, contains, all, add, insert, sort_by,
}
use ingress_nginx_gateway_br.Text.{Text, text_key, codes, is_empty, text_lt}
use ingress_nginx_gateway_br.Api.{Ingress, IngressRule, HttpIngressPath, Backend, get_text}
use ingress_nginx_gateway_br.Gateway.Hosts.{clean_host}
use ingress_nginx_gateway_br.Annotations.{ann_canary}
use ingress_nginx_gateway_br.Controller.Selection.{annotation_bool}

-- `isCanaryIngress`
unfoldable pub is_canary_ingress : Ingress → Bool
is_canary_ingress ing = annotation_bool (get_text ann_canary ing.annotations)

-- The key of a host and a path, which a zero byte separates.
unfoldable pub footprint : Text → Text → Text
footprint host path = host ++ 0 ∷ (if is_empty path then codes "/" else path)

unfoldable pub path_footprints : Text → List HttpIngressPath → List Text → List Text
path_footprints host [] set = set
path_footprints host (path ∷ paths) set =
    path_footprints host paths (add (footprint host path.path) set)

abbrev rule_footprints : Text → Option (List HttpIngressPath) → List Text → List Text
rule_footprints host none set = set
rule_footprints host (some paths) set = path_footprints (clean_host host) paths set

unfoldable pub rules_footprints : List IngressRule → List Text → List Text
rules_footprints [] set = set
rules_footprints (rule ∷ rules) set =
    rules_footprints rules (rule_footprints rule.host rule.http set)

abbrev default_footprint : Option Backend → List Text → List Text
default_footprint none set = set
default_footprint (some backend) set = add (footprint [] (codes "/")) set

-- `ingressSpecRouteFootprints`
unfoldable pub spec_route_footprints : Ingress → List Text
spec_route_footprints ing = default_footprint ing.default_backend (rules_footprints ing.rules [])

-- `footprintsContain`
unfoldable pub footprints_contain : List Text → List Text → Bool
footprints_contain primary canary = all (λ footprint. contains footprint primary) canary

-- The order of the candidates: by creation time, then by name.
unfoldable pub older : Ingress → Ingress → Bool
older left right =
    if nat_beq left.created right.created
    then text_lt left.name right.name
    else ltb left.created right.created

-- `primaries`
unfoldable pub primaries_of : List Ingress → List Ingress
primaries_of ingresses = keep (λ ing. not (is_canary_ingress ing)) ingresses

-- The primaries that have all footprints of the canary, the oldest one first.
unfoldable pub candidates_for : List Ingress → Ingress → List Ingress
candidates_for ingresses canary = sort_by older (
    keep
      (λ primary. footprints_contain (spec_route_footprints primary) (spec_route_footprints canary))
      (primaries_of ingresses))

abbrev pub first_of : List Ingress → Option Ingress
first_of [] = none
first_of (ing ∷ ings) = some ing

abbrev pub no_texts : List Text → Bool
no_texts [] = true
no_texts (text ∷ texts) = false

-- The primary of one Ingress, if it is a canary that has footprints.
unfoldable pub primary_for : List Ingress → Ingress → Option Ingress
primary_for ingresses canary =
    if not (is_canary_ingress canary) || no_texts (spec_route_footprints canary)
    then none
    else first_of (candidates_for ingresses canary)

abbrev assign : Text → Option Ingress → List (Text × Text) → List (Text × Text)
assign canary none assigned = assigned
assign canary (some primary) assigned = insert canary primary.name assigned

unfoldable pub assign_all : List Ingress → List Ingress → List (Text × Text) → List (Text × Text)
assign_all ingresses [] assigned = assigned
assign_all ingresses (ing ∷ rest) assigned =
    assign_all ingresses rest (assign ing.name (primary_for ingresses ing) assigned)

-- `canaryAssignments`: the name of each canary, with its primary's.
unfoldable pub canary_assignments : List Ingress → List (Text × Text)
canary_assignments ingresses = assign_all ingresses ingresses []

-- The functions above, for the tests.
unfoldable pub canary_functions : Unit {0}
unfolding annotation_bool is_canary_ingress footprint path_footprints rules_footprints
    spec_route_footprints footprints_contain older primaries_of candidates_for primary_for
    assign_all canary_assignments keep all contains add insert sort_by get_text clean_host
canary_functions = tt
