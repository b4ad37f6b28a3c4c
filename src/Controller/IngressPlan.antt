-- ===== src/Controller/IngressPlan.antt =====
-- The plan of an Ingress in `Reconcile` of internal/controller/ingress_controller.go: what a canary gives,
-- the options of a translation, and the objects of a plan.
use ingress_nginx_gateway_br.Common.{
  Bool, Option, none, some, List, [], ◌∷◌, ◌++◌, if◌then◌else◌, lookup, keep, sort_by,
}
use ingress_nginx_gateway_br.Text.{Text, text_key, text_eq, text_lt, codes}
use ingress_nginx_gateway_br.Api.{NamespacedName, name_key, Ingress, get_text}
use ingress_nginx_gateway_br.Types.{Issue, error, warning, fatal, Options}
use ingress_nginx_gateway_br.Annotations.{ann_canary}
use ingress_nginx_gateway_br.Gateway.Emission.{GatewayPlan}
use ingress_nginx_gateway_br.Translate.Checks.{validate_canary}
use ingress_nginx_gateway_br.Controller.Selection.{Config}
use ingress_nginx_gateway_br.Controller.Cluster.{Object}
use ingress_nginx_gateway_br.Controller.TranslationStatus.{Plan}

-- `planObjects`
unfoldable pub plan_objects : Plan → List Object
plan_objects plan =
    plan.http_routes
    ++ (plan.backend_tls_policies
        ++ (plan.client_settings_policies
            ++ (plan.proxy_settings_policies
                ++ (plan.authentication_filters ++ plan.snippets_filters))))

-- What is applied: nothing where the plan is fatal.
unfoldable pub desired_objects : Plan → List Object
desired_objects plan = if fatal plan.issues then [] else plan_objects plan

-- A plan without objects.
abbrev pub routeless : List Issue → Text → Plan
routeless issues delegated_to = record {
  http_routes = [];
  backend_tls_policies = [];
  client_settings_policies = [];
  proxy_settings_policies = [];
  authentication_filters = [];
  snippets_filters = [];
  issues = issues;
  delegated_to = delegated_to;
}

-- The plan of a canary, from the primary that it is assigned to.
unfoldable pub canary_plan : Ingress → Option Text → Plan
canary_plan ing none =
    routeless
      (validate_canary ing
        ++ record {
          severity = error;
          field = ann_canary;
          message =
              codes
                "canary Ingress has no corresponding selected primary Ingress with the same hostname and paths";
        }
          ∷ [])
      []
canary_plan ing (some primary) =
    routeless
      (validate_canary ing
        ++ record {
          severity = warning;
          field = ann_canary;
          message = codes "canary routing is consolidated into primary Ingress";
        }
          ∷ [])
      primary

-- The canaries that are merged into an Ingress, by name.
unfoldable pub merged_canaries : Ingress → List Ingress → List (Text × Text) → List Ingress
merged_canaries ing ingresses assignments =
    sort_by (λ a b. text_lt a.name b.name)
      (keep (λ candidate. text_eq (get_text candidate.name assignments) ing.name) ingresses)

-- The options of a translation; the plan of the Gateway is missing where it is not managed.
unfoldable pub translate_options : Config → Option GatewayPlan → List Ingress → Bool → Options
translate_options config gateway_plan canaries settings_as_snippets = record {
  gateway = record {
    namespace = config.gateway_namespace;
    name = config.gateway_name;
    http_section_name = config.http_section_name;
    https_section_name = config.https_section_name;
    tls_sections = elim gateway_plan [ none ↦ [] | some plan ↦ plan.tls_sections ];
  };
  tls_hosts = elim gateway_plan [ none ↦ none | some plan ↦ some plan.tls_hosts ];
  allow_snippets = config.allow_snippets;
  strict = config.strict;
  settings_as_snippets = settings_as_snippets;
  canary_ingresses = canaries;
}

-- `plan.Issues = append(plan.Issues, gatewayPlan.Issues[request]...)`
unfoldable pub with_gateway_issues : NamespacedName → Option GatewayPlan → Plan → Plan
with_gateway_issues key none plan = plan
with_gateway_issues key (some gateway_plan) plan = record plan {
  issues =
      plan.issues ++ (elim (lookup key gateway_plan.issues) [ none ↦ [] | some issues ↦ issues ]);
}

-- The functions above, for the tests.
unfoldable pub ingress_plan_functions : Unit {0}
unfolding plan_objects desired_objects canary_plan merged_canaries translate_options
    with_gateway_issues
ingress_plan_functions = tt
