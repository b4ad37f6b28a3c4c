-- ===== src/Tests/Served.antt =====
-- The reconciliation of an Ingress that is served, with the translation of the library.
use ingress_nginx_gateway_br.Common.{
  ◌≡◌, refl, ap, sym, some_inj, inl, true, none, some, List, [], ◌∷◌, Memᴰ,
}
use ingress_nginx_gateway_br.Text.{codes, text_functions}
use ingress_nginx_gateway_br.Api.{Ingress}
use ingress_nginx_gateway_br.Types.{fatal, issue_fatal}
use ingress_nginx_gateway_br.Annotations.{ann_backend_protocol, ann_proxy_read_timeout}
use ingress_nginx_gateway_br.Gateway.Hosts.{clean_host}
use ingress_nginx_gateway_br.Gateway.Refs.{itoa}
use ingress_nginx_gateway_br.Translate.Values.{values_functions}
use ingress_nginx_gateway_br.Translate.Checks.{checks_functions}
use ingress_nginx_gateway_br.Translate.BackendTls.{backend_functions}
use ingress_nginx_gateway_br.Translate.Hosts.{collect_functions}
use ingress_nginx_gateway_br.Translate.Settings.{settings_functions}
use ingress_nginx_gateway_br.Translate.Cors.{cors_functions}
use ingress_nginx_gateway_br.Translate.Rules.{rule_functions}
use ingress_nginx_gateway_br.Translate.ExternalAuth.{auth_functions}
use ingress_nginx_gateway_br.Translate.Snippets.{snippet_functions}
use ingress_nginx_gateway_br.Translate.Policies.{policy_functions}
use ingress_nginx_gateway_br.Translate.Attach.{attach_functions}
use ingress_nginx_gateway_br.Translate.Compose.{compose_functions}
use ingress_nginx_gateway_br.Translate.Whole.{whole_functions}
use ingress_nginx_gateway_br.Controller.Selection.{Config, selected, selected_by_class}
use ingress_nginx_gateway_br.Controller.Canary.{canary_functions}
use ingress_nginx_gateway_br.Controller.Observed.{found, not_found, observed_functions}
use ingress_nginx_gateway_br.Controller.Cluster.{Object, http_route, cluster_functions}
use ingress_nginx_gateway_br.Controller.Apply.{apply_functions}
use ingress_nginx_gateway_br.Controller.Pruned.{is_owned}
use ingress_nginx_gateway_br.Controller.Footprints.{footprint_functions}
use ingress_nginx_gateway_br.Controller.TranslationStatus.{
  IngressObject, Plan, translation_status_functions,
}
use ingress_nginx_gateway_br.Controller.Mirror.{mirror_functions}
use ingress_nginx_gateway_br.Controller.IngressPlan.{routeless, ingress_plan_functions}
use ingress_nginx_gateway_br.Controller.Reconcile.{
  Environment, plan_ingress, reconcile, reconcile_functions,
}
use ingress_nginx_gateway_br.Controller.Translated.{
  Translator, with_translator, translated_functions,
}
use ingress_nginx_gateway_br.Controller.Overlapping.{HasNoSettings, translating, plan_ingress-share}
use ingress_nginx_gateway_br.Controller.ManagedPlan.{planned_ingresses}
use ingress_nginx_gateway_br.Tests.Samples.{ingress, toy_sha256}
use ingress_nginx_gateway_br.Tests.Server.{shown, list_server-IsServer, server_functions}
use ingress_nginx_gateway_br.Controller.RoutingFrame.{key_of, IsKeepingKeys}
use ingress_nginx_gateway_br.Controller.Unsupported.{reconcile-IsWithdrawn}
use ingress_nginx_gateway_br.Tests.Clusters.{
  generated, environment-IsApart, empty_environment, plain_config, held, nothing_known,
}
use ingress_nginx_gateway_br.Tests.Routes.{numbered_path}

-- A translator whose packages refuse everything, and whose documents are names.
abbrev toy_translator : Translator (List Object)
toy_translator = record {
  parse_url = λ raw. none;
  parse_prefix = λ raw. none;
  is_subdomain = λ name. true;
  documents = record {
    of_route = λ route. route.name;
    of_backend_tls = λ policy. policy.name;
    of_client_settings = λ policy. policy.name;
    of_proxy_settings = λ policy. policy.name;
    of_authentication = λ filter. filter.name;
    of_snippets = λ filter. filter.name;
  };
  get_service = λ s key. not_found;
  get_config_map = λ s key. not_found;
}

-- An Ingress with one path of one host, to an HTTPS backend.
abbrev cart_ingress : Ingress
cart_ingress =
    record (ingress (codes "shop") []
      (record { host = codes "a.dev"; http = some (numbered_path ∷ []) } ∷ [])) {
        annotations = (ann_backend_protocol, codes "https") ∷ [];
      }

abbrev cart_object : IngressObject
cart_object = record { ingress = cart_ingress; generation = 1; finalizers = []; addresses = [] }

abbrev classless_config : Config
classless_config = record plain_config { watch_ingress_without_class = true }

abbrev cart_environment : Environment (List Object)
cart_environment = record empty_environment {
  reads = record empty_environment.reads {
    list_ingresses = λ s namespace. some (cart_ingress ∷ []);
  };
  get_ingress = λ s key. found cart_object;
}

served_functions : Unit {0}
unfolding text_functions values_functions checks_functions backend_functions collect_functions
    cors_functions rule_functions settings_functions auth_functions snippet_functions
    policy_functions attach_functions compose_functions whole_functions fatal issue_fatal clean_host
    cluster_functions apply_functions reconcile_functions server_functions observed_functions
    translated_functions ingress_plan_functions translation_status_functions mirror_functions
    footprint_functions canary_functions selected selected_by_class planned_ingresses toy_sha256
    itoa is_owned
served_functions = tt

-- Another Ingress of the same host and path, with a timeout of its own.
abbrev market_ingress : Ingress
market_ingress = record cart_ingress {
  name = codes "market";
  annotations = (ann_proxy_read_timeout, codes "9") ∷ [];
}

abbrev sharing : List Ingress
sharing = cart_ingress ∷ market_ingress ∷ []

abbrev sharing_environment : Environment (List Object)
sharing_environment = record empty_environment {
  reads = record empty_environment.reads { list_ingresses = λ s namespace. some sharing };
}

abbrev plan_for : Ingress → Plan
plan_for ing =
    elim (plan_ingress (translating sharing_environment toy_translator classless_config)
      classless_config ing none sharing held) [ none ↦ routeless [] [] | some plan ↦ plan ]

plan_ingress-share_example :
    HasNoSettings (plan_for cart_ingress) × HasNoSettings (plan_for market_ingress)
unfolding served_functions
plan_ingress-share_example =
    plan_ingress-share sharing_environment toy_translator classless_config cart_ingress
      market_ingress none sharing sharing held (plan_for cart_ingress) (plan_for market_ingress)
      refl refl (Memᴰ.head refl) (Memᴰ.tail (Memᴰ.head refl)) refl refl refl refl refl

-- An Ingress with a backend protocol that the library does not know, whose route stands.
abbrev odd_ingress : Ingress
odd_ingress = record cart_ingress { annotations = (ann_backend_protocol, codes "grpc") ∷ [] }

abbrev odd_object : IngressObject
odd_object = record { ingress = odd_ingress; generation = 2; finalizers = []; addresses = [] }

abbrev odd_environment : Environment (List Object)
odd_environment = record empty_environment {
  reads = record empty_environment.reads {
    list_ingresses = λ s namespace. some (odd_ingress ∷ []);
  };
  get_ingress = λ s key. found odd_object;
}

own-IsKeepingKeys : IsKeepingKeys empty_environment.own
own-IsKeepingKeys ing object owned e = ap (λ o. o.key) (sym (some_inj e))

reconcile-IsWithdrawn_example :
    shown
      (reconcile
        (with_translator toy_translator odd_environment)
        classless_config
        (key_of odd_ingress)
        (nothing_known, held)).1.1
      (generated http_route (codes "old")).key
    ≡ none
unfolding served_functions
reconcile-IsWithdrawn_example =
    reconcile-IsWithdrawn toy_translator odd_environment classless_config shown shown
      list_server-IsServer environment-IsApart own-IsKeepingKeys odd_object nothing_known held
      (generated http_route (codes "old")) refl refl refl refl (inl refl) refl refl refl refl
