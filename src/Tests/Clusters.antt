-- ===== src/Tests/Clusters.antt =====
-- Reconciliations against a small server.
use ingress_nginx_gateway_br.Common.{inl, any, ◌≡◌, refl, true, false, none, some, List, [], ◌∷◌}
use ingress_nginx_gateway_br.Text.{Text, text_key, codes, text_functions}
use ingress_nginx_gateway_br.Api.{NamespacedName, name_key}
use ingress_nginx_gateway_br.Types.{managed_by_label}
use ingress_nginx_gateway_br.Controller.Selection.{Config}
use ingress_nginx_gateway_br.Controller.Observed.{not_found, observed_functions}
use ingress_nginx_gateway_br.Controller.ParentStatus.{condition_true}
use ingress_nginx_gateway_br.Controller.Readiness.{ready}
use ingress_nginx_gateway_br.Controller.Cluster.{
  Kind, http_route, snippets_filter, ObjectKey, object_key_key, Object, document, cluster_functions,
}
use ingress_nginx_gateway_br.Controller.Apply.{source_labels, apply_functions}
use ingress_nginx_gateway_br.Controller.Pruned.{is_owned}
use ingress_nginx_gateway_br.Controller.ManagedPlan.{Memory}
use ingress_nginx_gateway_br.Controller.TranslationStatus.{TranslationStatus}
use ingress_nginx_gateway_br.Controller.StatusFrame.{IsApart}
use ingress_nginx_gateway_br.Controller.IngressPlan.{routeless}
use ingress_nginx_gateway_br.Controller.Reconcile.{Environment, reconcile, reconcile_functions}
use ingress_nginx_gateway_br.Controller.Untouched.{idle, elapse, request, reconcile-Keeps}
use ingress_nginx_gateway_br.Controller.Released.{reconcile-IsReleased}
use ingress_nginx_gateway_br.Tests.Samples.{toy_sha256}
use ingress_nginx_gateway_br.Tests.Server.{
  shown, list_server, list_server-IsServer, server_functions,
}
use ingress_nginx_gateway_br.Tests.Caches.{toy_json}
use ingress_nginx_gateway_br.Tests.Controllers.{edge_config}

abbrev no_status : TranslationStatus
no_status = record {
  observed_generation = 0;
  translated = condition_true;
  ready_status = condition_true;
  generated_resources = [];
  issues = [];
}

-- No Ingress and no Secret exists, and every patch succeeds.
abbrev pub empty_environment : Environment (List Object)
empty_environment = record {
  sha256 = toy_sha256;
  json = toy_json;
  capacity = some 8;
  client = list_server;
  reads = record { list_ingresses = λ s namespace. some []; get_secret = λ s key. not_found };
  writes = record {
    patch_ingress = λ s object. (true, s);
    patch_ingress_status = λ s object. (true, s);
    patch_status = λ s key status. (true, s);
    held_status = λ s key. no_status;
    same_status = λ a b. false;
    same_addresses = λ a b. false;
  };
  get_ingress = λ s key. not_found;
  own = λ ing object. some object;
  translate = λ s ing options. routeless [] [];
  generated_ready = λ s objects. ready;
  primary_generation = λ s key. not_found;
  primary_status = λ s key. not_found;
  gateway_status = λ s. not_found;
}

pub environment-IsApart : IsApart empty_environment.writes shown shown
environment-IsApart = record {
  ingress_apart = λ s object key. (refl, inl refl);
  ingress_status_apart = λ s object key. (refl, inl refl);
  status_apart = λ s translation status key. (refl, inl refl);
}

abbrev pub plain_config : Config
plain_config = record edge_config { manage_gateway = false }

abbrev shop : NamespacedName
shop = record { namespace = codes "web"; name = codes "shop" }

abbrev key_of : Kind → Text → ObjectKey
key_of kind name = record { kind = kind; namespace = codes "web"; name = name }

-- An object of the bridge for the Ingress shop, and one that somebody else made.
abbrev pub generated : Kind → Text → Object
generated kind name = record {
  key = key_of kind name;
  labels = source_labels toy_sha256 shop;
  content = document (codes "generated");
}

abbrev handmade : Object
handmade = record {
  key = key_of http_route (codes "mine");
  labels = (managed_by_label, codes "me") ∷ [];
  content = document (codes "handmade");
}

abbrev pub held : List Object
held = generated http_route (codes "old") ∷ handmade ∷ generated snippets_filter (codes "s") ∷ []

abbrev pub nothing_known : Memory
nothing_known = record { listener_placements = none; certificates = []; affected_ingresses = [] }

-- Two requests, with a pause between them.
reconcile-Keeps_example :
    shown
      (reconcile empty_environment plain_config shop
        (reconcile empty_environment plain_config shop (nothing_known, held)).1).1.1
      handmade.key
    ≡ some handmade
unfolding text_functions cluster_functions
reconcile-Keeps_example =
    reconcile-Keeps empty_environment plain_config shown shown list_server-IsServer
      environment-IsApart (nothing_known, held)
      (reconcile empty_environment plain_config shop
        (reconcile empty_environment plain_config shop (nothing_known, held)).1).1
      handmade (request shop (elapse (refl, inl refl) (request shop idle))) refl refl refl

reconcile-IsReleased_example :
    shown
      (reconcile empty_environment plain_config shop (nothing_known, held)).1.1
      (generated http_route (codes "old")).key
    ≡ none
unfolding text_functions cluster_functions apply_functions reconcile_functions server_functions
    observed_functions toy_sha256 is_owned any
reconcile-IsReleased_example =
    reconcile-IsReleased empty_environment plain_config shown shown list_server-IsServer
      environment-IsApart shop nothing_known held (generated http_route (codes "old")) refl refl
      refl refl refl refl refl
