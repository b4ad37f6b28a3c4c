-- ===== src/Types.antt =====
-- internal/translator/types.go: the options, issues and listener references of the translator.
use ingress_nginx_gateway_br.Common.{
  ℕ, Bool, true, false, ◌||◌, Option, List, [], ◌∷◌, if◌then◌else◌, leb, length,
}
use ingress_nginx_gateway_br.Text.{Text, codes}
use ingress_nginx_gateway_br.Naming.{dns_label}
use ingress_nginx_gateway_br.Api.{Ingress}

abbrev pub managed_by_label : Text
managed_by_label = codes "gateway.zyno.io/managed-by"

abbrev pub gateway_label : Text
gateway_label = codes "gateway.zyno.io/gateway"

abbrev pub source_name_label : Text
source_name_label = codes "gateway.zyno.io/source-name"

abbrev pub source_namespace_label : Text
source_namespace_label = codes "gateway.zyno.io/source-namespace"

abbrev pub controller_name : Text
controller_name = codes "ingress-nginx-gateway-bridge"

abbrev pub translation_status_label : Text
translation_status_label = codes "gateway.zyno.io/translation-status"

abbrev pub source_uid_label : Text
source_uid_label = codes "gateway.zyno.io/source-uid"

abbrev pub enabled_annotation : Text
enabled_annotation = codes "gateway.zyno.io/enabled"

abbrev pub ignore_annotation : Text
ignore_annotation = codes "gateway.zyno.io/ignore"

abbrev pub gateway_kind : Text
gateway_kind = codes "Gateway"

abbrev pub listener_set_kind : Text
listener_set_kind = codes "ListenerSet"

abbrev pub listener_set_index_label : Text
listener_set_index_label = codes "gateway.zyno.io/listener-set-index"

pub data Severity : Type 0 where
  error warning : Severity

-- `Field` names the annotation or the field; the message is the text of the source without the
-- values that it quotes.
pub record Issue : Type 0 where
  pub severity : Severity
  pub field : Text
  pub message : Text

-- `Issue.Fatal`
unfoldable pub issue_fatal : Issue → Bool
issue_fatal i = elim i.severity [ error ↦ true | warning ↦ false ]

-- `Plan.Fatal`, over the issues of a plan.
unfoldable pub fatal : List Issue → Bool
unfolding issue_fatal
fatal [] = false
fatal (i ∷ is) = issue_fatal i || fatal is

pub data ListenerKind : Type 0 where
  gateway listener_set : ListenerKind

-- `ListenerRef`, whose kind is `GatewayKind` or `ListenerSetKind`.
pub record ListenerRef : Type 0 where
  pub kind : ListenerKind
  pub name : Text
  pub section_name : Text

-- `GatewayOptions`; the flag `ManagedListeners` is read nowhere.
pub record GatewayOptions : Type 0 where
  pub namespace : Text
  pub name : Text
  pub http_section_name : Text
  pub https_section_name : Text
  pub tls_sections : List (Text × ListenerRef)

-- `Options`; `tls_hosts` is `none` for a nil map.
pub record Options : Type 0 where
  pub gateway : GatewayOptions
  pub tls_hosts : Option (List Text)
  pub allow_snippets : Bool
  pub strict : Bool
  pub settings_as_snippets : Bool
  pub canary_ingresses : List Ingress

module _ (sha256 : Text → List ℕ) where
  -- `SourceNameLabelValue`
  unfoldable pub source_name_label_value : Text → Text
  unfolding dns_label
  source_name_label_value name = if leb (length name) 63 then name else dns_label sha256 (name ∷ [])

  -- `GatewayLabelValue`
  unfoldable pub gateway_label_value : Text → Text → Text
  unfolding dns_label
  gateway_label_value namespace name = dns_label sha256 (namespace ∷ name ∷ [])
