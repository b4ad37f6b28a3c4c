-- ===== src/Translate/Settings.antt =====
-- The settings of the proxy in internal/translator/translate.go: `normalizeDuration`,
-- `buildProxySettingsSnippets`, which writes NGINX directives, and `buildProxyPolicy`, which fills a
-- ProxySettingsPolicy. Go walks over a map of the timeouts; their order here is that of the snippets.
use ingress_nginx_gateway_br.Common.{
  ℕ, Bool, true, false, not, ◌&&◌, Option, none, some, List, [], ◌∷◌, ◌++◌, if◌then◌else◌, leb,
  length, contains,
}
use ingress_nginx_gateway_br.Text.{Text, text_key, codes, is_empty, to_lower, trim_space}
use ingress_nginx_gateway_br.Naming.{dns_label}
use ingress_nginx_gateway_br.Api.{get_text}
use ingress_nginx_gateway_br.Types.{Issue}
use ingress_nginx_gateway_br.Gateway.Hosts.{error_issue}
use ingress_nginx_gateway_br.Annotations.{
  ann_proxy_connect_timeout, ann_proxy_read_timeout, ann_proxy_send_timeout, ann_proxy_buffering,
  ann_proxy_buffer_size,
}
use ingress_nginx_gateway_br.Translate.Values.{parse_nginx_bool}

abbrev is_digit : ℕ → Bool
is_digit c = leb b'0' c && leb c b'9'

-- The digits at the start, and the rest.
unfoldable pub span_digits : Text → Text × Text
span_digits [] = ([], [])
span_digits (c ∷ s) =
    let (digits, rest) = span_digits s in if is_digit c then (c ∷ digits, rest) else ([], c ∷ s)

-- One to four digits and one of the units, or none: `nginxSizePattern` and `nginxDurationPattern`.
unfoldable pub is_quantity : List Text → Text → Bool
is_quantity units value =
    let (digits, rest) = span_digits value in
    leb 1 (length digits) && (leb (length digits) 4 && contains rest ([] ∷ units))

unfoldable pub is_nginx_size : Text → Bool
is_nginx_size value = is_quantity (codes "k" ∷ codes "m" ∷ codes "g" ∷ []) value

unfoldable pub is_nginx_duration : Text → Bool
is_nginx_duration value = is_quantity (codes "ms" ∷ codes "s" ∷ codes "m" ∷ codes "h" ∷ []) value

-- `normalizeDuration`: a number without a unit counts seconds.
unfoldable pub normalize_duration : Text → Option Text
normalize_duration raw =
    let value = to_lower (trim_space raw) in
    if not (is_nginx_duration value)
    then none
    else some (if is_empty (span_digits value).1 then value ++ codes "s" else value)

abbrev bool_message : Text
bool_message = codes "value must be on/off or true/false"

abbrev duration_message : Text
duration_message = codes "value is not supported by NGF ProxySettingsPolicy"

-- What one step of `buildProxySettingsSnippets` appends to the snippets and to the issues.
abbrev pub timeout_step : Text → Text → Option Text → List Text × List Issue
timeout_step annotation directive none = ([], error_issue annotation duration_message ∷ [])
timeout_step annotation directive (some value) =
    ((directive ++ b' ' ∷ (value ++ codes ";")) ∷ [], [])

unfoldable pub timeout_snippet : List (Text × Text) → Text → Text → List Text × List Issue
timeout_snippet annotations annotation directive =
    let raw = trim_space (get_text annotation annotations) in
    if is_empty raw then ([], []) else timeout_step annotation directive (normalize_duration raw)

abbrev buffering_step : Option Bool → List Text × List Issue
buffering_step none = ([], error_issue ann_proxy_buffering bool_message ∷ [])
buffering_step (some true) = (codes "proxy_buffering on;" ∷ [], [])
buffering_step (some false) = (codes "proxy_buffering off;" ∷ [], [])

unfoldable pub buffering_snippet : List (Text × Text) → List Text × List Issue
buffering_snippet annotations =
    let raw = trim_space (get_text ann_proxy_buffering annotations) in
    if is_empty raw then ([], []) else buffering_step (parse_nginx_bool raw)

unfoldable pub buffer_size_snippet : List (Text × Text) → List Text × List Issue
buffer_size_snippet annotations =
    let value = to_lower (trim_space (get_text ann_proxy_buffer_size annotations)) in
    if is_empty value
    then ([], [])
    else if not (is_nginx_size value)
    then (
      [],
      error_issue ann_proxy_buffer_size (codes "value is not supported by NGINX proxy_buffer_size")
          ∷ [],
    )
    else (
      (codes "proxy_buffer_size " ++ (value ++ codes ";"))
          ∷ (codes "proxy_buffers 4 " ++ (value ++ codes ";"))
          ∷ [],
      [],
    )

abbrev pub appended : List Text × List Issue → List Text × List Issue → List Text × List Issue
appended (snippets, issues) (more, others) = (snippets ++ more, issues ++ others)

-- `buildProxySettingsSnippets`
unfoldable pub build_proxy_settings_snippets : List (Text × Text) → List Text × List Issue
build_proxy_settings_snippets annotations =
    appended (timeout_snippet annotations ann_proxy_connect_timeout (codes "proxy_connect_timeout"))
      (appended (timeout_snippet annotations ann_proxy_read_timeout (codes "proxy_read_timeout")) (
        appended (timeout_snippet annotations ann_proxy_send_timeout (codes "proxy_send_timeout"))
          (appended (buffering_snippet annotations) (buffer_size_snippet annotations))))

-- `ProxySettingsPolicySpec`; the buffers are four of `buffer_size`.
pub record ProxySettings : Type 0 where
  pub connect : Option Text
  pub read : Option Text
  pub send : Option Text
  pub disable_buffering : Option Bool
  pub buffer_size : Option Text

abbrev timeout_result : Text → Option Text → Option Text × List Issue
timeout_result annotation none = (none, error_issue annotation duration_message ∷ [])
timeout_result annotation (some value) = (some value, [])

-- One destination of the timeouts.
unfoldable pub read_timeout : List (Text × Text) → Text → Option Text × List Issue
read_timeout annotations annotation =
    let raw = trim_space (get_text annotation annotations) in
    if is_empty raw then (none, []) else timeout_result annotation (normalize_duration raw)

abbrev disable_result : Option Bool → Option Bool × List Issue
disable_result none = (none, error_issue ann_proxy_buffering bool_message ∷ [])
disable_result (some enabled) = (some (not enabled), [])

unfoldable pub read_disable : List (Text × Text) → Option Bool × List Issue
read_disable annotations =
    let raw = trim_space (get_text ann_proxy_buffering annotations) in
    if is_empty raw then (none, []) else disable_result (parse_nginx_bool raw)

unfoldable pub read_buffer_size : List (Text × Text) → Option Text × List Issue
read_buffer_size annotations =
    let raw = to_lower (trim_space (get_text ann_proxy_buffer_size annotations)) in
    if is_empty raw
    then (none, [])
    else if is_nginx_size raw
    then (some raw, [])
    else (none, error_issue ann_proxy_buffer_size duration_message ∷ [])

-- The settings that `buildProxyPolicy` reads.
unfoldable pub proxy_settings : List (Text × Text) → ProxySettings × List Issue
proxy_settings annotations =
    let (connect, connect_issues) = read_timeout annotations ann_proxy_connect_timeout in
    let (read, read_issues) = read_timeout annotations ann_proxy_read_timeout in
    let (send, send_issues) = read_timeout annotations ann_proxy_send_timeout in
    let (disable, disable_issues) = read_disable annotations in
    let (size, size_issues) = read_buffer_size annotations in
    (
      record {
        connect = connect;
        read = read;
        send = send;
        disable_buffering = disable;
        buffer_size = size;
      },
      connect_issues ++ (read_issues ++ (send_issues ++ (disable_issues ++ size_issues))),
    )

abbrev is_none : {A : Type 0} → Option A → Bool
is_none none = true
is_none (some _) = false

unfoldable pub is_unset : ProxySettings → Bool
is_unset settings =
    is_none settings.connect
    && (is_none settings.read
        && (is_none settings.send
            && (is_none settings.disable_buffering && is_none settings.buffer_size)))

-- A ProxySettingsPolicy for one route.
pub record ProxySettingsPolicy : Type 0 where
  pub name : Text
  pub target : Text
  pub settings : ProxySettings

-- `buildProxyPolicy`: no policy where nothing is set.
unfoldable pub build_proxy_policy :
    (Text → List ℕ) → List (Text × Text) → Text → Option ProxySettingsPolicy × List Issue
build_proxy_policy sha256 annotations route_name =
    let (settings, issues) = proxy_settings annotations in
    if is_unset settings then (none, issues) else (
      some (record {
        name = dns_label sha256 (route_name ∷ codes "proxy" ∷ []);
        target = route_name;
        settings = settings;
      }),
      issues,
    )

-- The functions above, for the tests.
unfoldable pub settings_functions : Unit {0}
unfolding span_digits is_quantity is_nginx_size is_nginx_duration normalize_duration timeout_snippet
    buffering_snippet buffer_size_snippet build_proxy_settings_snippets read_timeout read_disable
    read_buffer_size proxy_settings is_unset build_proxy_policy
settings_functions = tt
