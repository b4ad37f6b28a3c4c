-- ===== src/Translate/Snippets.antt =====
-- `buildSnippets` and `buildBasicAuth` in internal/translator/translate.go. Go visits the two raw
-- snippets in any order; here the one of the server comes first.
use ingress_nginx_gateway_br.Common.{
  ℕ, Bool, true, false, not, ◌&&◌, ◌||◌, Option, none, some, List, [], ◌∷◌, ◌++◌, if◌then◌else◌,
}
use ingress_nginx_gateway_br.Text.{Text, text_eq, codes, is_empty, to_lower, trim_space, has_byte}
use ingress_nginx_gateway_br.Naming.{dns_label}
use ingress_nginx_gateway_br.Api.{get_text}
use ingress_nginx_gateway_br.Types.{Issue}
use ingress_nginx_gateway_br.Gateway.Hosts.{error_issue}
use ingress_nginx_gateway_br.Annotations.{
  ann_auth_snippet, ann_auth_url, ann_proxy_request_buffering, ann_proxy_body_size,
  ann_server_snippet, ann_configuration_snippet, ann_auth_type, ann_auth_secret, ann_auth_realm,
}
use ingress_nginx_gateway_br.Translate.Values.{parse_nginx_bool}
use ingress_nginx_gateway_br.Translate.Settings.{is_nginx_size}
use ingress_nginx_gateway_br.Translate.ExternalAuth.{
  Url, AuthResult, auth_error, auth_snippets, external_auth_snippets,
}

-- What one step adds: snippets of the server, snippets of the location, and issues.
pub record SnippetParts : Type 0 where
  pub server : List Text
  pub location : List Text
  pub issues : List Issue

abbrev pub no_parts : SnippetParts
no_parts = record { server = []; location = []; issues = [] }

abbrev pub issue_part : Text → Text → SnippetParts
issue_part field message = record {
  server = [];
  location = [];
  issues = error_issue field message ∷ [];
}

abbrev pub joined : SnippetParts → SnippetParts → SnippetParts
joined a b = record {
  server = a.server ++ b.server;
  location = a.location ++ b.location;
  issues = a.issues ++ b.issues;
}

abbrev disabled_message : Text
disabled_message =
    codes
      "raw snippets are disabled; start the controller with --allow-snippets only after reviewing the source"

-- The raw snippet of the authentication, which is dropped with an issue where it may not be used.
unfoldable pub read_auth_snippet : List (Text × Text) → Bool → Text × List Issue
read_auth_snippet annotations allow_raw =
    let snippet = trim_space (get_text ann_auth_snippet annotations) in
    if is_empty snippet
    then ([], [])
    else if is_empty (trim_space (get_text ann_auth_url annotations))
    then ([], error_issue ann_auth_snippet (codes "auth-snippet requires auth-url") ∷ [])
    else if not allow_raw
    then ([], error_issue ann_auth_snippet disabled_message ∷ [])
    else (snippet, [])

abbrev buffering_part : Option Bool → SnippetParts
buffering_part none =
    issue_part ann_proxy_request_buffering (codes "value must be on/off or true/false")
buffering_part (some true) = no_parts
buffering_part (some false) = record {
  server = [];
  location = codes "proxy_request_buffering off;" ∷ [];
  issues = [];
}

unfoldable pub request_buffering : List (Text × Text) → SnippetParts
request_buffering annotations =
    let raw = trim_space (get_text ann_proxy_request_buffering annotations) in
    if is_empty raw then no_parts else buffering_part (parse_nginx_bool raw)

abbrev auth_part : AuthResult → SnippetParts
auth_part (auth_error field) =
    issue_part field (codes "the external authentication is not supported")
auth_part (auth_snippets server location) = record {
  server = server ∷ [];
  location = location ∷ [];
  issues = [];
}

-- A raw snippet of the server or of the location.
unfoldable pub raw_part : List (Text × Text) → Bool → Text → Bool → SnippetParts
raw_part annotations allow_raw annotation in_server =
    let raw = trim_space (get_text annotation annotations) in
    if is_empty raw
    then no_parts
    else if not allow_raw
    then issue_part annotation disabled_message
    else if in_server
    then record { server = raw ∷ []; location = []; issues = [] }
    else record { server = []; location = raw ∷ []; issues = [] }

-- `strings.Join(lines, "\n") + "\n"`
unfoldable pub join_lines : List Text → Text
join_lines [] = []
join_lines (line ∷ lines) = line ++ 10 ∷ join_lines lines

-- A SnippetsFilter; a context without lines has no snippet.
pub record SnippetsFilter : Type 0 where
  pub name : Text
  pub server : Option Text
  pub location : Option Text

abbrev text_of : List Text → Option Text
text_of [] = none
text_of (line ∷ lines) = some (join_lines (line ∷ lines))

abbrev is_nil : List Text → Bool
is_nil [] = true
is_nil (_ ∷ _) = false

-- No filter where nothing is written.
unfoldable pub filter_of : (Text → List ℕ) → Text → SnippetParts → Option SnippetsFilter
filter_of sha256 route_name parts =
    if is_nil parts.server && is_nil parts.location
    then none
    else some (record {
      name = dns_label sha256 (route_name ∷ codes "compat" ∷ []);
      server = text_of parts.server;
      location = text_of parts.location;
    })

module _ (sha256 : Text → List ℕ) (parse_url : Text → Option Url) where
  unfoldable pub external_auth :
      Text → List (Text × Text) → Text → List (Text × Text) → SnippetParts
  external_auth route_name annotations snippet headers =
      let url = trim_space (get_text ann_auth_url annotations) in
      let size = to_lower (trim_space (get_text ann_proxy_body_size annotations)) in
      if is_empty url
      then no_parts
      else auth_part (
          external_auth_snippets sha256 parse_url route_name url annotations snippet headers
            (if is_nginx_size size then size else []))

  -- Everything that is written for a route, with the issues.
  unfoldable pub snippet_parts :
      List (Text × Text) → Text → List Text → List (Text × Text) → Bool → SnippetParts
  snippet_parts annotations route_name generated headers allow_raw =
      let (auth_snippet, auth_issues) = read_auth_snippet annotations allow_raw in
      joined (record { server = []; location = generated; issues = auth_issues })
        (joined (request_buffering annotations) (
          joined (external_auth route_name annotations auth_snippet headers) (
            joined (raw_part annotations allow_raw ann_server_snippet true)
              (raw_part annotations allow_raw ann_configuration_snippet false))))

  -- `buildSnippets`
  unfoldable pub build_snippets :
      List (Text × Text)
      → Text
      → List Text
      → List (Text × Text)
      → Bool
      → Option SnippetsFilter × List Issue
  build_snippets annotations route_name generated headers allow_raw =
      let parts = snippet_parts annotations route_name generated headers allow_raw in
      (filter_of sha256 route_name parts, parts.issues)

-- An AuthenticationFilter of type Basic.
pub record BasicAuth : Type 0 where
  pub name : Text
  pub secret : Text
  pub realm : Text

module _ (sha256 : Text → List ℕ) where
  -- `buildBasicAuth`
  unfoldable pub build_basic_auth : List (Text × Text) → Text → Option BasicAuth × List Issue
  build_basic_auth annotations route_name =
      let kind = to_lower (trim_space (get_text ann_auth_type annotations)) in
      let secret = trim_space (get_text ann_auth_secret annotations) in
      let realm = trim_space (get_text ann_auth_realm annotations) in
      if is_empty kind && is_empty secret
      then (none, [])
      else if not (is_empty (get_text ann_auth_url annotations))
      then (
        none,
        error_issue ann_auth_type
              (codes "basic auth and external auth cannot be enabled on the same Ingress")
            ∷ [],
      )
      else if not (text_eq kind (codes "basic"))
      then (none, error_issue ann_auth_type (codes "authentication type is not supported") ∷ [])
      else if is_empty secret || has_byte b'/' secret
      then (
        none,
        error_issue ann_auth_secret
              (codes "auth-secret must name a Secret in the Ingress namespace")
            ∷ [],
      )
      else (
        some (record {
          name = dns_label sha256 (route_name ∷ codes "basic-auth" ∷ []);
          secret = secret;
          realm = if is_empty realm then codes "Authentication Required" else realm;
        }),
        [],
      )

-- The functions above, for the tests.
unfoldable pub snippet_functions : Unit {0}
unfolding read_auth_snippet request_buffering raw_part join_lines filter_of external_auth
    snippet_parts build_snippets build_basic_auth
snippet_functions = tt
