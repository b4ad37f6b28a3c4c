-- ===== src/Translate/ExternalAuth.antt =====
-- `externalAuthSnippets` in internal/translator/translate.go: the NGINX configuration of an external
-- authentication. `url.Parse` is a parameter.
use ingress_nginx_gateway_br.Common.{
  ℕ, Bool, true, false, not, ◌&&◌, ◌||◌, Option, none, some, List, [], ◌∷◌, ◌++◌, map,
  if◌then◌else◌, lookup, keys, contains, nat_beq, leb, sort_by,
}
use ingress_nginx_gateway_br.Text.{
  Text, text_key, text_eq, text_lt, codes, is_empty, to_lower, trim_space, contains_any, has_byte,
  has_prefix, sort_texts,
}
use ingress_nginx_gateway_br.Naming.{dns_label}
use ingress_nginx_gateway_br.Api.{get_text}
use ingress_nginx_gateway_br.Annotations.{
  ann_auth_url, ann_auth_method, ann_auth_request_redirect, ann_auth_response_headers,
  ann_auth_signin,
}
use ingress_nginx_gateway_br.Translate.Values.{split_csv, valid_header_name}
use ingress_nginx_gateway_br.Translate.Rules.{is_unsafe}

-- `url.URL`: `text` is its `String` and `hostname` its `Hostname`.
pub record Url : Type 0 where
  pub scheme : Text
  pub host : Text
  pub hostname : Text
  pub has_user : Bool
  pub text : Text

-- An error names its annotation; otherwise the snippets of the server and of the location.
pub data AuthResult : Type 0 where
  auth_error : Text → AuthResult
  auth_snippets : Text → Text → AuthResult

unfoldable pub replace_by : (ℕ → Bool) → ℕ → Text → Text
replace_by p by [] = []
replace_by p by (c ∷ s) = (if p c then by else c) ∷ replace_by p by s

-- `nginxVariablePattern.ReplaceAllString(strings.ToLower(header), "_")`
unfoldable pub variable_of : Text → Text
variable_of header =
    replace_by (λ c. not (leb b'a' c && leb c b'z' || (leb b'0' c && leb c b'9' || nat_beq c b'_')))
      b'_' (to_lower header)

-- `strings.Contains`
unfoldable pub has_text : Text → Text → Bool
has_text [] part = is_empty part
has_text (c ∷ s) part = has_prefix (c ∷ s) part || has_text s part

-- The URL, where it is absolute, of HTTP or HTTPS, and safe to write.
abbrev safe_url : Text → Option Url → Option Url
safe_url raw none = none
safe_url raw (some url) =
    if is_empty url.host
      || (not (text_eq url.scheme (codes "http") || text_eq url.scheme (codes "https"))
          || (url.has_user || (is_unsafe raw || has_byte b'$' raw)))
    then none
    else some url

abbrev pub Overrides : Type 0
Overrides = List (Text × (Text × Text))

abbrev add_override : Text → Text → Bool → Overrides → Option Overrides
add_override name value true overrides = none
add_override name value false overrides = some (
    overrides
    ++ (to_lower name, (name, if is_empty (trim_space value) then codes "\"\"" else value)) ∷ [])

abbrev is_taken : Text → Overrides → Bool
is_taken name overrides = contains (to_lower name) (keys overrides)

-- The loop that collects the headers of the ConfigMap, by name; `none` is an error.
unfoldable pub collect_overrides : List (Text × Text) → Overrides → List Text → Option Overrides
collect_overrides headers overrides [] = some overrides
collect_overrides headers overrides (name ∷ names) =
    let value = get_text name headers in
    elim (add_override name value
      (not (valid_header_name name) || (is_unsafe value || is_taken name overrides)) overrides) [
        | none ↦ none
        | some more ↦ collect_overrides headers more names
      ]

abbrev header_line : Text → Text → Text
header_line name value = codes "  proxy_set_header " ++ (name ++ b' ' ∷ (value ++ codes ";\n"))

unfoldable pub drop_override : Text → Overrides → Overrides
drop_override name [] = []
drop_override name ((key, override) ∷ overrides) =
    let rest = drop_override name overrides in
    if text_eq key name then rest else (key, override) ∷ rest

-- `writeHeader` for each header in turn: an override replaces the value and is used up.
unfoldable pub write_headers : List (Text × Text) → Overrides → Text × Overrides
write_headers [] overrides = ([], overrides)
write_headers ((name, value) ∷ headers) overrides =
    let (lines, left) = write_headers headers (drop_override (to_lower name) overrides) in
    elim (lookup (to_lower name) overrides) [
      | none ↦ (header_line name value ++ lines, left)
      | some (_, replaced) ↦ (header_line name replaced ++ lines, left)
    ]

unfoldable pub remaining_lines : List (Text × Text) → Text
remaining_lines [] = []
remaining_lines ((name, value) ∷ headers) = header_line name value ++ remaining_lines headers

abbrev values_of : Overrides → List (Text × Text)
values_of overrides = map (λ entry. entry.1) overrides

abbrev forwarded_headers : Text → List (Text × Text)
forwarded_headers redirect =
    (codes "X-Request-ID", codes "$request_id")
    ∷ (codes "X-Original-URI", codes "$request_uri")
    ∷ (codes "X-Original-URL", codes "$scheme://$http_host$request_uri")
    ∷ (codes "X-Original-Method", codes "$request_method")
    ∷ (codes "X-Sent-From", codes "\"nginx-ingress-controller\"")
    ∷ (codes "X-Real-IP", codes "$remote_addr")
    ∷ (codes "X-Forwarded-For", codes "$proxy_add_x_forwarded_for")
    ∷ (codes "X-Forwarded-Host", codes "$http_host")
    ∷ (codes "X-Forwarded-Port", codes "$server_port")
    ∷ (codes "X-Forwarded-Proto", codes "$scheme")
    ∷ (codes "X-Forwarded-Scheme", codes "$scheme")
    ∷ (codes "X-Scheme", codes "$scheme")
    ∷ (codes "Host", codes "$http_host")
    ∷ (codes "X-Auth-Request-Redirect", redirect)
    ∷ []

unfoldable pub http_methods : List Text
http_methods =
    codes "GET"
    ∷ codes "HEAD"
    ∷ codes "POST"
    ∷ codes "PUT"
    ∷ codes "PATCH"
    ∷ codes "DELETE"
    ∷ codes "CONNECT"
    ∷ codes "OPTIONS"
    ∷ codes "TRACE"
    ∷ []

-- The headers that the answer of the authentication sets; `none` is an error.
unfoldable pub response_lines : List Text → Option Text
response_lines [] = some []
response_lines (header ∷ headers) =
    let rest = response_lines headers in
    let variable = variable_of header in
    if not (valid_header_name header) then none else elim rest [
      | none ↦ none
      | some lines ↦ some (
          codes "auth_request_set $ngib_auth_"
          ++ (variable
              ++ (codes " $upstream_http_"
                  ++ (variable
                      ++ (codes ";\nproxy_set_header "
                          ++ (header
                              ++ (codes " $ngib_auth_"
                                  ++ (variable ++ (codes ";\n" ++ lines)))))))))
    ]

module _ (sha256 : Text → List ℕ) (parse_url : Text → Option Url) where
  abbrev internal_part : Text → Text
  internal_part route_name =
      replace_by (λ c. nat_beq c b'-') b'_' (dns_label sha256 (route_name ∷ []))

  abbrev server_text : Text → Text → Text → Text → Text → Url → Overrides → Text
  server_text route_name method redirect body_size snippet url overrides =
      let (first, left) =
        write_headers ((codes "Content-Length", codes "\"\"") ∷ (codes "Proxy", codes "\"\"") ∷ [])
          overrides in
      let (forwarded, remaining) = write_headers (forwarded_headers redirect) left in
      codes "location = /_ngib_auth_"
      ++ (internal_part route_name
          ++ (codes
                " {\n  internal;\n  proxy_intercept_errors off;\n  proxy_pass_request_headers on;\n  proxy_pass_request_body off;\n"
              ++ ((if is_empty body_size
                    then []
                    else codes "  client_max_body_size " ++ (body_size ++ codes ";\n"))
                  ++ (first
                      ++ ((if is_empty method
                            then []
                            else codes "  proxy_method " ++ (method ++ codes ";\n"))
                          ++ (forwarded
                              ++ (remaining_lines
                                    (sort_by (λ a b. text_lt a.0 b.0) (values_of remaining))
                                  ++ ((if text_eq url.scheme (codes "https")
                                        then codes "  proxy_ssl_server_name on;\n  proxy_ssl_name "
                                          ++ (url.hostname ++ codes ";\n")
                                        else [])
                                      ++ ((if is_empty snippet then [] else snippet ++ codes "\n")
                                          ++ (codes "  proxy_pass "
                                              ++ (url.text ++ codes ";\n}\n")))))))))))

  abbrev location_text : Text → Text → Text
  location_text route_name lines =
      codes "auth_request /_ngib_auth_"
      ++ (internal_part route_name
          ++ (codes
                ";\nauth_request_set $ngib_auth_cookie $upstream_http_set_cookie;\nadd_header Set-Cookie $ngib_auth_cookie;\n"
              ++ lines))

  -- The pages of the sign-in, after the other parts.
  abbrev with_signin : Text → Text → Text → Text → AuthResult
  with_signin route_name signin server location =
      let name = codes "@ngib_signin_" ++ internal_part route_name in
      if is_empty signin
      then auth_snippets server location
      else if is_unsafe signin || has_text signin (codes "$escaped_request_uri")
      then auth_error ann_auth_url
      else auth_snippets
          (server
            ++ (codes "location "
                ++ (name ++ (codes " {\n  return 302 " ++ (signin ++ codes ";\n}\n")))))
          (location ++ (codes "error_page 401 = " ++ (name ++ codes ";\n")))

  abbrev with_lines : Text → Text → Text → Option Text → AuthResult
  with_lines route_name signin server none = auth_error ann_auth_url
  with_lines route_name signin server (some lines) =
      with_signin route_name signin server (location_text route_name lines)

  abbrev with_overrides :
      Text → List (Text × Text) → Text → Text → Text → Url → Option Overrides → AuthResult
  with_overrides route_name annotations redirect snippet body_size url none =
      auth_error ann_auth_url
  with_overrides route_name annotations redirect snippet body_size url (some overrides) =
      with_lines route_name (trim_space (get_text ann_auth_signin annotations))
        (server_text route_name (trim_space (get_text ann_auth_method annotations)) redirect
          body_size snippet url overrides)
        (response_lines (split_csv (get_text ann_auth_response_headers annotations)))

  abbrev with_url :
      Text → List (Text × Text) → Text → List (Text × Text) → Text → Option Url → AuthResult
  with_url route_name annotations snippet headers body_size none = auth_error ann_auth_url
  with_url route_name annotations snippet headers body_size (some url) =
      let method = trim_space (get_text ann_auth_method annotations) in
      let redirect = trim_space (get_text ann_auth_request_redirect annotations) in
      if not (is_empty method) && not (contains method http_methods)
      then auth_error ann_auth_method
      else if is_unsafe redirect || contains_any redirect (32 ∷ 9 ∷ [])
      then auth_error ann_auth_request_redirect
      else with_overrides route_name annotations
          (if is_empty redirect then codes "$request_uri" else redirect) snippet body_size url
          (collect_overrides headers [] (sort_texts (keys headers)))

  -- `externalAuthSnippets`
  unfoldable pub external_auth_snippets :
      Text → Text → List (Text × Text) → Text → List (Text × Text) → Text → AuthResult
  external_auth_snippets route_name raw_url annotations snippet headers body_size =
      with_url route_name annotations snippet headers body_size
        (safe_url raw_url (parse_url raw_url))

-- The functions above, for the tests.
unfoldable pub auth_functions : Unit {0}
unfolding replace_by variable_of has_text collect_overrides drop_override write_headers
    remaining_lines response_lines external_auth_snippets
auth_functions = tt
