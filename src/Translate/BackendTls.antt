-- ===== src/Translate/BackendTls.antt =====
-- `parseBackendTLS` in internal/translator/translate.go: TLS from the gateway to the backend.
use ingress_nginx_gateway_br.Common.{
  Bool, true, false, not, ◌&&◌, ◌||◌, Option, none, some, List, [], ◌∷◌, ◌++◌, if◌then◌else◌,
}
use ingress_nginx_gateway_br.Text.{Text, text_eq, codes, trim_space, is_empty, cut}
use ingress_nginx_gateway_br.Api.{Ingress, get_text}
use ingress_nginx_gateway_br.Types.{Issue}
use ingress_nginx_gateway_br.Gateway.Hosts.{error_issue}
use ingress_nginx_gateway_br.Annotations.{
  ann_proxy_ssl_verify, ann_proxy_ssl_server_name, ann_proxy_ssl_name, ann_proxy_ssl_secret,
}
use ingress_nginx_gateway_br.Translate.Values.{parse_nginx_bool}

-- `backendTLSConfig`
pub record BackendTlsConfig : Type 0 where
  pub verified : Bool
  pub secret_name : Text
  pub hostname : Text
  pub server_name : Bool

unfoldable pub flag_or_issue : Text → Option Bool → Bool × List Issue
flag_or_issue annotation none =
    (false, error_issue annotation (codes "value must be on/off or true/false") ∷ [])
flag_or_issue annotation (some value) = (value, [])

-- A flag, false where the annotation is blank or wrong, and the issue of a wrong one.
unfoldable pub read_flag : Text → List (Text × Text) → Bool × List Issue
read_flag annotation annotations =
    let raw = trim_space (get_text annotation annotations) in
    if is_empty raw then (false, []) else flag_or_issue annotation (parse_nginx_bool raw)

unfoldable pub issue_when : Bool → Text → Text → List Issue
issue_when true field message = error_issue field message ∷ []
issue_when false field message = []

-- The configuration where there is no issue.
unfoldable pub config_or_issues :
    BackendTlsConfig → List Issue → Option BackendTlsConfig × List Issue
config_or_issues config [] = (some config, [])
config_or_issues config (issue ∷ issues) = (none, issue ∷ issues)

-- The name after the namespace in `namespace/name`, and whether the namespace is another one.
abbrev split_reference : Text → Text → Option (Text × Text) → Text × Bool
split_reference namespace reference none = (reference, false)
split_reference namespace reference (some (before, name)) = (name, not (text_eq before namespace))

unfoldable pub secret_reference : Text → Text → Text × Bool
secret_reference namespace reference = split_reference namespace reference (cut reference b'/')

-- `is_subdomain` says that `k8svalidation.IsDNS1123Subdomain` reports no error.
module _ (is_subdomain : Text → Bool) where
  -- The issues of a backend whose certificate is verified.
  unfoldable pub verified_issues : Bool → Text → Text × Bool → List Issue
  verified_issues server_name_enabled hostname (secret_name, elsewhere) =
      issue_when (not server_name_enabled) ann_proxy_ssl_server_name
        (codes "HTTPS backends require proxy-ssl-server-name: on")
      ++ (issue_when (is_empty hostname || not (is_subdomain hostname)) ann_proxy_ssl_name
            (codes "HTTPS backends require proxy-ssl-name containing a valid DNS hostname")
          ++ (issue_when elsewhere ann_proxy_ssl_secret
                (codes "BackendTLSPolicy CA references must be in the Ingress namespace")
              ++ issue_when (is_empty secret_name || not (is_subdomain secret_name))
                  ann_proxy_ssl_secret
                  (codes
                    "HTTPS backends require proxy-ssl-secret referencing a Secret containing ca.crt")))

  unfoldable pub unverified_issues : Text → List Issue
  unverified_issues secret_ref = issue_when (not (is_empty secret_ref)) ann_proxy_ssl_secret (
      codes
        "proxy-ssl-secret with verification disabled may configure an upstream client certificate, which is not supported yet")

  unfoldable pub hostname_issues : Text → List Issue
  hostname_issues hostname =
      issue_when (not (is_empty hostname) && not (is_subdomain hostname)) ann_proxy_ssl_name
        (codes "proxy-ssl-name must contain a valid DNS hostname")

  -- `parseBackendTLS`
  unfoldable pub parse_backend_tls : Ingress → Option BackendTlsConfig × List Issue
  parse_backend_tls ing =
      let (verify, verify_wrong) = read_flag ann_proxy_ssl_verify ing.annotations in
      let (server_name_enabled, server_name_wrong) =
        read_flag ann_proxy_ssl_server_name ing.annotations in
      let hostname = trim_space (get_text ann_proxy_ssl_name ing.annotations) in
      let secret_ref = trim_space (get_text ann_proxy_ssl_secret ing.annotations) in
      let issues = verify_wrong ++ (server_name_wrong ++ hostname_issues hostname) in
      if not verify
      then config_or_issues
          (record {
            verified = false;
            secret_name = [];
            hostname = hostname;
            server_name = server_name_enabled;
          })
          (issues ++ unverified_issues secret_ref)
      else config_or_issues
          (record {
            verified = true;
            secret_name = (secret_reference ing.namespace secret_ref).0;
            hostname = hostname;
            server_name = true;
          })
          (issues
            ++ verified_issues server_name_enabled hostname
                (secret_reference ing.namespace secret_ref))

-- The functions above, for the tests.
unfoldable pub backend_functions : Unit {0}
unfolding flag_or_issue read_flag issue_when config_or_issues secret_reference verified_issues
    unverified_issues hostname_issues parse_backend_tls parse_nginx_bool
backend_functions = tt
