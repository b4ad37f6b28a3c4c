-- ===== src/Annotations.antt =====
-- internal/translator/annotations.go: the annotations that the translation knows.
use ingress_nginx_gateway_br.Common.{List, [], ◌∷◌, ◌++◌}
use ingress_nginx_gateway_br.Text.{Text, codes}

abbrev pub annotation_prefix : Text
annotation_prefix = codes "nginx.ingress.kubernetes.io/"

abbrev pub ann_proxy_body_size : Text
ann_proxy_body_size = annotation_prefix ++ codes "proxy-body-size"

abbrev pub ann_proxy_read_timeout : Text
ann_proxy_read_timeout = annotation_prefix ++ codes "proxy-read-timeout"

abbrev pub ann_proxy_send_timeout : Text
ann_proxy_send_timeout = annotation_prefix ++ codes "proxy-send-timeout"

abbrev pub ann_proxy_connect_timeout : Text
ann_proxy_connect_timeout = annotation_prefix ++ codes "proxy-connect-timeout"

abbrev pub ann_proxy_buffering : Text
ann_proxy_buffering = annotation_prefix ++ codes "proxy-buffering"

abbrev pub ann_proxy_buffer_size : Text
ann_proxy_buffer_size = annotation_prefix ++ codes "proxy-buffer-size"

abbrev pub ann_proxy_request_buffering : Text
ann_proxy_request_buffering = annotation_prefix ++ codes "proxy-request-buffering"

abbrev pub ann_proxy_http_version : Text
ann_proxy_http_version = annotation_prefix ++ codes "proxy-http-version"

abbrev pub ann_proxy_ssl_name : Text
ann_proxy_ssl_name = annotation_prefix ++ codes "proxy-ssl-name"

abbrev pub ann_proxy_ssl_secret : Text
ann_proxy_ssl_secret = annotation_prefix ++ codes "proxy-ssl-secret"

abbrev pub ann_proxy_ssl_server_name : Text
ann_proxy_ssl_server_name = annotation_prefix ++ codes "proxy-ssl-server-name"

abbrev pub ann_proxy_ssl_verify : Text
ann_proxy_ssl_verify = annotation_prefix ++ codes "proxy-ssl-verify"

abbrev pub ann_enable_cors : Text
ann_enable_cors = annotation_prefix ++ codes "enable-cors"

abbrev pub ann_cors_allow_origin : Text
ann_cors_allow_origin = annotation_prefix ++ codes "cors-allow-origin"

abbrev pub ann_cors_allow_methods : Text
ann_cors_allow_methods = annotation_prefix ++ codes "cors-allow-methods"

abbrev pub ann_cors_allow_headers : Text
ann_cors_allow_headers = annotation_prefix ++ codes "cors-allow-headers"

abbrev pub ann_cors_expose_headers : Text
ann_cors_expose_headers = annotation_prefix ++ codes "cors-expose-headers"

abbrev pub ann_cors_allow_credentials : Text
ann_cors_allow_credentials = annotation_prefix ++ codes "cors-allow-credentials"

abbrev pub ann_cors_max_age : Text
ann_cors_max_age = annotation_prefix ++ codes "cors-max-age"

abbrev pub ann_canary : Text
ann_canary = annotation_prefix ++ codes "canary"

abbrev pub ann_canary_by_header : Text
ann_canary_by_header = annotation_prefix ++ codes "canary-by-header"

abbrev pub ann_canary_by_header_value : Text
ann_canary_by_header_value = annotation_prefix ++ codes "canary-by-header-value"

abbrev pub ann_rewrite_target : Text
ann_rewrite_target = annotation_prefix ++ codes "rewrite-target"

abbrev pub ann_ssl_redirect : Text
ann_ssl_redirect = annotation_prefix ++ codes "ssl-redirect"

abbrev pub ann_auth_url : Text
ann_auth_url = annotation_prefix ++ codes "auth-url"

abbrev pub ann_auth_method : Text
ann_auth_method = annotation_prefix ++ codes "auth-method"

abbrev pub ann_auth_response_headers : Text
ann_auth_response_headers = annotation_prefix ++ codes "auth-response-headers"

abbrev pub ann_auth_request_redirect : Text
ann_auth_request_redirect = annotation_prefix ++ codes "auth-request-redirect"

abbrev pub ann_auth_signin : Text
ann_auth_signin = annotation_prefix ++ codes "auth-signin"

abbrev pub ann_auth_snippet : Text
ann_auth_snippet = annotation_prefix ++ codes "auth-snippet"

abbrev pub ann_auth_type : Text
ann_auth_type = annotation_prefix ++ codes "auth-type"

abbrev pub ann_auth_secret : Text
ann_auth_secret = annotation_prefix ++ codes "auth-secret"

abbrev pub ann_auth_realm : Text
ann_auth_realm = annotation_prefix ++ codes "auth-realm"

abbrev pub ann_auth_proxy_set_headers : Text
ann_auth_proxy_set_headers = annotation_prefix ++ codes "auth-proxy-set-headers"

abbrev pub ann_server_alias : Text
ann_server_alias = annotation_prefix ++ codes "server-alias"

abbrev pub ann_configuration_snippet : Text
ann_configuration_snippet = annotation_prefix ++ codes "configuration-snippet"

abbrev pub ann_server_snippet : Text
ann_server_snippet = annotation_prefix ++ codes "server-snippet"

abbrev pub ann_upstream_vhost : Text
ann_upstream_vhost = annotation_prefix ++ codes "upstream-vhost"

abbrev pub ann_backend_protocol : Text
ann_backend_protocol = annotation_prefix ++ codes "backend-protocol"

abbrev pub ann_use_regex : Text
ann_use_regex = annotation_prefix ++ codes "use-regex"

abbrev pub ann_whitelist_source_range : Text
ann_whitelist_source_range = annotation_prefix ++ codes "whitelist-source-range"

-- `knownAnnotations`
unfoldable pub known_annotations : List Text
known_annotations =
    ann_proxy_body_size ∷ ann_proxy_read_timeout ∷ ann_proxy_send_timeout
    ∷ ann_proxy_connect_timeout ∷ ann_proxy_buffering ∷ ann_proxy_buffer_size
    ∷ ann_proxy_request_buffering ∷ ann_enable_cors ∷ ann_cors_allow_origin ∷ ann_proxy_http_version
    ∷ ann_proxy_ssl_name ∷ ann_proxy_ssl_secret ∷ ann_proxy_ssl_server_name ∷ ann_proxy_ssl_verify
    ∷ ann_cors_allow_methods ∷ ann_cors_allow_headers ∷ ann_cors_expose_headers
    ∷ ann_cors_allow_credentials ∷ ann_cors_max_age ∷ ann_canary ∷ ann_canary_by_header
    ∷ ann_canary_by_header_value ∷ ann_rewrite_target ∷ ann_ssl_redirect ∷ ann_auth_url
    ∷ ann_auth_method ∷ ann_auth_response_headers ∷ ann_auth_request_redirect ∷ ann_auth_signin
    ∷ ann_auth_snippet ∷ ann_auth_type ∷ ann_auth_secret ∷ ann_auth_realm
    ∷ ann_auth_proxy_set_headers ∷ ann_server_alias ∷ ann_configuration_snippet ∷ ann_server_snippet
    ∷ ann_upstream_vhost ∷ ann_backend_protocol ∷ ann_use_regex ∷ ann_whitelist_source_range ∷ []
