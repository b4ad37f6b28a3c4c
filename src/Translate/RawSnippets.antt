-- ===== src/Translate/RawSnippets.antt =====
-- Raw snippets where the controller does not allow them.
use ingress_nginx_gateway_br.Common.{
  ℕ, ◌≡◌, refl, sym, ◌∙◌, Bool, true, false, Option, List, ◌++◌, Bool-cases, inl, inr, arith,
  true-false,
}
use ingress_nginx_gateway_br.Text.{Text, is_empty, trim_space}
use ingress_nginx_gateway_br.Api.{get_text}
use ingress_nginx_gateway_br.Types.{fatal, issue_fatal}
use ingress_nginx_gateway_br.Annotations.{
  ann_auth_snippet, ann_auth_url, ann_server_snippet, ann_configuration_snippet,
}
use ingress_nginx_gateway_br.Gateway.Hosts.Owners.{fatal-append}
use ingress_nginx_gateway_br.Translate.ExternalAuth.{Url}
use ingress_nginx_gateway_br.Translate.Snippets.{
  read_auth_snippet, raw_part, request_buffering, external_auth, snippet_parts, build_snippets,
}

-- Whether the annotation is missing or blank.
abbrev pub is_blank : List (Text × Text) → Text → Bool
is_blank annotations annotation = is_empty (trim_space (get_text annotation annotations))

raw_part-is_blank :
    (annotations : List (Text × Text)) (annotation : Text) (in_server : Bool)
    → fatal (raw_part annotations false annotation in_server).issues ≡ false
    → is_blank annotations annotation ≡ true
unfolding raw_part fatal issue_fatal
raw_part-is_blank annotations annotation in_server fine =
    elim (Bool-cases (is_blank annotations annotation)) [
      | inl blank ↦ blank
      | inr set ↦ elim (true-false (sym (rw set refl) ∙ fine)) [ ]
    ]

read_auth_snippet-is_blank :
    (annotations : List (Text × Text))
    → fatal (read_auth_snippet annotations false).1 ≡ false
    → is_blank annotations ann_auth_snippet ≡ true
unfolding read_auth_snippet fatal issue_fatal
read_auth_snippet-is_blank annotations fine =
    elim (Bool-cases (is_blank annotations ann_auth_snippet)) [
      | inl blank ↦ blank
      | inr set ↦ elim (Bool-cases (is_blank annotations ann_auth_url)) [
        | inl lone ↦ elim (true-false (sym (rw (set, lone) refl) ∙ fine)) [ ]
        | inr url ↦ elim (true-false (sym (rw (set, url) refl) ∙ fine)) [ ]
      ]
    ]

-- Where the controller does not allow raw snippets, an Ingress whose snippets are built without a fatal issue
-- has no raw snippet: the annotations of the server, of the location and of the authentication are blank.
pub build_snippets-is_blank :
    (sha256 : Text → List ℕ) (parse_url : Text → Option Url) (annotations : List (Text × Text))
    (route_name : Text) (generated : List Text) (headers : List (Text × Text))
    → fatal (build_snippets sha256 parse_url annotations route_name generated headers false).1
      ≡ false
    → (is_blank annotations ann_server_snippet ≡ true)
      × (is_blank annotations ann_configuration_snippet ≡ true)
      × (is_blank annotations ann_auth_snippet ≡ true)
unfolding build_snippets snippet_parts
build_snippets-is_blank sha256 parse_url annotations route_name generated headers fine =
    let auth = read_auth_snippet annotations false in
    let a = auth.1 in
    let b = (request_buffering annotations).issues in
    let e = (external_auth sha256 parse_url route_name annotations auth.0 headers).issues in
    let s = (raw_part annotations false ann_server_snippet true).issues in
    let c = (raw_part annotations false ann_configuration_snippet false).issues in
    let outer = fatal-append a (b ++ (e ++ (s ++ c))) in
    let second = fatal-append b (e ++ (s ++ c)) in
    let third = fatal-append e (s ++ c) in
    let inner = fatal-append s c in
    let fine_server : fatal s ≡ false = ground (arith, fine, outer, second, third, inner) in
    let fine_location : fatal c ≡ false = ground (arith, fine, outer, second, third, inner) in
    let fine_auth : fatal a ≡ false = ground (arith, fine, outer, second, third, inner) in
    (
      raw_part-is_blank annotations ann_server_snippet true fine_server,
      raw_part-is_blank annotations ann_configuration_snippet false fine_location,
      read_auth_snippet-is_blank annotations fine_auth,
    )
