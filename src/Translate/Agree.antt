-- ===== src/Translate/Agree.antt =====
-- The two ways to apply the settings of the proxy, compared.
use ingress_nginx_gateway_br.Common.{
  ℕ, ◌≡◌, refl, sym, ◌∙◌, ap, Bool, true, false, Option, none, some, List, [], ◌∷◌, ◌++◌, map,
  true-false, Bool-cases, Option-cases, inl, inr,
}
use ingress_nginx_gateway_br.Text.{Text, codes, is_empty, to_lower, trim_space}
use ingress_nginx_gateway_br.Api.{get_text}
use ingress_nginx_gateway_br.Types.{Issue}
use ingress_nginx_gateway_br.Annotations.{
  ann_proxy_connect_timeout, ann_proxy_read_timeout, ann_proxy_send_timeout, ann_proxy_buffering,
  ann_proxy_buffer_size,
}
use ingress_nginx_gateway_br.Translate.Values.{parse_nginx_bool}
use ingress_nginx_gateway_br.Translate.Settings.{
  normalize_duration, is_nginx_size, timeout_snippet, buffering_snippet, buffer_size_snippet,
  build_proxy_settings_snippets, ProxySettings, read_timeout, read_disable, read_buffer_size,
  proxy_settings, is_unset, ProxySettingsPolicy, build_proxy_policy,
}

-- The directives that say what a policy says.
abbrev timeout_directive : Text → Option Text → List Text
timeout_directive directive none = []
timeout_directive directive (some value) = (directive ++ b' ' ∷ (value ++ codes ";")) ∷ []

abbrev buffering_directive : Option Bool → List Text
buffering_directive none = []
buffering_directive (some true) = codes "proxy_buffering off;" ∷ []
buffering_directive (some false) = codes "proxy_buffering on;" ∷ []

abbrev size_directives : Option Text → List Text
size_directives none = []
size_directives (some size) =
    (codes "proxy_buffer_size " ++ (size ++ codes ";"))
    ∷ (codes "proxy_buffers 4 " ++ (size ++ codes ";"))
    ∷ []

abbrev directives_of : ProxySettings → List Text
directives_of settings =
    timeout_directive (codes "proxy_connect_timeout") settings.connect
    ++ (timeout_directive (codes "proxy_read_timeout") settings.read
        ++ (timeout_directive (codes "proxy_send_timeout") settings.send
            ++ (buffering_directive settings.disable_buffering
                ++ size_directives settings.buffer_size)))

abbrev pub directives_of_policy : Option ProxySettingsPolicy → List Text
directives_of_policy none = []
directives_of_policy (some policy) = directives_of policy.settings

abbrev pub fields : List Issue → List Text
fields issues = map (λ issue. issue.field) issues

timeout_snippet-read_timeout :
    (annotations : List (Text × Text)) (annotation directive : Text)
    → ((timeout_snippet annotations annotation directive).0
        ≡ timeout_directive directive (read_timeout annotations annotation).0)
      × ((timeout_snippet annotations annotation directive).1
          ≡ (read_timeout annotations annotation).1)
unfolding timeout_snippet read_timeout
timeout_snippet-read_timeout annotations annotation directive =
    let raw = trim_space (get_text annotation annotations) in
    elim (Bool-cases (is_empty raw)) [
      | inl unset ↦ rw unset (refl, refl)
      | inr set ↦ elim (Option-cases (normalize_duration raw)) [
        | inl bad ↦ rw (set, bad) (refl, refl)
        | inr (value, good) ↦ rw (set, good) (refl, refl)
      ]
    ]

buffering_snippet-read_disable :
    (annotations : List (Text × Text))
    → ((buffering_snippet annotations).0 ≡ buffering_directive (read_disable annotations).0)
      × ((buffering_snippet annotations).1 ≡ (read_disable annotations).1)
unfolding buffering_snippet read_disable
buffering_snippet-read_disable annotations =
    let raw = trim_space (get_text ann_proxy_buffering annotations) in
    elim (Bool-cases (is_empty raw)) [
      | inl unset ↦ rw unset (refl, refl)
      | inr set ↦ elim (Option-cases (parse_nginx_bool raw)) [
        | inl bad ↦ rw (set, bad) (refl, refl)
        | inr (true, good) ↦ rw (set, good) (refl, refl)
        | inr (false, good) ↦ rw (set, good) (refl, refl)
      ]
    ]

buffer_size_snippet-read_buffer_size :
    (annotations : List (Text × Text))
    → ((buffer_size_snippet annotations).0 ≡ size_directives (read_buffer_size annotations).0)
      × (fields (buffer_size_snippet annotations).1 ≡ fields (read_buffer_size annotations).1)
unfolding buffer_size_snippet read_buffer_size
buffer_size_snippet-read_buffer_size annotations =
    let raw = to_lower (trim_space (get_text ann_proxy_buffer_size annotations)) in
    elim (Bool-cases (is_empty raw)) [
      | inl unset ↦ rw unset (refl, refl)
      | inr set ↦ elim (Bool-cases (is_nginx_size raw)) [
        | inl good ↦ rw (set, good) (refl, refl)
        | inr bad ↦ rw (set, bad) (refl, refl)
      ]
    ]

fields-append :
    (issues more others : List Issue)
    → fields more ≡ fields others
    → fields (issues ++ more) ≡ fields (issues ++ others)
fields-append [] more others same = same
fields-append (issue ∷ issues) more others same =
    ap (◌∷◌ issue.field) (fields-append issues more others same)

unset-directives_of :
    (connect read send : Option Text) (disable : Option Bool) (size : Option Text)
    → is_unset (record {
      connect = connect;
      read = read;
      send = send;
      disable_buffering = disable;
      buffer_size = size;
    })
      ≡ true
    → directives_of (record {
      connect = connect;
      read = read;
      send = send;
      disable_buffering = disable;
      buffer_size = size;
    })
      ≡ []
unfolding is_unset
unset-directives_of none none none none none unset = refl
unset-directives_of (some _) read send disable size unset = elim (true-false (sym unset)) [ ]
unset-directives_of none (some _) send disable size unset = elim (true-false (sym unset)) [ ]
unset-directives_of none none (some _) disable size unset = elim (true-false (sym unset)) [ ]
unset-directives_of none none none (some _) size unset = elim (true-false (sym unset)) [ ]
unset-directives_of none none none none (some _) unset = elim (true-false (sym unset)) [ ]

-- What the policy says is what its settings say, also where there is none.
directives_of_policy-proxy_settings :
    (sha256 : Text → List ℕ) (annotations : List (Text × Text)) (route_name : Text)
    → (directives_of_policy (build_proxy_policy sha256 annotations route_name).0
        ≡ directives_of (proxy_settings annotations).0)
      × ((build_proxy_policy sha256 annotations route_name).1 ≡ (proxy_settings annotations).1)
unfolding build_proxy_policy
directives_of_policy-proxy_settings sha256 annotations route_name =
    let settings = (proxy_settings annotations).0 in
    elim (Bool-cases (is_unset settings)) [
      | inl unset ↦ simp (unset) (
        sym (
            unset-directives_of settings.connect settings.read settings.send
              settings.disable_buffering settings.buffer_size unset),
        refl,
      )
      | inr set ↦ simp (set) (refl, refl)
    ]

proxy_settings-snippets :
    (annotations : List (Text × Text))
    → ((build_proxy_settings_snippets annotations).0 ≡ directives_of (proxy_settings annotations).0)
      × (fields (build_proxy_settings_snippets annotations).1
          ≡ fields (proxy_settings annotations).1)
unfolding build_proxy_settings_snippets proxy_settings
proxy_settings-snippets annotations =
    let timeout = timeout_snippet-read_timeout annotations in
    let connect = timeout ann_proxy_connect_timeout (codes "proxy_connect_timeout") in
    let read = timeout ann_proxy_read_timeout (codes "proxy_read_timeout") in
    let send = timeout ann_proxy_send_timeout (codes "proxy_send_timeout") in
    let disable = buffering_snippet-read_disable annotations in
    let size = buffer_size_snippet-read_buffer_size annotations in
    let c = (read_timeout annotations ann_proxy_connect_timeout).1 in
    let r = (read_timeout annotations ann_proxy_read_timeout).1 in
    let t = (read_timeout annotations ann_proxy_send_timeout).1 in
    let d = (read_disable annotations).1 in
    let z = (buffer_size_snippet annotations).1 in
    let y = (read_buffer_size annotations).1 in
    let last = fields-append d z y size.1 in
    let third = fields-append t (d ++ z) (d ++ y) last in
    let second = fields-append r (t ++ (d ++ z)) (t ++ (d ++ y)) third in
    (
      rw (connect.0, read.0, send.0, disable.0, size.0) refl,
      rw (connect.1, read.1, send.1, disable.1)
          (fields-append c (r ++ (t ++ (d ++ z))) (r ++ (t ++ (d ++ y))) second),
    )

-- The snippets that replace a ProxySettingsPolicy where routes overlap say what the policy says, and both
-- report the same annotations.
pub build_proxy_settings_snippets-build_proxy_policy :
    (sha256 : Text → List ℕ) (annotations : List (Text × Text)) (route_name : Text)
    → ((build_proxy_settings_snippets annotations).0
        ≡ directives_of_policy (build_proxy_policy sha256 annotations route_name).0)
      × (fields (build_proxy_settings_snippets annotations).1
          ≡ fields (build_proxy_policy sha256 annotations route_name).1)
build_proxy_settings_snippets-build_proxy_policy sha256 annotations route_name =
    let (same, reported) = proxy_settings-snippets annotations in
    let (said, issues) = directives_of_policy-proxy_settings sha256 annotations route_name in
    (same ∙ sym said, reported ∙ ap fields (sym issues))
