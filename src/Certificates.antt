-- ===== src/Certificates.antt =====
-- internal/translator/certificates.go: the wildcard names of a certificate, and which of them covers
-- a host. `Parse` reads the data of a Secret.
pub mod Parse
use ingress_nginx_gateway_br.Common.{
  ◌-◌, Bool, not, ◌&&◌, ◌||◌, Option, none, some, List, [], ◌∷◌, ◌++◌, nat_beq, if◌then◌else◌,
  contains, length,
}
use ingress_nginx_gateway_br.Text.{
  Text, codes, to_lower, trim_space, has_prefix, has_suffix, has_byte, index_byte, drop, sort_texts,
  text_eq, text_key, is_empty,
}

-- `CertificateInfo`
pub record CertificateInfo : Type 0 where
  pub wildcard_sans : List Text
  pub fingerprint : Text

abbrev pub is_wildcard : Text → Bool
is_wildcard host = has_prefix host (codes "*.")

-- `strings.TrimSuffix(name, ".")`
unfoldable pub trim_dot : Text → Text
unfolding text_eq
trim_dot [] = []
trim_dot (c ∷ s) = if text_eq (c ∷ s) (codes ".") then [] else c ∷ trim_dot s

-- Whether a name in lower case is a wildcard of one label.
unfoldable pub is_wildcard_san : Text → Bool
unfolding has_prefix has_suffix has_byte is_empty
is_wildcard_san name =
    let suffix = drop 2 name in
    is_wildcard name
    && not (
        is_empty suffix
        || (has_byte b'*' suffix
            || (has_prefix suffix (codes ".") || has_suffix suffix (codes "."))))

-- The loop over the DNS names of the leaf; `seen` is the result so far.
unfoldable pub collect_sans : List Text → List Text → List Text
unfolding is_wildcard_san to_lower trim_space trim_dot contains text_eq
collect_sans result [] = result
collect_sans result (raw ∷ names) =
    let name = trim_dot (to_lower (trim_space raw)) in
    collect_sans
      (if is_wildcard_san name && not (contains name result) then result ++ name ∷ [] else result)
      names

-- `wildcardSANs`
unfoldable pub wildcard_sans_of : List Text → List Text
unfolding collect_sans sort_texts
wildcard_sans_of dns_names = sort_texts (collect_sans [] dns_names)

-- The wildcard over the parent of a host: `*.b.c` for `a.b.c`, where the host has a label before its
-- first dot and something behind it.
unfoldable pub parent_wildcard : Text → Option Text
unfolding index_byte
parent_wildcard host = elim (index_byte host b'.') [
  | none ↦ none
  | some dot ↦
      if nat_beq dot 0 || nat_beq dot (length host - 1) then none else some (b'*' ∷ drop dot host)
]

-- `coveringWildcard`; `none` is the empty text.
unfoldable pub covering_wildcard : Text → CertificateInfo → Option Text
unfolding has_prefix parent_wildcard contains text_eq
covering_wildcard host info = if is_wildcard host then none else elim (parent_wildcard host) [
  | none ↦ none
  | some candidate ↦ if contains candidate info.wildcard_sans then some candidate else none
]
