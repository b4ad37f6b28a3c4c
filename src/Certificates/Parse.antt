-- ===== src/Certificates/Parse.antt =====
-- `ParseCertificateInfo` and `validCABundle` in internal/translator/certificates.go. Go's packages
-- crypto/tls, crypto/x509, encoding/base64 and encoding/pem are the fields of `Crypto`.
use Prim.Native.Nat.{◌^◌}
use ingress_nginx_gateway_br.Common.{
  ℕ, ◌/◌, ◌%◌, Bool, true, false, Option, none, some, List, [], ◌∷◌, ◌++◌, length, lookup,
}
use ingress_nginx_gateway_br.Text.{Text, text_key, codes, text_eq}
use ingress_nginx_gateway_br.Api.{get_text}
use ingress_nginx_gateway_br.Naming.{hex_encode}
use ingress_nginx_gateway_br.Certificates.{
  CertificateInfo, wildcard_sans_of, collect_sans, is_wildcard_san, trim_dot,
}

-- `tls.Certificate`: the chain in DER, and the DNS names of the leaf where it is parsed already.
pub record KeyPair : Type 0 where
  pub chain : List Text
  pub leaf : Option (List Text)

-- `parse_certificate` gives the DNS names of a certificate, `pem_decode` the type and the bytes of
-- the first block.
pub record Crypto : Type 0 where
  pub x509_key_pair : Text → Text → Option KeyPair
  pub parse_certificate : Text → Option (List Text)
  pub base64_decode : Text → Option Text
  pub pem_decode : Text → Option (Text × Text)
  pub sha256 : Text → List ℕ

-- `binary.BigEndian.PutUint32` of a length as a `uint32`.
unfoldable pub length_prefix : ℕ → List ℕ
length_prefix n =
    let w = n % 2 ^ 32 in w / 16777216 ∷ w / 65536 % 256 ∷ w / 256 % 256 ∷ w % 256 ∷ []

-- What the hash is written for a chain.
unfoldable pub hash_input : List Text → Text
unfolding length_prefix
hash_input [] = []
hash_input (der ∷ chain) = length_prefix (length der) ++ (der ++ hash_input chain)

module _ (crypto : Crypto) where
  abbrev pub decoded_or_raw : Text → Option Text → Text
  decoded_or_raw raw none = raw
  decoded_or_raw raw (some decoded) = decoded

  abbrev is_parsed : Option (List Text) → Bool
  is_parsed none = false
  is_parsed (some names) = true

  abbrev is_certificate_block : Option (Text × Text) → Bool
  is_certificate_block none = false
  is_certificate_block (some (block_type, bytes)) =
      elim (text_eq block_type (codes "CERTIFICATE")) [
        | true ↦ is_parsed (crypto.parse_certificate bytes)
        | false ↦ false
      ]

  -- `validCABundle`
  unfoldable pub valid_ca_bundle : Text → Bool
  valid_ca_bundle ca_data =
      is_certificate_block
        (crypto.pem_decode (decoded_or_raw ca_data (crypto.base64_decode ca_data)))

  -- Whether `ca.crt` is missing or valid.
  abbrev ca_passes : Option Text → Bool
  ca_passes none = true
  ca_passes (some ca) = valid_ca_bundle ca

  abbrev leaf_names : Option (List Text) → Text → Option (List Text)
  leaf_names none first = crypto.parse_certificate first
  leaf_names (some names) first = some names

  abbrev info_of : List Text → Option (List Text) → Option CertificateInfo
  info_of chain none = none
  info_of chain (some dns_names) = some (record {
    wildcard_sans = wildcard_sans_of dns_names;
    fingerprint = hex_encode (crypto.sha256 (hash_input chain));
  })

  abbrev info_of_chain : Option Text → Option (List Text) → List Text → Option CertificateInfo
  info_of_chain ca leaf [] = none
  info_of_chain ca leaf (first ∷ chain) = elim (ca_passes ca) [
    | true ↦ info_of (first ∷ chain) (leaf_names leaf first)
    | false ↦ none
  ]

  abbrev info_of_pair : Option Text → Option KeyPair → Option CertificateInfo
  info_of_pair ca none = none
  info_of_pair ca (some pair) = info_of_chain ca pair.leaf pair.chain

  -- `ParseCertificateInfo`
  unfoldable pub parse_certificate_info : List (Text × Text) → Option CertificateInfo
  unfolding valid_ca_bundle
  parse_certificate_info content = info_of_pair (lookup (codes "ca.crt") content) (
      crypto.x509_key_pair (get_text (codes "tls.crt") content)
        (get_text (codes "tls.key") content))

-- The functions above, for the tests.
unfoldable pub parse_functions : Unit {0}
unfolding length_prefix hash_input valid_ca_bundle parse_certificate_info wildcard_sans_of
    collect_sans is_wildcard_san trim_dot hex_encode lookup get_text
parse_functions = tt
