-- ===== src/Translate/Matching.antt =====
-- The TLS host that `matchingTLSHost` finds: it covers the host, no other wildcard that covers the host
-- is longer, and the order of the map does not matter.
use ingress_nginx_gateway_br.Common.{
  ◌≤◌, ◌≡◌, refl, sym, ◌∙◌, ap, ◌⊎◌, inl, inr, true, false, List, All, [], ◌∷◌, arith, length,
  contains, eq_iff, Bool-cases, if◌then◌else◌, true-false,
}
use ingress_nginx_gateway_br.Text.{
  Text, text_key, text_eq, text_eq_iff, is_empty, has_suffix, has_prefix, trim_prefix, codes,
}
use ingress_nginx_gateway_br.Translate.Values.{
  wildcard_covers, longer, longest_wildcard, matching_tls_host,
}

no_text : (s : Text) → length s ≤ 0 → s ≡ []
no_text [] h = refl
no_text (c ∷ s) h = absurd (omega (arith, h))

-- A best candidate: none, or a wildcard of the set that covers the host.
abbrev IsCandidate : Text → List Text → Text → Type 0
IsCandidate host tls_hosts best =
    (best ≡ []) ⊎ ((contains best tls_hosts ≡ true) × (wildcard_covers host best ≡ true))

longer-source :
    (host best candidate : Text)
    → (longer host best candidate ≡ best)
      ⊎ ((longer host best candidate ≡ candidate) × (wildcard_covers host candidate ≡ true))
unfolding longer
longer-source host best candidate = ground arith

longer-length_le : (host best candidate : Text) → length best ≤ length (longer host best candidate)
unfolding longer
longer-length_le host best candidate = ground arith

longer-covers_le :
    (host best candidate : Text)
    → wildcard_covers host candidate ≡ true
    → length candidate ≤ length (longer host best candidate)
unfolding longer
longer-covers_le host best candidate covered = ground arith

longest_wildcard-length_le :
    (host best : Text) (candidates : List Text)
    → length best ≤ length (longest_wildcard host best candidates)
unfolding longest_wildcard
longest_wildcard-length_le host best [] = omega arith
longest_wildcard-length_le host best (c ∷ cs) =
    omega
      (arith, longer-length_le host best c, longest_wildcard-length_le host (longer host best c) cs)

longest_wildcard-covers_le :
    (host best : Text) (candidates : List Text) (c : Text)
    → contains c candidates ≡ true
    → wildcard_covers host c ≡ true
    → length c ≤ length (longest_wildcard host best candidates)
unfolding longest_wildcard contains
longest_wildcard-covers_le host best [] c member covered = absurd (true-false (sym member))
longest_wildcard-covers_le host best (d ∷ ds) c member covered = elim (Bool-cases (text_eq d c)) [
  | inl same ↦
      let e = (text_eq_iff d c).0 same in
      omega (
        arith,
        longer-covers_le host best d (ap (wildcard_covers host) e ∙ covered),
        longest_wildcard-length_le host (longer host best d) ds,
        ap length e,
      )
  | inr other ↦
      longest_wildcard-covers_le host (longer host best d) ds c (ground (arith, member, other))
        covered
]

longest_wildcard-IsCandidate :
    (host best : Text) (candidates tls_hosts : List Text)
    → IsCandidate host tls_hosts best
    → ((c : Text) → contains c candidates ≡ true → contains c tls_hosts ≡ true)
    → IsCandidate host tls_hosts (longest_wildcard host best candidates)
unfolding longest_wildcard contains
longest_wildcard-IsCandidate host best [] tls_hosts known within = known
longest_wildcard-IsCandidate host best (c ∷ cs) tls_hosts known within =
    longest_wildcard-IsCandidate host (longer host best c) cs tls_hosts
      (elim (longer-source host best c) [
        | inl kept ↦ rw kept known
        | inr taken ↦ rw taken.0 (inr (within c (ground (arith, eq_iff c c)), taken.1))
      ])
      (λ d member. within d (ground (arith, member)))

has_suffix-length_le : (s p : Text) → has_suffix s p ≡ true → length p ≤ length s
unfolding has_suffix
has_suffix-length_le [] p h = omega (arith, ap length ((text_eq_iff [] p).0 h))
has_suffix-length_le (c ∷ s) p h = elim (Bool-cases (text_eq (c ∷ s) p)) [
  | inl same ↦ omega (arith, ap length ((text_eq_iff (c ∷ s) p).0 same))
  | inr other ↦ omega (arith, has_suffix-length_le s p (ground (arith, h, other)))
]

has_suffix_unique :
    (s p q : Text) → has_suffix s p ≡ true → has_suffix s q ≡ true → length p ≡ length q → p ≡ q
unfolding has_suffix
has_suffix_unique [] p q h k e = sym ((text_eq_iff [] p).0 h) ∙ (text_eq_iff [] q).0 k
has_suffix_unique (c ∷ s) p q h k e = elim (Bool-cases (text_eq (c ∷ s) p)) [
  | inl a ↦ elim (Bool-cases (text_eq (c ∷ s) q)) [
    | inl b ↦ sym ((text_eq_iff (c ∷ s) p).0 a) ∙ (text_eq_iff (c ∷ s) q).0 b
    | inr b ↦ absurd (
        omega (
          arith,
          e,
          ap length ((text_eq_iff (c ∷ s) p).0 a),
          has_suffix-length_le s q (ground (arith, k, b)),
        ))
  ]
  | inr a ↦ elim (Bool-cases (text_eq (c ∷ s) q)) [
    | inl b ↦ absurd (
        omega (
          arith,
          e,
          ap length ((text_eq_iff (c ∷ s) q).0 b),
          has_suffix-length_le s p (ground (arith, h, a)),
        ))
    | inr b ↦ has_suffix_unique s p q (ground (arith, h, a)) (ground (arith, k, b)) e
  ]
]

has_prefix-star :
    (a : Text) → has_prefix a (codes "*.") ≡ true → a ≡ b'*' ∷ trim_prefix a (codes "*")
unfolding has_prefix trim_prefix
has_prefix-star [] h = absurd (true-false (sym h))
has_prefix-star (c ∷ s) h = ground (arith, h)

wildcard_covers_unique :
    (host a b : Text)
    → wildcard_covers host a ≡ true
    → wildcard_covers host b ≡ true
    → length a ≡ length b
    → a ≡ b
unfolding wildcard_covers
wildcard_covers_unique host a b h k e =
    let a_star = has_prefix-star a (ground (arith, h)) in
    let b_star = has_prefix-star b (ground (arith, k)) in
    let same =
      has_suffix_unique host (trim_prefix a (codes "*")) (trim_prefix b (codes "*"))
        (ground (arith, h)) (ground (arith, k))
        (omega (arith, e, ap length a_star, ap length b_star)) in
    a_star ∙ ap (λ s. b'*' ∷ s) same ∙ sym b_star

-- A candidate that covers as much as the other search is no longer than its result.
covered_le :
    (host : Text) (xs ys : List Text)
    → ((c : Text) → contains c xs ≡ contains c ys)
    → (contains (longest_wildcard host [] ys) ys ≡ true)
      × (wildcard_covers host (longest_wildcard host [] ys) ≡ true)
    → length (longest_wildcard host [] ys) ≤ length (longest_wildcard host [] xs)
covered_le host xs ys same (listed, covered) =
    longest_wildcard-covers_le host [] xs (longest_wildcard host [] ys) (same _ ∙ listed) covered

two_searches :
    (host : Text) (xs ys : List Text)
    → ((c : Text) → contains c xs ≡ contains c ys)
    → IsCandidate host xs (longest_wildcard host [] xs)
    → IsCandidate host ys (longest_wildcard host [] ys)
    → longest_wildcard host [] xs ≡ longest_wildcard host [] ys
two_searches host xs ys same (inl a) (inl b) = a ∙ sym b
two_searches host xs ys same (inl a) (inr b) =
    a ∙ sym (no_text _ (omega (arith, covered_le host xs ys same b, ap length a)))
two_searches host xs ys same (inr a) (inl b) =
    no_text _ (omega (arith, covered_le host ys xs (λ c. sym (same c)) a, ap length b)) ∙ sym b
two_searches host xs ys same (inr a) (inr b) =
    wildcard_covers_unique host _ _ a.1 b.1
      (omega (arith, covered_le host ys xs (λ c. sym (same c)) a, covered_le host xs ys same b))

-- The result of the wildcard search does not depend on the order of the candidates.
longest_wildcard-order :
    (host : Text) (xs ys : List Text)
    → ((c : Text) → contains c xs ≡ contains c ys)
    → longest_wildcard host [] xs ≡ longest_wildcard host [] ys
longest_wildcard-order host xs ys same =
    two_searches host xs ys same (longest_wildcard-IsCandidate host [] xs xs (inl refl) (λ c m. m))
      (longest_wildcard-IsCandidate host [] ys ys (inl refl) (λ c m. m))

-- The TLS host of a host is the same for all orders of the set of TLS hosts.
pub matching_tls_host-order :
    (host : Text) (xs ys : List Text)
    → ((c : Text) → contains c xs ≡ contains c ys)
    → matching_tls_host host xs ≡ matching_tls_host host ys
unfolding matching_tls_host
matching_tls_host-order host xs ys same =
    rw (same host, longest_wildcard-order host xs ys same) refl

exact_or_longest :
    (host : Text) (tls_hosts : List Text)
    → let found = if contains host tls_hosts then host else longest_wildcard host [] tls_hosts in
      (found ≡ [])
      ⊎ ((contains found tls_hosts ≡ true) × ((found ≡ host) ⊎ (wildcard_covers host found ≡ true)))
exact_or_longest host tls_hosts = elim (Bool-cases (contains host tls_hosts)) [
  | inl exact ↦ rw exact (inr (exact, inl refl))
  | inr missing ↦
      rw missing
        (elim (longest_wildcard-IsCandidate host [] tls_hosts tls_hosts (inl refl) (λ c m. m)) [
          | inl none_covers ↦ inl none_covers
          | inr found ↦ inr (found.0, inr found.1)
        ])
]

-- The TLS host of a host, where there is one, is in the set, and is the host itself or a wildcard that covers
-- it.
pub matching_tls_host-IsCandidate :
    (host : Text) (tls_hosts : List Text)
    → (matching_tls_host host tls_hosts ≡ [])
      ⊎ ((contains (matching_tls_host host tls_hosts) tls_hosts ≡ true)
          × ((matching_tls_host host tls_hosts ≡ host)
              ⊎ (wildcard_covers host (matching_tls_host host tls_hosts) ≡ true)))
unfolding matching_tls_host
matching_tls_host-IsCandidate host tls_hosts = elim (Bool-cases (is_empty host)) [
  | inl blank ↦ rw blank (inl refl)
  | inr named ↦ rw named (exact_or_longest host tls_hosts)
]

All-of_contains :
    (P : Text → Type 0) (xs : List Text) → ((c : Text) → contains c xs ≡ true → P c) → All P xs
unfolding contains
All-of_contains P [] h = tt
All-of_contains P (x ∷ xs) h = (
  h x (ground (arith, text_eq_iff x x)),
  All-of_contains P xs (λ c listed. h c (ground (arith, listed))),
)

-- No wildcard of the set that covers the host is longer than what was found.
abbrev pub IsLongest : Text → List Text → Text → Type 0
IsLongest host tls_hosts result =
    All (λ w. (wildcard_covers host w ≡ false) ⊎ (length w ≤ length result)) tls_hosts

longest_wildcard-IsLongest :
    (host : Text) (tls_hosts : List Text)
    → IsLongest host tls_hosts (longest_wildcard host [] tls_hosts)
longest_wildcard-IsLongest host tls_hosts = All-of_contains _ tls_hosts (λ w listed.
    elim (Bool-cases (wildcard_covers host w)) [
      | inl covered ↦ inr (longest_wildcard-covers_le host [] tls_hosts w listed covered)
      | inr other ↦ inl other
    ])

-- A host with a name has itself as TLS host where it is in the set; where it is not, no wildcard in the set
-- that covers the host is longer than the TLS host that is found.
pub matching_tls_host-IsLongest :
    (host : Text) (tls_hosts : List Text)
    → is_empty host ≡ false
    → ((contains host tls_hosts ≡ true) × (matching_tls_host host tls_hosts ≡ host))
      ⊎ ((contains host tls_hosts ≡ false)
          × IsLongest host tls_hosts (matching_tls_host host tls_hosts))
unfolding matching_tls_host
matching_tls_host-IsLongest host tls_hosts named = elim (Bool-cases (contains host tls_hosts)) [
  | inl exact ↦ rw (named, exact) (inl (refl, refl))
  | inr missing ↦ rw (named, missing) (inr (refl, longest_wildcard-IsLongest host tls_hosts))
]
