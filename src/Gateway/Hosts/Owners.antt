-- ===== src/Gateway/Hosts/Owners.antt =====
-- No Ingress loses a TLS host without being told: it keeps the Secret that it named, or it gets a
-- fatal issue.
use ingress_nginx_gateway_br.Common.{
  ◌≡◌, refl, sym, ◌∙◌, ◌⊎◌, inl, inr, true, false, ◌||◌, Option, none, some, List, [], ◌∷◌, ◌++◌,
  All, All-map, if◌then◌else◌, arith, lookup, insert, lookup-insert, Bool-cases, eq_refl,
}
use ingress_nginx_gateway_br.Text.{Text, text_key, text_eq, text_eq_iff, is_empty, trim_space}
use ingress_nginx_gateway_br.Api.{
  NamespacedName, name_key, name_eq, name_eq_iff, Ingress, IngressTls,
}
use ingress_nginx_gateway_br.Types.{Issue, issue_fatal, fatal}
use ingress_nginx_gateway_br.Gateway.Hosts.{
  CertificateSource, Issues, Declared, issues_of, add_issue, conflicts, conflict_issue, take_host,
  refuse_host, claim_host, empty_host_issue, collect_host, collect_hosts_of, no_secret_issue,
  no_hosts_issue, source_of, clean_host, effective_tls_hosts,
}

-- The host is served with this Secret.
pub record Owns (certificates : List (Text × CertificateSource)) (namespace secret host : Text)
    : Type 0 where
  pub owner : CertificateSource
  pub found : lookup host certificates ≡ some owner
  pub of_namespace : owner.namespace ≡ namespace
  pub of_secret : owner.secret ≡ secret

abbrev pub IsFatal : NamespacedName → Issues → Type 0
IsFatal source issues = fatal (issues_of source issues) ≡ true

pub fatal-append : (is js : List Issue) → fatal (is ++ js) ≡ (fatal is || fatal js)
unfolding fatal
fatal-append [] js = refl
fatal-append (i ∷ is) js = ground (arith, fatal-append is js)

issues_of-add_issue :
    (source k : NamespacedName) (issue : Issue) (issues : Issues)
    → issues_of k (add_issue source issue issues)
      ≡ (if name_eq source k then issues_of source issues ++ issue ∷ [] else issues_of k issues)
unfolding add_issue
issues_of-add_issue source k issue issues =
    ground (arith, lookup-insert source k (issues_of source issues ++ issue ∷ []) issues)

IsFatal-add_issue :
    (source k : NamespacedName) (issue : Issue) (issues : Issues)
    → IsFatal k issues
    → IsFatal k (add_issue source issue issues)
IsFatal-add_issue source k issue issues h = elim (Bool-cases (name_eq source k)) [
  | inl same ↦
      let e = (name_eq_iff source k).0 same in
      rw (issues_of-add_issue source k issue issues, same, fatal-append, e, h) refl
  | inr other ↦ rw (issues_of-add_issue source k issue issues, other) h
]

pub IsFatal-add_issue_self :
    (source : NamespacedName) (issue : Issue) (issues : Issues)
    → issue_fatal issue ≡ true
    → IsFatal source (add_issue source issue issues)
unfolding fatal
IsFatal-add_issue_self source issue issues h =
    rw (issues_of-add_issue source source issue issues, eq_refl source, fatal-append)
      (ground (arith, h))

-- What holds of the maps now holds later.
pub record Later (d d' : Declared) : Type 0 where
  pub owns :
      (namespace secret host : Text)
      → Owns d.certificates namespace secret host
      → Owns d'.certificates namespace secret host
  pub fatals : (source : NamespacedName) → IsFatal source d.issues → IsFatal source d'.issues

pub Later-refl : (d : Declared) → Later d d
Later-refl d = record { owns = λ ns s h o. o; fatals = λ source h. h }

pub Later-trans : (a b c : Declared) → Later a b → Later b c → Later a c
Later-trans a b c p q = record {
  owns = λ ns s h o. q.owns ns s h (p.owns ns s h o);
  fatals = λ source h. q.fatals source (p.fatals source h);
}

pub Later-add_issue :
    (d : Declared) (source : NamespacedName) (issue : Issue)
    → Later d (record d { issues = add_issue source issue d.issues })
Later-add_issue d source issue = record {
  owns = λ ns s h o. o;
  fatals = λ k. IsFatal-add_issue source k issue d.issues;
}

Owns-insert_other :
    (certificates : List (Text × CertificateSource)) (host : Text) (candidate : CertificateSource)
    (ns s h : Text)
    → text_eq host h ≡ false
    → Owns certificates ns s h
    → Owns (insert host candidate certificates) ns s h
Owns-insert_other certificates host candidate ns s h other o = record {
  owner = o.owner;
  found = rw (lookup-insert host h candidate certificates, other) o.found;
  of_namespace = o.of_namespace;
  of_secret = o.of_secret;
}

Owns-insert_self :
    (certificates : List (Text × CertificateSource)) (host : Text) (candidate : CertificateSource)
    → Owns (insert host candidate certificates) candidate.namespace candidate.secret host
Owns-insert_self certificates host candidate = record {
  owner = candidate;
  found = rw (lookup-insert host host candidate certificates, eq_refl host);
  of_namespace = refl;
  of_secret = refl;
}

conflicts-false :
    (existing candidate : CertificateSource)
    → conflicts existing candidate ≡ false
    → (candidate.namespace ≡ existing.namespace) × (candidate.secret ≡ existing.secret)
unfolding conflicts
conflicts-false existing candidate h = ground (
  arith,
  text_eq_iff existing.namespace candidate.namespace,
  text_eq_iff existing.secret candidate.secret,
)

some_injective : {A : Type 0} {a b : A} → some a ≡ some b → a ≡ b
some_injective e = cc

-- Storing the candidate keeps every owner, if the host was free or has the same Secret.
module _ (d : Declared) (host : Text) (candidate : CertificateSource)
    (free_or_same : (existing : CertificateSource)
      → lookup host d.certificates ≡ some existing
      → (candidate.namespace ≡ existing.namespace) × (candidate.secret ≡ existing.secret)) where
  Owns-insert :
      (ns s h : Text)
      → Owns d.certificates ns s h
      → Owns (insert host candidate d.certificates) ns s h
  Owns-insert ns s h o = elim (Bool-cases (text_eq host h)) [
    | inl same ↦
        let e = (text_eq_iff host h).0 same in
        let (of_ns, of_s) = free_or_same o.owner (rw e o.found) in
        record {
          owner = candidate;
          found = rw (lookup-insert host h candidate d.certificates, same);
          of_namespace = of_ns ∙ o.of_namespace;
          of_secret = of_s ∙ o.of_secret;
        }
    | inr other ↦ Owns-insert_other d.certificates host candidate ns s h other o
  ]

  Later-take_host : Later d (take_host host candidate d)
  unfolding take_host
  Later-take_host = record { owns = Owns-insert; fatals = λ k h. h }

Later-refuse_host :
    (d : Declared) (host : Text) (existing candidate : CertificateSource)
    → Later d (refuse_host host existing candidate d)
unfolding refuse_host
Later-refuse_host d host existing candidate = record {
  owns = λ ns s h o. o;
  fatals = λ k h.
      IsFatal-add_issue existing.source k conflict_issue _
        (IsFatal-add_issue candidate.source k conflict_issue d.issues h);
}

-- The host is the candidate's, or its Ingress has a fatal issue.
abbrev pub IsTold : CertificateSource → Declared → Text → Type 0
IsTold candidate d raw =
    Owns d.certificates candidate.namespace candidate.secret (clean_host raw)
    ⊎ IsFatal candidate.source d.issues

IsTold-Later :
    (candidate : CertificateSource) (d d' : Declared) (raw : Text)
    → Later d d'
    → IsTold candidate d raw
    → IsTold candidate d' raw
IsTold-Later candidate d d' raw l (inl o) = inl (l.owns _ _ _ o)
IsTold-Later candidate d d' raw l (inr h) = inr (l.fatals _ h)

none-some : (x : CertificateSource) → none ≡ some x → ⊥
none-some x e = cc

conflict_issue-fatal : issue_fatal conflict_issue ≡ true
unfolding issue_fatal conflict_issue
conflict_issue-fatal = refl

empty_host_issue-fatal : issue_fatal empty_host_issue ≡ true
unfolding issue_fatal empty_host_issue
empty_host_issue-fatal = refl

pub no_secret_issue-fatal : issue_fatal no_secret_issue ≡ true
unfolding issue_fatal no_secret_issue
no_secret_issue-fatal = refl

pub no_hosts_issue-fatal : issue_fatal no_hosts_issue ≡ true
unfolding issue_fatal no_hosts_issue
no_hosts_issue-fatal = refl

refused :
    (d : Declared) (host : Text) (existing candidate : CertificateSource)
    → IsFatal candidate.source (refuse_host host existing candidate d).issues
unfolding refuse_host
refused d host existing candidate =
    IsFatal-add_issue existing.source candidate.source conflict_issue _
      (IsFatal-add_issue_self candidate.source conflict_issue d.issues conflict_issue-fatal)

claim_host-told :
    (d : Declared) (host : Text) (candidate : CertificateSource) (o : Option CertificateSource)
    → lookup host d.certificates ≡ o
    → Later d (claim_host host candidate o d)
      × (Owns (claim_host host candidate o d).certificates candidate.namespace candidate.secret host
          ⊎ IsFatal candidate.source (claim_host host candidate o d).issues)
unfolding take_host
claim_host-told d host candidate none e = (
  Later-take_host d host candidate (λ x found. absurd (none-some x (sym e ∙ found))),
  inl (Owns-insert_self d.certificates host candidate),
)
claim_host-told d host candidate (some existing) e =
    elim (Bool-cases (conflicts existing candidate)) [
      | inl conflict ↦
          rw conflict
            (Later-refuse_host d host existing candidate, inr (refused d host existing candidate))
      | inr agree ↦ rw agree (
        Later-take_host d host candidate (λ x found.
            rw (some_injective (sym found ∙ e)) (conflicts-false existing candidate agree)),
        inl (Owns-insert_self d.certificates host candidate),
      )
    ]

collect_host-IsTold :
    (candidate : CertificateSource) (d : Declared) (raw : Text)
    → Later d (collect_host candidate d raw) × IsTold candidate (collect_host candidate d raw) raw
unfolding collect_host
collect_host-IsTold candidate d raw = elim (Bool-cases (is_empty (clean_host raw))) [
  | inl blank ↦ rw blank (
    Later-add_issue d candidate.source empty_host_issue,
    inr (IsFatal-add_issue_self candidate.source empty_host_issue d.issues empty_host_issue-fatal),
  )
  | inr named ↦ rw named (claim_host-told d (clean_host raw) candidate _ refl)
]

pub collect_hosts_of-IsTold :
    (candidate : CertificateSource) (d : Declared) (hosts : List Text)
    → Later d (collect_hosts_of candidate d hosts)
      × All (IsTold candidate (collect_hosts_of candidate d hosts)) hosts
unfolding collect_hosts_of
collect_hosts_of-IsTold candidate d [] = (Later-refl d, tt)
collect_hosts_of-IsTold candidate d (raw ∷ hosts) =
    let (now, told) = collect_host-IsTold candidate d raw in
    let (later, rest) = collect_hosts_of-IsTold candidate (collect_host candidate d raw) hosts in
    (Later-trans _ _ _ now later, (IsTold-Later candidate _ _ raw later told, rest))

-- What an Ingress can rely on for one of its TLS entries: all hosts of the entry have its Secret, or
-- the Ingress has a fatal issue.
abbrev pub IsSettled : Declared → Ingress → IngressTls → Type 0
IsSettled d ing tls =
    All (λ raw. Owns d.certificates ing.namespace (trim_space tls.secret_name) (clean_host raw))
      (effective_tls_hosts ing tls)
    ⊎ IsFatal (source_of ing) d.issues

pub All-told :
    (P : Text → Type 0) (F : Type 0) (xs : List Text) → All (λ x. P x ⊎ F) xs → All P xs ⊎ F
All-told P F [] h = inl tt
All-told P F (x ∷ xs) (inr f, h) = inr f
All-told P F (x ∷ xs) (inl p, h) = elim (All-told P F xs h) [ inl ps ↦ inl (p, ps) | inr f ↦ inr f ]

pub IsSettled-Later :
    (d d' : Declared) (ing : Ingress) (tls : IngressTls)
    → Later d d'
    → IsSettled d ing tls
    → IsSettled d' ing tls
IsSettled-Later d d' ing tls l (inl owned) =
    inl (All-map _ _ (effective_tls_hosts ing tls) (λ raw o. l.owns _ _ _ o) owned)
IsSettled-Later d d' ing tls l (inr h) = inr (l.fatals _ h)
