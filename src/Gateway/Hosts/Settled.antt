-- ===== src/Gateway/Hosts/Settled.antt =====
-- Every TLS entry of every Ingress is settled in the end: its hosts have its Secret, or its Ingress has
-- a fatal issue.
use ingress_nginx_gateway_br.Common.{
  ◌≡◌, refl, sym, ◌∙◌, ◌⊎◌, inl, inr, Bool, true, false, List, [], ◌∷◌, Memᴰ, All, All-map, All-mem,
  Bool-cases, sort_by, sort_by-All, if◌then◌else◌, true-false,
}
use ingress_nginx_gateway_br.Text.{Text, is_empty, trim_space}
use ingress_nginx_gateway_br.Api.{Ingress, IngressTls}
use ingress_nginx_gateway_br.Gateway.Hosts.{
  CertificateSource, Declared, nothing_declared, no_secret_issue, no_hosts_issue, source_of,
  collect_or_issue, collect_tls, collect_entries, collect_ingress, collect_ingresses, by_name,
  declared_hosts, effective_tls_hosts, clean_host,
}
use ingress_nginx_gateway_br.Gateway.Hosts.Owners.{
  IsFatal, Owns, Later, Later-refl, Later-trans, Later-add_issue, IsFatal-add_issue_self,
  no_secret_issue-fatal, no_hosts_issue-fatal, collect_hosts_of-IsTold, IsSettled, IsSettled-Later,
  All-told,
}

collect_or_issue-IsSettled :
    (candidate : CertificateSource) (d : Declared) (hosts : List Text)
    → Later d (collect_or_issue candidate d hosts)
      × (All
            (λ raw.
              Owns
                (collect_or_issue candidate d hosts).certificates
                candidate.namespace
                candidate.secret
                (clean_host raw))
            hosts
          ⊎ IsFatal candidate.source (collect_or_issue candidate d hosts).issues)
collect_or_issue-IsSettled candidate d [] = (
  Later-add_issue d candidate.source no_hosts_issue,
  inr (IsFatal-add_issue_self candidate.source no_hosts_issue d.issues no_hosts_issue-fatal),
)
collect_or_issue-IsSettled candidate d (h ∷ hs) =
    let (later, told) = collect_hosts_of-IsTold candidate d (h ∷ hs) in
    (later, All-told _ _ (h ∷ hs) told)

collect_tls-IsSettled :
    (ing : Ingress) (d : Declared) (tls : IngressTls)
    → Later d (collect_tls ing d tls) × IsSettled (collect_tls ing d tls) ing tls
unfolding collect_tls
collect_tls-IsSettled ing d tls = elim (Bool-cases (is_empty (trim_space tls.secret_name))) [
  | inl missing ↦ rw missing (
    Later-add_issue d (source_of ing) no_secret_issue,
    inr (IsFatal-add_issue_self (source_of ing) no_secret_issue d.issues no_secret_issue-fatal),
  )
  | inr named ↦ rw named (collect_or_issue-IsSettled _ d (effective_tls_hosts ing tls))
]

collect_entries-IsSettled :
    (ing : Ingress) (d : Declared) (entries : List IngressTls)
    → Later d (collect_entries ing d entries)
      × All (IsSettled (collect_entries ing d entries) ing) entries
unfolding collect_entries
collect_entries-IsSettled ing d [] = (Later-refl d, tt)
collect_entries-IsSettled ing d (tls ∷ entries) =
    let (now, settled) = collect_tls-IsSettled ing d tls in
    let (later, rest) = collect_entries-IsSettled ing (collect_tls ing d tls) entries in
    (Later-trans _ _ _ now later, (IsSettled-Later _ _ ing tls later settled, rest))

-- All entries of an Ingress that is not being deleted.
abbrev AllSettled : Declared → Ingress → Type 0
AllSettled d ing = (ing.deleting ≡ true) ⊎ All (IsSettled d ing) ing.tls

AllSettled-Later :
    (d d' : Declared) (ing : Ingress) → Later d d' → AllSettled d ing → AllSettled d' ing
AllSettled-Later d d' ing l (inl gone) = inl gone
AllSettled-Later d d' ing l (inr settled) =
    inr (All-map _ _ ing.tls (λ tls. IsSettled-Later d d' ing tls l) settled)

skip_or_collect-IsSettled :
    (deleting : Bool) (d : Declared) (ing : Ingress)
    → ing.deleting ≡ deleting
    → Later d (if deleting then d else collect_entries ing d ing.tls)
      × AllSettled (if deleting then d else collect_entries ing d ing.tls) ing
skip_or_collect-IsSettled true d ing gone = (Later-refl d, inl gone)
skip_or_collect-IsSettled false d ing live =
    let (later, settled) = collect_entries-IsSettled ing d ing.tls in (later, inr settled)

collect_ingress-IsSettled :
    (d : Declared) (ing : Ingress)
    → Later d (collect_ingress d ing) × AllSettled (collect_ingress d ing) ing
unfolding collect_ingress
collect_ingress-IsSettled d ing = skip_or_collect-IsSettled ing.deleting d ing refl

collect_ingresses-IsSettled :
    (d : Declared) (ings : List Ingress)
    → Later d (collect_ingresses d ings) × All (AllSettled (collect_ingresses d ings)) ings
unfolding collect_ingresses
collect_ingresses-IsSettled d [] = (Later-refl d, tt)
collect_ingresses-IsSettled d (ing ∷ ings) =
    let (now, settled) = collect_ingress-IsSettled d ing in
    let (later, rest) = collect_ingresses-IsSettled (collect_ingress d ing) ings in
    (Later-trans _ _ _ now later, (AllSettled-Later _ _ ing later settled, rest))

IsSettled-entry :
    (d : Declared) (ing : Ingress) (tls : IngressTls)
    → ing.deleting ≡ false
    → Memᴰ tls ing.tls
    → AllSettled d ing
    → IsSettled d ing tls
IsSettled-entry d ing tls live listed (inl gone) = absurd (true-false (sym gone ∙ live))
IsSettled-entry d ing tls live listed (inr settled) = All-mem (IsSettled d ing) listed settled

-- For every TLS entry of an Ingress that is not being deleted: after all Ingresses are collected, each
-- host of the entry is served with the entry's Secret of the Ingress's namespace, or the Ingress has
-- a fatal issue.
pub declared_hosts-IsSettled :
    (ingresses : List Ingress) (ing : Ingress) (tls : IngressTls)
    → Memᴰ ing ingresses
    → ing.deleting ≡ false
    → Memᴰ tls ing.tls
    → IsSettled (declared_hosts ingresses) ing tls
unfolding declared_hosts
declared_hosts-IsSettled ingresses ing tls member live listed =
    IsSettled-entry (declared_hosts ingresses) ing tls live listed (
      All-mem (AllSettled (declared_hosts ingresses)) member (
        sort_by-All by_name (AllSettled (declared_hosts ingresses)) ingresses
          (collect_ingresses-IsSettled nothing_declared (sort_by by_name ingresses)).1))
