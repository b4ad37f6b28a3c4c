-- ===== src/Controller.antt =====
-- internal/controller: the Ingress controller. `Selection` chooses the Ingresses, `Canary` pairs canaries
-- with primaries, `Observed` reads listener placements back from the cluster, `Affected` requeues
-- Ingresses whose listeners moved, `ParentStatus` reads the status of routes and `Readiness`
-- decides whether what was generated is in effect; `Flags`, `Oldest`, `Lowest`, `Indexed`,
-- `ReadBack`, `ReadSets`, `Recalled`, `Restarted`, `Resumed`, `Requeue`, `Attached` and `Programmed` are
-- about them. `Secrets` and `CertificateCache` look certificates up; `Projected`, `CacheSound` and
-- `CacheKeys` are about them. `Cluster` is the client, `Apply`, `ManagedObjects`, `ManagedPlan`,
-- `TranslationStatus`, `Mirror` and `IngressPlan` are the steps of `Reconcile`, `Translated` is its
-- translation, and `Requests` and `Footprints` say which Ingresses an event concerns; the others are
-- about the reconciliation.
pub mod Selection
pub mod Flags
pub mod Canary
pub mod Oldest
pub mod Observed
pub mod Indexed
pub mod Lowest
pub mod ReadBack
pub mod ReadSets
pub mod Recalled
pub mod Restarted
pub mod Resumed
pub mod Affected
pub mod Requeue
pub mod ParentStatus
pub mod Attached
pub mod Readiness
pub mod Programmed
pub mod Secrets
pub mod CertificateCache
pub mod Projected
pub mod CacheSound
pub mod CacheKeys
pub mod Cluster
pub mod Apply
pub mod Keeps
pub mod Pruned
pub mod Leftovers
pub mod ManagedObjects
pub mod ManagedPlan
pub mod Footprints
pub mod Requests
pub mod TranslationStatus
pub mod Mirror
pub mod IngressPlan
pub mod Reconcile
pub mod GatewayFrame
pub mod Foreign
pub mod StatusFrame
pub mod StepFrame
pub mod Untouched
pub mod Released
pub mod RoutingFrame
pub mod Withdrawn
pub mod Unsupported
pub mod Translated
pub mod Overlapping
