-- ===== src/Lib.antt =====
-- The verification library of ingress-nginx-gateway-bridge, a controller that serves Kubernetes Ingress
-- objects written for ingress-nginx through the Gateway API and NGINX Gateway Fabric.
--
-- The program. internal/translator turns an Ingress into routes and policies (translate.go) and all
-- selected Ingresses into one managed Gateway with ListenerSets (gateway.go). internal/controller
-- watches the objects, chooses the Ingresses (config.go), pairs canaries with primaries (canary.go),
-- reads listener placements back from the cluster (managed_gateway.go), applies the plans
-- (ingress_controller.go) and reports status (status.go). internal/naming makes object names.
-- The managed Gateway is planned in steps: the declared TLS hosts with their Secrets are collected,
-- hosts under one wildcard certificate are collapsed onto a wildcard listener, the listeners are placed
-- on the Gateway (63 HTTPS listeners beside the HTTP one) or on ListenerSets (64 each), and the objects
-- are built. The next plan starts from the placements of the last one, which a fresh controller
-- reads back from the cluster. The routes of an Ingress attach to the listener of the declared host
-- that matches theirs.
--
-- The files, and what they model:
--   Common, Text: maps, sets and sorting of Go, strings as lists of bytes, and the functions of
--     Go's packages strings, sort and strconv that the code calls.
--   Naming: internal/naming/naming.go. `dns_label` is DNSLabel, with SHA-256 as a parameter;
--     Naming/Label is about its result.
--   Api, Types: the Kubernetes objects with the fields that the code uses, and
--     internal/translator/types.go.
--   Certificates: the names in internal/translator/certificates.go; Certificates/Parse is
--     ParseCertificateInfo and validCABundle.
--   Gateway: internal/translator/gateway.go. Gateway/Hosts has the loop that collects declared
--     hosts (`declared_hosts`), with Owners and Settled about it; Gateway/Groups the grouping and
--     resolveWildcardGroup; Gateway/Placement has placeListeners (`place_listeners`), with Passes,
--     Capacity, Spread, Complete, Sticky and Stable about it; Gateway/Emission the objects and
--     issues of BuildManagedGateway, with Limits, Grants, Parents and Setless about them;
--     Gateway/Refs listenerRef, listenerRefFor and ChangedTLSHosts; Gateway/Known and
--     Gateway/Replan say what a plan takes from the placements of the last one.
--   Annotations: internal/translator/annotations.go.
--   Translate: internal/translator/translate.go. Translate/Values reads annotation values and
--     matches TLS hosts (matchingTLSHost, splitCSV, RouteTLSHostnames), with Matching and Items
--     about them; Translate/Checks has the checks of annotations, with Ranges about source
--     ranges; Translate/BackendTls is parseBackendTLS, with BackendSound; Translate/Hosts is
--     collectHosts, with Distinct; Translate/Parents is applicationParentRefs. Translate/Rules is
--     buildRoute, buildRule and buildRedirectRoute, with RulesSound; Translate/Cors is corsFilter;
--     Translate/Settings is buildProxySettingsSnippets and buildProxyPolicy, with Agree;
--     Translate/Snippets is buildSnippets and buildBasicAuth, with RawSnippets;
--     Translate/ExternalAuth is externalAuthSnippets; Translate/Policies and Translate/Attach are
--     addPolicies and the functions that it calls, with Kept; Translate/Compose and
--     Translate/Whole are Translate itself (`translate`), with Supported and Policyless.
--   Controller: internal/controller. Controller/Selection is config.go; Controller/Canary is
--     canary.go, with Oldest; Controller/Observed and Controller/Affected are managed_gateway.go,
--     with Lowest, Indexed, ReadBack, ReadSets, Recalled, Restarted, Resumed and Requeue;
--     Controller/ParentStatus and Controller/Readiness are status.go,
--     with Attached and Programmed; Controller/Flags compares the two readers of Boolean
--     annotations. Controller/Secrets is what the informer keeps of a Secret and Controller/CertificateCache
--     the cache of certificates.go, with Projected, CacheSound and CacheKeys. Controller/Cluster is the client and
--     its contract (`IsServer`); Controller/Apply is apply and pruneSource, with Keeps, Pruned and
--     Leftovers; Controller/ManagedObjects and Controller/ManagedPlan are reconcileManagedGateway;
--     Controller/TranslationStatus and Controller/Mirror are the parts of status.go that write;
--     Controller/IngressPlan and Controller/Reconcile are Reconcile (`reconcile`), with
--     GatewayFrame, Foreign, StatusFrame, StepFrame, Untouched, Released,
--     RoutingFrame and Withdrawn; Controller/Translated puts Translate into it
--     (`translate_ingress`), with Unsupported and Overlapping;
--     Controller/Requests and Controller/Footprints map events to Ingresses and find shared
--     routes.
--   Tests: runs on small inputs, and each theorem at a concrete input.
--
-- Conventions. Texts are bytes; case and the classes of characters are those of ASCII, but for
-- `DNSLabel`, which keeps letters and digits beyond it. A nil pointer is `none`, a map is an association list, and a set
-- is the list of its keys; where Go iterates over a map, the order is that of the list. A loop that
-- appends to shared state passes the state on. The messages of issues leave out the values that the
-- source quotes. Numbers are natural numbers: counts and indices stay far below a machine word.
--
-- Fuel. The search of the third placement pass for a ListenerSet with room has one step more than
-- there are listeners, since each full set holds 64 of them; the decimal digits of a number have one
-- step more than its value.
--
-- Parameters: SHA-256 gives 32 bytes; netip.ParsePrefix gives a family and a length; Kubernetes'
-- IsDNS1123Subdomain is any test; url.Parse, the packages that read certificates and encoding/json
-- are any functions, the last with the law that decoding inverts encoding where a theorem needs
-- it; the resolver of named ports is any function. The API server is a state with a client whose
-- calls may fail and whose reads are answered from the informer cache; `IsServer` says what they
-- give and what a patch and a deletion leave alone, for a cache that may lag behind, and the
-- theorems about whole reconciliations take it as a hypothesis. SetControllerReference, DeepEqual and
-- the reads of a reconciliation are fields of `Environment`, as are the translation of one Ingress
-- and the readiness of what was generated.
--
-- Not modelled: the registration of the watches (SetupWithManager), the generated code of the status
-- resource, and the entry point with its flags, all of which only call controller-runtime and
-- client-go.
pub mod Common
pub mod Text
pub mod Naming
pub mod Api
pub mod Types
pub mod Certificates
pub mod Gateway
pub mod Annotations
pub mod Controller
pub mod Tests
pub mod Translate
