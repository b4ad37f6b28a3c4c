-- ===== src/Translate.antt =====
-- internal/translator/translate.go: the translation of an Ingress, in parts. `Values` reads annotation
-- values, with `Matching` and `Items` about it; `Checks` validates the annotations, with `Ranges` about
-- source ranges; `BackendTls` is the TLS to the backend, with `BackendSound`; `Hosts` collects the
-- virtual hosts, with `Distinct`; `Parents` attaches the routes. `Rules` builds the routes, with `Cors`
-- and `RulesSound`; `Settings` has the settings of the proxy, with `Agree`; `Snippets` and
-- `ExternalAuth` write NGINX configuration, with `RawSnippets`; `Policies` and `Attach` add all
-- that to a route, with `Kept`; `Compose` and `Whole` are `Translate`, with
-- `Supported` and `Policyless`.
pub mod Values
pub mod Matching
pub mod Items
pub mod Checks
pub mod Ranges
pub mod BackendTls
pub mod BackendSound
pub mod Distinct
pub mod Hosts
pub mod Parents
pub mod Settings
pub mod Agree
pub mod Rules
pub mod Cors
pub mod RulesSound
pub mod ExternalAuth
pub mod Snippets
pub mod RawSnippets
pub mod Policies
pub mod Attach
pub mod Compose
pub mod Whole
pub mod Kept
pub mod Supported
pub mod Policyless
