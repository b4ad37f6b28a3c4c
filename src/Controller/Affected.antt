-- ===== src/Controller/Affected.antt =====
-- `enqueueAffectedIngresses`, `prioritizedIngressHandler` and `listenerSetChanged` in
-- internal/controller/managed_gateway.go. The queue holds the events
-- of the channel that nobody has received yet; nothing is received while the loop runs.
use ingress_nginx_gateway_br.Common.{
  ℕ, Bool, true, not, ◌||◌, nat_beq, Option, none, some, List, [], ◌∷◌, ◌++◌, if◌then◌else◌, ltb,
  length, any, contains,
}
use ingress_nginx_gateway_br.Text.{Text, text_key}
use ingress_nginx_gateway_br.Api.{NamespacedName, Ingress}
use ingress_nginx_gateway_br.Translate.Values.{route_tls_hostnames}
use ingress_nginx_gateway_br.Controller.ParentStatus.{Condition}

-- Whether a route of the Ingress attaches to a changed listener.
unfoldable pub is_affected : List Text → List Text → Ingress → Bool
is_affected tls_hosts changed ing =
    any (λ host. contains host changed) (route_tls_hostnames ing tls_hosts)

-- A full channel drops the event.
unfoldable pub send : ℕ → NamespacedName → List NamespacedName → List NamespacedName
send capacity event queue = if ltb (length queue) capacity then queue ++ event ∷ [] else queue

unfoldable pub enqueue_all :
    ℕ → List Text → List Text → List NamespacedName → List Ingress → List NamespacedName
enqueue_all capacity tls_hosts changed queue [] = queue
enqueue_all capacity tls_hosts changed queue (ing ∷ ingresses) =
    enqueue_all capacity tls_hosts changed
      (if is_affected tls_hosts changed ing
        then send capacity (record { namespace = ing.namespace; name = ing.name }) queue
        else queue)
      ingresses

-- `enqueueAffectedIngresses`; `capacity` is `none` for a nil channel.
unfoldable pub enqueue_affected_ingresses :
    Option ℕ → List Ingress → List Text → List Text → List NamespacedName → List NamespacedName
enqueue_affected_ingresses none ingresses tls_hosts changed queue = queue
enqueue_affected_ingresses (some capacity) ingresses tls_hosts [] queue = queue
enqueue_affected_ingresses (some capacity) ingresses tls_hosts (host ∷ changed) queue =
    enqueue_all capacity tls_hosts (host ∷ changed) queue ingresses

-- `affectedIngressPriority`
abbrev affected_ingress_priority : ℕ
affected_ingress_priority = 10

-- `prioritizedIngressHandler`: the request that an event adds to the work queue, with its priority where
-- the queue has priorities.
unfoldable pub prioritized_ingress_handler : Bool → NamespacedName → Option ℕ × NamespacedName
prioritized_ingress_handler has_priorities event =
    (if has_priorities then some affected_ingress_priority else none, event)

-- What `listenerSetChanged` reads of a ListenerSet.
pub record ListenerSetVersion : Type 0 where
  pub generation : ℕ
  pub labels : List (Text × Text)
  pub conditions : List Condition

-- `listenerSetChanged` on an update, where `none` is an object of another kind. The two tests are
-- DeepEqual, on labels and on conditions.
unfoldable pub listener_set_changed :
    (List (Text × Text) → List (Text × Text) → Bool)
    → (List Condition → List Condition → Bool)
    → Option ListenerSetVersion
    → Option ListenerSetVersion
    → Bool
listener_set_changed same_labels same_conditions none new_set = true
listener_set_changed same_labels same_conditions (some old_set) none = true
listener_set_changed same_labels same_conditions (some old_set) (some new_set) =
    not (nat_beq old_set.generation new_set.generation)
    || (not (same_labels old_set.labels new_set.labels)
        || not (same_conditions old_set.conditions new_set.conditions))

-- The functions above, for the tests.
unfoldable pub affected_functions : Unit {0}
unfolding prioritized_ingress_handler listener_set_changed is_affected send enqueue_all
    enqueue_affected_ingresses any
affected_functions = tt
