-- ===== src/Controller/Requeue.antt =====
-- The events that `enqueueAffectedIngresses` puts into the channel.
use ingress_nginx_gateway_br.Common.{
  ℕ, ◌+◌, ◌≤◌, ◌≡◌, subst, true, some, List, [], ◌∷◌, Memᴰ, arith, ltb, length, length-append,
  contains, contains-append, if◌then◌else◌, eq_iff,
}
use ingress_nginx_gateway_br.Text.{Text}
use ingress_nginx_gateway_br.Api.{NamespacedName, name_key, Ingress}
use ingress_nginx_gateway_br.Controller.Affected.{
  is_affected, send, enqueue_all, enqueue_affected_ingresses,
}

abbrev event_of : Ingress → NamespacedName
event_of ing = record { namespace = ing.namespace; name = ing.name }

abbrev step : ℕ → List Text → List Text → List NamespacedName → Ingress → List NamespacedName
step capacity tls_hosts changed queue ing =
    if is_affected tls_hosts changed ing then send capacity (event_of ing) queue else queue

-- An event that is in the queue stays there.
contains-send :
    (capacity : ℕ) (event wanted : NamespacedName) (queue : List NamespacedName)
    → contains wanted queue ≡ true
    → contains wanted (send capacity event queue) ≡ true
unfolding send
contains-send capacity event wanted queue known =
    ground (arith, contains-append wanted queue (event ∷ []), known)

contains-send_self :
    (capacity : ℕ) (event : NamespacedName) (queue : List NamespacedName)
    → ltb (length queue) capacity ≡ true
    → contains event (send capacity event queue) ≡ true
unfolding send contains
contains-send_self capacity event queue room =
    ground (arith, contains-append event queue (event ∷ []), eq_iff event event, room)

length-step_le :
    (capacity : ℕ) (tls_hosts changed : List Text) (queue : List NamespacedName) (ing : Ingress)
    → length (step capacity tls_hosts changed queue ing) ≤ length queue + 1
unfolding send
length-step_le capacity tls_hosts changed queue ing =
    ground (arith, length-append queue (event_of ing ∷ []))

contains-step :
    (capacity : ℕ) (tls_hosts changed : List Text) (queue : List NamespacedName) (ing : Ingress)
    (wanted : NamespacedName)
    → contains wanted queue ≡ true
    → contains wanted (step capacity tls_hosts changed queue ing) ≡ true
contains-step capacity tls_hosts changed queue ing wanted known =
    ground (arith, contains-send capacity (event_of ing) wanted queue known)

contains-enqueue_all :
    (capacity : ℕ) (tls_hosts changed : List Text) (queue : List NamespacedName)
    (ingresses : List Ingress) (wanted : NamespacedName)
    → contains wanted queue ≡ true
    → contains wanted (enqueue_all capacity tls_hosts changed queue ingresses) ≡ true
unfolding enqueue_all
contains-enqueue_all capacity tls_hosts changed queue [] wanted known = known
contains-enqueue_all capacity tls_hosts changed queue (ing ∷ ings) wanted known =
    contains-enqueue_all capacity tls_hosts changed (step capacity tls_hosts changed queue ing) ings
      wanted (contains-step capacity tls_hosts changed queue ing wanted known)

enqueue_all-affected :
    (capacity : ℕ) (tls_hosts changed : List Text) (queue : List NamespacedName)
    (ingresses : List Ingress) (ing : Ingress)
    → length queue + length ingresses ≤ capacity
    → Memᴰ ing ingresses
    → is_affected tls_hosts changed ing ≡ true
    → contains (event_of ing) (enqueue_all capacity tls_hosts changed queue ingresses) ≡ true
unfolding enqueue_all
enqueue_all-affected capacity tls_hosts changed queue [] ing room member affected = elim member [ ]
enqueue_all-affected capacity tls_hosts changed queue (i ∷ is) ing room (Memᴰ.head e) affected =
    contains-enqueue_all capacity tls_hosts changed (step capacity tls_hosts changed queue i) is
      (event_of ing)
      (subst (λ j. contains (event_of ing) (step capacity tls_hosts changed queue j) ≡ true) e
        (rw affected (contains-send_self capacity (event_of ing) queue (ground (arith, room)))))
enqueue_all-affected capacity tls_hosts changed queue (i ∷ is) ing room (Memᴰ.tail m) affected =
    enqueue_all-affected capacity tls_hosts changed (step capacity tls_hosts changed queue i) is ing
      (omega (arith, room, length-step_le capacity tls_hosts changed queue i)) m affected

-- Where the channel has room for an event of every Ingress, each Ingress whose routes attach to a changed
-- listener is requeued.
pub enqueue_affected_ingresses-affected :
    (capacity : ℕ) (ingresses : List Ingress) (tls_hosts : List Text) (host : Text)
    (changed : List Text) (queue : List NamespacedName) (ing : Ingress)
    → length queue + length ingresses ≤ capacity
    → Memᴰ ing ingresses
    → is_affected tls_hosts (host ∷ changed) ing ≡ true
    → contains
        (record { namespace = ing.namespace; name = ing.name })
        (enqueue_affected_ingresses (some capacity) ingresses tls_hosts (host ∷ changed) queue)
      ≡ true
unfolding enqueue_affected_ingresses
enqueue_affected_ingresses-affected capacity ingresses tls_hosts host changed queue ing room member
      affected =
    enqueue_all-affected capacity tls_hosts (host ∷ changed) queue ingresses ing room member
      affected
