-- ===== src/Controller/Untouched.antt =====
-- No request makes the controller touch an object that is not its own.
use ingress_nginx_gateway_br.Common.{◌≡◌, false, Option, some}
use ingress_nginx_gateway_br.Api.{NamespacedName}
use ingress_nginx_gateway_br.Controller.Selection.{Config}
use ingress_nginx_gateway_br.Controller.Cluster.{
  ObjectKey, Object, IsServer, IsUntouched, is_managed,
}
use ingress_nginx_gateway_br.Controller.Keeps.{
  Shows, Keeps, Keeps-untouched, Keeps-trans, apply-Keeps,
}
use ingress_nginx_gateway_br.Controller.ManagedPlan.{Memory}
use ingress_nginx_gateway_br.Controller.Foreign.{prune_source-Keeps, gateway-IsFrame}
use ingress_nginx_gateway_br.Controller.StatusFrame.{IsApart}
use ingress_nginx_gateway_br.Controller.StepFrame.{IsStepFrame, reconcile-frame}
use ingress_nginx_gateway_br.Controller.Reconcile.{Environment, reconcile}

module _ {S : Type 0} (env : Environment S) (config : Config)
    (view cached : S → ObjectKey → Option Object) where
  -- What a sequence of requests leads to, whichever of them fail. Between two of them anything may change
  -- beside the object of the key, and the cache may catch up.
  pub data Serves (key : ObjectKey) : Memory × S → Memory × S → Type 0 where
    idle : {st : Memory × S} → Serves key st st
    elapse :
        {memory : Memory} {s t : S} {st' : Memory × S}
        → IsUntouched view cached key s t
        → Serves key (memory, t) st'
        → Serves key (memory, s) st'
    request :
        {st st' : Memory × S} (source : NamespacedName)
        → Serves key (reconcile env config source st).1 st'
        → Serves key st st'

module _ {S : Type 0} (env : Environment S) (config : Config)
    (view cached : S → ObjectKey → Option Object) (server : IsServer env.client view cached)
    (apart : IsApart env.writes view cached) where
  foreign-IsStepFrame :
      (object : Object)
      → is_managed object ≡ false
      → IsStepFrame env config (Keeps view cached object)
  foreign-IsStepFrame object foreign = record {
    step_quiet = record {
      quiet_refl = λ s shows. shows;
      quiet_trans = Keeps-trans view cached object;
      quiet_ingress = λ s patched.
          Keeps-untouched view cached object s _ (apart.ingress_apart s patched object.key);
      quiet_ingress_status = λ s patched.
          Keeps-untouched view cached object s _ (apart.ingress_status_apart s patched object.key);
      quiet_status = λ s translation status.
          Keeps-untouched view cached object s _
            (apart.status_apart s translation status object.key);
    };
    step_gateway = gateway-IsFrame server object foreign env.sha256 config;
    step_apply = λ applied s. apply-Keeps server object applied s foreign;
    step_prune = λ source desired include_status s.
        prune_source-Keeps server object foreign env.sha256 source desired include_status s;
  }

  Serves-Shows :
      (object : Object) (st st' : Memory × S)
      → Serves env config view cached object.key st st'
      → is_managed object ≡ false
      → Shows view cached object st.1
      → Shows view cached object st'.1
  Serves-Shows object st st' idle foreign shows = shows
  Serves-Shows object (memory, s) st' (elapse {t = t} untouched rest) foreign shows =
      Serves-Shows object (memory, t) st' rest foreign
        (Keeps-untouched view cached object s t untouched shows)
  Serves-Shows object st st' (request source rest) foreign shows =
      Serves-Shows object (reconcile env config source st).1 st' rest foreign
        (reconcile-frame (foreign-IsStepFrame object foreign) source st shows)

  -- An object that does not carry the label of the bridge, that stands, and that the informer cache shows at
  -- the start, stands as it did after any sequence of requests, whichever calls of the API server fail on the
  -- way and however far the cache lags behind for other objects, where nobody else changes the object, the
  -- client keeps to its contract, and patches of Ingresses and of status do not change other objects.
  pub reconcile-Keeps :
      (st st' : Memory × S) (object : Object)
      → Serves env config view cached object.key st st'
      → is_managed object ≡ false
      → view st.1 object.key ≡ some object
      → cached st.1 object.key ≡ some object
      → view st'.1 object.key ≡ some object
  reconcile-Keeps st st' object served foreign stands shown =
      (Serves-Shows object st st' served foreign (stands, shown)).0
