-- ===== src/Gateway/Wiring/Reached.antt =====
-- The stores that requests lead to, and the rule for what all of them keep.
use faas_drl.Base.{ℕ, ◌+◌, Option, none, some, List, Bool, true, false, if◌then◌else◌}
use mathlib.Core.Option
use faas_drl.Base.Bytes.{Bytes, codes}
use faas_drl.Effect.{Exit}
use faas_drl.Http.{Request, Writer, new_writer}
use faas_drl.Handlers.Health.{decorate_with_cors}
use faas_drl.Gateway.Routes.{Handler, RoutePattern}
use faas_drl.Gateway.Steps.{
  LeavesAlone, CallsOrAnswers, Respects-LeavesAlone, Respects-CallsOrAnswers, Steps, panics,
  Respects, Respects-decorate_with_cors, stay, Respects-if, Respects-add_metrics_handler,
  Respects-info_handler, Respects-horizontal_scaling_handler, Respects-scaling_handler,
}
use faas_drl.Gateway.Steps.Router.{IsPassive, AllRespect, Respects-gateway, RespectsIfThere}
use faas_drl.Types.Config.{use_nats}
use faas_drl.Metrics.Query.{fetch}
use faas_drl.Handlers.Forwarding.{UpstreamRequest}
use faas_drl.Handlers.Logs.{log_handler}
use faas_drl.Handlers.Scaling.{scaling_handler}
use faas_drl.Gateway.Wiring.{
  Store, Parts, injector, forwarding, proxy, scaler, function_proxy, queued_handler, served_alert,
  handlers, gateway,
}

-- What the gateway does to its state by itself respects a relation.
pub record OwnRespect {P Rest : Type 0} (R : Steps Store) (p : Parts P Rest) : Type 0 where
  pub forwards :
      (inject : Option (UpstreamRequest → UpstreamRequest)) → Respects R (forwarding p inject)
  pub calls : Respects R (proxy p)
  pub scales : (f n : Bytes) (s : Store) → let m = scaler p f n s in R.Rel s (panics m.0) m.1
  pub handles_alerts : Respects R (served_alert p)
  pub queues : Respects R (queued_handler p)

module _ {P Rest : Type 0} (R : Steps Store) (p : Parts P Rest) (own : OwnRespect R p) where
  queued-Respects : (b : Bool) → RespectsIfThere R (if b then some (queued_handler p) else none)
  queued-Respects true = own.queues
  queued-Respects false = tt

  handlers-Respect : AllRespect R (handlers p)
  unfolding handlers
  handlers-Respect =
      let managed = own.forwards (injector p) in
      record {
        deploy_function = managed;
        delete_function = managed;
        list_functions =
            Respects-add_metrics_handler R p.floats (forwarding p (injector p)) p.escape
              (fetch p.prometheus) p.decode_functions p.encode_functions managed;
        alert = own.handles_alerts;
        update_function = managed;
        function_status = managed;
        queued_proxy = queued-Respects (use_nats p.config);
        scale_function =
            Respects-horizontal_scaling_handler R p.decode_scaling p.encode_scaling
              (forwarding p (injector p)) managed;
        info_handler =
            Respects-info_handler R p.build p.decode_info p.encode_info (forwarding p (injector p))
              managed;
        telemetry_handler = own.forwards none;
        secret_handler = managed;
        log_proxy_handler = λ r w s. stay R s (panics (log_handler p.logs r w).0);
        namespace_lister_handler = managed;
        namespace_mutator_handler = managed;
      }

  function_proxy-Respects : Respects R (function_proxy p)
  unfolding function_proxy
  function_proxy-Respects =
      Respects-if R p.config.scale_from_zero
        (scaling_handler (scaler p) (proxy p) p.config.namespace) (proxy p)
        (Respects-scaling_handler R (scaler p) (proxy p) own.calls p.config.namespace own.scales)
        own.calls

module _ (P Rest : Type 0) (choose : List RoutePattern → Request → Option ℕ)
    (own : Request → Writer → Writer) (decorate : Bytes × Bytes → Handler Store → Handler Store)
    (strip_prefix : Handler Store → Handler Store) (files redirect : Handler Store) where
  abbrev pub answered_in : Parts P Rest → Request → Store → Exit (Unit {0}) × (Writer × Store)
  answered_in p r s = gateway p choose own decorate strip_prefix files redirect r (new_writer, s)

  -- The stores that requests lead to, one after another, `n` of which panicked. What is given for a
  -- request, as its identifier and the answers of the provider, may be other for the next, as far
  -- as it is `Given`.
  pub data Reached (Given : Parts P Rest → Type 0) (first : Store) : ℕ → Store → Type 1 where
    begun : Reached Given first 0 first
    served :
        (p : Parts P Rest) (r : Request) (n : ℕ) (s : Store)
        → Given p
        → Reached Given first n s
        → Reached Given first (n + panics (answered_in p r s).0) (answered_in p r s).1.1

  -- A relation that the gateway respects whatever is given holds between the ends of a run.
  pub Reached-Rel :
      (Given : Parts P Rest → Type 0) (R : Steps Store)
      → ((p : Parts P Rest)
          → Given p
          → Respects R (gateway p choose own decorate strip_prefix files redirect))
      → (first : Store) (n : ℕ) (s : Store) → Reached Given first n s
      → R.Rel first n s
  Reached-Rel Given R k first _ _ begun = R.idle first
  Reached-Rel Given R k first _ _ (served p r m t given reached) =
      R.join (Reached-Rel Given R k first m t reached) (k p given r new_writer t)

  module _ (guarding : (credentials : Bytes × Bytes) → CallsOrAnswers (decorate credentials))
      (stripping : CallsOrAnswers strip_prefix) (serving : LeavesAlone files)
      (redirecting : LeavesAlone redirect) where
    -- The gateway respects what its own handlers do.
    module _ (R : Steps Store) (p : Parts P Rest) where
      passive :
          (credentials : Option (Bytes × Bytes)) → IsPassive R (Option.map decorate credentials)
      passive none = tt
      passive (some c) = λ h k. Respects-CallsOrAnswers R (decorate c) h (guarding c) k

      pub gateway-Respects :
          OwnRespect R p → Respects R (gateway p choose own decorate strip_prefix files redirect)
      unfolding gateway
      gateway-Respects k =
          let ui = decorate_with_cors files (codes "raw.githubusercontent.com") in
          Respects-gateway R choose own (Option.map decorate p.credentials) (handlers p)
            (function_proxy p) (strip_prefix ui) (forwarding p (injector p)) redirect
            (passive p.credentials) (handlers-Respect R p k) (function_proxy-Respects R p k)
            (Respects-CallsOrAnswers R strip_prefix ui stripping
              (Respects-decorate_with_cors R files _ (Respects-LeavesAlone R files serving)))
            (k.forwards (injector p)) (Respects-LeavesAlone R redirect redirecting)
