-- ===== src/Gateway/Wiring/Bounded.antt =====
-- Any run of requests through the gateway, and the counts that it sets with the provider.
use faas_drl.Base.{ℕ, ◌≤◌, Option, List, [], arith}
use faas_drl.Base.Bytes.{Bytes}
use faas_drl.Http.{Request, Writer}
use faas_drl.Scaling.Cacher.{function_cacher}
use faas_drl.Scaling.Scaler.Bounded.{SetsAtMost, MinimumsAtMost, scale-SetsAtMost}
use faas_drl.Handlers.Alert.Bounded.{alert_handler-SetsAtMost}
use faas_drl.Handlers.Alert.Handler.{alert_handler}
use faas_drl.Handlers.Forwarding.{UpstreamRequest}
use faas_drl.Handlers.Notifiers.{notifier_wrapper, tell}
use faas_drl.Scaling.Response.{History}
use faas_drl.Handlers.Forwarding.Proxy.{Notice}
use faas_drl.Base.Int.{ℤ}
use faas_drl.Effect.{Exit, done, panicked}
use faas_drl.Gateway.Routes.{Handler, RoutePattern}
use faas_drl.Gateway.Steps.{LeavesAlone, CallsOrAnswers, Steps, Respects}
use faas_drl.Gateway.Wiring.{
  Store, Parts, forwarding, proxy, scaler, queued_handler, served_alert, scaling_config,
}
use faas_drl.Gateway.Wiring.Reached.{OwnRespect, Reached, Reached-Rel, gateway-Respects}

module _ (limit : ℕ) where
  -- Counts within the limit stay so.
  abbrev limited : Steps Store
  limited = record {
    Rel = λ s n t. SetsAtMost limit s.scaling.history → SetsAtMost limit t.scaling.history;
    idle = λ s i. i;
    join = λ a b i. b (a i);
    weaken = λ le a. a;
  }

  tell-SetsAtMost :
      (status : Writer → ℕ) (notifiers : List ℕ) (elapsed : ℤ) (r : Request) (notices : List Notice)
      (m : Exit (Unit {0}) × (Writer × History))
      → SetsAtMost limit m.1.1
      → SetsAtMost limit (tell status notifiers elapsed r notices m).1.1.0
  tell-SetsAtMost status notifiers elapsed r notices (done _, (w, h)) i = i
  tell-SetsAtMost status notifiers elapsed r notices (panicked, (w, h)) i = i

  module _ {P Rest : Type 0} (p : Parts P Rest) where
    forwarding-limited :
        (inject : Option (UpstreamRequest → UpstreamRequest))
        → Respects limited (forwarding p inject)
    unfolding forwarding
    forwarding-limited inject r w s i = i

    proxy-limited : Respects limited (proxy p)
    unfolding proxy
    proxy-limited r w s i = i

    queued_handler-limited : Respects limited (queued_handler p)
    unfolding queued_handler
    queued_handler-limited r w s i = i

    module _ (five : 5 ≤ limit) (minimums : MinimumsAtMost limit p.env) where
      scaler-limited :
          (f n : Bytes) (s : Store)
          → SetsAtMost limit s.scaling.history
          → SetsAtMost limit (scaler p f n s).1.scaling.history
      unfolding scaler
      scaler-limited f n s i =
          scale-SetsAtMost limit p.env function_cacher p.group scaling_config f n
            (omega (arith, five)) minimums s.scaling i

      alert-limited : Respects limited (served_alert p)
      unfolding notifier_wrapper
      alert-limited r w s i =
          tell-SetsAtMost p.status [] p.elapsed r s.notices
            (alert_handler p.env p.config.namespace p.decode_alerts r (w, s.scaling.history))
            (alert_handler-SetsAtMost limit p.env five minimums p.config.namespace p.decode_alerts r
              w s.scaling.history i)

      own-limited : OwnRespect limited p
      own-limited = record {
        forwards = forwarding-limited;
        calls = proxy-limited;
        scales = scaler-limited;
        handles_alerts = alert-limited;
        queues = queued_handler-limited;
      }

module _ (P Rest : Type 0) (choose : List RoutePattern → Request → Option ℕ)
    (own : Request → Writer → Writer) (decorate : Bytes × Bytes → Handler Store → Handler Store)
    (strip_prefix : Handler Store → Handler Store) (files redirect : Handler Store) where
  -- Suppose that basic auth and the stripping of a prefix either call their handler or answer with
  -- no more done, and that the files of the UI and the redirect change nothing in the gateway. If
  -- the provider never answers with a minimum above a limit of 5 or more, then no sequence of
  -- requests to the gateway, calls that scale functions and alerts in any order, makes it ask the
  -- provider for more replicas of a function than this limit by `SetReplicas`: behind a history
  -- with no larger count there is one with no larger count.
  pub Reached-SetsAtMost :
      ((credentials : Bytes × Bytes) → CallsOrAnswers (decorate credentials))
      → CallsOrAnswers strip_prefix
      → LeavesAlone files
      → LeavesAlone redirect
      → (limit : ℕ) → 5 ≤ limit
      → (first : Store) (n : ℕ) (s : Store)
      → Reached P Rest choose own decorate strip_prefix files redirect
          (λ p. MinimumsAtMost limit p.env)
          first
          n
          s
      → SetsAtMost limit first.scaling.history
      → SetsAtMost limit s.scaling.history
  Reached-SetsAtMost guarding stripping serving redirecting limit five first n s =
      Reached-Rel P Rest choose own decorate strip_prefix files redirect
        (λ p. MinimumsAtMost limit p.env) (limited limit)
        (λ p minimums.
          gateway-Respects P Rest choose own decorate strip_prefix files redirect guarding stripping
            serving redirecting (limited limit) p (own-limited limit p five minimums))
        first n s
