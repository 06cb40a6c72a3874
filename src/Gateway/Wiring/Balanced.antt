-- ===== src/Gateway/Wiring/Balanced.antt =====
-- Any run of requests through the gateway, and what its counters say of it.
use faas_drl.Base.{ℕ, ◌+◌, ◌≤◌, ◌≡◌, refl, ap, Option, List, arith}
use faas_drl.Base.Bytes.{Bytes}
use faas_drl.Effect.{Exit, done, panicked}
use faas_drl.Http.{Request, Writer}
use faas_drl.Handlers.Notifiers.{metric_calls, notifier_wrapper}
use faas_drl.Handlers.Notifiers.Balance.{started_count, completed_count}
use faas_drl.Gateway.Calls.{async_function_handler}
use faas_drl.Handlers.Notifiers.Logged.{metric_calls-forwarding_proxy_handler, metric_calls-tell}
use faas_drl.Handlers.Forwarding.{UpstreamRequest}
use faas_drl.Gateway.Functions.{proxy_handler}
use faas_drl.Gateway.Routes.{Handler, RoutePattern}
use faas_drl.Gateway.Steps.{LeavesAlone, CallsOrAnswers, Steps, panics, Leads, Respects}
use faas_drl.Gateway.Wiring.{
  Store, Parts, proxy_config, forwarding, proxy, scaler, queued_handler, served_alert,
}
use faas_drl.Gateway.Wiring.Reached.{OwnRespect, Reached, Reached-Rel, gateway-Respects}
use faas_drl.Gateway.Wiring.Calls.{started, completed, IsCounted, proxy-IsCounted}

module _ (ns name : Bytes) where
  -- Of the calls that were started between two states, all are completed but for those that
  -- panicked.
  abbrev IsBalanced : Store → ℕ → Store → Type 0
  IsBalanced s n t =
      (completed ns name t + started ns name s ≤ started ns name t + completed ns name s)
      × (started ns name t + completed ns name s ≤ completed ns name t + (started ns name s + n))

  abbrev balance : Steps Store
  balance = record {
    Rel = IsBalanced;
    idle = λ s. (omega arith, omega arith);
    join = λ a b. (omega (arith, a.0, b.0), omega (arith, a.1, b.1));
    weaken = λ le a. (a.0, omega (arith, le, a.1));
  }

  -- What the counters do not see.
  unseen :
      (s t : Store) (n : ℕ)
      → metric_calls ns t.notices ≡ metric_calls ns s.notices
      → IsBalanced s n t
  unseen s t n e =
      let begun : started ns name t ≡ started ns name s = ap (started_count name) e in
      let ended : completed ns name t ≡ completed ns name s = ap (completed_count name) e in
      (omega (arith, begun, ended), omega (arith, begun, ended))

  unseen_by :
      (s : Store) (m : Exit (Unit {0}) × (Writer × Store))
      → metric_calls ns m.1.1.notices ≡ metric_calls ns s.notices
      → Leads balance s m
  unseen_by s m e = unseen s m.1.1 (panics m.0) e

  counted :
      (r : Request) (s : Store) (m : Exit (Unit {0}) × (Writer × Store))
      → IsCounted ns r name s m
      → Leads balance s m
  counted r s (done _, (w, t)) (a, b) = ground (arith, a, b)
  counted r s (panicked, (w, t)) (a, b) = ground (arith, a, b)

  module _ {P Rest : Type 0} (p : Parts P Rest) where
    forwarding-balance :
        (inject : Option (UpstreamRequest → UpstreamRequest))
        → Respects balance (forwarding p inject)
    unfolding forwarding proxy_handler
    forwarding-balance inject r w s = unseen_by s (forwarding p inject r (w, s)) (
        metric_calls-forwarding_proxy_handler ns (proxy_config p inject) r
          (record { writer = w; notices = s.notices }))

    proxy-balance : Respects balance (proxy p)
    proxy-balance r w s = counted r s (proxy p r (w, s)) (proxy-IsCounted p r w ns name s)

    scaler-balance :
        (f n : Bytes) (s : Store) → let m = scaler p f n s in IsBalanced s (panics m.0) m.1
    unfolding scaler
    scaler-balance f n s = unseen s (scaler p f n s).1 (panics (scaler p f n s).0) refl

    queued_handler-balance : Respects balance (queued_handler p)
    unfolding queued_handler async_function_handler notifier_wrapper
    queued_handler-balance r w s =
        unseen_by s (queued_handler p r (w, s))
          (metric_calls-tell ns p.status p.elapsed r s.notices _).1

    alert-balance : Respects balance (served_alert p)
    unfolding notifier_wrapper
    alert-balance r w s =
        unseen_by s (served_alert p r (w, s))
          (metric_calls-tell ns p.status p.elapsed r s.notices _).0

    own-balance : OwnRespect balance p
    own-balance = record {
      forwards = forwarding-balance;
      calls = proxy-balance;
      scales = scaler-balance;
      handles_alerts = alert-balance;
      queues = queued_handler-balance;
    }

module _ (P Rest : Type 0) (choose : List RoutePattern → Request → Option ℕ)
    (own : Request → Writer → Writer) (decorate : Bytes × Bytes → Handler Store → Handler Store)
    (strip_prefix : Handler Store → Handler Store) (files redirect : Handler Store) where
  -- Suppose that basic auth and the stripping of a prefix either call their handler or answer with
  -- no more done, and that the files of the UI and the redirect change nothing in the gateway. Then
  -- behind any sequence of requests to the gateway, whatever the provider answers, a function has
  -- not been counted more often as completed than as started, and the calls that were started and
  -- not completed are at most as many as the requests that panicked. The counts are those since
  -- `first`, and the requests are served one after another.
  pub Reached-IsBalanced :
      ((credentials : Bytes × Bytes) → CallsOrAnswers (decorate credentials))
      → CallsOrAnswers strip_prefix
      → LeavesAlone files
      → LeavesAlone redirect
      → (Given : Parts P Rest → Type 0) (ns name : Bytes) (first : Store) (n : ℕ) (s : Store)
      → Reached P Rest choose own decorate strip_prefix files redirect Given first n s
      → (completed ns name s + started ns name first ≤ started ns name s + completed ns name first)
        × (started ns name s + completed ns name first
            ≤ completed ns name s + (started ns name first + n))
  Reached-IsBalanced guarding stripping serving redirecting Given ns name first n s =
      Reached-Rel P Rest choose own decorate strip_prefix files redirect Given (balance ns name)
        (λ p _.
          gateway-Respects P Rest choose own decorate strip_prefix files redirect guarding stripping
            serving redirecting (balance ns name) p (own-balance ns name p))
        first n s
