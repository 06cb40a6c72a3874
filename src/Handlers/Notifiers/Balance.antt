-- ===== src/Handlers/Notifiers/Balance.antt =====
-- Requests that are started and completed, as the Prometheus notifier counts them.
use faas_drl.Base.{
  ℕ, ◌+◌, ◌≡◌, refl, sym, ap, ◌∙◌, append_assoc, Bool, true, false, ◌&&◌, Option, List, [], ◌∷◌,
  ◌++◌, map, if◌then◌else◌, arith,
}
use faas_drl.Base.Int.{ℤ, pos}
use faas_drl.Base.Bytes.{Bytes, codes, eq_bytes}
use faas_drl.Effect.{Error, Exit, done, panicked, continue}
use faas_drl.Http.{Request}
use faas_drl.Handlers.Forwarding.Proxy.{
  Notice, ProxyConfig, ProxyState, notice_of, notify, forward_request, forwarding_proxy_handler,
}
use faas_drl.Handlers.Notifiers.{
  MetricCall, started_inc, seconds_observed, invocation_inc, logging_notifier, prometheus_notifier,
  metric_name, notify_prometheus, notify_calls, metric_calls,
}

-- How often a function was counted as started, and as completed under any code.
abbrev pub started_count : Bytes → List MetricCall → ℕ
started_count name [] = 0
started_count name (started_inc n ∷ calls) =
    (if eq_bytes n name then 1 else 0) + started_count name calls
started_count name (seconds_observed n code d ∷ calls) = started_count name calls
started_count name (invocation_inc n code ∷ calls) = started_count name calls

abbrev pub completed_count : Bytes → List MetricCall → ℕ
completed_count name [] = 0
completed_count name (started_inc n ∷ calls) = completed_count name calls
completed_count name (seconds_observed n code d ∷ calls) = completed_count name calls
completed_count name (invocation_inc n code ∷ calls) =
    (if eq_bytes n name then 1 else 0) + completed_count name calls

pub started_count-append :
    (name : Bytes) (xs ys : List MetricCall)
    → started_count name (xs ++ ys) ≡ started_count name xs + started_count name ys
started_count-append name [] ys = omega arith
started_count-append name (started_inc n ∷ xs) ys = omega (arith, started_count-append name xs ys)
started_count-append name (seconds_observed n c d ∷ xs) ys = started_count-append name xs ys
started_count-append name (invocation_inc n c ∷ xs) ys = started_count-append name xs ys

pub completed_count-append :
    (name : Bytes) (xs ys : List MetricCall)
    → completed_count name (xs ++ ys) ≡ completed_count name xs + completed_count name ys
completed_count-append name [] ys = omega arith
completed_count-append name (started_inc n ∷ xs) ys = completed_count-append name xs ys
completed_count-append name (seconds_observed n c d ∷ xs) ys = completed_count-append name xs ys
completed_count-append name (invocation_inc n c ∷ xs) ys =
    omega (arith, completed_count-append name xs ys)

pub metric_calls-append :
    (ns : Bytes) (xs ys : List Notice)
    → metric_calls ns (xs ++ ys) ≡ metric_calls ns xs ++ metric_calls ns ys
unfolding metric_calls
metric_calls-append ns [] ys = refl
metric_calls-append ns (x ∷ xs) ys =
    rw (metric_calls-append ns xs ys)
      (sym (append_assoc (notify_calls ns x) (metric_calls ns xs) (metric_calls ns ys)))

-- A forwarded request, with the notifiers of the gateway for functions.
abbrev pub function_notifiers : List ℕ
function_notifiers = logging_notifier ∷ prometheus_notifier ∷ []

pub started_calls :
    (ns : Bytes) (config : ProxyConfig) (r : Request)
    → metric_calls ns (map (notice_of config r 102 (codes "started") (pos 0)) function_notifiers)
      ≡ started_inc (metric_name ns r.url.text) ∷ []
unfolding metric_calls notify_calls notify_prometheus
started_calls ns config r = refl

pub completed_calls :
    (ns : Bytes) (config : ProxyConfig) (r : Request) (status : ℕ) (d : ℤ)
    → (code : Bytes) × (metric_calls ns
          (map (notice_of config r status (codes "completed") d) function_notifiers)
        ≡ seconds_observed (metric_name ns r.url.text) code d
          ∷ invocation_inc (metric_name ns r.url.text) code
          ∷ [])
unfolding metric_calls notify_calls notify_prometheus
completed_calls ns config r status d = (_, refl)

abbrev pub has_returned : {A : Type 0} → Exit A → Bool
has_returned (done a) = true
has_returned panicked = false

pub notices-forward_request :
    (config : ProxyConfig) (r : Request) (base url : Bytes) (s : ProxyState)
    → (forward_request config r base url s).1.notices ≡ s.notices
unfolding forward_request
notices-forward_request config r base url s = ground arith

-- What a handled request adds to the counts of a function that is named `name`, behind its
-- "started", if the forwarding ends so.
after_forward :
    (ns : Bytes) (config : ProxyConfig) (r : Request) (name : Bytes)
    (m : Exit (ℕ × Option Error) × ProxyState)
    → let t = continue m (λ result.
      notify config function_notifiers
        (notice_of config r result.0 (codes "completed") config.elapsed)) in
      (started_count name (metric_calls ns t.1.notices)
        ≡ started_count name (metric_calls ns m.1.notices))
      × (completed_count name (metric_calls ns t.1.notices)
          ≡ completed_count name (metric_calls ns m.1.notices)
            + (if has_returned t.0 && eq_bytes (metric_name ns r.url.text) name then 1 else 0))
unfolding notify
after_forward ns config r name (panicked, t) = (refl, omega arith)
after_forward ns config r name (done (status, err), t) =
    let (code, e) = completed_calls ns config r status config.elapsed in
    rw
      (
        metric_calls-append ns t.notices
            (map (notice_of config r status (codes "completed") config.elapsed) function_notifiers),
        e,
      )
      (
        omega (
          arith,
          started_count-append name (metric_calls ns t.notices) (
              seconds_observed (metric_name ns r.url.text) code config.elapsed
              ∷ invocation_inc (metric_name ns r.url.text) code
              ∷ []),
        ),
        omega (
          arith,
          completed_count-append name (metric_calls ns t.notices) (
              seconds_observed (metric_name ns r.url.text) code config.elapsed
              ∷ invocation_inc (metric_name ns r.url.text) code
              ∷ []),
        ),
      )

-- Whatever the upstream does, a request that is forwarded adds one to the count of started requests
-- of its function, and one to that of completed requests exactly if the handler returns; it adds
-- nothing to the counts of another function.
pub forwarding_proxy_handler_counts :
    (ns : Bytes) (config : ProxyConfig) (r : Request) (name : Bytes) (s : ProxyState)
    → let t = forwarding_proxy_handler config function_notifiers r s in
      (started_count name (metric_calls ns t.1.notices)
        ≡ started_count name (metric_calls ns s.notices)
          + (if eq_bytes (metric_name ns r.url.text) name then 1 else 0))
      × (completed_count name (metric_calls ns t.1.notices)
          ≡ completed_count name (metric_calls ns s.notices)
            + (if has_returned t.0 && eq_bytes (metric_name ns r.url.text) name then 1 else 0))
unfolding forwarding_proxy_handler notify
forwarding_proxy_handler_counts ns config r name s =
    let begun : ProxyState = record s {
      notices =
          s.notices ++ map (notice_of config r 102 (codes "started") (pos 0)) function_notifiers;
    } in
    let m = forward_request config r (config.resolve r) (config.transform r) begun in
    let (a, b) = after_forward ns config r name m in
    let k : m.1.notices ≡ begun.notices = notices-forward_request config r _ _ begun in
    let begun_calls : metric_calls ns m.1.notices
        ≡ metric_calls ns s.notices ++ started_inc (metric_name ns r.url.text) ∷ [] =
      ap (metric_calls ns) k
      ∙ metric_calls-append ns s.notices
          (map (notice_of config r 102 (codes "started") (pos 0)) function_notifiers)
      ∙ ap (λ calls. metric_calls ns s.notices ++ calls) (started_calls ns config r) in
    let first = started_inc (metric_name ns r.url.text) ∷ [] in
    (
      omega (
        arith,
        a,
        ap (started_count name) begun_calls,
        started_count-append name (metric_calls ns s.notices) first,
      ),
      omega (
        arith,
        b,
        ap (completed_count name) begun_calls,
        completed_count-append name (metric_calls ns s.notices) first,
      ),
    )
