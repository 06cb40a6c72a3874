-- ===== src/Handlers/Notifiers/Logged.antt =====
-- The notifier that only logs counts nothing.
use faas_drl.Base.{ℕ, ◌≡◌, refl, ap, ◌∙◌, append-nil, Option, List, [], ◌∷◌, ◌++◌}
use faas_drl.Base.Int.{ℤ, pos}
use faas_drl.Base.Bytes.{Bytes, codes}
use faas_drl.Effect.{Error, Exit, done, panicked, continue}
use faas_drl.Http.{Request, Writer}
use faas_drl.Handlers.Forwarding.Proxy.{
  Notice, ProxyConfig, ProxyState, notice_of, forward_request, forwarding_proxy_handler, notify,
}
use faas_drl.Handlers.Notifiers.{
  logging_notifier, metric_calls, notify_calls, completed_notice, tell,
}
use faas_drl.Handlers.Notifiers.Balance.{metric_calls-append, notices-forward_request}

metric_calls-logged :
    (ns : Bytes) (notices : List Notice) (notice : Notice)
    → notify_calls ns notice ≡ []
    → metric_calls ns (notices ++ notice ∷ []) ≡ metric_calls ns notices
unfolding metric_calls
metric_calls-logged ns notices notice e =
    metric_calls-append ns notices (notice ∷ [])
    ∙ ap (λ calls. metric_calls ns notices ++ (calls ++ [])) e
    ∙ append-nil (metric_calls ns notices)

after_logged :
    (ns : Bytes) (config : ProxyConfig) (r : Request) (m : Exit (ℕ × Option Error) × ProxyState)
    → metric_calls ns
        (continue m (λ result.
          notify config
            (logging_notifier ∷ [])
            (notice_of config r result.0 (codes "completed") config.elapsed))).1.notices
      ≡ metric_calls ns m.1.notices
unfolding notify notify_calls
after_logged ns config r (panicked, t) = refl
after_logged ns config r (done result, t) =
    metric_calls-logged ns t.notices
      (notice_of config r result.0 (codes "completed") config.elapsed logging_notifier) refl

-- A forwarded request of which only the log is told.
pub metric_calls-forwarding_proxy_handler :
    (ns : Bytes) (config : ProxyConfig) (r : Request) (s : ProxyState)
    → metric_calls ns (forwarding_proxy_handler config (logging_notifier ∷ []) r s).1.notices
      ≡ metric_calls ns s.notices
unfolding forwarding_proxy_handler notify notify_calls
metric_calls-forwarding_proxy_handler ns config r s =
    let begun : ProxyState = record s {
      notices = s.notices ++ notice_of config r 102 (codes "started") (pos 0) logging_notifier ∷ [];
    } in
    after_logged ns config r
      (forward_request config r (config.resolve r) (config.transform r) begun)
    ∙ ap (metric_calls ns) (notices-forward_request config r _ _ begun)
    ∙ metric_calls-logged ns s.notices
        (notice_of config r 102 (codes "started") (pos 0) logging_notifier) refl

-- Behind a wrapped handler, with no notifier, and with the one that logs.
pub metric_calls-tell :
    {S : Type 0} (ns : Bytes) (status : Writer → ℕ) (elapsed : ℤ) (r : Request)
    (notices : List Notice) (m : Exit (Unit {0}) × (Writer × S))
    → (metric_calls ns (tell status [] elapsed r notices m).1.1.1 ≡ metric_calls ns notices)
      × (metric_calls ns (tell status (logging_notifier ∷ []) elapsed r notices m).1.1.1
          ≡ metric_calls ns notices)
unfolding notify_calls
metric_calls-tell ns status elapsed r notices (done _, (w, s)) = (
  ap (metric_calls ns) (append-nil notices),
  metric_calls-logged ns notices (completed_notice r (status w) elapsed logging_notifier) refl,
)
metric_calls-tell ns status elapsed r notices (panicked, (w, s)) = (refl, refl)
