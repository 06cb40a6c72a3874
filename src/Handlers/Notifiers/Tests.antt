-- ===== src/Handlers/Notifiers/Tests.antt =====
-- Two calls that overlap: the first ends while the second is in flight.
use faas_drl.Base.{true, ◌≡◌, refl, none, some, [], ◌∷◌}
use faas_drl.Base.Int.{pos}
use faas_drl.Base.Bytes.{Bytes, codes}
use faas_drl.Effect.{done}
use faas_drl.Http.{Request, new_writer}
use faas_drl.Handlers.Forwarding.Proxy.{
  ProxyState, forward_request, ProxyConfig, failed, forwarding_proxy_handler,
}
use faas_drl.Handlers.Notifiers.{metric_name}
use faas_drl.Handlers.Notifiers.Named.{metric_name-cache_key}
use faas_drl.Middleware.ServiceName.{get_namespace}
use faas_drl.Middleware.Resolver.{get_service_name}
use faas_drl.Scaling.Cache.{cache_key}
use faas_drl.Handlers.Notifiers.Balance.{function_notifiers, has_returned}
use faas_drl.Handlers.Notifiers.Concurrent.{
  Calls, begin, end, told, step, idle, Reached, start, then_step, forwarding_proxy_handler-steps,
  status_of,
}
use faas_drl.Handlers.Notifiers.Concurrent.Counted.{IsCounted, Reached-IsCounted}

abbrev unreachable : ProxyConfig
unreachable = record {
  resolve = λ r. codes "http://provider:8080";
  transform = λ r. r.url.path;
  inject = none;
  parses = λ method url. true;
  send = λ r. failed (codes "no route");
  stream = λ r upstream w. (200, w);
  elapsed = pos 5;
}

abbrev call_of : Bytes → Request
call_of path = record {
  method = codes "GET";
  url = record { path = path; raw_query = []; text = path };
  header = [];
  host = codes "gateway";
  remote_addr = codes "10.0.0.1:80";
  body = none;
}

abbrev call_a : Request
call_a = call_of (codes "/function/a")

abbrev call_b : Request
call_b = call_of (codes "/function/b")

abbrev a_begun : Calls
a_begun = record {
  notices = told unreachable call_a 102 (codes "started") (pos 0) [];
  in_flight = call_a ∷ [];
  broken = [];
}

abbrev both_begun : Calls
both_begun = record {
  notices = told unreachable call_b 102 (codes "started") (pos 0) a_begun.notices;
  in_flight = call_b ∷ call_a ∷ [];
  broken = [];
}

abbrev a_ended : Calls
a_ended = record {
  notices = told unreachable call_a 502 (codes "completed") (pos 5) both_begun.notices;
  in_flight = call_b ∷ [];
  broken = [];
}

overlapping : Reached a_ended
unfolding step
overlapping =
    then_step unreachable (end 1 (done 502)) both_begun a_ended
      (then_step unreachable (begin call_b) a_begun both_begun
        (then_step unreachable (begin call_a) idle a_begun start refl) refl)
      refl

Reached-IsCounted_example : IsCounted [] (codes "b") a_ended
Reached-IsCounted_example = Reached-IsCounted [] (codes "b") a_ended overlapping

forwarding_proxy_handler-steps_example :
    let s : ProxyState = record { writer = new_writer; notices = [] } in
    let m = forwarding_proxy_handler unreachable function_notifiers call_a s in
    (begun : Calls) × (ended : Calls) × (step unreachable
        (begin call_a)
        (record { notices = []; in_flight = call_b ∷ []; broken = [] })
      ≡ some begun)
    × (let forwarded =
          forward_request unreachable call_a
            (codes "http://provider:8080")
            call_a.url.path
            (record { writer = new_writer; notices = begun.notices }) in
        (step unreachable (end 0 (status_of forwarded.0)) begun ≡ some ended)
        × (ended.in_flight ≡ call_b ∷ [])
        × (m.1.notices ≡ ended.notices)
        × (m.1.writer ≡ forwarded.1.writer)
        × (has_returned m.0 ≡ has_returned forwarded.0))
forwarding_proxy_handler-steps_example =
    forwarding_proxy_handler-steps unreachable call_a (call_b ∷ []) []
      (record { writer = new_writer; notices = [] })

metric_name-cache_key_example :
    let target = get_namespace (codes "fn") (get_service_name (codes "/function/echo/a")) in
    cache_key target.0 target.1 ≡ metric_name (codes "fn") (codes "/function/echo/a")
metric_name-cache_key_example =
    metric_name-cache_key (codes "fn") (codes "/function/echo/a") (λ e. absurd (cc e))
