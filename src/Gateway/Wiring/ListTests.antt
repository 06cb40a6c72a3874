-- ===== src/Gateway/Wiring/ListTests.antt =====
-- A function that was called once through the gateway, in the list of functions.
use faas_drl.Base.{
  ℕ, zero, suc, ◌≤◌, ◌≡◌, refl, ap, true, some, none, List, [], ◌∷◌, ◌++◌, length, map, arith, inr,
}
use mathlib.Core.Path.{subst}
use faas_drl.Base.Int.{pos}
use faas_drl.Handlers.Notifiers.{
  MetricCall, started_inc, invocation_inc, seconds_observed, metric_calls, notify_calls,
}
use faas_drl.Handlers.Notifiers.Balance.{completed_count}
use faas_drl.Base.Bytes.{Bytes, codes}
use faas_drl.Effect.{done, Exit}
use faas_drl.Http.{Request, Writer, new_writer, final_status, write}
use faas_drl.Metrics.Added.{FunctionStatus}
use faas_drl.Metrics.Added.Counted.{member, samples, with_count}
use faas_drl.Metrics.Query.{VectorQueryResponse}
use faas_drl.Metrics.Query.{fetch}
use faas_drl.Gateway.Functions.{function_handler, proxy_handler}
use faas_drl.Handlers.CallId.{call_id_middleware}
use faas_drl.Handlers.Forwarding.Proxy.{forwarding_proxy_handler}
use faas_drl.Handlers.Forwarding.{build_upstream_request}
use faas_drl.Text.{contains, has_prefix}
use faas_drl.Text.Decimal.{format}
use faas_drl.Http.Headers.{get_header, add_header, canonical_key}
use faas_drl.Base.Dict.{lookup, insert}
use faas_drl.Middleware.Resolver.{get_service_name}
use faas_drl.Gateway.Wiring.{Store, send, Parts, injector, forwarding, proxy, handlers}
use faas_drl.Gateway.Wiring.Calls.{completed}
use faas_drl.Gateway.Wiring.Listed.{counters, list_functions-counted}
use faas_drl.Gateway.Wiring.Tests.{parts, call_echo, idle}

-- Whole numbers, printed as so many bytes.
abbrev ones : ℕ → Bytes
ones zero = []
ones (suc k) = b'1' ∷ ones k

length-ones : (k : ℕ) → length (ones k) ≡ k
length-ones zero = refl
length-ones (suc k) = omega (arith, length-ones k)

abbrev behind_call : Store
behind_call = (proxy parts call_echo (new_writer, idle)).1.1

abbrev names : List Bytes
names = codes "echo.fn" ∷ []

abbrev counts : VectorQueryResponse
counts = record { result = samples ones (counters parts behind_call) names }

abbrev named : Bytes → FunctionStatus ℕ (Unit {0})
named name = record { name = name; namespace = codes "fn"; invocation_count = 9; rest = tt }

-- Each name with its count.
abbrev encode : List (FunctionStatus ℕ (Unit {0})) → Bytes
encode [] = []
encode (f ∷ fs) = f.name ++ (ones f.invocation_count ++ encode fs)

-- A provider that lists two functions, and Prometheus with what the gateway has counted.
abbrev listing : Parts (Unit {0}) (Unit {0})
listing = record parts {
  decode_functions = λ bytes. inr (named (codes "echo") ∷ named (codes "idle") ∷ []);
  encode_functions = λ fs. inr (encode fs);
  prometheus = record parts.prometheus {
    send = λ r. inr (record { status_code = 200; body = record { content = []; failure = none } });
    unmarshal = λ bytes. (none, counts);
  };
}

abbrev list_request : Request
list_request = record call_echo {
  url = record {
    path = codes "/system/functions";
    raw_query = [];
    text = codes "/system/functions";
  };
}

abbrev listed : Exit (Unit {0}) × (Writer × Store)
listed = forwarding listing (injector listing) list_request (new_writer, behind_call)

abbrev called : List MetricCall
called =
    started_inc (codes "echo.fn")
    ∷ seconds_observed (codes "echo.fn") (codes "200") (pos 5)
    ∷ invocation_inc (codes "echo.fn") (codes "200")
    ∷ []

counters-behind_call : counters parts behind_call ≡ called
unfolding metric_calls proxy function_handler call_id_middleware proxy_handler
    forwarding_proxy_handler build_upstream_request contains get_service_name notify_calls format
    get_header lookup add_header insert canonical_key send
counters-behind_call = refl

counted_name : (key : Bytes) → 1 ≤ completed_count key called → member key names ≡ true
counted_name key h = ground (arith, h)

counted :
    (name : Bytes)
    → let key = name ++ b'.' ∷ codes "fn" in
      1 ≤ completed (codes "fn") key behind_call → member key names ≡ true
counted name h =
    counted_name (name ++ b'.' ∷ codes "fn") (
      subst (λ calls. 1 ≤ completed_count (name ++ b'.' ∷ codes "fn") calls) counters-behind_call h)

asked : (query : Bytes) → fetch listing.prometheus query ≡ inr counts
unfolding fetch
asked query = refl

listed_echo :
    forwarding listing (injector listing) list_request (new_writer, behind_call)
    ≡ (done tt, (listed.1.0, listed.1.1))
unfolding forwarding proxy_handler forwarding_proxy_handler build_upstream_request
listed_echo = refl

listed_code : final_status listed.1.0 ≡ 200
unfolding forwarding proxy_handler forwarding_proxy_handler build_upstream_request has_prefix
    get_header lookup send write
listed_code = refl

-- The function was called once, and the other never.
encoded :
    listing.encode_functions (
      map
        (with_count listing.floats (λ k. k) (counters listing behind_call))
        (named (codes "echo") ∷ named (codes "idle") ∷ []))
    ≡ inr (codes "echo1idle")
encoded =
    ap
      (λ calls. listing.encode_functions (
        map (with_count listing.floats (λ k. k) calls)
          (named (codes "echo") ∷ named (codes "idle") ∷ [])))
      counters-behind_call

list_functions-counted_example :
    let t = (handlers listing).list_functions list_request (new_writer, behind_call) in
    (t.0 ≡ done tt)
    × (t.1.0.status ≡ some 200)
    × (t.1.0.body ≡ codes "echo1idle")
    × (counters listing t.1.1 ≡ counters listing behind_call)
list_functions-counted_example =
    list_functions-counted listing ones (λ k. k) (λ k. ap some (length-ones k)) (λ x. omega arith)
      refl (λ a b c. a ++ b'_' ∷ (b ++ b'_' ∷ c)) (λ a b c ha hb hc. refl) list_request behind_call
      listed.1.1 listed.1.0 listed_echo listed_code (named (codes "echo"))
      (named (codes "idle") ∷ []) refl (refl, tt) names (refl, tt) counted (asked _)
      (codes "echo1idle") encoded
