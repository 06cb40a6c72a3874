-- ===== src/Metrics/Tests.antt =====
-- The theorems about the metrics at concrete answers.
use faas_drl.Base.{
  ◌++◌, ℕ, ◌+◌, ◌≡◌, ◌↔◌, ◌⊎◌, refl, true, none, some, List, [], ◌∷◌, inl, inr, arith, length, All,
  sym,
}
use faas_drl.Base.Int.{pos}
use faas_drl.Base.Bytes.{Bytes, codes}
use faas_drl.Effect.{Error, M, done, panicked}
use faas_drl.Float64.{of_uint64}
use faas_drl.Http.{Request, Writer, new_writer}
use faas_drl.Metrics.Query.{text, other, VectorQueryResponse, PrometheusQuery, fetch}
use faas_drl.Metrics.Added.{
  Floats, FunctionStatus, invocation_query, add_metrics, add_metrics_handler,
}
use faas_drl.Metrics.Added.Totals.{IsPaired, add_metrics_iff}
use faas_drl.Metrics.Added.Handler.{add_metrics_handler_lem}
use faas_drl.Metrics.Exporter.{
  Service, Exporter, Provider, new_exporter, service_name, set_replicas, decode_names,
  decode_services, collect,
}
use faas_drl.Metrics.Exporter.Reached.{
  Reached, begun, ticked, collected, Reported, reading-Reported,
}
use faas_drl.Metrics.Exporter.Gauge.{reading}
use faas_drl.Metrics.Exporter.Watcher.{listed_namespaces, polled, tick_lem}

-- Whole numbers, read by their length.
abbrev lengths : Floats
lengths = record { Float = ℕ; zero = 0; add = λ x y. x + y; parse_float = λ s. some (length s) }

abbrev echo : FunctionStatus ℕ (Unit {0})
echo = record { name = codes "echo"; namespace = codes "fn"; invocation_count = 7; rest = tt }

abbrev counted : VectorQueryResponse
counted = record {
  result =
      record {
        code = codes "200";
        function_name = codes "echo.fn";
        value = other ∷ text (codes "123") ∷ [];
      }
      ∷ record {
        code = codes "500";
        function_name = codes "echo.fn";
        value = other ∷ text (codes "1") ∷ [];
      }
      ∷ [];
}

abbrev prometheus : PrometheusQuery
prometheus = record {
  host = codes "prometheus";
  port = pos 9090;
  user_agent_version = codes "dev";
  new_request = λ url. none;
  send = λ r.
      inr (record { status_code = 200; body = record { content = codes "{}"; failure = none } });
  unmarshal = λ bytes. (none, counted);
}

pairs :
    (s : Bytes) (metrics : VectorQueryResponse)
    → fetch prometheus s ≡ inr metrics
    → All IsPaired metrics.result
unfolding fetch
pairs s metrics e =
    let same : counted ≡ metrics = cc e in rw (sym same) (omega arith, (omega arith, tt))

add_metrics_iff_example :
    (add_metrics lengths (λ s. s) (fetch prometheus) (echo ∷ []) ≡ panicked)
    ↔ ((err : Error) × (fetch prometheus (invocation_query (codes "fn")) ≡ inl err))
add_metrics_iff_example = add_metrics_iff lengths (λ s. s) prometheus echo [] pairs

abbrev list_request : Request
list_request = record {
  method = codes "GET";
  url = record {
    path = codes "/system/functions";
    raw_query = [];
    text = codes "/system/functions";
  };
  header = [];
  host = codes "gateway";
  remote_addr = codes "10.0.0.1:80";
  body = none;
}

abbrev provider_list : Request → M (Writer × ℕ) (Unit {0})
provider_list r (w, n) =
    (done tt, (record { status = some 200; header = []; body = codes "[]" }, n + 1))

abbrev write_list : List (FunctionStatus ℕ (Unit {0})) → Error ⊎ Bytes
write_list fs = inr (codes "[{}]")

add_metrics_handler_lem_example :
    let t =
      add_metrics_handler lengths provider_list
        (λ s. s)
        (fetch prometheus)
        (λ b. inr (echo ∷ []))
        write_list
        list_request
        (new_writer, 0) in
    (t.0 ≡ done tt) × (t.1.1 ≡ 1) × (t.1.0.status ≡ some 200) × (t.1.0.body ≡ codes "[{}]")
unfolding fetch
add_metrics_handler_lem_example =
    add_metrics_handler_lem lengths provider_list (λ s. s) (fetch prometheus) (λ b. inr (echo ∷ []))
      write_list list_request 0 1 (record { status = some 200; header = []; body = codes "[]" })
      refl echo [] counted (codes "[{}]") refl refl refl (omega arith, (omega arith, tt)) refl

-- A provider with two namespaces.
abbrev provider : Provider
provider = record {
  url_for = λ path query. path;
  parses = λ url. true;
  set_basic_auth = λ c r. r;
  send = λ r.
      inr (record {
        status_code = 200;
        body = some (record { content = codes "[]"; failure = none });
      });
  unmarshal_services =
      λ bytes. (none, record { name = codes "echo"; namespace = codes "fn"; replicas = 3 } ∷ []);
  unmarshal_names = λ bytes. (none, codes "fn" ∷ codes "dev" ∷ []);
}

abbrev exporter : Exporter
exporter = new_exporter none (codes "fn")

-- The exporter behind one poll of the two namespaces.
abbrev polled_exporter : Exporter
polled_exporter = record exporter {
  services = polled provider exporter (listed_namespaces provider exporter);
}

reached_collected :
    Reached none
      (codes "fn")
      ((provider, exporter) ∷ [])
      polled_exporter
      ([] ++ collect polled_exporter)
unfolding new_exporter
reached_collected = collected (ticked provider begun (tick_lem provider exporter (λ url. refl)).0)

shows_three : reading (codes "echo.fn") none ([] ++ collect polled_exporter) ≡ some (of_uint64 3)
unfolding new_exporter collect set_replicas decode_names decode_services
shows_three = refl

reading-Reported_example :
    (s : Service) × Reported ((provider, exporter) ∷ []) s
    × (service_name s ≡ codes "echo.fn")
    × (of_uint64 3 ≡ of_uint64 s.replicas)
reading-Reported_example =
    reading-Reported none (codes "fn") (codes "echo.fn") reached_collected shows_three
