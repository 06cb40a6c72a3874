-- ===== src/Gateway/Wiring/Listed.antt =====
-- The list of functions that the gateway serves, and the calls that its notifiers counted.
use faas_drl.Base.{ℕ, ◌≤◌, ◌≡◌, ◌≢◌, ap, sym, ◌∙◌, true, some, List, [], ◌∷◌, ◌++◌, map, inr, All}
use faas_drl.Base.Bytes.{Bytes}
use faas_drl.Effect.{done}
use faas_drl.Http.{Request, Writer, new_writer, final_status}
use faas_drl.Handlers.Notifiers.{MetricCall, metric_calls}
use faas_drl.Handlers.Notifiers.Logged.{metric_calls-forwarding_proxy_handler}
use faas_drl.Metrics.Options.{build_metrics_options}
use faas_drl.Metrics.Query.{fetch}
use faas_drl.Metrics.Added.{FunctionStatus}
use faas_drl.Metrics.Added.Counted.{
  member, AllDiffer, samples, vec_name, sum_query, with_count, add_metrics-counted,
}
use faas_drl.Metrics.Added.Handler.{add_metrics_handler-list}
use faas_drl.Gateway.Functions.{proxy_handler}
use faas_drl.Gateway.Wiring.{Store, Parts, proxy_config, injector, forwarding, handlers}
use faas_drl.Gateway.Wiring.Calls.{completed}

module _ {P Rest : Type 0} (p : Parts P Rest) where
  -- What the notifiers counted in a store.
  abbrev pub counters : Store → List MetricCall
  counters s = metric_calls p.config.namespace s.notices

  counters-forwarding :
      (r : Request) (s : Store)
      → counters (forwarding p (injector p) r (new_writer, s)).1.1 ≡ counters s
  unfolding forwarding proxy_handler
  counters-forwarding r s =
      metric_calls-forwarding_proxy_handler p.config.namespace (proxy_config p (injector p)) r
        (record { writer = new_writer; notices = s.notices })

  -- The provider lists functions of one namespace, with the status 200, and Prometheus answers the
  -- query for the sum, by name, of the counter of completed calls: with one sample for each of some
  -- different names, among them every name below the namespace that the notifiers of the gateway
  -- have counted so far, and the count of its completed calls in it, printed so that it is read
  -- back. Then the gateway answers a request for the list with 200 and the list in which each
  -- function has as many invocations as it has had calls that were completed in the gateway, and
  -- nothing else is changed, where that can be written as JSON. The request itself is not counted.
  pub list_functions-counted :
      (print : ℕ → Bytes) (of_count : ℕ → p.floats.Float)
      → ((k : ℕ) → p.floats.parse_float (print k) ≡ some (of_count k))
      → ((x : p.floats.Float) → p.floats.add p.floats.zero x ≡ x)
      → of_count 0 ≡ p.floats.zero
      → (fq_name : Bytes → Bytes → Bytes → Bytes)
      → ((a b c : Bytes) → a ≢ [] → b ≢ [] → c ≢ [] → fq_name a b c ≡ a ++ b'_' ∷ (b ++ b'_' ∷ c))
      → (r : Request) (s s' : Store) (recorder : Writer)
      → forwarding p (injector p) r (new_writer, s) ≡ (done tt, (recorder, s'))
      → final_status recorder ≡ 200
      → (f : FunctionStatus p.floats.Float Rest) (fs : List (FunctionStatus p.floats.Float Rest))
      → p.decode_functions recorder.body ≡ inr (f ∷ fs)
      → All (λ g. g.namespace ≡ f.namespace) fs
      → (names : List Bytes) → AllDiffer names
      → ((name : Bytes)
          → let key = name ++ b'.' ∷ f.namespace in
            1 ≤ completed p.config.namespace key s → member key names ≡ true)
      → fetch p.prometheus (
          p.escape (
            sum_query
              (vec_name fq_name build_metrics_options.gateway_function_invocation)
              f.namespace))
        ≡ inr (record { result = samples print (counters s) names })
      → (bytes : Bytes)
      → p.encode_functions (map (with_count p.floats of_count (counters s)) (f ∷ fs)) ≡ inr bytes
      → let t = (handlers p).list_functions r (new_writer, s) in
        (t.0 ≡ done tt)
        × (t.1.0.status ≡ some 200)
        × (t.1.0.body ≡ bytes)
        × (counters t.1.1 ≡ counters s)
  unfolding handlers
  list_functions-counted print of_count read_back zero_add none_counted fq_name joined r s s'
        recorder listed code f fs parsed same names differ complete answered bytes written =
      let added =
        add_metrics-counted p.floats print of_count read_back (counters s) zero_add none_counted
          names differ fq_name joined p.escape (fetch p.prometheus) f fs same complete answered in
      let (ended, kept, status, body) =
        add_metrics_handler-list p.floats (forwarding p (injector p)) p.escape (fetch p.prometheus)
          p.decode_functions p.encode_functions r s s' recorder listed (f ∷ fs) _ bytes code parsed
          added written in
      let logged : counters s' ≡ counters s =
        ap (λ m. counters m.1.1) (sym listed) ∙ counters-forwarding r s in
      (ended, status, body, ap counters kept ∙ logged)
