-- ===== src/Metrics/Added/Handler.antt =====
-- What a client gets of the list of functions with metrics.
use faas_drl.Base.{◌≡◌, ◌≢◌, refl, some, List, ◌∷◌, map, ◌⊎◌, inr, arith, All}
use faas_drl.Base.Bytes.{Bytes}
use faas_drl.Effect.{Error, M, done}
use faas_drl.Http.{Request, Writer, new_writer, final_status, write_header, write, http_error}
use faas_drl.Http.Laws.{status-http_error}
use faas_drl.Metrics.Query.{VectorQueryResponse}
use faas_drl.Metrics.Added.{
  Floats, FunctionStatus, invocation_query, emptied, add_metrics, respond, after_list,
  add_metrics_handler,
}
use faas_drl.Metrics.Added.Totals.{IsPaired, with_total, mix_in_lem}

module _ (F : Floats) {Rest S : Type 0} (next : Request → M (Writer × S) (Unit {0}))
    (escape : Bytes → Bytes) (fetch : Bytes → Error ⊎ VectorQueryResponse)
    (unmarshal : Bytes → Error ⊎ List (FunctionStatus F.Float Rest))
    (marshal : List (FunctionStatus F.Float Rest) → Error ⊎ Bytes) (r : Request) (s s' : S)
    (recorder : Writer) (listed : next r (new_writer, s) ≡ (done tt, (recorder, s'))) where
  handled :
      (u : Writer)
      → after_list F escape fetch unmarshal marshal recorder new_writer ≡ done u
      → add_metrics_handler F next escape fetch unmarshal marshal r (new_writer, s)
        ≡ (done tt, (u, s'))
  unfolding add_metrics_handler
  handled u e = rw (listed, e) refl

  -- A list with the status 200 is answered with what the counts make of it.
  pub add_metrics_handler-list :
      (fs gs : List (FunctionStatus F.Float Rest)) (bytes : Bytes)
      → final_status recorder ≡ 200
      → unmarshal recorder.body ≡ inr fs
      → add_metrics F escape fetch fs ≡ done gs
      → marshal gs ≡ inr bytes
      → let t = add_metrics_handler F next escape fetch unmarshal marshal r (new_writer, s) in
        (t.0 ≡ done tt) × (t.1.1 ≡ s') × (t.1.0.status ≡ some 200) × (t.1.0.body ≡ bytes)
  unfolding after_list respond write write_header
  add_metrics_handler-list fs gs bytes code parsed added written =
      let answer : after_list F escape fetch unmarshal marshal recorder new_writer
          ≡ done (respond F marshal new_writer gs) =
        rw (after_list, code, parsed, added) refl in
      rw (handled _ answer, respond, written) (refl, refl, refl, refl)

  -- A list that the provider gives with the status 200 is answered with 200 and the same list, in
  -- which the count of each function is the sum of the numbers of its samples and of nothing else,
  -- where Prometheus can be asked about the namespace of the first function, gives two values for
  -- each sample, and the list can be written as JSON.
  pub add_metrics_handler_lem :
      (f : FunctionStatus F.Float Rest) (fs : List (FunctionStatus F.Float Rest))
      (metrics : VectorQueryResponse) (bytes : Bytes)
      → final_status recorder ≡ 200
      → unmarshal recorder.body ≡ inr (f ∷ fs)
      → fetch (escape (invocation_query f.namespace)) ≡ inr metrics
      → All IsPaired metrics.result
      → marshal (map (with_total F metrics.result) (map (emptied F) (f ∷ fs))) ≡ inr bytes
      → let t = add_metrics_handler F next escape fetch unmarshal marshal r (new_writer, s) in
        (t.0 ≡ done tt) × (t.1.1 ≡ s') × (t.1.0.status ≡ some 200) × (t.1.0.body ≡ bytes)
  unfolding add_metrics
  add_metrics_handler_lem f fs metrics bytes code parsed fetched paired =
      let m = mix_in_lem F (map (emptied F) (f ∷ fs)) metrics paired in
      let added : add_metrics F escape fetch (f ∷ fs)
          ≡ done (map (with_total F metrics.result) (map (emptied F) (f ∷ fs))) =
        rw (add_metrics, fetched) m in
      add_metrics_handler-list (f ∷ fs) _ bytes code parsed added

  -- Any other status is passed on with the text of the provider.
  pub add_metrics_handler-relays :
      final_status recorder ≢ 200
      → let t = add_metrics_handler F next escape fetch unmarshal marshal r (new_writer, s) in
        (t.0 ≡ done tt) × (t.1.1 ≡ s') × (t.1.0.status ≡ some (final_status recorder))
  unfolding after_list
  add_metrics_handler-relays code =
      let answer : after_list F escape fetch unmarshal marshal recorder new_writer
          ≡ done (http_error recorder.body (final_status recorder) new_writer) =
        ground (arith, code) in
      rw (handled _ answer)
        (refl, refl, status-http_error recorder.body (final_status recorder) new_writer refl)
