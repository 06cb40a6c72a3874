-- ===== src/Metrics/Added/Counted.antt =====
-- The counts in the list of functions are those of the calls that were completed, as far as
-- Prometheus answers with what it was told.
use faas_drl.Base.{
  ℕ, ◌≤◌, ◌≡◌, ◌≢◌, refl, ap, sym, ◌∙◌, Bool, true, false, ◌||◌, some, List, [], ◌∷◌, ◌++◌, map,
  if◌then◌else◌, ◌⊎◌, inl, inr, arith, All, Bool-cases,
}
use faas_drl.Base.Bytes.{Bytes, codes, eq_bytes, eq_of_eq_bytes}
use faas_drl.Effect.{Error, done}
use faas_drl.Handlers.Notifiers.{MetricCall}
use faas_drl.Handlers.Notifiers.Balance.{completed_count}
use faas_drl.Metrics.Options.{Vec, build_metrics_options}
use faas_drl.Metrics.Query.{text, other, Sample, VectorQueryResponse}
use faas_drl.Metrics.Added.{
  Floats, FunctionStatus, function_key, invocation_query, emptied, add_metrics,
}
use faas_drl.Metrics.Added.Totals.{IsPaired, numbers_of, sum_from, with_total, mix_in_lem}

abbrev pub member : Bytes → List Bytes → Bool
member n [] = false
member n (m ∷ ms) = eq_bytes m n || member n ms

abbrev pub AllDiffer : List Bytes → Type 0
AllDiffer [] = Unit
AllDiffer (n ∷ ns) = (member n ns ≡ false) × AllDiffer ns

-- The answer to a sum by name: one sample for each name, whose value is printed.
abbrev pub samples : (ℕ → Bytes) → List MetricCall → List Bytes → List Sample
samples print calls [] = []
samples print calls (n ∷ ns) =
    record {
      code = [];
      function_name = n;
      value = other ∷ text (print (completed_count n calls)) ∷ [];
    }
    ∷ samples print calls ns

-- `BuildFQName` of the Prometheus client names a vector.
abbrev pub vec_name : (Bytes → Bytes → Bytes → Bytes) → Vec → Bytes
vec_name fq_name v = fq_name v.opts.namespace v.opts.subsystem v.opts.name

-- The sum of a metric by name, for the names below a namespace.
abbrev pub sum_query : Bytes → Bytes → Bytes
sum_query metric ns =
    codes "sum("
    ++ (metric ++ (codes "{function_name=~\".*." ++ (ns ++ codes "\"}) by (function_name)")))

-- A function with the number of its completed calls.
abbrev pub with_count :
    (F : Floats) {Rest : Type 0}
    → (ℕ → F.Float)
    → List MetricCall
    → FunctionStatus F.Float Rest
    → FunctionStatus F.Float Rest
with_count F of_count calls f = record f {
  invocation_count = of_count (completed_count (function_key f) calls);
}

samples-IsPaired :
    (print : ℕ → Bytes) (calls : List MetricCall) (names : List Bytes)
    → All IsPaired (samples print calls names)
samples-IsPaired print calls [] = tt
samples-IsPaired print calls (n ∷ names) = (omega arith, samples-IsPaired print calls names)

module _ (F : Floats) (print : ℕ → Bytes) (of_count : ℕ → F.Float)
    (read_back : (k : ℕ) → F.parse_float (print k) ≡ some (of_count k))
    (calls : List MetricCall) where
  numbers_of-samples :
      (key : Bytes) (names : List Bytes)
      → AllDiffer names
      → numbers_of F key (samples print calls names)
        ≡ (if member key names then of_count (completed_count key calls) ∷ [] else [])
  numbers_of-samples key [] d = refl
  numbers_of-samples key (n ∷ names) (fresh, d) = elim (Bool-cases (eq_bytes n key)) [
    | inl e ↦
        let same : key ≡ n = sym (eq_of_eq_bytes n key e) in
        let absent : member key names ≡ false = ap (λ k. member k names) same ∙ fresh in
        let count = ap (λ k. completed_count k calls) same in
        let read = read_back (completed_count n calls) in
        rw (e, read, numbers_of-samples key names d, absent, count) refl
    | inr e ↦ rw (e, numbers_of-samples key names d) refl
  ]

  module _ (zero_add : (x : F.Float) → F.add F.zero x ≡ x) (none_counted : of_count 0 ≡ F.zero)
      (names : List Bytes) (differ : AllDiffer names) where
    sum-samples :
        (key : Bytes)
        → (1 ≤ completed_count key calls → member key names ≡ true)
        → sum_from F F.zero (numbers_of F key (samples print calls names))
          ≡ of_count (completed_count key calls)
    sum-samples key complete =
        rw (numbers_of-samples key names differ) (elim (Bool-cases (member key names)) [
          | inl e ↦ rw e (zero_add (of_count (completed_count key calls)))
          | inr e ↦
              let k : completed_count key calls ≡ 0 = ground (arith, e, complete) in
              rw (e, k) (sym none_counted)
        ])

    module _ {Rest : Type 0} where
      map-with_count :
          (ns : Bytes) (fs : List (FunctionStatus F.Float Rest))
          → ((name : Bytes)
              → let key = name ++ b'.' ∷ ns in
                1 ≤ completed_count key calls → member key names ≡ true)
          → All (λ f. f.namespace ≡ ns) fs
          → map (with_total F (samples print calls names)) (map (emptied F) fs)
            ≡ map (with_count F of_count calls) fs
      map-with_count ns [] complete h = refl
      map-with_count ns (f ∷ fs) complete (e, h) =
          let key : function_key f ≡ f.name ++ b'.' ∷ ns = ap (λ m. f.name ++ b'.' ∷ m) e in
          let total = sum-samples (function_key f) (rw key (complete f.name)) in
          rw (total, map-with_count ns fs complete h) refl

      -- Let Prometheus answer the query for the sum, by name, of the counter that the notifiers
      -- count completed calls with: with one sample for each of some different names, among them
      -- every name below the namespace that was counted, and the count of its completed calls in
      -- it, printed so that it is read back. Then a list of functions of one namespace shows for
      -- each function the number of its completed calls, under any status, and for one that was
      -- never called zero; nothing else of the list is changed.
      pub add_metrics-counted :
          (fq_name : Bytes → Bytes → Bytes → Bytes)
          → ((a b c : Bytes)
              → a ≢ []
              → b ≢ []
              → c ≢ []
              → fq_name a b c ≡ a ++ b'_' ∷ (b ++ b'_' ∷ c))
          → (escape : Bytes → Bytes) (fetch : Bytes → Error ⊎ VectorQueryResponse)
          → (f : FunctionStatus F.Float Rest) (fs : List (FunctionStatus F.Float Rest))
          → All (λ g. g.namespace ≡ f.namespace) fs
          → ((name : Bytes)
              → let key = name ++ b'.' ∷ f.namespace in
                1 ≤ completed_count key calls → member key names ≡ true)
          → fetch (
              escape (
                sum_query
                  (vec_name fq_name build_metrics_options.gateway_function_invocation)
                  f.namespace))
            ≡ inr (record { result = samples print calls names })
          → add_metrics F escape fetch (f ∷ fs) ≡ done (map (with_count F of_count calls) (f ∷ fs))
      unfolding add_metrics build_metrics_options
      add_metrics-counted fq_name joined escape fetch f fs same complete answered =
          let named : vec_name fq_name build_metrics_options.gateway_function_invocation
              ≡ codes "gateway_function_invocation_total" =
            joined (codes "gateway") (codes "function") (codes "invocation_total") (λ e. cc e)
              (λ e. cc e) (λ e. cc e) in
          let metrics : VectorQueryResponse = record { result = samples print calls names } in
          let asked : fetch (escape (invocation_query f.namespace)) ≡ inr metrics =
            ap (λ m. fetch (escape (sum_query m f.namespace))) (sym named) ∙ answered in
          rw asked (
            mix_in_lem F (map (emptied F) (f ∷ fs)) metrics (samples-IsPaired print calls names)
            ∙ ap done (map-with_count f.namespace (f ∷ fs) complete (refl, same)))
