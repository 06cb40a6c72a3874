-- ===== src/Metrics/Added/Totals.antt =====
-- The invocation counts that are mixed in, and when mixing them in panics.
use faas_drl.Base.{
  ◌≤◌, ◌≡◌, ◌↔◌, refl, ap, sym, ◌∙◌, Option, none, some, List, [], ◌∷◌, ◌++◌, map, if◌then◌else◌,
  ◌⊎◌, inl, inr, arith, All, length, Bool-cases, Option-cases,
}
use faas_drl.Base.Bytes.{Bytes, eq_bytes}
use faas_drl.Effect.{Error, done, panicked}
use faas_drl.Metrics.Query.{Value, text, other, Sample, VectorQueryResponse, PrometheusQuery, fetch}
use faas_drl.Metrics.Added.{
  Floats, FunctionStatus, function_key, invocation_query, results_of, add_value, add_sample,
  add_samples, mix_in, emptied, add_metrics,
}

-- A sample has a time and a value.
abbrev pub IsPaired : Sample → Type 0
IsPaired v = 2 ≤ length v.value

-- The number of a sample: its second value, if that is a string that can be parsed.
abbrev pub sample_text : List Value → Option Bytes
sample_text [] = none
sample_text (v ∷ []) = none
sample_text (v ∷ text s ∷ vs) = some s
sample_text (v ∷ other ∷ vs) = none

module _ (F : Floats) where
  open F use {Float, add, parse_float}

  abbrev pub sample_number : Option Bytes → List Float
  sample_number none = []
  sample_number (some s) = elim (parse_float s) [ none ↦ [] | some x ↦ x ∷ [] ]

  -- The numbers of the samples of one function, in their order.
  abbrev pub numbers_of : Bytes → List Sample → List Float
  numbers_of key [] = []
  numbers_of key (v ∷ vs) =
      (if eq_bytes v.function_name key then sample_number (sample_text v.value) else [])
      ++ numbers_of key vs

  abbrev pub sum_from : Float → List Float → Float
  sum_from x [] = x
  sum_from x (y ∷ ys) = sum_from (add x y) ys

  sum_from-append :
      (x : Float) (ys zs : List Float) → sum_from x (ys ++ zs) ≡ sum_from (sum_from x ys) zs
  sum_from-append x [] zs = refl
  sum_from-append x (y ∷ ys) zs = sum_from-append (add x y) ys zs

module _ (F : Floats) {Rest : Type 0} where
  open F use {Float, add, parse_float}

  -- The function with the sum of the numbers of its samples.
  abbrev pub with_total : List Sample → FunctionStatus Float Rest → FunctionStatus Float Rest
  with_total vs f = record f {
    invocation_count = sum_from F f.invocation_count (numbers_of F (function_key f) vs);
  }

  add_value_lem :
      (f : FunctionStatus Float Rest) (vs : List Value)
      → 2 ≤ length vs
      → add_value F f vs
        ≡ done (record f {
          invocation_count = sum_from F f.invocation_count (sample_number F (sample_text vs));
        })
  unfolding add_value
  add_value_lem f [] h = absurd (omega arith)
  add_value_lem f (v ∷ []) h = absurd (omega arith)
  add_value_lem f (v ∷ other ∷ vs) h = refl
  add_value_lem f (v ∷ text s ∷ vs) h = elim (Option-cases (parse_float s)) [
    | inl e ↦ rw (e, add_value) refl
    | inr (x, e) ↦ rw (e, add_value) refl
  ]

  add_samples_lem :
      (f : FunctionStatus Float Rest) (vs : List Sample)
      → All IsPaired vs
      → add_samples F f vs ≡ done (with_total vs f)
  unfolding add_samples add_sample
  add_samples_lem f [] h = refl
  add_samples_lem f (v ∷ vs) (p, h) =
      elim (Bool-cases (eq_bytes v.function_name (function_key f))) [
        | inl e ↦
            let x = sum_from F f.invocation_count (sample_number F (sample_text v.value)) in
            rw (e, add_sample)
              (rw (add_value_lem f v.value p) (
                add_samples_lem (record f { invocation_count = x }) vs h
                ∙ ap (λ y. done (record f { invocation_count = y }))
                    (sym (
                      sum_from-append F f.invocation_count (sample_number F (sample_text v.value))
                        (numbers_of F (function_key f) vs)))))
        | inr e ↦ rw (e, add_sample) (add_samples_lem f vs h)
      ]

  -- Where every sample of the response has two values, mixing it in adds to the count of each
  -- function the sum of the numbers of the samples that carry its name and namespace, in their
  -- order, and changes nothing else; a sample whose second value is no string or no number adds
  -- nothing.
  pub mix_in_lem :
      (functions : List (FunctionStatus Float Rest)) (metrics : VectorQueryResponse)
      → All IsPaired metrics.result
      → mix_in F functions (some metrics) ≡ done (map (with_total metrics.result) functions)
  unfolding mix_in
  mix_in_lem [] metrics h = refl
  mix_in_lem (f ∷ functions) metrics h =
      rw (add_samples_lem f metrics.result h, mix_in_lem functions metrics h) refl

  fetched_iff :
      (f : FunctionStatus Float Rest) (fs : List (FunctionStatus Float Rest))
      (o : Error ⊎ VectorQueryResponse)
      → ((metrics : VectorQueryResponse) → o ≡ inr metrics → All IsPaired metrics.result)
      → (mix_in F (map (emptied F) (f ∷ fs)) (results_of o) ≡ panicked)
        ↔ ((err : Error) × (o ≡ inl err))
  unfolding mix_in
  fetched_iff f fs (inl err) paired = (λ _. (err, refl), λ _. first)
    where
      first : mix_in F (map (emptied F) (f ∷ fs)) none ≡ panicked
      first = refl
  fetched_iff f fs (inr metrics) paired =
      let mixed = mix_in_lem (map (emptied F) (f ∷ fs)) metrics (paired metrics refl) in
      (λ h. absurd (cc (h, mixed)), λ (err, e). absurd (cc e))

  -- With the query of the gateway, where Prometheus gives every sample two values: for a list with
  -- a function, the handler panics in mixing in the counts exactly if the query gives an error.
  pub add_metrics_iff :
      (escape : Bytes → Bytes) (q : PrometheusQuery) (f : FunctionStatus Float Rest)
      (fs : List (FunctionStatus Float Rest))
      → ((s : Bytes) (metrics : VectorQueryResponse)
          → fetch q s ≡ inr metrics
          → All IsPaired metrics.result)
      → (add_metrics F escape (fetch q) (f ∷ fs) ≡ panicked)
        ↔ ((err : Error) × (fetch q (escape (invocation_query f.namespace)) ≡ inl err))
  unfolding add_metrics
  add_metrics_iff escape q f fs paired =
      let asked = escape (invocation_query f.namespace) in
      fetched_iff f fs (fetch q asked) (paired asked)
