-- ===== src/Handlers/Notifiers/Concurrent/Counted.antt =====
-- What the counters say while calls of functions overlap.
use faas_drl.Base.{
  inl, inr, Option-cases, ℕ, zero, suc, ◌+◌, ◌≡◌, refl, ap, ◌∙◌, Option, none, some, List, [], ◌∷◌,
  ◌++◌, if◌then◌else◌, arith,
}
use faas_drl.Base.Int.{pos}
use faas_drl.Base.Bytes.{Bytes, codes, eq_bytes}
use faas_drl.Effect.{Exit, done, panicked}
use faas_drl.Http.{Request}
use faas_drl.Handlers.Forwarding.Proxy.{ProxyConfig}
use faas_drl.Handlers.Notifiers.{
  started_inc, seconds_observed, invocation_inc, metric_name, metric_calls,
}
use faas_drl.Handlers.Notifiers.Balance.{
  started_count, completed_count, started_count-append, completed_count-append, metric_calls-append,
  started_calls, completed_calls,
}
use faas_drl.Handlers.Notifiers.Concurrent.{
  Calls, Action, begin, end, pick, told, end_of, step, Reached, start, then_step,
}

-- How many of some calls are of a function.
abbrev pub calls_of : Bytes → Bytes → List Request → ℕ
calls_of ns name [] = 0
calls_of ns name (r ∷ rs) =
    (if eq_bytes (metric_name ns r.url.text) name then 1 else 0) + calls_of ns name rs

-- The calls of one that was picked, and of the others.
abbrev picked_calls : Bytes → Bytes → Request × List Request → ℕ
picked_calls ns name (r, others) = calls_of ns name (r ∷ others)

calls_of-pick :
    (ns name : Bytes) (i : ℕ) (rs : List Request) (picked : Request × List Request)
    → pick i rs ≡ some picked
    → calls_of ns name rs ≡ picked_calls ns name picked
calls_of-pick ns name i [] picked e = absurd (cc e)
calls_of-pick ns name zero (q ∷ rs) picked e =
    let same : (q, rs) ≡ picked = cc e in ap (picked_calls ns name) same
calls_of-pick ns name (suc i) (q ∷ rs) picked e = elim (Option-cases (pick i rs)) [
  | inl k ↦ absurd (cc (rw k at e))
  | inr ((p, ps), k) ↦
      let same : (p, q ∷ ps) ≡ picked = cc (rw k at e) in
      omega (arith, calls_of-pick ns name i rs (p, ps) k, ap (picked_calls ns name) same)
]

module _ (ns name : Bytes) where
  -- Every call that was started is completed, in flight, or broken.
  abbrev pub IsCounted : Calls → Type 0
  IsCounted s =
      started_count name (metric_calls ns s.notices)
      ≡ completed_count name (metric_calls ns s.notices)
        + (calls_of ns name s.in_flight + calls_of ns name s.broken)

  begun-IsCounted :
      (config : ProxyConfig) (r : Request) (s : Calls)
      → IsCounted s
      → IsCounted (record s {
        notices = told config r 102 (codes "started") (pos 0) s.notices;
        in_flight = r ∷ s.in_flight;
      })
  begun-IsCounted config r s h =
      let calls : metric_calls ns (told config r 102 (codes "started") (pos 0) s.notices)
          ≡ metric_calls ns s.notices ++ started_inc (metric_name ns r.url.text) ∷ [] =
        metric_calls-append ns s.notices _
        ∙ ap (λ c. metric_calls ns s.notices ++ c) (started_calls ns config r) in
      let first = started_inc (metric_name ns r.url.text) ∷ [] in
      omega (
        arith,
        h,
        ap (started_count name) calls,
        ap (completed_count name) calls,
        started_count-append name (metric_calls ns s.notices) first,
        completed_count-append name (metric_calls ns s.notices) first,
      )

  completed-IsCounted :
      (config : ProxyConfig) (r : Request) (others : List Request) (status : ℕ) (s : Calls)
      → calls_of ns name s.in_flight ≡ calls_of ns name (r ∷ others)
      → IsCounted s
      → IsCounted (record s {
        notices = told config r status (codes "completed") config.elapsed s.notices;
        in_flight = others;
      })
  completed-IsCounted config r others status s picked h =
      let (code, e) = completed_calls ns config r status config.elapsed in
      let last =
        seconds_observed (metric_name ns r.url.text) code config.elapsed
        ∷ invocation_inc (metric_name ns r.url.text) code
        ∷ [] in
      let calls : metric_calls ns
            (told config r status (codes "completed") config.elapsed s.notices)
          ≡ metric_calls ns s.notices ++ last =
        metric_calls-append ns s.notices _ ∙ ap (λ c. metric_calls ns s.notices ++ c) e in
      omega (
        arith,
        h,
        picked,
        ap (started_count name) calls,
        ap (completed_count name) calls,
        started_count-append name (metric_calls ns s.notices) last,
        completed_count-append name (metric_calls ns s.notices) last,
      )

  end_of-IsCounted :
      (config : ProxyConfig) (o : Option (Request × List Request)) (ended : Exit ℕ) (s t : Calls)
      → ((picked : Request × List Request)
          → o ≡ some picked
          → calls_of ns name s.in_flight ≡ picked_calls ns name picked)
      → end_of config o ended s ≡ some t
      → IsCounted s
      → IsCounted t
  unfolding end_of
  end_of-IsCounted config none ended s t k e h = absurd (cc e)
  end_of-IsCounted config (some (r, others)) (done status) s t k e h =
      let same : t ≡ record s {
        notices = told config r status (codes "completed") config.elapsed s.notices;
        in_flight = others;
      } =
        cc e in
      rw same (completed-IsCounted config r others status s (k (r, others) refl) h)
  end_of-IsCounted config (some (r, others)) panicked s t k e h =
      let same : t ≡ record s { in_flight = others; broken = r ∷ s.broken } = cc e in
      rw same (omega (arith, h, k (r, others) refl))

  step-IsCounted :
      (config : ProxyConfig) (a : Action) (s t : Calls)
      → step config a s ≡ some t
      → IsCounted s
      → IsCounted t
  unfolding step
  step-IsCounted config (begin r) s t e h =
      let same : t ≡ record s {
        notices = told config r 102 (codes "started") (pos 0) s.notices;
        in_flight = r ∷ s.in_flight;
      } =
        cc e in
      rw same (begun-IsCounted config r s h)
  step-IsCounted config (end i ended) s t e h =
      end_of-IsCounted config (pick i s.in_flight) ended s t (calls_of-pick ns name i s.in_flight) e
        h

  -- However the calls of functions overlap, each beginning and ending in any order of all: at any
  -- moment a function was counted as started exactly as often as it was counted as completed, with
  -- its calls that are in flight and those that ended in a panic.
  pub Reached-IsCounted : (s : Calls) → Reached s → IsCounted s
  unfolding metric_calls
  Reached-IsCounted _ start = refl
  Reached-IsCounted _ (then_step config a u t reached e) =
      step-IsCounted config a u t e (Reached-IsCounted u reached)
