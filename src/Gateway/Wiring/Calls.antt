-- ===== src/Gateway/Wiring/Calls.antt =====
-- A call of a function through the gateway: it is scaled, tagged, forwarded and counted.
use faas_drl.Base.{
  ℕ, ◌+◌, ◌≡◌, refl, sym, ap, ◌∙◌, ◌⊎◌, inl, inr, Bool, true, false, ◌&&◌, Option, none, some,
  if◌then◌else◌,
}
use faas_drl.Base.Bytes.{Bytes, eq_bytes}
use faas_drl.Effect.{Error, Exit, done, panicked}
use faas_drl.Effect.Laws.{EndsIn}
use faas_drl.Http.{Request, Writer}
use faas_drl.Middleware.ServiceName.{get_namespace}
use faas_drl.Middleware.Resolver.{get_service_name}
use faas_drl.Scaling.Cacher.{function_cacher}
use faas_drl.Scaling.Scaler.{FunctionScaleResult}
use faas_drl.Scaling.Scaler.Consistent.{IsConsistent, SetPanics}
use faas_drl.Scaling.Scaler.Result.{scale-EndsIn}
use faas_drl.Handlers.CallId.{tag_call, call_id_middleware}
use faas_drl.Handlers.Notifiers.{metric_name, metric_calls}
use faas_drl.Handlers.Notifiers.Balance.{
  started_count, completed_count, has_returned, forwarding_proxy_handler_counts,
}
use faas_drl.Handlers.Scaling.{Served, passed, answered, broken, served_by}
use faas_drl.Gateway.Functions.{proxy_handler, function_handler}
use faas_drl.Gateway.Store.{scaling_part, EndsIn-on_part}
use faas_drl.Gateway.Wiring.{send, Store, Parts, proxy_config, proxy, scaler, function_proxy}

-- How often a function was counted in what the notifiers were told.
abbrev pub started : Bytes → Bytes → Store → ℕ
started ns name s = started_count name (metric_calls ns s.notices)

abbrev pub completed : Bytes → Bytes → Store → ℕ
completed ns name s = completed_count name (metric_calls ns s.notices)

-- A call is forwarded in the store `t` and counted.
abbrev pub IsCounted : Bytes → Request → Bytes → Store → Exit (Unit {0}) × (Writer × Store) → Type 0
IsCounted ns r name s m =
    (started ns name m.1.1
      ≡ started ns name s + (if eq_bytes (metric_name ns r.url.text) name then 1 else 0))
    × (completed ns name m.1.1
        ≡ completed ns name s
          + (if has_returned m.0 && eq_bytes (metric_name ns r.url.text) name then 1 else 0))

-- A call is answered with an error, and no notifier is told of it.
abbrev pub IsRefused : Store → Exit (Unit {0}) × (Writer × Store) → Type 0
IsRefused s m =
    (m.0 ≡ done tt)
    × ((m.1.0.status ≡ some 404) ⊎ (m.1.0.status ≡ some 500))
    × (m.1.1.notices ≡ s.notices)

-- A panic goes through: nothing is written, and no notifier is told of the call.
abbrev pub IsBroken : Writer → Store → Exit (Unit {0}) × (Writer × Store) → Type 0
IsBroken w s m = (m.0 ≡ panicked) × (m.1.0 ≡ w) × (m.1.1.notices ≡ s.notices)

module _ {P Rest : Type 0} (p : Parts P Rest) (r : Request) (w : Writer) where
  pub proxy-IsCounted : (ns name : Bytes) (s : Store) → IsCounted ns r name s (proxy p r (w, s))
  unfolding proxy function_handler call_id_middleware proxy_handler tag_call
  proxy-IsCounted ns name s =
      let (tagged, answer) = tag_call p.call_id p.start p.build.version r w in
      forwarding_proxy_handler_counts ns (proxy_config p none) tagged name
        (record { writer = answer; notices = s.notices })

  pub notices-scaler : (fn ns : Bytes) (s : Store) → (scaler p fn ns s).1.notices ≡ s.notices
  unfolding scaler
  notices-scaler fn ns s = refl

  scaler-EndsIn :
      (fn ns : Bytes) (s : Store)
      → EndsIn (λ t. SetPanics p.env fn ns) (IsConsistent p.env fn ns) (scaler p fn ns s)
  unfolding scaler
  scaler-EndsIn fn ns s =
      EndsIn-on_part scaling_part (SetPanics p.env fn ns) (IsConsistent p.env fn ns) _ s
        (scale-EndsIn p.env function_cacher p.group _ fn ns s.scaling)

  -- What is counted in the notices alone.
  notices-IsCounted :
      (ns name : Bytes) (s t : Store) (m : Exit (Unit {0}) × (Writer × Store))
      → t.notices ≡ s.notices
      → IsCounted ns r name t m
      → IsCounted ns r name s m
  notices-IsCounted ns name s t m e (a, b) =
      let begun : started ns name t ≡ started ns name s =
        ap (λ n. started_count name (metric_calls ns n)) e in
      let ended : completed ns name t ≡ completed ns name s =
        ap (λ n. completed_count name (metric_calls ns n)) e in
      (rw⁻¹ begun a, rw⁻¹ ended b)

  status-refused :
      (b : Bool) (o : Option ℕ)
      → o ≡ some (if b then 500 else 404)
      → (o ≡ some 404) ⊎ (o ≡ some 500)
  status-refused true o e = inr e
  status-refused false o e = inl e

  Served-cases :
      (fn fn_ns ns name : Bytes) (s : Store) (scaled : Exit FunctionScaleResult × Store)
      (m : Exit (Unit {0}) × (Writer × Store))
      → scaled.1.notices ≡ s.notices
      → Served p.env fn fn_ns (proxy p) r w scaled m
      → (((res : FunctionScaleResult) × (t : Store) × (scaled ≡ (done res, t)) × (res.error ≡ none))
          × IsCounted ns r name s m)
        ⊎ (((res : FunctionScaleResult) × (err : Error) × (t : Store) × (scaled ≡ (done res, t))
              × (res.error ≡ some err))
            × IsRefused s m)
        ⊎ (SetPanics p.env fn fn_ns × ((t : Store) × (scaled ≡ (panicked, t))) × IsBroken w s m)
  Served-cases fn fn_ns ns name s scaled m same (passed res t e fine q) =
      let kept : t.notices ≡ s.notices = sym (ap (λ x. x.1.notices) e) ∙ same in
      inl (
        (res, t, e, fine),
        rw q (notices-IsCounted ns name s t (proxy p r (w, t)) kept (proxy-IsCounted ns name t)),
      )
  Served-cases fn fn_ns ns name s scaled m same (answered res err u t e failed st q) =
      let kept : t.notices ≡ s.notices = sym (ap (λ x. x.1.notices) e) ∙ same in
      inr (inl ((res, err, t, e, failed), rw q (refl, status-refused res.found u.status st, kept)))
  Served-cases fn fn_ns ns name s scaled m same (broken t e panics q) =
      let kept : t.notices ≡ s.notices = sym (ap (λ x. x.1.notices) e) ∙ same in
      inr (inr (panics, (t, e), rw q (refl, refl, kept)))

  -- With scaling from zero, on a response that is not yet written: if scaling the function that the
  -- URL names gives no error, the call is forwarded, which adds one to the started calls of that
  -- function and, exactly if the handler returns, one to its completed calls, and nothing to those
  -- of another name; if scaling gives an error, the call is answered with 404 or 500, and neither a
  -- start nor a completion is counted; and scaling panics only if the provider does in a
  -- `SetReplicas` for the function, where the handler panics with nothing written or counted.
  pub function_proxy_lem :
      (ns name : Bytes) (s : Store)
      → p.config.scale_from_zero ≡ true
      → w.status ≡ none
      → let target = get_namespace p.config.namespace (get_service_name r.url.text) in
        let scaled = scaler p target.0 target.1 s in
        (((res : FunctionScaleResult) × (t : Store) × (scaled ≡ (done res, t)) × (res.error ≡ none))
          × IsCounted ns r name s (function_proxy p r (w, s)))
        ⊎ (((res : FunctionScaleResult) × (err : Error) × (t : Store) × (scaled ≡ (done res, t))
              × (res.error ≡ some err))
            × IsRefused s (function_proxy p r (w, s)))
        ⊎ (SetPanics p.env target.0 target.1
            × ((t : Store) × (scaled ≡ (panicked, t)))
            × IsBroken w s (function_proxy p r (w, s)))
  unfolding function_proxy send
  function_proxy_lem ns name s scales new =
      let target = get_namespace p.config.namespace (get_service_name r.url.text) in
      let scaled = scaler p target.0 target.1 s in
      rw (scales, function_proxy)
        (Served-cases target.0 target.1 ns name s scaled _ (notices-scaler target.0 target.1 s) (
          served_by p.env (scaler p) (proxy p) r w new p.config.namespace s
            (scaler-EndsIn target.0 target.1 s)))
