-- ===== src/Handlers/Scaling.antt =====
-- gateway/handlers/scaling.go: a request is held until its function is scaled up. Lines that only
-- log are left out.
use faas_drl.Base.{
  ℕ, ◌≡◌, refl, not, Option, none, some, ◌∷◌, ◌++◌, if◌then◌else◌, inl, inr, is_some, arith,
  Option-cases, Bool-cases,
}
use faas_drl.Base.Bytes.{Bytes, codes}
use faas_drl.Effect.{Error, M, Exit, done, panicked}
use faas_drl.Effect.Laws.{EndsIn}
use faas_drl.Http.Laws.{status-write-write_header}
use faas_drl.Http.{Request, Writer, write_header, write}
use faas_drl.Middleware.ServiceName.{get_namespace}
use faas_drl.Middleware.Resolver.{get_service_name}
use faas_drl.Scaling.Response.{Environment, ScalingConfig}
use faas_drl.Scaling.Cacher.{FunctionCacher, Group}
use faas_drl.Scaling.Scaler.{FunctionScaleResult, State, scale}
use faas_drl.Scaling.Scaler.Consistent.{IsConsistent, SetPanics}
use faas_drl.Scaling.Scaler.Result.{scale-EndsIn}

abbrev pub finding_error : Bytes → Bytes → Error → Bytes
finding_error function_name namespace err =
    codes "error finding function " ++ (function_name ++ b'.' ∷ (namespace ++ (codes ": " ++ err)))

module _ {S : Type 0} (scaler : Bytes → Bytes → M S FunctionScaleResult)
    (next : Request → M (Writer × S) (Unit {0})) where
  -- A response with the text of the error; `res.Error.Error()` on a nil error panics.
  unfoldable pub respond : ℕ → Bytes × Bytes → Option Error → M (Writer × S) (Unit {0})
  respond status target none s = (panicked, s)
  respond status (function_name, namespace) (some err) (w, s) =
      (done tt, (write (finding_error function_name namespace err) (write_header status w), s))

  -- Behind the scaler.
  unfoldable pub after_scale :
      Request → Bytes × Bytes → FunctionScaleResult → M (Writer × S) (Unit {0})
  unfolding respond
  after_scale r target res s =
      let missing = respond 404 target res.error s in
      let broken = respond 500 target res.error s in
      let passed = if res.available then next r s else (done tt, s) in
      if not res.found then missing else (if is_some res.error then broken else passed)

  unfoldable pub scaling_handler : Bytes → Request → M (Writer × S) (Unit {0})
  unfolding after_scale
  scaling_handler default_namespace r (w, s) =
      let target = get_namespace default_namespace (get_service_name r.url.text) in
      let (res, s') = scaler target.0 target.1 s in
      (elim res [
        | done result ↦ after_scale r target result (w, s')
        | panicked ↦ (panicked, (w, s'))
      ])

-- How a request is served behind the scaler of the gateway: without an error it is passed on in
-- the state that the scaler leaves; with an error it is answered, with 500 for a function that was
-- found and 404 for another, and not passed on; and a panic of the provider goes through.
pub data Served (env : Environment) (fn ns : Bytes) {S : Type 0}
    (next : Request → M (Writer × S) (Unit {0})) (r : Request) (w : Writer)
    (scaled : Exit FunctionScaleResult × S) (m : Exit (Unit {0}) × (Writer × S)) : Type 0 where
  passed :
      (res : FunctionScaleResult) (t : S)
      → scaled ≡ (done res, t)
      → res.error ≡ none
      → m ≡ next r (w, t)
      → Served env fn ns next r w scaled m
  answered :
      (res : FunctionScaleResult) (err : Error) (w' : Writer) (t : S)
      → scaled ≡ (done res, t)
      → res.error ≡ some err
      → w'.status ≡ some (if res.found then 500 else 404)
      → m ≡ (done tt, (w', t))
      → Served env fn ns next r w scaled m
  broken :
      (t : S)
      → scaled ≡ (panicked, t)
      → SetPanics env fn ns
      → m ≡ (panicked, (w, t))
      → Served env fn ns next r w scaled m

respond-status :
    {S : Type 0} (status : ℕ) (target : Bytes × Bytes) (err : Error) (w : Writer) (t : S)
    (scaler : Bytes → Bytes → M S FunctionScaleResult) (next : Request → M (Writer × S) (Unit {0}))
    → w.status ≡ none
    → (u : Writer) × ((respond scaler next status target (some err) (w, t) ≡ (done tt, (u, t)))
        × (u.status ≡ some status))
unfolding respond
respond-status status (f, n) err w t scaler next new =
    (_, (refl, status-write-write_header status _ w new))

module _ {S : Type 0} (env : Environment) (scaler : Bytes → Bytes → M S FunctionScaleResult)
    (next : Request → M (Writer × S) (Unit {0})) (r : Request) (w : Writer)
    (new : w.status ≡ none) where
  after_scale-Served :
      (target : Bytes × Bytes) (m : Exit FunctionScaleResult × S)
      → EndsIn (λ s. SetPanics env target.0 target.1) (IsConsistent env target.0 target.1) m
      → Served env target.0 target.1 next r w m (elim m.0 [
        | done result ↦ after_scale scaler next r target result (w, m.1)
        | panicked ↦ (panicked, (w, m.1))
      ])
  unfolding after_scale
  after_scale-Served target (panicked, t) h = broken t refl h refl
  after_scale-Served target (done res, t) h = elim (Option-cases res.error) [
    | inl e ↦ passed res t refl e (ground (arith, e, h.available_iff, h.found_or_error))
    | inr (err, e) ↦ elim (Bool-cases res.found) [
      | inl f ↦
          let (u, (q, st)) = respond-status 500 target err w t scaler next new in
          answered res err u t refl e (rw f st) (rw (f, e) q)
      | inr f ↦
          let (u, (q, st)) = respond-status 404 target err w t scaler next new in
          answered res err u t refl e (rw f st) (rw (f, e) q)
    ]
  ]

  -- Any scaler whose results are consistent will do.
  pub served_by :
      (d : Bytes) (s : S)
      → let target = get_namespace d (get_service_name r.url.text) in
        EndsIn
          (λ s. SetPanics env target.0 target.1)
          (IsConsistent env target.0 target.1)
          (scaler target.0 target.1 s)
        → Served env target.0 target.1 next r w
            (scaler target.0 target.1 s)
            (scaling_handler scaler next d r (w, s))
  unfolding scaling_handler
  served_by d s h = after_scale-Served _ _ h

-- On a response that is not yet written, behind the scaler of the gateway, the handler passes the
-- request on, if scaling gave no error; answers it, with 404 if the function was not found and 500
-- otherwise, if scaling gave an error; or, if scaling panicked, as it does only if the provider
-- panics in a `SetReplicas` for the function that the URL names, panics too, with nothing written.
pub scaling_handler-Served :
    (env : Environment) (C : FunctionCacher) (group : Group (State C)) (config : ScalingConfig)
    (next : Request → M (Writer × State C) (Unit {0})) (d : Bytes) (r : Request) (w : Writer)
    → w.status ≡ none
    → let target = get_namespace d (get_service_name r.url.text) in
      (s : State C)
      → Served env target.0 target.1 next r w
          (scale env C group config target.0 target.1 s)
          (scaling_handler (scale env C group config) next d r (w, s))
scaling_handler-Served env C group config next d r w new s =
    served_by env (scale env C group config) next r w new d s
      (scale-EndsIn env C group config _ _ s)
