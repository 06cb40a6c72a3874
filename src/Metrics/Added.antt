-- ===== src/Metrics/Added.antt =====
-- gateway/metrics/add_metrics.go: the list of functions with their invocation counts. Lines that
-- only log are left out, and so is the test for a nil body, which a recorder never gives.
pub mod Totals
pub mod Counted
pub mod Handler
use faas_drl.Base.{
  ℕ, ◌≡◌, refl, Bool, true, false, Option, none, some, List, [], ◌∷◌, ◌++◌, map, ◌==◌,
  if◌then◌else◌, ◌⊎◌, inl, inr,
}
use faas_drl.Base.Bytes.{Bytes, codes, eq_bytes}
use faas_drl.Effect.{Error, M, Exit, done, panicked}
use faas_drl.Http.{Request, Writer, new_writer, final_status, write_header, write, http_error}
use faas_drl.Http.Headers.{set_header}
use faas_drl.Metrics.Query.{Value, text, other, Sample, VectorQueryResponse}

-- `float64`, its sum, and `strconv.ParseFloat`; an error is `none`.
pub record Floats : Type 1 where
  pub Float : Type 0
  pub zero : Float
  pub add : Float → Float → Float
  pub parse_float : Bytes → Option Float

-- `types.FunctionStatus` of faas-provider: the fields that are read, and the rest.
pub record FunctionStatus (Float Rest : Type 0) : Type 0 where
  pub name : Bytes
  pub namespace : Bytes
  pub invocation_count : Float
  pub rest : Rest

abbrev pub function_key : {Float Rest : Type 0} → FunctionStatus Float Rest → Bytes
function_key f = f.name ++ b'.' ∷ f.namespace

abbrev pub and_then : {A B : Type 0} → Exit A → (A → Exit B) → Exit B
and_then (done a) f = f a
and_then panicked f = panicked

abbrev pub invocation_query : Bytes → Bytes
invocation_query ns =
    codes "sum(gateway_function_invocation_total{function_name=~\".*."
    ++ (ns ++ codes "\"}) by (function_name)")

-- What is dropped of the error: the response is nil.
abbrev pub results_of : Error ⊎ VectorQueryResponse → Option VectorQueryResponse
results_of (inl err) = none
results_of (inr results) = some results

abbrev pub deliver : {S : Type 0} → Writer → S → Exit Writer → Exit (Unit {0}) × (Writer × S)
deliver w s panicked = (panicked, (w, s))
deliver w s (done u) = (done tt, (u, s))

module _ (F : Floats) {Rest : Type 0} where
  open F use {Float, add, parse_float}

  -- `v.Value[1]` panics where there are fewer than two values.
  unfoldable pub add_value :
      FunctionStatus Float Rest → List Value → Exit (FunctionStatus Float Rest)
  add_value f [] = panicked
  add_value f (v ∷ []) = panicked
  add_value f (v ∷ other ∷ vs) = done f
  add_value f (v ∷ text s ∷ vs) = elim (parse_float s) [
    | none ↦ done f
    | some x ↦ done (record f { invocation_count = add f.invocation_count x })
  ]

  unfoldable pub add_sample : FunctionStatus Float Rest → Sample → Exit (FunctionStatus Float Rest)
  unfolding add_value
  add_sample f v = if eq_bytes v.function_name (function_key f) then add_value f v.value else done f

  unfoldable pub add_samples :
      FunctionStatus Float Rest → List Sample → Exit (FunctionStatus Float Rest)
  unfolding add_sample
  add_samples f [] = done f
  add_samples f (v ∷ vs) = and_then (add_sample f v) (λ g. add_samples g vs)

  -- A nil response is dereferenced for each function.
  unfoldable pub mix_in :
      List (FunctionStatus Float Rest)
      → Option VectorQueryResponse
      → Exit (List (FunctionStatus Float Rest))
  unfolding add_samples
  mix_in [] metrics = done []
  mix_in (f ∷ functions) none = panicked
  mix_in (f ∷ functions) (some metrics) =
      and_then (add_samples f metrics.result)
        (λ g. and_then (mix_in functions (some metrics)) (λ gs. done (g ∷ gs)))

  abbrev pub emptied : FunctionStatus Float Rest → FunctionStatus Float Rest
  emptied f = record f { invocation_count = F.zero }

  -- The functions behind the decoding. `escape` is `url.QueryEscape`.
  unfoldable pub add_metrics :
      (Bytes → Bytes)
      → (Bytes → Error ⊎ VectorQueryResponse)
      → List (FunctionStatus Float Rest)
      → Exit (List (FunctionStatus Float Rest))
  unfolding mix_in
  add_metrics escape fetch [] = done []
  add_metrics escape fetch (f ∷ functions) =
      mix_in (map emptied (f ∷ functions))
        (results_of (fetch (escape (invocation_query f.namespace))))

  -- The response; JSON is read and written by encoding/json.
  unfoldable pub respond :
      (List (FunctionStatus Float Rest) → Error ⊎ Bytes)
      → Writer
      → List (FunctionStatus Float Rest)
      → Writer
  respond marshal w functions = elim (marshal functions) [
    | inl err ↦ http_error (codes "Error writing response after adding metrics") 500 w
    | inr bytes ↦ write bytes (
        write_header 200 (record w {
          header = set_header (codes "Content-Type") (codes "application/json") w.header;
        }))
  ]

  -- Behind the wrapped handler, which wrote to a recorder.
  unfoldable pub after_list :
      (Bytes → Bytes)
      → (Bytes → Error ⊎ VectorQueryResponse)
      → (Bytes → Error ⊎ List (FunctionStatus Float Rest))
      → (List (FunctionStatus Float Rest) → Error ⊎ Bytes)
      → Writer
      → Writer
      → Exit Writer
  unfolding add_metrics respond
  after_list escape fetch unmarshal marshal recorder w =
      if final_status recorder == 200
      then (elim (unmarshal recorder.body) [
        | inl err ↦
            done (http_error (codes "Unable to parse list of functions from provider") 500 w)
        | inr functions ↦
            and_then (add_metrics escape fetch functions) (λ fs. done (respond marshal w fs))
      ])
      else done (http_error recorder.body (final_status recorder) w)

  unfoldable pub add_metrics_handler :
      {S : Type 0}
      → (Request → M (Writer × S) (Unit {0}))
      → (Bytes → Bytes)
      → (Bytes → Error ⊎ VectorQueryResponse)
      → (Bytes → Error ⊎ List (FunctionStatus Float Rest))
      → (List (FunctionStatus Float Rest) → Error ⊎ Bytes)
      → Request
      → M (Writer × S) (Unit {0})
  unfolding after_list
  add_metrics_handler next escape fetch unmarshal marshal r (w, s) =
      let (ended, (recorder, s')) = next r (new_writer, s) in
      deliver w s' (and_then ended (λ _. after_list escape fetch unmarshal marshal recorder w))
