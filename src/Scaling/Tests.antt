-- ===== src/Scaling/Tests.antt =====
-- The theorems about the cache, the cached query and the limits at concrete inputs.
use faas_drl.Base.{true, ◌≡◌, refl, false, Option, none, some, [], ◌∷◌, arith, List}
use faas_drl.Base.Int.{pos, ◌+ℤ◌}
use faas_drl.Base.Bytes.{Bytes, codes}
use faas_drl.Base.Dict.{lookup, insert, erase}
use faas_drl.Effect.{M, done}
use faas_drl.Http.{Request, Writer}
use faas_drl.Scaling.Response.{ServiceQueryResponse, empty_response}
use faas_drl.Scaling.Cache.{FunctionCache, expired, set, get, new_function_cache}
use faas_drl.Text.{Lacks}
use faas_drl.Scaling.Cache.History.{Call, set_at, get_at, run, run_refines}
use faas_drl.Scaling.Cacher.{function_cacher}
use faas_drl.Scaling.Scaler.{State}
use faas_drl.Scaling.Ranges.{ScaleServiceRequest}

abbrev fresh_cache : FunctionCache
fresh_cache = new_function_cache (pos 250)

abbrev one_ready : ServiceQueryResponse
one_ready = record empty_response { replicas = 1; available_replicas = 1 }

abbrev calls : List Call
calls =
    get_at (pos 50) (codes "a") (codes "dev")
    ∷ set_at (pos 100) (codes "a") (codes "dev") one_ready
    ∷ get_at (pos 300) (codes "a") (codes "dev")
    ∷ get_at (pos 301) (codes "a.dev") []
    ∷ get_at (pos 400) (codes "a") (codes "dev")
    ∷ []

run_refines_example :
    run calls (new_function_cache (pos 250))
    ≡ (empty_response, false)
      ∷ (one_ready, true)
      ∷ (empty_response, false)
      ∷ (one_ready, false)
      ∷ []
unfolding ◌+ℤ◌
run_refines_example = run_refines (pos 250) calls (
    let dev : Lacks b'.' (codes "dev") = (omega arith, (omega arith, (omega arith, tt))) in
    (dev, (dev, (dev, (tt, (dev, tt))))))

-- A JSON of one byte, the count.
abbrev from_json : Bytes → Option ScaleServiceRequest
from_json [] = none
from_json (b ∷ s) = some (record { service_name = codes "echo"; replicas = b })

abbrev to_json : ScaleServiceRequest → Bytes
to_json r = r.replicas ∷ []

abbrev scale_to_nine : Request
scale_to_nine = record {
  method = codes "POST";
  url = record {
    path = codes "/system/scale-function/echo";
    raw_query = [];
    text = codes "/system/scale-function/echo";
  };
  header = [];
  host = codes "gateway";
  remote_addr = codes "10.0.0.1:80";
  body = some (record { content = 9 ∷ []; failure = none });
}

abbrev keep_request : Request → M (Writer × Option Request) (Unit {0})
keep_request r (w, s) = (done tt, (w, some r))

abbrev warm : State function_cacher
warm = record { history = []; cache = set (pos 0) (codes "a") (codes "dev") one_ready fresh_cache }

warm_hit : get (pos 7) (codes "a") (codes "dev") warm.cache ≡ (one_ready, true)
unfolding get set new_function_cache lookup insert erase expired ◌+ℤ◌
warm_hit = refl
