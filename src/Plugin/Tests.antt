-- ===== src/Plugin/Tests.antt =====
-- The theorems about the queries to the provider at a concrete provider.
use faas_drl.Base.{◌≡◌, ◌↔◌, ◌⊎◌, refl, true, Option, none, some, [], ◌∷◌}
use faas_drl.Base.Bytes.{codes}
use faas_drl.Effect.{Error, done, panicked}
use faas_drl.Plugin.External.{ClientResponse, ExternalServiceQuery, get_replicas, set_replicas}
use faas_drl.Plugin.External.Laws.{IsSoundExit, get_replicas-IsSound, set_replicas_iff}

abbrev accepted : ClientResponse
accepted = record { status_code = 202; body = [] }

abbrev provider : ExternalServiceQuery
provider = record {
  url = codes "http://provider/";
  inject = none;
  include_usage = true;
  new_request = λ url. none;
  send = λ r. (some accepted, none);
  decode_status = λ bytes.
      (none, record { replicas = 1; available_replicas = 1; labels = none; annotations = none });
  encode_scale = λ name count. (none, count ∷ []);
}

get_replicas-IsSound_example : IsSoundExit (get_replicas provider (codes "echo") (codes "dev"))
get_replicas-IsSound_example =
    get_replicas-IsSound provider (λ r e. cc) (codes "echo") (codes "dev")

set_replicas_iff_example :
    ((set_replicas provider (codes "echo") (codes "dev") 3 ≡ panicked)
      ↔ (◌≡◌ {A = Option ClientResponse} (some accepted) none))
    × ((set_replicas provider (codes "echo") (codes "dev") 3 ≡ done none) ↔ (
        (res : ClientResponse) × (◌≡◌ {A = Option ClientResponse × Option Error}
          (some accepted, none)
          (some res, none))
        × ((res.status_code ≡ 200) ⊎ (res.status_code ≡ 202))))
set_replicas_iff_example = set_replicas_iff provider (codes "echo") (codes "dev") 3 refl refl
