-- ===== src/Plugin/External.antt =====
-- gateway/plugin/external.go: replica counts are asked and set by requests to the provider. Lines
-- that only log or take the time for a log are left out, and so is the closing of bodies.
pub mod Laws
use faas_drl.Base.{
  ℕ, ◌≡◌, refl, Bool, true, false, ◌&&◌, ◌||◌, Option, none, some, List, [], ◌∷◌, ◌++◌, ltb, leb,
  ◌==◌, if◌then◌else◌,
}
use faas_drl.Base.Int.{ℤ, to_uint64}
use faas_drl.Base.Bytes.{Bytes, codes}
use faas_drl.Base.Dict.{Dict, lookup}
use faas_drl.Effect.{Error, Exit, done, panicked}
use faas_drl.Text.Decimal.{atoi, format}
use faas_drl.Http.Headers.{Header}
use faas_drl.Scaling.Response.{ServiceQueryResponse, empty_response}

-- The fields of `types.FunctionStatus` of faas-provider that are read; a nil map is `none`.
pub record FunctionStatus : Type 0 where
  pub replicas : ℕ
  pub available_replicas : ℕ
  pub labels : Option (Dict Bytes)
  pub annotations : Option (Dict Bytes)

pub record ClientRequest : Type 0 where
  pub method : Bytes
  pub url : Bytes
  pub header : Header
  pub body : Bytes

-- `bytesOut` is what could be read of the body.
pub record ClientResponse : Type 0 where
  pub status_code : ℕ
  pub body : Bytes

-- What the query is made with, and what answers it. `http.NewRequest` refuses a URL that does not
-- parse. `Client.Do` gives a response, an error, or (for a redirect that fails) both; JSON is
-- read and written by encoding/json.
pub record ExternalServiceQuery : Type 0 where
  pub url : Bytes
  pub inject : Option (ClientRequest → ClientRequest)
  pub include_usage : Bool
  pub new_request : Bytes → Option Error
  pub send : ClientRequest → Option ClientResponse × Option Error
  pub decode_status : Bytes → Option Error × FunctionStatus
  pub encode_scale : Bytes → ℕ → Option Error × Bytes

abbrev pub injected : Option (ClientRequest → ClientRequest) → ClientRequest → ClientRequest
injected none r = r
injected (some inject) r = inject r

abbrev pub default_min_replicas : ℕ
default_min_replicas = 1

abbrev pub default_max_replicas : ℕ
default_max_replicas = 5

abbrev pub default_scaling_factor : ℕ
default_scaling_factor = 10

abbrev pub min_scale_label : Bytes
min_scale_label = codes "com.openfaas.scale.min"

abbrev pub max_scale_label : Bytes
max_scale_label = codes "com.openfaas.scale.max"

abbrev pub scaling_factor_label : Bytes
scaling_factor_label = codes "com.openfaas.scale.factor"

-- `labels[key]` is empty where the key is missing.
abbrev pub label_of : Option Bytes → Bytes
label_of none = []
label_of (some v) = v

-- An integer is turned into the uint64 with its bits.
unfoldable pub extract_label_value : Bytes → ℕ → ℕ
extract_label_value [] fallback = fallback
extract_label_value (b ∷ raw) fallback = elim (atoi (b ∷ raw)) [
  | none ↦ fallback
  | some value ↦ to_uint64 value
]

abbrev pub response_of : FunctionStatus → ℕ → ℕ → ℕ → ServiceQueryResponse
response_of function max min factor = record {
  replicas = function.replicas;
  max_replicas = max;
  min_replicas = min;
  scaling_factor = factor;
  available_replicas = function.available_replicas;
  annotations = function.annotations;
}

abbrev pub bad_factor : ℕ → Error
bad_factor factor =
    codes "bad scaling factor: " ++ (format factor ++ codes ", is not in range of [0 - 100]")

-- Behind the decoding: the limits from the labels of the function.
unfoldable pub limits : Option (Dict Bytes) → FunctionStatus → ServiceQueryResponse × Option Error
unfolding extract_label_value
limits none function =
    (response_of function default_max_replicas default_min_replicas default_scaling_factor, none)
limits (some labels) function =
    let min = extract_label_value (label_of (lookup min_scale_label labels)) default_min_replicas in
    let max = extract_label_value (label_of (lookup max_scale_label labels)) default_max_replicas in
    let factor =
      extract_label_value (label_of (lookup scaling_factor_label labels)) default_scaling_factor in
    if ltb 0 factor && leb factor 100
    then (response_of function max min factor, none)
    else (empty_response, some (bad_factor factor))

module _ (s : ExternalServiceQuery) where
  -- The answer of the provider: a response with another status than 200 is an error.
  unfoldable pub read_status : Bytes → ClientResponse → ServiceQueryResponse × Option Error
  unfolding limits
  read_status service_name res =
      let refused =
        codes "server returned non-200 status code ("
        ++ (format res.status_code
            ++ (codes ") for function, " ++ (service_name ++ (codes ", body: " ++ res.body)))) in
      let (decode_error, function) = s.decode_status res.body in
      if res.status_code == 200
      then (elim decode_error [
        | some err ↦ (empty_response, some err)
        | none ↦ limits function.labels function
      ])
      else (empty_response, some refused)

  abbrev pub get_url : Bytes → Bytes → Bytes
  get_url service_name namespace =
      s.url
      ++ (codes "system/function/"
          ++ (service_name
              ++ (codes "?namespace="
                  ++ (namespace
                      ++ (codes "&usage="
                          ++ (if s.include_usage then codes "true" else codes "false"))))))

  -- Behind `ProxyClient.Do`: without an error the response is used, and a nil one panics.
  unfoldable pub after_get :
      Bytes → Option ClientResponse × Option Error → Exit (ServiceQueryResponse × Option Error)
  unfolding read_status
  after_get service_name (res, some err) = done (empty_response, some err)
  after_get service_name (none, none) = panicked
  after_get service_name (some res, none) = done (read_status service_name res)

  unfoldable pub get_replicas : Bytes → Bytes → Exit (ServiceQueryResponse × Option Error)
  unfolding after_get
  get_replicas service_name namespace =
      let url = get_url service_name namespace in
      let request : ClientRequest = record {
        method = codes "GET";
        url = url;
        header = [];
        body = [];
      } in
      elim (s.new_request url) [
        | some err ↦ done (empty_response, some err)
        | none ↦ after_get service_name (s.send (injected s.inject request))
      ]

  abbrev pub set_url : Bytes → Bytes → Bytes
  set_url service_name namespace =
      s.url
      ++ (codes "system/scale-function/" ++ (service_name ++ (codes "?namespace=" ++ namespace)))

  -- Behind `ProxyClient.Do`: the status is read whether or not there was an error, so a nil
  -- response panics.
  unfoldable pub after_set : Bytes → Option ClientResponse × Option Error → Exit (Option Error)
  after_set url (none, err) = panicked
  after_set url (some res, err) =
      if res.status_code == 200 || res.status_code == 202
      then done err
      else done (
          some
            (codes "error scaling HTTP code " ++ (format res.status_code ++ (codes ", " ++ url))))

  -- The error of `http.NewRequest` is dropped; the nil request panics when its body is closed.
  unfoldable pub set_replicas : Bytes → Bytes → ℕ → Exit (Option Error)
  unfolding after_set
  set_replicas service_name namespace count =
      let url = set_url service_name namespace in
      let (encode_error, request_body) = s.encode_scale service_name count in
      let request : ClientRequest = record {
        method = codes "POST";
        url = url;
        header = [];
        body = request_body;
      } in
      elim encode_error [
        | some err ↦ done (some err)
        | none ↦ elim (s.new_request url) [
          | some err ↦ panicked
          | none ↦ after_set url (s.send (injected s.inject request))
        ]
      ]
