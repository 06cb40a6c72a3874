-- ===== src/Metrics/Query.antt =====
-- gateway/metrics/prometheus_query.go: a query of Prometheus over HTTP.
use faas_drl.Base.{ℕ, Option, none, some, List, [], ◌∷◌, ◌++◌, ◌==◌, if◌then◌else◌, ◌⊎◌, inl, inr}
use faas_drl.Base.Int.{ℤ}
use faas_drl.Base.Bytes.{Bytes, codes}
use faas_drl.Effect.{Error}
use faas_drl.Text.Decimal.{format, format_int}
use faas_drl.Http.{Body}
use faas_drl.Http.Headers.{set_header}
use faas_drl.Plugin.External.{ClientRequest}

-- A value of a sample, decoded from JSON: a string, or anything else.
pub data Value : Type 0 where
  text : Bytes → Value
  other : Value

pub record Sample : Type 0 where
  pub code : Bytes
  pub function_name : Bytes
  pub value : List Value

pub record VectorQueryResponse : Type 0 where
  pub result : List Sample

-- A response, whose body the client of net/http always gives.
pub record QueryResponse : Type 0 where
  pub status_code : ℕ
  pub body : Body

-- The query, with what it is made with: `http.NewRequest`, the client and JSON are code of Go's
-- library.
pub record PrometheusQuery : Type 0 where
  pub host : Bytes
  pub port : ℤ
  pub user_agent_version : Bytes
  pub new_request : Bytes → Option Error
  pub send : ClientRequest → Error ⊎ QueryResponse
  pub unmarshal : Bytes → Option Error × VectorQueryResponse

abbrev pub query_url : PrometheusQuery → Bytes → Bytes
query_url q query =
    codes "http://"
    ++ (q.host ++ b':' ∷ (format_int q.port ++ (codes "/api/v1/query?query=" ++ query)))

abbrev pub query_request : PrometheusQuery → Bytes → ClientRequest
query_request q query = record {
  method = codes "GET";
  url = query_url q query;
  header =
      set_header (codes "User-Agent")
        (codes "openfaas-gateway/" ++ (q.user_agent_version ++ codes " (Prometheus query)")) [];
  body = [];
}

abbrev pub unexpected_status : QueryResponse → Error
unexpected_status res =
    codes "unexpected status code from Prometheus want: 200, got: "
    ++ (format res.status_code ++ (codes ", body: " ++ res.body.content))

abbrev pub bad_result : Error → Bytes → Error
bad_result err bytes =
    codes "error unmarshaling result: " ++ (err ++ (codes ", '" ++ (bytes ++ codes "'")))

-- Behind the response.
unfoldable pub read_response : PrometheusQuery → QueryResponse → Error ⊎ VectorQueryResponse
read_response q res = elim res.body.failure [
  | some err ↦ inl err
  | none ↦
      let (err, values) = q.unmarshal res.body.content in
      if res.status_code == 200
      then (elim err [ some e ↦ inl (bad_result e res.body.content) | none ↦ inr values ])
      else inl (unexpected_status res)
]

-- `Fetch` gives an error, or a response that is not nil.
unfoldable pub fetch : PrometheusQuery → Bytes → Error ⊎ VectorQueryResponse
unfolding read_response
fetch q query = elim (q.new_request (query_url q query)) [
  | some err ↦ inl err
  | none ↦ elim (q.send (query_request q query)) [
    | inl err ↦ inl err
    | inr res ↦ read_response q res
  ]
]
