-- ===== src/Plugin/External/Laws.antt =====
-- What the queries to the provider give back, and when they panic.
use faas_drl.Base.{
  ℕ, suc, ◌-◌, ◌^◌, ◌≤◌, ◌<◌, ◌≡◌, ◌≢◌, ◌↔◌, ◌⊎◌, refl, ap, Option, none, some, [], ◌∷◌, arith,
}
use faas_drl.Base.Bytes.{Bytes, codes}
use faas_drl.Base.Dict.{Dict}
use faas_drl.Effect.{Error, Exit, done, panicked}
use faas_drl.Text.Decimal.{atoi, parse_ℕ}
use faas_drl.Scaling.Response.{ServiceQueryResponse, empty_response}
use faas_drl.Plugin.External.{
  FunctionStatus, ClientRequest, ClientResponse, ExternalServiceQuery, injected,
  extract_label_value, limits, read_status, get_url, after_get, get_replicas, set_url, after_set,
  set_replicas,
}

-- A response with no error has a scaling factor from 1 to 100, and an error comes with the empty
-- response.
abbrev pub IsSound : ServiceQueryResponse × Option Error → Type 0
IsSound (r, none) = (1 ≤ r.scaling_factor) × (r.scaling_factor ≤ 100)
IsSound (r, some err) = r ≡ empty_response

abbrev pub IsSoundExit : Exit (ServiceQueryResponse × Option Error) → Type 0
IsSoundExit (done answer) = IsSound answer
IsSoundExit panicked = ⊥

limits-IsSound :
    (labels : Option (Dict Bytes)) (function : FunctionStatus) → IsSound (limits labels function)
unfolding limits
limits-IsSound none function = omega arith
limits-IsSound (some labels) function = ground arith

module _ (s : ExternalServiceQuery) where
  read_status-IsSound : (name : Bytes) (res : ClientResponse) → IsSound (read_status s name res)
  unfolding read_status
  read_status-IsSound name res =
      ground
        (arith, limits-IsSound (s.decode_status res.body).1.labels (s.decode_status res.body).1)

  after_get-IsSound :
      (name : Bytes) (sent : Option ClientResponse × Option Error)
      → sent ≢ (none, none)
      → IsSoundExit (after_get s name sent)
  unfolding after_get
  after_get-IsSound name (res, some err) h = refl
  after_get-IsSound name (none, none) h = absurd (h refl)
  after_get-IsSound name (some res, none) h = read_status-IsSound name res

  abbrev pub get_request : Bytes → Bytes → ClientRequest
  get_request name namespace = record {
    method = codes "GET";
    url = get_url s name namespace;
    header = [];
    body = [];
  }

  -- Where the client gives a response or an error for each request, `GetReplicas` does not panic.
  -- Whatever the provider answers and the labels say, it gives an error with the empty response,
  -- or a response whose scaling factor is from 1 to 100.
  pub get_replicas-IsSound :
      ((r : ClientRequest) → s.send r ≢ (none, none))
      → (name namespace : Bytes) → IsSoundExit (get_replicas s name namespace)
  unfolding get_replicas
  get_replicas-IsSound answers name namespace =
      let request = injected s.inject (get_request name namespace) in
      ground (arith, after_get-IsSound name (s.send request) (answers request))

  after_accepted :
      (url : Bytes) (res r : ClientResponse)
      → ◌≡◌ {A = Option ClientResponse} (some res) (some r)
      → (r.status_code ≡ 200) ⊎ (r.status_code ≡ 202)
      → after_set s url (some res, none) ≡ done none
  unfolding after_set
  after_accepted url res r e c = ground arith

  after_set_iff :
      (url : Bytes) (sent : Option ClientResponse × Option Error)
      → ((after_set s url sent ≡ panicked) ↔ (sent.0 ≡ none))
        × ((after_set s url sent ≡ done none) ↔ (
            (res : ClientResponse) × (sent ≡ (some res, none))
            × ((res.status_code ≡ 200) ⊎ (res.status_code ≡ 202))))
  unfolding after_set
  after_set_iff url (none, err) =
      ((λ _. refl, λ _. refl), (λ h. cc, λ (_, e, _). absurd (cc (ap (λ p. p.0) e))))
  after_set_iff url (some res, none) = (
    ground arith,
    (λ h. (res, refl, ground arith), λ (r, e, c). after_accepted url res r (ap (λ p. p.0) e) c),
  )
  after_set_iff url (some res, some err) =
      (ground arith, (λ h. ground arith, λ (r, e, c). absurd (cc (ap (λ p. p.1) e))))

  -- The request that SetReplicas sends.
  abbrev pub set_request : Bytes → Bytes → ℕ → ClientRequest
  set_request name namespace count = record {
    method = codes "POST";
    url = set_url s name namespace;
    header = [];
    body = (s.encode_scale name count).1;
  }

  -- Once its request is made, `SetReplicas` panics exactly if the client gives no response, and
  -- returns no error exactly if there is a response with the status 200 or 202 and no error.
  pub set_replicas_iff :
      (name namespace : Bytes) (count : ℕ)
      → (s.encode_scale name count).0 ≡ none
      → s.new_request (set_url s name namespace) ≡ none
      → let sent = s.send (injected s.inject (set_request name namespace count)) in
        ((set_replicas s name namespace count ≡ panicked) ↔ (sent.0 ≡ none))
        × ((set_replicas s name namespace count ≡ done none) ↔ (
            (res : ClientResponse) × (sent ≡ (some res, none))
            × ((res.status_code ≡ 200) ⊎ (res.status_code ≡ 202))))
  unfolding set_replicas
  set_replicas_iff name namespace count encoded parsed =
      let sent = s.send (injected s.inject (set_request name namespace count)) in
      let e : set_replicas s name namespace count ≡ after_set s (set_url s name namespace) sent =
        rw (encoded, set_replicas) (rw parsed) in
      rw e (after_set_iff (set_url s name namespace) sent)

-- A label that is a negative number -(n + 1) is taken as the count 2 ^ 64 - (n + 1), whatever the
-- fallback.
pub extract_label_value-negative :
    (digits : Bytes) (fallback n : ℕ)
    → parse_ℕ digits ≡ some (suc n)
    → n < 2 ^ 63
    → extract_label_value (b'-' ∷ digits) fallback ≡ 2 ^ 64 - 1 - n
unfolding extract_label_value atoi
extract_label_value-negative digits fallback n h p = ground arith
