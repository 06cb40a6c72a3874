-- ===== src/Handlers/CallId.antt =====
-- gateway/handlers/callid_middleware.go: a request is tagged with an identifier and a start time.
-- The identifier is generated by another package; the time is written as decimal nanoseconds.
use faas_drl.Base.{
  ◌≡◌, ◌∙◌, refl, false, Option, none, some, List, [], ◌∷◌, ◌++◌, if◌then◌else◌, Bool-cases, inl,
  inr,
}
use faas_drl.Base.Bytes.{Bytes, codes, eq_bytes}
use faas_drl.Base.Dict.{lookup, lookup-insert}
use faas_drl.Effect.{M}
use faas_drl.Http.{Request, Writer}
use faas_drl.Http.Headers.{
  Header, get_header, add_header, canonical_key, first_value, values, get_header-add_header_other,
}
use faas_drl.Handlers.Forwarding.{is_empty}

abbrev pub call_id_key : Bytes
call_id_key = codes "X-Call-Id"

abbrev pub start_time_key : Bytes
start_time_key = codes "X-Start-Time"

-- The request and the response that the next handler is called with.
unfoldable pub tag_call : Bytes → Bytes → Bytes → Request → Writer → Request × Writer
tag_call call_id start version r w =
    let untagged = is_empty (get_header call_id_key r.header) in
    let asked = if untagged then add_header call_id_key call_id r.header else r.header in
    let answered = if untagged then add_header call_id_key call_id w.header else w.header in
    (
      record r { header = add_header start_time_key start asked },
      record w {
        header =
            add_header (codes "X-Served-By") (codes "openfaas-ce/" ++ version)
              (add_header start_time_key start answered);
      },
    )

-- `MakeCallIDMiddleware`
unfoldable pub call_id_middleware :
    {S : Type 0}
    → Bytes
    → Bytes
    → Bytes
    → (Request → M (Writer × S) (Unit {0}))
    → Request
    → M (Writer × S) (Unit {0})
unfolding tag_call
call_id_middleware call_id start version next r (w, s) =
    let (tagged, answered) = tag_call call_id start version r w in next tagged (answered, s)

add_other :
    (start : Bytes) (h : Header)
    → get_header call_id_key (add_header start_time_key start h) ≡ get_header call_id_key h
unfolding get_header add_header canonical_key
add_other start h =
    let k = canonical_key start_time_key in
    rw (lookup-insert k (canonical_key call_id_key) (values (lookup k h) ++ start ∷ []) h) refl

add_call_id :
    (call_id : Bytes) (h : Header)
    → get_header call_id_key (add_header call_id_key call_id h)
      ≡ first_value (some (values (lookup call_id_key h) ++ call_id ∷ []))
unfolding get_header add_header canonical_key
add_call_id call_id h =
    rw (lookup-insert call_id_key call_id_key (values (lookup call_id_key h) ++ call_id ∷ []) h)
      refl

kept_call_id :
    (call_id : Bytes) (h : Header)
    → is_empty (get_header call_id_key h) ≡ false
    → get_header call_id_key h ≡ first_value (some (values (lookup call_id_key h) ++ call_id ∷ []))
unfolding get_header canonical_key
kept_call_id call_id h e = go (lookup call_id_key h) e
  where
    go :
        (o : Option (List Bytes))
        → is_empty (first_value o) ≡ false
        → first_value o ≡ first_value (some (values o ++ call_id ∷ []))
    go none e = absurd (cc e)
    go (some []) e = absurd (cc e)
    go (some (v ∷ vs)) e = refl

-- The headers of the request under other keys stay.
pub get_header-tag_call_other :
    (call_id start version k : Bytes) (r : Request) (w : Writer)
    → eq_bytes call_id_key (canonical_key k) ≡ false
    → eq_bytes start_time_key (canonical_key k) ≡ false
    → get_header k (tag_call call_id start version r w).0.header ≡ get_header k r.header
unfolding tag_call canonical_key
get_header-tag_call_other call_id start version k r w a b =
    elim (Bool-cases (is_empty (get_header call_id_key r.header))) [
      | inl e ↦ rw e (
          get_header-add_header_other start_time_key k start
            (add_header call_id_key call_id r.header) b
          ∙ get_header-add_header_other call_id_key k call_id r.header a)
      | inr e ↦ rw e (get_header-add_header_other start_time_key k start r.header b)
    ]

-- The identifier of a tagged request is the first value of X-Call-Id that the request came with,
-- also if this is empty, or, if it came with none, the generated one.
pub tag_call-call_id :
    (call_id start version : Bytes) (r : Request) (w : Writer)
    → get_header call_id_key (tag_call call_id start version r w).0.header
      ≡ first_value (some (values (lookup call_id_key r.header) ++ call_id ∷ []))
unfolding tag_call
tag_call-call_id call_id start version r w =
    elim (Bool-cases (is_empty (get_header call_id_key r.header))) [
      | inl e ↦ rw e (
          rw (add_other start (add_header call_id_key call_id r.header))
            (add_call_id call_id r.header))
      | inr e ↦ rw e (rw (add_other start r.header) (kept_call_id call_id r.header e))
    ]
