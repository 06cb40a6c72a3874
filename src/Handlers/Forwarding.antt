-- ===== src/Handlers/Forwarding.antt =====
-- gateway/handlers/forwarding_proxy.go: requests are rebuilt for the upstream, sent, and the
-- answers copied back.
pub mod Upstream
pub mod Stream
pub mod Proxy
mod Tests
use faas_drl.Base.{
  ℕ, ◌≡◌, refl, Bool, true, false, ◌&&◌, not, Option, none, some, List, [], ◌∷◌, ◌++◌,
  if◌then◌else◌, ltb, length,
}
use faas_drl.Base.Bytes.{Bytes, codes, eq_bytes}
use faas_drl.Base.Dict.{Dict, lookup, insert}
use faas_drl.Effect.{Error, Exit, done, panicked}
use faas_drl.Http.{Request, Body}
use faas_drl.Http.Headers.{Header, get_header, del_header}

-- A request made for the upstream: `http.NewRequest`, with the headers and the body set later.
pub record UpstreamRequest : Type 0 where
  pub method : Bytes
  pub url : Bytes
  pub header : Header
  pub body : Option Body

-- Each key of the source is written; a map holds a key once, and where the list holds it twice
-- the first entry is written last.
unfoldable pub copy_headers : Header → Header → Header
copy_headers destination [] = destination
copy_headers destination ((k, v) ∷ source) = insert k v (copy_headers destination source)

unfoldable pub delete_headers : Header → List Bytes → Header
delete_headers target [] = target
delete_headers target (h ∷ exclude) = delete_headers (del_header h target) exclude

abbrev pub hop_headers : List Bytes
hop_headers =
    codes "Connection"
    ∷ codes "Proxy-Connection"
    ∷ codes "Keep-Alive"
    ∷ codes "Proxy-Authenticate"
    ∷ codes "Proxy-Authorization"
    ∷ codes "Te"
    ∷ codes "Trailer"
    ∷ codes "Transfer-Encoding"
    ∷ codes "Upgrade"
    ∷ []

abbrev pub is_empty : Bytes → Bool
is_empty [] = true
is_empty (b ∷ s) = false

abbrev pub forwarded_host : Bytes
forwarded_host = codes "X-Forwarded-Host"

abbrev pub forwarded_for : Bytes
forwarded_for = codes "X-Forwarded-For"

-- The headers of the upstream request, from those, the host and the address of the request.
unfoldable pub upstream_headers : Header → Bytes → Bytes → Header
unfolding copy_headers delete_headers
upstream_headers source host remote_addr =
    let copied = delete_headers (copy_headers [] source) hop_headers in
    let hosted =
      if not (is_empty host) && is_empty (get_header forwarded_host copied)
      then insert forwarded_host (host ∷ []) copied
      else copied in
    if is_empty (get_header forwarded_for hosted)
    then insert forwarded_for (remote_addr ∷ []) hosted
    else hosted

-- `http.NewRequest` gives nil and an error where it cannot parse the method or the URL, which
-- `parses` says. The error is dropped, and the nil request is used: a panic.
unfoldable pub build_upstream_request :
    (Bytes → Bytes → Bool) → Request → Bytes → Bytes → Exit UpstreamRequest
unfolding upstream_headers
build_upstream_request parses r base_url request_url =
    let plain = base_url ++ request_url in
    let url = if is_empty r.url.raw_query then plain else plain ++ b'?' ∷ r.url.raw_query in
    if parses r.method url
    then done (record {
      method = r.method;
      url = url;
      header = upstream_headers r.header r.host r.remote_addr;
      body = r.body;
    })
    else panicked
