-- ===== src/Handlers/Health.antt =====
-- gateway/handlers/healthhandler.go and cors.go.
use faas_drl.Base.{if◌then◌else◌}
use faas_drl.Base.Bytes.{Bytes, codes, eq_bytes}
use faas_drl.Effect.{M}
use faas_drl.Http.{Request, Writer, write_header, write}
use faas_drl.Http.Headers.{set_header}

-- `HealthzHandler` of the server of metrics.
unfoldable pub healthz_handler : Request → Writer → Writer
healthz_handler r w =
    if eq_bytes r.method (codes "GET")
    then write (codes "OK") (write_header 200 w)
    else write_header 405 w

-- `DecorateWithCORS` and `CORSHandler.ServeHTTP`
unfoldable pub decorate_with_cors :
    {S : Type 0}
    → (Request → M (Writer × S) (Unit {0}))
    → Bytes
    → Request
    → M (Writer × S) (Unit {0})
decorate_with_cors upstream allowed_host r (w, s) =
    let headers =
      set_header (codes "Access-Control-Allow-Headers") (codes "Content-Type") w.header in
    let methods = set_header (codes "Access-Control-Allow-Methods") (codes "GET") headers in
    let origin = set_header (codes "Access-Control-Allow-Origin") allowed_host methods in
    upstream r (record w { header = origin }, s)
