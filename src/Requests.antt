-- ===== src/Requests.antt =====
-- gateway/requests/forward_request.go: the URL of a watchdog for an incoming request.
use faas_drl.Base.{◌∷◌, ◌++◌, if◌then◌else◌}
use faas_drl.Base.Int.{ℤ}
use faas_drl.Base.Bytes.{Bytes, codes}
use faas_drl.Text.Decimal.{format_int}
use faas_drl.Http.{Url}
use faas_drl.Handlers.Forwarding.{is_empty}

pub record ForwardRequest : Type 0 where
  pub raw_path : Bytes
  pub raw_query : Bytes
  pub method : Bytes

unfoldable pub new_forward_request : Bytes → Url → ForwardRequest
new_forward_request method url = record {
  method = method;
  raw_query = url.raw_query;
  raw_path = url.path;
}

-- `ToURL`
unfoldable pub to_url : ForwardRequest → Bytes → ℤ → Bytes
to_url f addr watchdog_port =
    let plain = codes "http://" ++ (addr ++ b':' ∷ (format_int watchdog_port ++ f.raw_path)) in
    if is_empty f.raw_query then plain else plain ++ b'?' ∷ f.raw_query
