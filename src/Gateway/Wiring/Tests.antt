-- ===== src/Gateway/Wiring/Tests.antt =====
-- A gateway with all its parts, and a call of a function through it.
use faas_drl.Base.{
  Bool, if◌then◌else◌, ℕ, ◌+◌, ◌≡◌, ◌⊎◌, refl, true, false, none, some, [], inl, inr, length,
}
use faas_drl.Base.Int.{pos}
use faas_drl.Base.Bytes.{Bytes, codes, eq_bytes}
use faas_drl.Effect.{Error, done, panicked}
use faas_drl.Http.{write, Request, new_writer, final_status, Writer, write_header}
use faas_drl.Types.Config.{GatewayConfig}
use faas_drl.Middleware.ServiceName.{get_namespace}
use faas_drl.Middleware.Resolver.{get_service_name}
use faas_drl.Scaling.Response.{Environment, empty_response}
use faas_drl.Scaling.Cache.{new_function_cache}
use faas_drl.Scaling.Cacher.{lone_group}
use faas_drl.Scaling.Scaler.{FunctionScaleResult}
use faas_drl.Scaling.Scaler.Consistent.{SetPanics}
use faas_drl.Handlers.Forwarding.Proxy.{answered}
use faas_drl.Gateway.Wiring.{Store, Parts, scaler, function_proxy, gateway}
use faas_drl.Base.Dict.{lookup}
use faas_drl.Text.{has_prefix, strip_prefix}
use faas_drl.Http.Headers.{get_header, canonical_key}
use faas_drl.Gateway.Routes.{Handler}
use faas_drl.Gateway.Routes.First.{choose, choose-Fits}
use faas_drl.Gateway.Wiring.Guarded.{gateway_guarded}
use faas_drl.Gateway.Wiring.Calls.{IsCounted, IsRefused, IsBroken, function_proxy_lem}

abbrev settings : GatewayConfig Bytes
settings = record {
  read_timeout = pos 1;
  write_timeout = pos 1;
  upstream_timeout = pos 1;
  functions_provider_url = some (codes "http://provider:8080/");
  logs_provider_url = none;
  nats_address = none;
  nats_port = none;
  nats_cluster_name = none;
  nats_channel = none;
  prometheus_host = codes "prometheus";
  prometheus_port = pos 9090;
  use_basic_auth = false;
  secret_mount_path = [];
  scale_from_zero = true;
  max_idle_conns = pos 1024;
  max_idle_conns_per_host = pos 1024;
  auth_proxy_url = [];
  auth_proxy_pass_body = false;
  namespace = codes "fn";
}

abbrev one_replica : Environment
one_replica = record {
  time = λ h. pos 7;
  get_replicas = λ h f n. (record empty_response { replicas = 1; available_replicas = 1 }, none);
  set_replicas = λ h f n count. done none;
}

abbrev pub parts : Parts (Unit {0}) (Unit {0})
parts = record {
  config = settings;
  provider_url = codes "http://provider:8080/";
  credentials = none;
  set_basic_auth = λ user password r. r;
  parses = λ method url. true;
  transport =
      λ r. answered (record { status_code = 200; header = []; body = some (codes "hello") });
  streams = record {
    host_of = λ r url. none;
    serve_http = λ t w. (done tt, w);
    status = final_status;
  };
  elapsed = pos 5;
  status = final_status;
  call_id = codes "id";
  start = codes "7";
  env = one_replica;
  group = lone_group _;
  decode_alerts = λ bytes. none;
  decode_scaling = λ bytes. none;
  encode_scaling = λ r. [];
  queue = record {
    name_of = λ url. [];
    transform = λ path. path;
    parse_url = λ text. inl text;
    queue = λ queued r. none;
  };
  floats = record { Float = ℕ; zero = 0; add = λ x y. x + y; parse_float = λ s. some (length s) };
  escape = λ s. s;
  prometheus = record {
    host = codes "prometheus";
    port = pos 9090;
    user_agent_version = codes "dev";
    new_request = λ url. none;
    send = λ r. inl (codes "no route");
    unmarshal = λ bytes. (none, record { result = [] });
  };
  decode_functions = λ bytes. inr [];
  encode_functions = λ fs. inr (codes "[]");
  build = record {
    version = codes "0.1";
    git_commit_sha = [];
    git_commit_message = [];
    arch = codes "x86_64";
  };
  decode_info = λ bytes. (none, none);
  encode_info = λ info. inr (codes "{}");
  logs = record {
    log_provider = codes "http://logs";
    parses = λ method url. true;
    round_trip = λ r. inl (codes "no route");
    is_close_notifier = true;
    is_flusher = true;
  };
}

abbrev pub call_echo : Request
call_echo = record {
  method = codes "GET";
  url = record { path = codes "/function/echo"; raw_query = []; text = codes "/function/echo" };
  header = [];
  host = codes "gateway";
  remote_addr = codes "10.0.0.1:80";
  body = none;
}

abbrev pub idle : Store
idle = record {
  scaling = record { history = []; cache = new_function_cache (pos 250000000) };
  notices = [];
  queued = [];
}

function_proxy_lem_example :
    let target = get_namespace (codes "fn") (get_service_name (codes "/function/echo")) in
    let scaled = scaler parts target.0 target.1 idle in
    (((res : FunctionScaleResult) × (t : Store) × (scaled ≡ (done res, t)) × (res.error ≡ none))
      × IsCounted
          (codes "fn")
          call_echo
          (codes "echo.fn")
          idle
          (function_proxy parts call_echo (new_writer, idle)))
    ⊎ (((res : FunctionScaleResult) × (err : Error) × (t : Store) × (scaled ≡ (done res, t))
          × (res.error ≡ some err))
        × IsRefused idle (function_proxy parts call_echo (new_writer, idle)))
    ⊎ (SetPanics one_replica target.0 target.1
        × ((t : Store) × (scaled ≡ (panicked, t)))
        × IsBroken new_writer idle (function_proxy parts call_echo (new_writer, idle)))
function_proxy_lem_example =
    function_proxy_lem parts call_echo new_writer (codes "fn") (codes "echo.fn") idle refl refl

abbrev guarded_parts : Parts (Unit {0}) (Unit {0})
guarded_parts = record parts { credentials = some (codes "admin", codes "secret") }

abbrev pub authorized : Request → Bool
authorized r =
    eq_bytes (get_header (codes "Authorization") r.header) (codes "Basic YWRtaW46c2VjcmV0")

abbrev pub denied : Request → Writer → Writer
denied r w = write_header 401 w

abbrev pub basic_auth : Bytes × Bytes → Handler Store → Handler Store
basic_auth c h r (w, s) = if authorized r then h r (w, s) else (done tt, (denied r w, s))

denies :
    (h : Handler Store) (r : Request) (w : Writer) (s : Store)
    → authorized r ≡ false
    → basic_auth (codes "admin", codes "secret") h r (w, s) ≡ (done tt, (denied r w, s))
denies h r w s e = rw e refl

abbrev pub mux_answer : Request → Writer → Writer
mux_answer r w = write_header 404 w

abbrev pub file : Handler Store
file r (w, s) = (done tt, (write (codes "<html>") w, s))

abbrev scale_echo : Request
scale_echo = record call_echo {
  method = codes "POST";
  url = record {
    path = codes "/system/scale-function/echo";
    raw_query = [];
    text = codes "/system/scale-function/echo";
  };
}

gateway_guarded_example :
    let m =
      gateway guarded_parts choose mux_answer basic_auth
        (λ h. h)
        file
        file
        scale_echo
        (new_writer, idle) in
    (m ≡ (done tt, (mux_answer scale_echo new_writer, idle)))
    ⊎ (m ≡ (done tt, (denied scale_echo new_writer, idle)))
unfolding has_prefix strip_prefix get_header canonical_key lookup
gateway_guarded_example =
    gateway_guarded guarded_parts choose mux_answer basic_auth (λ h. h) file file
      (codes "admin", codes "secret") authorized denied refl denies choose-Fits scale_echo
      new_writer idle refl refl
