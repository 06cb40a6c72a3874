-- ===== src/Handlers/Tests.antt =====
-- The theorems about the handlers at concrete requests.
use faas_drl.Base.{◌+◌, ◌≡◌, refl, Option, none, some, [], ◌∷◌, min, arith}
use faas_drl.Base.Int.{pos}
use faas_drl.Base.Bytes.{Bytes, codes}
use faas_drl.Effect.{M, done}
use faas_drl.Http.{Request, Writer, new_writer}
use faas_drl.Middleware.ServiceName.{get_namespace}
use faas_drl.Middleware.Resolver.{get_service_name}
use faas_drl.Scaling.Response.{empty_response, Environment, ScalingConfig}
use faas_drl.Scaling.Cache.{new_function_cache}
use faas_drl.Scaling.Cacher.{function_cacher, lone_group}
use faas_drl.Scaling.Scaler.{State, scale}
use faas_drl.Handlers.Scaling.{scaling_handler, Served, scaling_handler-Served}
use faas_drl.Handlers.Alert.{PrometheusAlert, calculate_replicas, handle_alerts}
use faas_drl.Handlers.Alert.Replicas.{
  percent, after_alerts, calculate_replicas-firing, after_alerts-reaches,
}
use faas_drl.Handlers.Alert.Justified.{IsJustified, handle_alerts-IsJustified}
use faas_drl.Handlers.Alert.Handler.{alert_handler, Answered, alert_handler-Answered}

calculate_replicas-firing_example :
    calculate_replicas (codes "firing") 1 20 1 25 ≡ min (min 20 5) (1 + percent (min 20 5) 25)
calculate_replicas-firing_example =
    calculate_replicas-firing 1 20 1 25 (omega arith) (omega arith) (omega arith) (omega arith)
      (omega arith)

after_alerts-reaches_example : after_alerts 6 1 20 1 10 ≡ min 20 5
after_alerts-reaches_example =
    after_alerts-reaches 6 1 20 1 10 (omega arith) (omega arith) (omega arith) (omega arith)
      (omega arith) (omega arith)

abbrev one_replica : Environment
one_replica = record {
  time = λ h. pos 7;
  get_replicas = λ h f n. (
    record empty_response {
      replicas = 1;
      available_replicas = 1;
      max_replicas = 4;
      min_replicas = 1;
      scaling_factor = 50;
    },
    none,
  );
  set_replicas = λ h f n count. done (some (codes "refused"));
}

abbrev firing : PrometheusAlert
firing = record {
  status = codes "firing";
  receiver = codes "scale-up";
  alerts =
      record {
        status = codes "firing";
        labels = record { alert_name = codes "load"; function_name = codes "echo.dev" };
      }
      ∷ [];
}

handle_alerts-IsJustified_example :
    IsJustified one_replica (handle_alerts one_replica (codes "fn") firing []).1
handle_alerts-IsJustified_example = handle_alerts-IsJustified one_replica (codes "fn") firing [] tt

abbrev get_echo : Request
get_echo = record {
  method = codes "GET";
  url = record { path = codes "/function/echo"; raw_query = []; text = codes "/function/echo" };
  header = (codes "Connection", codes "close" ∷ []) ∷ [];
  host = codes "gateway";
  remote_addr = codes "10.0.0.1:80";
  body = some (record { content = codes "x"; failure = none });
}

abbrev decode : Bytes → Option PrometheusAlert
decode bytes = some firing

alert_handler-Answered_example :
    Answered one_replica
      (codes "fn")
      decode
      get_echo
      new_writer
      []
      (alert_handler one_replica (codes "fn") decode get_echo (new_writer, []))
alert_handler-Answered_example =
    alert_handler-Answered one_replica (codes "fn") decode get_echo new_writer [] refl

abbrev settings : ScalingConfig
settings = record {
  max_poll_count = 2;
  function_poll_interval = pos 100;
  cache_expiry = pos 250;
  set_scale_retries = 3;
}

abbrev cold : State function_cacher
cold = record { history = []; cache = new_function_cache (pos 250) }

abbrev pass : Request → M (Writer × State function_cacher) (Unit {0})
pass r s = (done tt, s)

scaling_handler-Served_example :
    let target = get_namespace (codes "fn") (get_service_name (codes "/function/echo")) in
    Served one_replica target.0 target.1 pass get_echo new_writer
      (scale one_replica function_cacher (lone_group _) settings target.0 target.1 cold)
      (scaling_handler
        (scale one_replica function_cacher (lone_group _) settings)
        pass
        (codes "fn")
        get_echo
        (new_writer, cold))
scaling_handler-Served_example =
    scaling_handler-Served one_replica function_cacher (lone_group _) settings pass (codes "fn")
      get_echo new_writer refl cold
