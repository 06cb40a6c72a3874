-- ===== src/Gateway/Wiring/RunTests.antt =====
-- A run of two requests through the gateway: a call that scales its function up, and an alert;
-- and the metrics, asked for at both servers.
use faas_drl.Base.{ℕ, ◌+◌, ◌≤◌, refl, Bool-cases, inl, inr, arith, none, []}
use faas_drl.Base.Int.{pos}
use faas_drl.Base.Bytes.{Bytes, codes}
use faas_drl.Effect.{done, Exit}
use faas_drl.Http.{Request, Writer, write}
use faas_drl.Scaling.Response.{Environment, empty_response}
use faas_drl.Scaling.Scaler.Bounded.{MinimumsAtMost, SetsAtMost}
use faas_drl.Gateway.Routes.{Handler}
use faas_drl.Gateway.Routes.First.{choose}
use faas_drl.Gateway.Servers.{Server, gateway_server, metrics_server}
use faas_drl.Gateway.Steps.{CallsOrAnswers, LeavesAlone, panics}
use faas_drl.Gateway.Wiring.{Store, Parts, handlers}
use faas_drl.Gateway.Wiring.Calls.{started, completed}
use faas_drl.Gateway.Wiring.Reached.{begun, served, answered_in}
use faas_drl.Gateway.Wiring.Balanced.{Reached-IsBalanced}
use faas_drl.Gateway.Wiring.Bounded.{Reached-SetsAtMost}
use faas_drl.Gateway.Wiring.Tests.{
  parts, authorized, denied, basic_auth, mux_answer, file, call_echo, idle,
}

guarding : (c : Bytes × Bytes) → CallsOrAnswers (basic_auth c)
guarding c h r w s = elim (Bool-cases (authorized r)) [
  | inl e ↦ rw e (inl (r, (w, refl)))
  | inr e ↦ rw e (inr (denied r w, refl))
]

stripping : CallsOrAnswers {S = Store} (λ h. h)
stripping h r w s = inl (r, (w, refl))

serving : LeavesAlone file
serving r w s = (_, (_, refl))

-- A provider that has no replicas until some are set.
abbrev sleepy : Environment
sleepy = record {
  time = λ h. pos 7;
  get_replicas = λ h f n. (record empty_response { min_replicas = 2 }, none);
  set_replicas = λ h f n count. done none;
}

abbrev sleepy_parts : Parts (Unit {0}) (Unit {0})
sleepy_parts = record parts { env = sleepy }

abbrev alert_request : Request
alert_request = record call_echo {
  method = codes "POST";
  url = record { path = codes "/system/alert"; raw_query = []; text = codes "/system/alert" };
}

abbrev turn : Request → Store → Exit (Unit {0}) × (Writer × Store)
turn =
    answered_in (Unit {0}) (Unit {0}) choose mux_answer basic_auth (λ h. h) file file sleepy_parts

abbrev behind_call : Store
behind_call = (turn call_echo idle).1.1

abbrev behind_alert : Store
behind_alert = (turn alert_request behind_call).1.1

abbrev panicked_so_far : ℕ
panicked_so_far = 0 + panics (turn call_echo idle).0 + panics (turn alert_request behind_call).0

Reached-IsBalanced_example :
    (completed (codes "fn") (codes "echo.fn") behind_alert
        + started (codes "fn") (codes "echo.fn") idle
      ≤ started (codes "fn") (codes "echo.fn") behind_alert
        + completed (codes "fn") (codes "echo.fn") idle)
    × (started (codes "fn") (codes "echo.fn") behind_alert
          + completed (codes "fn") (codes "echo.fn") idle
        ≤ completed (codes "fn") (codes "echo.fn") behind_alert
          + (started (codes "fn") (codes "echo.fn") idle + panicked_so_far))
Reached-IsBalanced_example =
    Reached-IsBalanced (Unit {0}) (Unit {0}) choose mux_answer basic_auth (λ h. h) file file
      guarding stripping serving serving (λ p. Unit) (codes "fn") (codes "echo.fn") idle _ _
      (served sleepy_parts alert_request _ _ tt (served sleepy_parts call_echo 0 idle tt begun))

sleepy_minimums : MinimumsAtMost 5 sleepy
sleepy_minimums h f n = omega arith

Reached-SetsAtMost_example : SetsAtMost 5 behind_alert.scaling.history
Reached-SetsAtMost_example =
    Reached-SetsAtMost (Unit {0}) (Unit {0}) choose mux_answer basic_auth (λ h. h) file file
      guarding stripping serving serving 5 (omega arith) idle _ _
      (served sleepy_parts alert_request _ _ sleepy_minimums
        (served sleepy_parts call_echo 0 idle sleepy_minimums begun))
      tt

-- The page of the metrics, asked for at both servers.
abbrev page : Handler Store
page r (w, s) = (done tt, (write (codes "up 1") w, s))

abbrev metrics_request : Request
metrics_request = record call_echo {
  url = record { path = codes "/metrics"; raw_query = []; text = codes "/metrics" };
}

abbrev both : Server Store × Server Store
both = (
  gateway_server sleepy_parts.config none (handlers sleepy_parts) file file file file,
  metrics_server page,
)
