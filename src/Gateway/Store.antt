-- ===== src/Gateway/Store.antt =====
-- The state that the handlers of the gateway share, and handlers that see a part of it.
use faas_drl.Base.{List}
use faas_drl.Effect.{M, Exit, done, panicked}
use faas_drl.Effect.Laws.{EndsIn}
use faas_drl.Scaling.Response.{History}
use faas_drl.Scaling.Cacher.{FunctionCacher}
use faas_drl.Scaling.Scaler.{State}
use faas_drl.Handlers.Forwarding.Proxy.{Notice}
use faas_drl.Handlers.Queue.{QueueRequest}
use faas_drl.Gateway.Routes.{Handler}

-- What was asked of the provider and of the clock with the cache of the scaler, what the notifiers
-- were told, and what was queued.
pub record GatewayState (C : FunctionCacher) : Type 0 where
  pub scaling : State C
  pub notices : List Notice
  pub queued : List QueueRequest

-- A part of a state.
pub record Part (S A : Type 0) : Type 0 where
  pub view : S → A
  pub update : A → S → S

module _ {S A : Type 0} where
  abbrev pub on_part : Part S A → {B : Type 0} → M A B → M S B
  on_part part m s = let (ended, a) = m (part.view s) in (ended, part.update a s)

  abbrev pub on_part_handler : Part S A → Handler A → Handler S
  on_part_handler part h r (w, s) =
      let (ended, (w', a)) = h r (w, part.view s) in (ended, (w', part.update a s))

module _ {S A B : Type 0} (part : Part S A) (X : Type 0) (P : B → Type 0) where
  pub EndsIn-on_part :
      (m : Exit B × A) (s : S) → EndsIn (λ a. X) P m → EndsIn (λ t. X) P (m.0, part.update m.1 s)
  EndsIn-on_part (done b, a) s h = h
  EndsIn-on_part (panicked, a) s h = h

module _ {C : FunctionCacher} where
  abbrev pub scaling_part : Part (GatewayState C) (State C)
  scaling_part = record { view = λ s. s.scaling; update = λ a s. record s { scaling = a } }

  abbrev pub notices_part : Part (GatewayState C) (List Notice)
  notices_part = record { view = λ s. s.notices; update = λ a s. record s { notices = a } }

  abbrev pub alert_part : Part (GatewayState C) (History × List Notice)
  alert_part = record {
    view = λ s. (s.scaling.history, s.notices);
    update = λ (h, notices) s. record s {
      scaling = record s.scaling { history = h };
      notices = notices;
    };
  }

  abbrev pub queue_part : Part (GatewayState C) (List QueueRequest × List Notice)
  queue_part = record {
    view = λ s. (s.queued, s.notices);
    update = λ (queued, notices) s. record s { queued = queued; notices = notices };
  }
