-- ===== src/Handlers/Notifiers/Concurrent.antt =====
-- gateway/handlers/forwarding_proxy.go: calls of functions that are served at the same time. What
-- the notifiers are told when a call begins and when it ends is one step each, and between them
-- there may be steps of any other calls.
pub mod Counted
use faas_drl.Base.{ℕ, zero, suc, ◌≡◌, refl, sym, ap, Option, none, some, List, [], ◌∷◌, ◌++◌, map}
use faas_drl.Base.Int.{ℤ, pos}
use faas_drl.Base.Bytes.{Bytes, codes}
use faas_drl.Effect.{Error, Exit, done, panicked, continue}
use faas_drl.Http.{Request}
use faas_drl.Handlers.Forwarding.Proxy.{
  Notice, ProxyConfig, ProxyState, notice_of, notify, forward_request, forwarding_proxy_handler,
}
use faas_drl.Handlers.Notifiers.Balance.{has_returned, function_notifiers, notices-forward_request}

-- What the notifiers were told, the calls in flight, and those that ended in a panic.
pub record Calls : Type 0 where
  pub notices : List Notice
  pub in_flight : List Request
  pub broken : List Request

-- A call begins; the call in flight at a place ends with a status, or in a panic.
pub data Action : Type 0 where
  begin : Request → Action
  end : ℕ → Exit ℕ → Action

-- One of a list, and the others.
abbrev pub pick : ℕ → List Request → Option (Request × List Request)
pick i [] = none
pick zero (r ∷ rs) = some (r, rs)
pick (suc i) (r ∷ rs) = elim (pick i rs) [ none ↦ none | some (q, qs) ↦ some (q, r ∷ qs) ]

module _ (config : ProxyConfig) where
  abbrev pub told : Request → ℕ → Bytes → ℤ → List Notice → List Notice
  told r status event duration notices =
      notices ++ map (notice_of config r status event duration) function_notifiers

  unfoldable pub end_of : Option (Request × List Request) → Exit ℕ → Calls → Option Calls
  end_of none ended s = none
  end_of (some (r, others)) (done status) s = some (record s {
    notices = told r status (codes "completed") config.elapsed s.notices;
    in_flight = others;
  })
  end_of (some (r, others)) panicked s =
      some (record s { in_flight = others; broken = r ∷ s.broken })

  -- `none` where no call is in flight at the place.
  unfoldable pub step : Action → Calls → Option Calls
  unfolding end_of
  step (begin r) s = some (record s {
    notices = told r 102 (codes "started") (pos 0) s.notices;
    in_flight = r ∷ s.in_flight;
  })
  step (end i ended) s = end_of (pick i s.in_flight) ended s

abbrev pub idle : Calls
idle = record { notices = []; in_flight = []; broken = [] }

-- What some sequence of steps leads to; the time that a call takes may be another for each.
pub data Reached : Calls → Type 0 where
  start : Reached idle
  then_step :
      (config : ProxyConfig) (a : Action) (s t : Calls)
      → Reached s
      → step config a s ≡ some t
      → Reached t

-- How a forwarded request ended.
abbrev pub status_of : Exit (ℕ × Option Error) → Exit ℕ
status_of (done (status, err)) = done status
status_of panicked = panicked

module _ (config : ProxyConfig) (r : Request) (in_flight broken : List Request) where
  ended_by :
      (begun : Calls) (m : Exit (ℕ × Option Error) × ProxyState)
      → m.1.notices ≡ begun.notices
      → (t : Calls) × ((end_of config (some (r, in_flight)) (status_of m.0) begun ≡ some t)
          × (t.in_flight ≡ in_flight)
          × (t.notices
              ≡ (continue m (λ result.
                  notify config function_notifiers
                    (notice_of config r result.0 (codes "completed") config.elapsed))).1.notices))
  unfolding end_of notify
  ended_by begun (done (status, err), t) e =
      (_, (refl, refl, ap (told config r status (codes "completed") config.elapsed) (sym e)))
  ended_by begun (panicked, t) e = (_, (refl, refl, sym e))

  -- Telling the notifiers leaves the response and the way it ended.
  behind :
      (m : Exit (ℕ × Option Error) × ProxyState)
      → let k = continue m (λ result.
        notify config function_notifiers
          (notice_of config r result.0 (codes "completed") config.elapsed)) in
        (k.1.writer ≡ m.1.writer) × (has_returned k.0 ≡ has_returned m.0)
  unfolding notify
  behind (done result, t) = (refl, refl)
  behind (panicked, t) = (refl, refl)

  -- Between any other calls, in flight and broken, the handler takes two of these steps for a
  -- request: it begins, and it ends as the forwarding of the request ends, with its status or in
  -- its panic. Behind them the notifiers were told what the handler tells them, the other calls are
  -- in flight as before, and the handler ends with the response of the forwarding, and in a panic
  -- exactly if that does.
  pub forwarding_proxy_handler-steps :
      (s : ProxyState)
      → let first : Calls = record {
        notices = s.notices;
        in_flight = in_flight;
        broken = broken;
      } in
        let m = forwarding_proxy_handler config function_notifiers r s in
        (begun : Calls) × (ended : Calls) × (step config (begin r) first ≡ some begun)
        × (let forwarded =
              forward_request config r
                (config.resolve r)
                (config.transform r)
                (record s { notices = begun.notices }) in
            (step config (end 0 (status_of forwarded.0)) begun ≡ some ended)
            × (ended.in_flight ≡ in_flight)
            × (m.1.notices ≡ ended.notices)
            × (m.1.writer ≡ forwarded.1.writer)
            × (has_returned m.0 ≡ has_returned forwarded.0))
  unfolding forwarding_proxy_handler step notify
  forwarding_proxy_handler-steps s =
      let begun : Calls = record {
        notices = told config r 102 (codes "started") (pos 0) s.notices;
        in_flight = r ∷ in_flight;
        broken = broken;
      } in
      let told_begin : ProxyState = record s { notices = begun.notices } in
      let m = forward_request config r (config.resolve r) (config.transform r) told_begin in
      let (t, (e, others, q)) =
        ended_by begun m (notices-forward_request config r _ _ told_begin) in
      let (same, returns) = behind m in (begun, t, refl, (e, others, sym q, same, returns))
