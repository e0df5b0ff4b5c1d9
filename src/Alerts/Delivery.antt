-- ===== src/Alerts/Delivery.antt =====
-- The sends of one batch.
use smart_factory_monitor.Common.{
  ℕ, suc, ◌≤◌, ◌≡◌, List, [], ◌∷◌, arith, take, length, ok, err, Result-cases, inl, inr,
}
use smart_factory_monitor.Storage.Outbox.{ClaimedAlert}
use smart_factory_monitor.Alerts.{
  DispatchPorts, DispatchConfig, Dispatch, OutboxError, dispatch_alert, dispatch_all, settle,
  counted,
}

module _ {F O S : Type 0} (ports : DispatchPorts F O S) where
  -- The sink after each of these alerts was sent once, in order.
  abbrev pub send_all : List (ClaimedAlert F) → S → S
  send_all [] sink = sink
  send_all (claimed ∷ rest) sink = send_all rest (ports.send claimed.alert sink).1

  module _ (config : DispatchConfig) where
    dispatch_alert-sink :
        (claimed : ClaimedAlert F) (s : Dispatch O S)
        → (dispatch_alert ports config claimed s).1.sink ≡ (ports.send claimed.alert s.sink).1
    unfolding dispatch_alert
    dispatch_alert-sink claimed s = ground arith

    dispatch_alert-≤ :
        (claimed : ClaimedAlert F) (s t : Dispatch O S) (n : ℕ)
        → dispatch_alert ports config claimed s ≡ (ok n, t)
        → n ≤ 1
    unfolding dispatch_alert settle counted
    dispatch_alert-≤ claimed s t n h = ground arith

    dispatch_alert-error :
        (claimed : ClaimedAlert F) (s : Dispatch O S) (e : OutboxError)
        → (dispatch_alert ports config claimed s).0 ≡ err e
        → e ≡ OutboxError.outbox_failed
    unfolding dispatch_alert settle counted
    dispatch_alert-error claimed s e h = ground arith

    -- A batch that is worked off sends every alert exactly once, in the order of the claim,
    -- whatever the sends and the leases give, and counts at most that many deliveries.
    pub dispatch_all-send_all :
        (batch : List (ClaimedAlert F)) (s t : Dispatch O S) (n : ℕ)
        → dispatch_all ports config batch s ≡ (ok n, t)
        → (t.sink ≡ send_all batch s.sink) × (n ≤ length batch)
    unfolding dispatch_all
    dispatch_all-send_all [] s t n h = ground arith
    dispatch_all-send_all (claimed ∷ rest) s t n h =
        let sent = dispatch_alert-sink claimed s in
        elim (Result-cases (dispatch_alert ports config claimed s).0) [
          | inr (e, p) ↦ absurd (ground (arith, p, h))
          | inl (m, p) ↦
              let s' = (dispatch_alert ports config claimed s).1 in
              elim (Result-cases (dispatch_all ports config rest s').0) [
                | inr (e, q) ↦ absurd (ground (arith, p, q, h))
                | inl (k, q) ↦
                    let ih =
                      dispatch_all-send_all rest s' (dispatch_all ports config rest s').1 k
                        (ground (arith, q)) in
                    ground (
                      arith,
                      p,
                      q,
                      h,
                      sent,
                      ih,
                      dispatch_alert-≤ claimed s s' m (ground (arith, p)),
                    )
              ]
        ]

    -- The outbox failed during the batch: the alerts up to there were sent once each, in order.
    pub dispatch_all_failed :
        (batch : List (ClaimedAlert F)) (s t : Dispatch O S) (e : OutboxError)
        → dispatch_all ports config batch s ≡ (err e, t)
        → (e ≡ OutboxError.outbox_failed)
          × (k : ℕ) × (k ≤ length batch)
          × (t.sink ≡ send_all (take k batch) s.sink)
    unfolding dispatch_all
    dispatch_all_failed [] s t e h = absurd (ground (arith, h))
    dispatch_all_failed (claimed ∷ rest) s t e h =
        let sent = dispatch_alert-sink claimed s in
        let s' = (dispatch_alert ports config claimed s).1 in
        elim (Result-cases (dispatch_alert ports config claimed s).0) [
          | inr (d, p) ↦
              let same : e ≡ d = ground (arith, p, h) in
              (
                ground (arith, same, dispatch_alert-error claimed s d p),
                1,
                omega arith,
                ground (arith, p, h, sent),
              )
          | inl (m, p) ↦ elim (Result-cases (dispatch_all ports config rest s').0) [
            | inl (n, q) ↦ absurd (ground (arith, p, q, h))
            | inr (d, q) ↦
                let same : (e ≡ d) × (t ≡ (dispatch_all ports config rest s').1) =
                  ground (arith, p, q, h) in
                let (failed, k, within, sink) =
                  dispatch_all_failed rest s' (dispatch_all ports config rest s').1 d
                    (ground (arith, q)) in
                (
                  ground (arith, same, failed),
                  suc k,
                  omega (arith, within),
                  ground (arith, same, sent, sink),
                )
          ]
        ]
