-- ===== src/Mqtt/Connection/Readiness.antt =====
-- What is reported of the connection.
use smart_factory_monitor.Common.{
  String, Bool, true, false, ◌≡◌, refl, List, [], ◌∷◌, Result, ok, err, Bool-cases, inl, inr, ◌⊎◌,
  Option, none, some,
}
use smart_factory_monitor.Mqtt.Connection.{
  Connection, NetworkEvent, ConnectError, Attempt, on_event, on_events, close, reset_connection,
  start, wait_connected, connect, record_connection_change,
}

-- Some event is a subscription in place.
abbrev pub any_subscribed : List NetworkEvent → Bool
any_subscribed [] = false
any_subscribed (NetworkEvent.subscribed ∷ events) = true
any_subscribed (NetworkEvent.refused reason ∷ events) = any_subscribed events
any_subscribed (NetworkEvent.not_subscribed result ∷ events) = any_subscribed events
any_subscribed (NetworkEvent.disconnected ∷ events) = any_subscribed events

-- One call or callback that the connection goes through; the callbacks run in the client's loop.
pub data Step : Connection → Connection → Type 0 where
  received : (e : NetworkEvent) (c : Connection) → c.loop_running ≡ true → Step c (on_event e c)
  closing : (c : Connection) → Step c (close c)
  connecting : (attempt : Attempt) (c : Connection) → Step c (connect attempt c).1

-- The last value that was reported is the state of the connection.
pub record IsReported (c : Connection) : Type 0 where
  pub earlier : List Bool
  pub last : c.reported ≡ c.connected ∷ earlier

-- A new consumer has reported nothing and is not connected.
pub data Reach : Connection → Type 0 where
  opened : (attempt : Attempt) (c : Connection) → Reach (connect attempt c).1
  step : (c d : Connection) → Reach c → Step c d → Reach d

on_event-IsReported : (e : NetworkEvent) (c : Connection) → IsReported c → IsReported (on_event e c)
unfolding on_event record_connection_change
on_event-IsReported (NetworkEvent.refused reason) c h = record {
  earlier = h.earlier;
  last = h.last;
}
on_event-IsReported (NetworkEvent.not_subscribed reason) c h = record {
  earlier = h.earlier;
  last = h.last;
}
on_event-IsReported NetworkEvent.subscribed c h = record { earlier = c.reported; last = refl }
on_event-IsReported NetworkEvent.disconnected c h = record { earlier = c.reported; last = refl }

close-IsReported : (c : Connection) → IsReported (close c)
unfolding close record_connection_change
close-IsReported c = record { earlier = c.reported; last = refl }

on_events-IsReported :
    (events : List NetworkEvent) (c : Connection) → IsReported c → IsReported (on_events events c)
unfolding on_events
on_events-IsReported [] c h = h
on_events-IsReported (event ∷ events) c h =
    on_events-IsReported events (on_event event c) (on_event-IsReported event c h)

wait_connected-IsReported :
    (events late : List NetworkEvent) (c : Connection)
    → IsReported c
    → IsReported (wait_connected events late c).1
unfolding wait_connected
wait_connected-IsReported [] late c h = close-IsReported c
wait_connected-IsReported (event ∷ events) late c h =
    let h' = on_event-IsReported event c h in
    elim (Bool-cases (on_event event c).connected) [
      | inl e ↦ rw e (on_events-IsReported late (on_event event c) h')
      | inr e ↦ rw e (wait_connected-IsReported events late (on_event event c) h')
    ]

connect_with :
    (exception : Option String) (events late : List NetworkEvent) (c : Connection)
    → IsReported (connect (record { exception = exception; events = events; late = late }) c).1
unfolding connect start reset_connection record_connection_change
connect_with none events late c =
    wait_connected-IsReported events late (record (reset_connection c) { loop_running = true })
      record { earlier = c.reported; last = refl }
connect_with (some exception) events late c = record { earlier = c.reported; last = refl }

connect-IsReported : (attempt : Attempt) (c : Connection) → IsReported (connect attempt c).1
connect-IsReported attempt c = connect_with attempt.exception attempt.events attempt.late c

Step-IsReported : (c d : Connection) → IsReported c → Step c d → IsReported d
Step-IsReported _ _ h (Step.received e c _) = on_event-IsReported e c h
Step-IsReported _ _ h (Step.closing c) = close-IsReported c
Step-IsReported _ _ h (Step.connecting attempt c) = connect-IsReported attempt c

-- From the first `connect` on, whatever calls and callbacks follow, the value last given to
-- `on_connection_change` is whether the consumer is connected.
pub Reach-IsReported : (c : Connection) → Reach c → IsReported c
Reach-IsReported _ (Reach.opened attempt c) = connect-IsReported attempt c
Reach-IsReported _ (Reach.step c d r s) = Step-IsReported c d (Reach-IsReported c r) s

-- What `connect` leaves: on its return a subscription was registered in time, the loop runs, and
-- the consumer is as the later callbacks make it; after `MqttConnectionError` there was none and
-- the consumer is closed; after an exception of the client nothing was waited for, the loop is as
-- it was before the call, and the consumer is not connected.
pub data Settled (attempt : Attempt) (c : Connection)
    : Result ConnectError (Unit {0}) → Connection → Type 0 where
  opened :
      (at : Connection) (d : Connection)
      → attempt.exception ≡ none
      → any_subscribed attempt.events ≡ true
      → at.connected ≡ true
      → at.loop_running ≡ true
      → d ≡ on_events attempt.late at
      → Settled attempt c (ok tt) d
  closed :
      (detail : String) (d : Connection)
      → attempt.exception ≡ none
      → any_subscribed attempt.events ≡ false
      → d.connected ≡ false
      → d.loop_running ≡ false
      → Settled attempt c (err (ConnectError.mqtt_connection_error detail)) d
  raised :
      (exception : String) (d : Connection)
      → attempt.exception ≡ some exception
      → d.connected ≡ false
      → d.loop_running ≡ c.loop_running
      → Settled attempt c (err (ConnectError.client_error exception)) d

-- How the wait ends: with a connection that a subscription has opened, or closed.
abbrev Waited :
    List NetworkEvent → List NetworkEvent → Result ConnectError (Unit {0}) → Connection → Type 0
Waited events late r d =
    ((at : Connection) × (r ≡ ok tt)
      × (any_subscribed events ≡ true)
      × (at.connected ≡ true)
      × (at.loop_running ≡ true)
      × (d ≡ on_events late at))
    ⊎ ((detail : String) × (r ≡ err (ConnectError.mqtt_connection_error detail))
        × (any_subscribed events ≡ false)
        × (d.connected ≡ false)
        × (d.loop_running ≡ false))

wait_connected-Waited :
    (events late : List NetworkEvent) (c : Connection)
    → c.connected ≡ false
    → c.loop_running ≡ true
    → Waited events late (wait_connected events late c).0 (wait_connected events late c).1
unfolding wait_connected on_event close record_connection_change
wait_connected-Waited [] late c h k = inr (_, refl, refl, refl, refl)
wait_connected-Waited (NetworkEvent.subscribed ∷ events) late c h k =
    inl (on_event NetworkEvent.subscribed c, refl, refl, refl, k, refl)
wait_connected-Waited (NetworkEvent.refused reason ∷ events) late c h k =
    let ih = wait_connected-Waited events late (on_event (NetworkEvent.refused reason) c) h k in
    rw h (rw h at ih)
wait_connected-Waited (NetworkEvent.not_subscribed result ∷ events) late c h k =
    let ih =
      wait_connected-Waited events late (on_event (NetworkEvent.not_subscribed result) c) h k in
    rw h (rw h at ih)
wait_connected-Waited (NetworkEvent.disconnected ∷ events) late c h k =
    wait_connected-Waited events late (on_event NetworkEvent.disconnected c) refl k

connect-cases :
    (exception : Option String) (events late : List NetworkEvent) (c : Connection)
    → let attempt : Attempt = record { exception = exception; events = events; late = late } in
      Settled attempt c (connect attempt c).0 (connect attempt c).1
unfolding connect start reset_connection record_connection_change
connect-cases none events late c =
    elim (wait_connected-Waited events late (record (reset_connection c) { loop_running = true })
      refl refl) [
        | inl (at, p, s, i, l, q) ↦ rw p (Settled.opened at _ refl s i l q)
        | inr (detail, p, s, i, l) ↦ rw p (Settled.closed detail _ refl s i l)
      ]
connect-cases (some exception) events late c = Settled.raised exception _ refl refl refl

-- `connect` returns exactly when the client does not raise and a subscription is registered before
-- the deadline: the loop then runs and the consumer has been connected, and is as the callbacks
-- that came before the return leave it. Without a subscription in time it raises
-- `MqttConnectionError` and the consumer is closed. Where the client itself raises, `connect`
-- raises that, the consumer is not connected, and a loop that ran before is not stopped.
pub connect-Settled :
    (attempt : Attempt) (c : Connection)
    → Settled attempt c (connect attempt c).0 (connect attempt c).1
connect-Settled attempt c = connect-cases attempt.exception attempt.events attempt.late c
