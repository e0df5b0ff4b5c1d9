-- ===== src/Mqtt/Connection.antt =====
-- src/smart_factory/infrastructure/mqtt/consumer.py, `connect`, `close` and the callbacks on the
-- connection. The network thread's callbacks are events, one after another; the broker's reason
-- code and the result of `subscribe` come with them. Log lines are left out.
pub mod Readiness
use smart_factory_monitor.Common.{
  ℕ, String, Bool, true, false, Option, none, some, List, [], ◌∷◌, Result, ok, err, if◌then◌else◌,
}
use smart_factory_monitor.Common.Exec.{Exec, ◌>>=◌, ◌>>◌}

-- The `threading.Event` and the fields of the consumer, whether the client's loop runs, and every
-- value that was given to `on_connection_change`, the last one first.
pub record Connection : Type 0 where
  pub connected : Bool
  pub connection_error : Option String
  pub loop_running : Bool
  pub reported : List Bool

-- `on_connect` with a failed reason code, or with the text of a failed subscription, or with a
-- subscription in place; `on_disconnect`.
pub data NetworkEvent : Type 0 where
  refused : String → NetworkEvent
  not_subscribed : String → NetworkEvent
  subscribed : NetworkEvent
  disconnected : NetworkEvent

-- `MqttConnectionError` with its detail, or whatever the client's own `connect` raises.
pub data ConnectError : Type 0 where
  mqtt_connection_error client_error : String → ConnectError

unfoldable pub record_connection_change : Bool → Connection → Connection
record_connection_change connected c = record c { reported = connected ∷ c.reported }

unfoldable pub on_event : NetworkEvent → Connection → Connection
unfolding record_connection_change
on_event (NetworkEvent.refused reason) c = record c { connection_error = some reason }
on_event (NetworkEvent.not_subscribed result) c = record c { connection_error = some result }
on_event NetworkEvent.subscribed c = record_connection_change true (record c { connected = true })
on_event NetworkEvent.disconnected c =
    record_connection_change false (record c { connected = false })

-- The callbacks of several events, one after another.
unfoldable pub on_events : List NetworkEvent → Connection → Connection
on_events [] c = c
on_events (event ∷ events) c = on_events events (on_event event c)

unfoldable pub close : Connection → Connection
unfolding record_connection_change
close c = record_connection_change false (record c { loop_running = false; connected = false })

-- Up to the call of `self._client.connect`.
unfoldable pub reset_connection : Connection → Connection
unfolding record_connection_change
reset_connection c = record (record_connection_change false (record c { connected = false })) {
  connection_error = none;
}

-- `self._client.connect`, which may raise, and `loop_start`.
unfoldable pub start : Option String → Exec Connection ConnectError (Unit {0})
unfolding reset_connection
start (some exception) c = (err (ConnectError.client_error exception), reset_connection c)
start none c = (ok tt, record (reset_connection c) { loop_running = true })

-- The detail of the error.
connection_detail : Option String → String
connection_detail none = "connection acknowledgement timed out"
connection_detail (some e) = e

-- `self._connected.wait(timeout)`: the events that arrive before it returns. Once the flag is set
-- it returns true; `late` are the events that the network thread still handles before the caller
-- runs on.
unfoldable pub wait_connected :
    List NetworkEvent → List NetworkEvent → Exec Connection ConnectError (Unit {0})
unfolding close on_event on_events connection_detail
wait_connected [] late c =
    (err (ConnectError.mqtt_connection_error (connection_detail c.connection_error)), close c)
wait_connected (event ∷ events) late c =
    let later = wait_connected events late (on_event event c) in
    if (on_event event c).connected then (ok tt, on_events late (on_event event c)) else later

-- What the broker, the client and the network thread do during one `connect`: whether the client
-- raises, the events up to the deadline, and those between the flag and the return.
pub record Attempt : Type 0 where
  pub exception : Option String
  pub events : List NetworkEvent
  pub late : List NetworkEvent

unfoldable pub connect : Attempt → Exec Connection ConnectError (Unit {0})
unfolding start wait_connected
connect attempt = do start attempt.exception; wait_connected attempt.events attempt.late
