-- ===== src/Plc/Served.antt =====
-- The two ports of the PLC handler through starts, connections and stops in any order.
use model_lib.Prelude.{ℕ, ◌≡◌, Bool, true, false, List, [], ◌∷◌, All, is_some}
use model_lib.Dict
use model_lib.Plc.Sending.{ConnectionType, PlcConnectionInfo, close_connection}
use model_lib.Plc.Servers.{
  Opening, PlcServers, start_servers, accept_connection, stop_plc, PlcStatus,
}

-- A start, a client, the end of a connection (`_close_connection`), a stop.
pub data PlcEvent : Type 0 where
  started : Opening → Opening → PlcEvent
  accepted : ConnectionType → ℕ → Bool → PlcEvent
  ended : ℕ → PlcEvent
  stopped : PlcEvent

unfoldable pub plc_event : PlcEvent → PlcServers → PlcServers
unfolding start_servers accept_connection close_connection stop_plc
plc_event (started e d) s = (start_servers e d s).0
plc_event (accepted t id sends) s = accept_connection t id sends s
plc_event (ended id) s = record s { handler = close_connection id s.handler }
plc_event stopped s = stop_plc s

unfoldable pub plc_events : List PlcEvent → PlcServers → PlcServers
unfolding plc_event
plc_events [] s = s
plc_events (e ∷ es) s = plc_events es (plc_event e s)

IsConnected : ℕ × PlcConnectionInfo → Type 0
IsConnected e = e.1.connected ≡ true

abbrev IsOpen : PlcServers → Type 0
IsOpen s = s.running ≡ true → (is_some s.enqueue_server ≡ true) × (is_some s.dequeue_server ≡ true)

abbrev IsServing : PlcServers → Type 0
IsServing s = All (λ e. e.1.connected ≡ true) s.handler.connections × IsOpen s

-- The status of a handler that has stopped.
abbrev pub nothing_served : PlcStatus
nothing_served = record {
  running = false;
  active_connections = 0;
  enqueue_connections = 0;
  dequeue_connections = 0;
}
