-- ===== src/Plc/Servers.antt =====
-- The two ports of the PLC handler: `start_servers`, the accept loops, `stop` and the counts of
-- `get_status`. Threads are not kept; a round of an accept loop is `accept_connection`.
use model_lib.Prelude.{
  ℕ, suc, Bool, true, false, ◌&&◌, List, [], ◌∷◌, Option, none, some, if◌then◌else◌, length,
}
use model_lib.Dict
use model_lib.Plc.Sending.{
  ConnectionType, enqueue, dequeue, PlcConnectionInfo, PlcHandler, same_type, close_connection,
}

-- How the calls on a new listening socket go: `socket` raises, a later call raises, or it listens.
pub data Opening : Type 0 where
  no_socket : Opening
  not_bound listening : ℕ → Opening

-- The sockets `enqueue_server` and `dequeue_server` by number.
pub record PlcServers : Type 0 where
  pub handler : PlcHandler
  pub running : Bool
  pub enqueue_server : Option ℕ
  pub dequeue_server : Option ℕ

abbrev pub new_plc_servers : PlcServers
new_plc_servers = record {
  handler = record { connections = []; sent = [] };
  running = false;
  enqueue_server = none;
  dequeue_server = none;
}

-- The attribute is set before the socket is bound, and keeps a socket that could not be bound.
unfoldable pub open_server : Opening → Option ℕ → Option ℕ × Bool
open_server no_socket server = (server, false)
open_server (not_bound id) server = (some id, false)
open_server (listening id) server = (some id, true)

unfoldable pub start_enqueue_server : Opening → PlcServers → PlcServers × Bool
unfolding open_server
start_enqueue_server o s =
    let r = open_server o s.enqueue_server in (record s { enqueue_server = r.0 }, r.1)

unfoldable pub start_dequeue_server : Opening → PlcServers → PlcServers × Bool
unfolding open_server
start_dequeue_server o s =
    let r = open_server o s.dequeue_server in (record s { dequeue_server = r.0 }, r.1)

unfoldable pub stop_enqueue_server : PlcServers → PlcServers
stop_enqueue_server s = record s { enqueue_server = none }

unfoldable pub stop_dequeue_server : PlcServers → PlcServers
stop_dequeue_server s = record s { dequeue_server = none }

unfoldable pub start_servers : Opening → Opening → PlcServers → PlcServers × Bool
unfolding start_enqueue_server start_dequeue_server stop_enqueue_server
start_servers e d s =
    let (first, enqueue_ok) = start_enqueue_server e (record s { running = true }) in
    let (second, dequeue_ok) = start_dequeue_server d first in
    if enqueue_ok
    then if dequeue_ok
      then (second, true)
      else (record (stop_enqueue_server second) { running = false }, false)
    else (record first { running = false }, false)

abbrev pub new_connection : ConnectionType → Bool → PlcConnectionInfo
new_connection t sends = record { connection_type = t; connected = true; works = sends }

-- A connection with the same name replaces the one before.
unfoldable pub add_connection : ConnectionType → ℕ → Bool → PlcHandler → PlcHandler
unfolding Dict.put
add_connection t id sends h = record h {
  connections = Dict.put id (new_connection t sends) h.connections;
}

unfoldable pub accept_connection : ConnectionType → ℕ → Bool → PlcServers → PlcServers
unfolding add_connection
accept_connection t id sends s =
    if s.running then record s { handler = add_connection t id sends s.handler } else s

unfoldable pub close_all : List ℕ → PlcHandler → PlcHandler
unfolding close_connection
close_all [] h = h
close_all (id ∷ ids) h = close_all ids (close_connection id h)

unfoldable pub stop_plc : PlcServers → PlcServers
unfolding close_all stop_enqueue_server stop_dequeue_server
stop_plc s = stop_dequeue_server (
    stop_enqueue_server (record s {
      running = false;
      handler = close_all (Dict.keys s.handler.connections) s.handler;
    }))

unfoldable pub count_active : ConnectionType → Dict.Dict PlcConnectionInfo → ℕ
count_active t [] = 0
count_active t ((id, c) ∷ rest) =
    let others = count_active t rest in
    if c.connected && same_type c.connection_type t then suc others else others

-- The part of `get_status` that is computed.
pub record PlcStatus : Type 0 where
  pub running : Bool
  pub active_connections : ℕ
  pub enqueue_connections : ℕ
  pub dequeue_connections : ℕ

unfoldable pub get_plc_status : PlcServers → PlcStatus
unfolding count_active
get_plc_status s = record {
  running = s.running;
  active_connections = length s.handler.connections;
  enqueue_connections = count_active enqueue s.handler.connections;
  dequeue_connections = count_active dequeue s.handler.connections;
}
