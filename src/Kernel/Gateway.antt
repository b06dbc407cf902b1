-- ===== src/Kernel/Gateway.antt =====
-- The class WebSocketClient of src/websocket_client.cpp: its state, its calls, and what it does when
-- libwebsockets calls back. A connection (wsi) is a number. What reaches the other side, the message
-- handler and the request for a writable callback are kept beside the state.
use routine_linux_edition.Base.{
  ℕ, ◌+◌, ◌*◌, Bool, true, false, not, ◌&&◌, ◌||◌, List, [], ◌∷◌, ◌++◌, Option, none, some, ◌==◌,
  leb, if◌then◌else◌,
}
use routine_linux_edition.Base.Bytes.{Bytes, is_empty}
pub mod Queue
pub mod Fragments
pub mod Closing
mod Tests

pub record WebSocketClient : Type 0 where
  pub connected : Bool
  pub should_heartbeat : Bool
  pub running : Bool
  pub reconnect_allowed : Bool
  pub reconnect_requested : Bool
  pub connection_attempt_complete : Bool
  pub context : Bool
  pub wsi : Option ℕ
  pub gateway_url : Bytes
  pub receive_buffer : Bytes
  pub send_queue : List Bytes
  pub has_on_message : Bool

-- What the client has done to the world: messages given to lws_write and to the handler, whether a
-- writable callback is asked for, and whether the connection is told to close.
pub record Gateway : Type 0 where
  pub client : WebSocketClient
  pub written : List Bytes
  pub delivered : List Bytes
  pub writable_asked : Bool
  pub kill_asked : Bool

abbrev pub new_client : WebSocketClient
new_client = record {
  connected = false;
  should_heartbeat = false;
  running = false;
  reconnect_allowed = true;
  reconnect_requested = false;
  connection_attempt_complete = false;
  context = false;
  wsi = none;
  gateway_url = [];
  receive_buffer = [];
  send_queue = [];
  has_on_message = false;
}

abbrev pub with_client : WebSocketClient → Gateway → Gateway
with_client c g = record g { client = c }

-- connect up to the wait: `context` and `wsi` are what libwebsockets gives.
unfoldable pub begin_connect : Bytes → Bool → Option ℕ → Gateway → Gateway
begin_connect url context wsi g =
    let c = record g.client {
      gateway_url = url;
      connected = false;
      reconnect_allowed = true;
      reconnect_requested = false;
      connection_attempt_complete = false;
    } in
    with_client
      (elim wsi [
        | none ↦ record c { context = false; wsi = if context then none else c.wsi }
        | some w ↦
            if context
            then record c { context = true; wsi = some w; running = true }
            else record c { context = false }
      ])
      g

abbrev pub closed_down : WebSocketClient → WebSocketClient
closed_down c = record c {
  running = false;
  connected = false;
  should_heartbeat = false;
  context = false;
  wsi = none;
}

-- disconnect, which returns at once where nothing runs. `threads` is whether a thread can be joined.
unfoldable pub disconnect : Bool → Gateway → Gateway
disconnect threads g =
    let c = g.client in
    if not c.running && (not c.context && not threads) then g else with_client (closed_down c) g

-- The end of connect, when the wait is over.
unfoldable pub end_connect : Gateway → Bool × Gateway
end_connect g =
    if g.client.connection_attempt_complete && g.client.connected
    then (true, g)
    else (false, disconnect true g)

unfoldable pub send : Bytes → Gateway → Bool × Gateway
send message g =
    let c = g.client in
    if not c.connected
    then (false, g)
    else (true, with_client (record c { send_queue = c.send_queue ++ message ∷ [] }) g)

unfoldable pub request_reconnect : Gateway → Gateway
request_reconnect g = with_client (record g.client { reconnect_requested = true }) g

unfoldable pub on_client_established : ℕ → Gateway → Gateway
on_client_established wsi g =
    with_client
      (record g.client { wsi = some wsi; connected = true; connection_attempt_complete = true }) g

abbrev same_wsi : ℕ → Option ℕ → Bool
same_wsi w none = false
same_wsi w (some v) = v == w

unfoldable pub on_client_closed : ℕ → Gateway → Gateway
on_client_closed wsi g =
    let c = g.client in
    with_client
      (record c {
        wsi = if same_wsi wsi c.wsi then none else c.wsi;
        connected = false;
        connection_attempt_complete = true;
        should_heartbeat = false;
      })
      g

-- The code in the first two bytes; zero where there are fewer.
abbrev pub close_code : Bytes → ℕ
close_code [] = 0
close_code (a ∷ []) = 0
close_code (a ∷ b ∷ rest) = a * 256 + b

-- The codes after which a new connection makes no sense.
abbrev pub is_fatal : ℕ → Bool
is_fatal code =
    code == 4_013 || (code == 4_014 || (code == 4_004 || (leb 4_010 code && leb code 4_012)))

unfoldable pub on_peer_close : Bytes → Gateway → Gateway
on_peer_close bytes g =
    with_client
      (record g.client {
        reconnect_allowed =
            if is_fatal (close_code bytes) then false else g.client.reconnect_allowed;
      })
      g

-- A fragment; `final` is whether it ends the message and the packet.
unfoldable pub on_receive : Bytes → Bool → Gateway → Gateway
on_receive bytes final g =
    let c = g.client in
    let buffer = c.receive_buffer ++ bytes in
    if not final then with_client (record c { receive_buffer = buffer }) g else record g {
      client = record c { receive_buffer = [] };
      delivered = if c.has_on_message then g.delivered ++ buffer ∷ [] else g.delivered;
    }

abbrev is_there : Option ℕ → Bool
is_there none = false
is_there (some w) = true

abbrev pub has_more : List Bytes → Bool
has_more [] = false
has_more (m ∷ queue) = true

-- What is left of the queue once the first message is written. An error of lws_write is only
-- reported.
abbrev pub popped : List Bytes → Gateway → Gateway
popped [] g = g
popped (m ∷ queue) g = record g {
  client = record g.client { send_queue = queue };
  written = g.written ++ m ∷ [];
  writable_asked = has_more queue;
}

unfoldable pub on_writable : Gateway → Gateway
on_writable g = let h = record g { writable_asked = false } in popped g.client.send_queue h

-- One round of service_loop behind lws_service.
unfoldable pub service_round : Gateway → Gateway
service_round g =
    let c = g.client in
    let there = is_there c.wsi in
    record g {
      client = record c { reconnect_requested = false };
      writable_asked = (has_more c.send_queue && (c.connected && there)) || g.writable_asked;
      kill_asked = (c.reconnect_requested && there) || g.kill_asked;
    }

unfoldable pub can_reconnect : Gateway → Bool
can_reconnect g = g.client.reconnect_allowed

unfoldable pub start_heartbeat : Gateway → Gateway
start_heartbeat g = with_client (record g.client { should_heartbeat = true }) g

unfoldable pub stop_heartbeat : Gateway → Gateway
stop_heartbeat g = with_client (record g.client { should_heartbeat = false }) g

-- The reasons for which libwebsockets calls back, with what it hands over.
pub data Callback : Type 0 where
  client_established : Callback
  client_receive : Bytes → Bool → Callback
  client_writeable : Callback
  ws_peer_initiated_close : Bytes → Callback
  client_closed : Callback
  closed : Callback
  client_connection_error : Callback
  other_reason : Callback

unfoldable pub callback_discord : Callback → ℕ → Gateway → Gateway
callback_discord client_established wsi g = on_client_established wsi g
callback_discord (client_receive bytes final) wsi g = on_receive bytes final g
callback_discord client_writeable wsi g = on_writable g
callback_discord (ws_peer_initiated_close bytes) wsi g = on_peer_close bytes g
callback_discord client_closed wsi g = on_client_closed wsi g
callback_discord closed wsi g = on_client_closed wsi g
callback_discord client_connection_error wsi g = on_client_closed wsi g
callback_discord other_reason wsi g = g
