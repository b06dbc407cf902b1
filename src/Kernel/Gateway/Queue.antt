-- ===== src/Kernel/Gateway/Queue.antt =====
-- What the gateway client writes: websocket_client.cpp, its calls and callbacks as steps in any order.
use routine_linux_edition.Base.{
  ℕ, zero, suc, ◌≡◌, refl, ◌∙◌, ap, sym, Bool, true, false, not, ◌&&◌, List, [], ◌∷◌, ◌++◌,
  append-nil, append_assoc, Option, none, some, if◌then◌else◌, if_keeps, length,
}
use routine_linux_edition.Base.Bytes.{Bytes}
use routine_linux_edition.Kernel.Gateway.{
  Callback, client_established, client_receive, client_writeable, ws_peer_initiated_close,
  client_closed, closed, client_connection_error, other_reason, callback_discord, start_heartbeat,
  stop_heartbeat, end_connect, Gateway, begin_connect, disconnect, send, request_reconnect,
  on_client_established, on_client_closed, on_peer_close, on_receive, on_writable, service_round,
  with_client, closed_down, popped,
}

-- What happens to a client, in the order in which it happens.
pub data Event : Type 0 where
  connects : Bytes → Bool → Option ℕ → Event
  disconnects : Bool → Event
  sends : Bytes → Event
  reconnects : Event
  calls_back : Callback → ℕ → Event
  waited : Event
  heartbeat_starts : Event
  heartbeat_stops : Event
  serviced : Event

unfoldable pub step : Event → Gateway → Gateway
step (connects url context wsi) g = begin_connect url context wsi g
step (disconnects threads) g = disconnect threads g
step (sends message) g = (send message g).1
step reconnects g = request_reconnect g
step (calls_back reason w) g = callback_discord reason w g
step waited g = (end_connect g).1
step heartbeat_starts g = start_heartbeat g
step heartbeat_stops g = stop_heartbeat g
step serviced g = service_round g

unfoldable pub run : List Event → Gateway → Gateway
run [] g = g
run (e ∷ events) g = run events (step e g)

-- The messages that `send` accepts, in their order.
unfoldable pub accepted : List Event → Gateway → List Bytes
accepted [] g = []
accepted (sends message ∷ events) g =
    let rest = accepted events (step (sends message) g) in
    if g.client.connected then message ∷ rest else rest
accepted (e ∷ events) g = accepted events (step e g)

-- What has been written, and what is still to be.
abbrev pub stream : Gateway → List Bytes
stream g = g.written ++ g.client.send_queue

abbrev pub added : Event → Gateway → List Bytes
added (sends message) g = if g.client.connected then message ∷ [] else []
added e g = []

stream-if :
    (up : Bool) (message : Bytes) (g h : Gateway)
    → stream h ≡ stream g ++ message ∷ []
    → stream (if◌then◌else◌ {A = Bool × Gateway} (not up) (false, g) (true, h)).1
      ≡ stream g ++ (if up then message ∷ [] else [])
stream-if true message g h e = e
stream-if false message g h e = sym (append-nil (stream g))

stream-send :
    (message : Bytes) (g : Gateway)
    → stream (send message g).1 ≡ stream g ++ (if g.client.connected then message ∷ [] else [])
unfolding send
stream-send message g =
    stream-if g.client.connected message g _
      (sym (append_assoc g.written g.client.send_queue (message ∷ [])))

stream-popped :
    (queue : List Bytes) (h : Gateway)
    → h.client.send_queue ≡ queue
    → stream (popped queue h) ≡ stream h
stream-popped [] h e = refl
stream-popped (m ∷ queue) h e =
    append_assoc h.written (m ∷ []) queue ∙ ap (λ (q : List Bytes). h.written ++ q) (sym e)

stream-writable : (g : Gateway) → stream (on_writable g) ≡ stream g
unfolding on_writable
stream-writable g = stream-popped g.client.send_queue (record g { writable_asked = false }) refl

stream-disconnect : (threads : Bool) (g : Gateway) → stream (disconnect threads g) ≡ stream g
unfolding disconnect
stream-disconnect threads g =
    if_keeps (λ (h : Gateway). stream h ≡ stream g)
      (not g.client.running && (not g.client.context && not threads)) g
      (with_client (closed_down g.client) g) refl refl

stream-end :
    (up : Bool) (g h : Gateway)
    → stream h ≡ stream g
    → stream (if◌then◌else◌ {A = Bool × Gateway} up (true, g) (false, h)).1 ≡ stream g
stream-end true g h e = refl
stream-end false g h e = e

stream-end_connect : (g : Gateway) → stream (end_connect g).1 ≡ stream g
unfolding end_connect
stream-end_connect g =
    stream-end (g.client.connection_attempt_complete && g.client.connected) g (disconnect true g)
      (stream-disconnect true g)

stream-step : (e : Event) (g : Gateway) → stream (step e g) ≡ stream g ++ added e g
unfolding step callback_discord start_heartbeat stop_heartbeat begin_connect send request_reconnect
    on_client_established on_client_closed on_peer_close on_receive on_writable service_round
stream-step (connects url context none) g = sym (append-nil (stream g))
stream-step (connects url true (some w)) g = sym (append-nil (stream g))
stream-step (connects url false (some w)) g = sym (append-nil (stream g))
stream-step (disconnects threads) g = stream-disconnect threads g ∙ sym (append-nil (stream g))
stream-step (sends message) g = stream-send message g
stream-step reconnects g = sym (append-nil (stream g))
stream-step (calls_back client_established w) g = sym (append-nil (stream g))
stream-step (calls_back (client_receive bytes true) w) g = sym (append-nil (stream g))
stream-step (calls_back (client_receive bytes false) w) g = sym (append-nil (stream g))
stream-step (calls_back client_writeable w) g = stream-writable g ∙ sym (append-nil (stream g))
stream-step (calls_back (ws_peer_initiated_close bytes) w) g = sym (append-nil (stream g))
stream-step (calls_back client_closed w) g = sym (append-nil (stream g))
stream-step (calls_back closed w) g = sym (append-nil (stream g))
stream-step (calls_back client_connection_error w) g = sym (append-nil (stream g))
stream-step (calls_back other_reason w) g = sym (append-nil (stream g))
stream-step waited g = stream-end_connect g ∙ sym (append-nil (stream g))
stream-step heartbeat_starts g = sym (append-nil (stream g))
stream-step heartbeat_stops g = sym (append-nil (stream g))
stream-step serviced g = sym (append-nil (stream g))

added_if :
    (up : Bool) (message : Bytes) (rest : List Bytes)
    → (if up then message ∷ [] else []) ++ rest ≡ (if up then message ∷ rest else rest)
added_if true message rest = refl
added_if false message rest = refl

stream-added :
    (e : Event) (events : List Event) (g : Gateway)
    → added e g ++ accepted events (step e g) ≡ accepted (e ∷ events) g
unfolding accepted
stream-added (sends message) events g =
    added_if g.client.connected message (accepted events (step (sends message) g))
stream-added (connects url context wsi) events g = refl
stream-added (disconnects threads) events g = refl
stream-added reconnects events g = refl
stream-added (calls_back reason w) events g = refl
stream-added waited events g = refl
stream-added heartbeat_starts events g = refl
stream-added heartbeat_stops events g = refl
stream-added serviced events g = refl

stream-run :
    (events : List Event) (g : Gateway) → stream (run events g) ≡ stream g ++ accepted events g
unfolding run accepted
stream-run [] g = sym (append-nil (stream g))
stream-run (e ∷ events) g =
    stream-run events (step e g)
    ∙ (ap (λ (s : List Bytes). s ++ accepted events (step e g)) (stream-step e g)
        ∙ (append_assoc (stream g) (added e g) (accepted events (step e g))
            ∙ ap (λ (s : List Bytes). stream g ++ s) (stream-added e events g)))

-- Whatever happens to a client, what it has given to lws_write followed by what waits in its queue
-- is what that was before followed by the messages that send accepted, in their order.
pub run_sends :
    (events : List Event) (g : Gateway)
    → (run events g).written ++ (run events g).client.send_queue
      ≡ (g.written ++ g.client.send_queue) ++ accepted events g
run_sends events g = stream-run events g

pub writables : ℕ → List Event
writables zero = []
writables (suc n) = calls_back client_writeable 0 ∷ writables n

written-drained :
    (queue : List Bytes) (g : Gateway)
    → g.client.send_queue ≡ queue
    → ((run (writables (length queue)) g).client.send_queue ≡ [])
      × ((run (writables (length queue)) g).written ≡ g.written ++ queue)
unfolding run step callback_discord writables on_writable
written-drained [] g e = (e, sym (append-nil g.written))
written-drained (m ∷ queue) g e =
    let h = record g { writable_asked = false } in
    let rest =
      written-drained queue (on_writable g)
        (ap (λ (q : List Bytes). (popped q h).client.send_queue) e) in
    (
      rest.0,
      rest.1
          ∙ (ap (λ (q : List Bytes). (popped q h).written ++ queue) e
              ∙ append_assoc g.written (m ∷ []) queue),
    )

-- As many writable callbacks as there are messages in the queue give them all to lws_write, in
-- their order, and leave the queue empty.
pub writables_drain :
    (g : Gateway)
    → ((run (writables (length g.client.send_queue)) g).client.send_queue ≡ [])
      × ((run (writables (length g.client.send_queue)) g).written
          ≡ g.written ++ g.client.send_queue)
writables_drain g = written-drained g.client.send_queue g refl
