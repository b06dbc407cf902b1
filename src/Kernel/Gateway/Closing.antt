-- ===== src/Kernel/Gateway/Closing.antt =====
-- Which close codes of websocket_client.cpp end the reconnecting.
use routine_linux_edition.Base.{
  ap, ◌∙◌, none, some, if_keeps, if◌then◌else◌, ℕ, ◌≡◌, refl, Bool, true, false, not, ◌&&◌, ◌||◌,
  List, [], ◌∷◌, ◌++◌, ◌==◌, arith,
}
use routine_linux_edition.Kernel.Gateway.{
  client_established, client_receive, client_writeable, ws_peer_initiated_close, client_closed,
  closed, client_connection_error, other_reason, callback_discord, start_heartbeat, stop_heartbeat,
  end_connect, is_fatal, close_code, can_reconnect, on_peer_close, begin_connect, disconnect, send,
  request_reconnect, on_client_established, on_client_closed, on_receive, on_writable,
  service_round, Gateway, popped, closed_down, with_client,
}
use routine_linux_edition.Kernel.Gateway.Queue.{
  Event, connects, disconnects, sends, reconnects, calls_back, waited, heartbeat_starts,
  heartbeat_stops, serviced, run, step,
}
use routine_linux_edition.Base.Bytes.{Bytes}

abbrev pub is_one_of : ℕ → List ℕ → Bool
is_one_of code [] = false
is_one_of code (c ∷ codes) = (code == c) || is_one_of code codes

-- The close codes after which Discord wants no new connection.
abbrev pub final_codes : List ℕ
final_codes = 4_004 ∷ 4_010 ∷ 4_011 ∷ 4_012 ∷ 4_013 ∷ 4_014 ∷ []

is_fatal_lem : (code : ℕ) → is_fatal code ≡ is_one_of code final_codes
is_fatal_lem code = ground arith

-- Whether a new connection may be made after what happened: a connect allows it, and a close with
-- one of those codes ends that.
abbrev pub allowed : List Event → Bool → Bool
allowed [] may = may
allowed (connects url context wsi ∷ events) may = allowed events true
allowed (calls_back (ws_peer_initiated_close bytes) w ∷ events) may =
    allowed events (may && not (is_one_of (close_code bytes) final_codes))
allowed (e ∷ events) may = allowed events may

allowed-if : (fatal may : Bool) → (if fatal then false else may) ≡ (may && not fatal)
allowed-if true true = refl
allowed-if true false = refl
allowed-if false true = refl
allowed-if false false = refl

can_reconnect-popped :
    (queue : List Bytes) (g : Gateway)
    → (popped queue g).client.reconnect_allowed ≡ g.client.reconnect_allowed
can_reconnect-popped [] g = refl
can_reconnect-popped (m ∷ queue) g = refl

can_reconnect-if :
    (up : Bool) (g h : Gateway)
    → h.client.reconnect_allowed ≡ g.client.reconnect_allowed
    → (if◌then◌else◌ {A = Bool × Gateway} up (false, g) (true, h)).1.client.reconnect_allowed
      ≡ g.client.reconnect_allowed
can_reconnect-if true g h e = refl
can_reconnect-if false g h e = e

can_reconnect-disconnect :
    (threads : Bool) (g : Gateway)
    → (disconnect threads g).client.reconnect_allowed ≡ g.client.reconnect_allowed
unfolding disconnect
can_reconnect-disconnect threads g =
    if_keeps (λ (h : Gateway). h.client.reconnect_allowed ≡ g.client.reconnect_allowed)
      (not g.client.running && (not g.client.context && not threads)) g
      (with_client (closed_down g.client) g) refl refl

can_reconnect-end :
    (up : Bool) (g h : Gateway)
    → h.client.reconnect_allowed ≡ g.client.reconnect_allowed
    → (if◌then◌else◌ {A = Bool × Gateway} up (true, g) (false, h)).1.client.reconnect_allowed
      ≡ g.client.reconnect_allowed
can_reconnect-end true g h e = refl
can_reconnect-end false g h e = e

can_reconnect-end_connect :
    (g : Gateway) → (end_connect g).1.client.reconnect_allowed ≡ g.client.reconnect_allowed
unfolding end_connect
can_reconnect-end_connect g =
    can_reconnect-end (g.client.connection_attempt_complete && g.client.connected) g
      (disconnect true g) (can_reconnect-disconnect true g)

can_reconnect-step :
    (e : Event) (events : List Event) (g : Gateway)
    → allowed events (step e g).client.reconnect_allowed
      ≡ allowed (e ∷ events) g.client.reconnect_allowed
unfolding step callback_discord start_heartbeat stop_heartbeat begin_connect send request_reconnect
    on_client_established on_client_closed on_peer_close on_receive on_writable service_round
can_reconnect-step (connects url context none) events g = refl
can_reconnect-step (connects url true (some w)) events g = refl
can_reconnect-step (connects url false (some w)) events g = refl
can_reconnect-step (disconnects threads) events g =
    ap (allowed events) (can_reconnect-disconnect threads g)
can_reconnect-step (sends message) events g = ap (allowed events) (
    can_reconnect-if (not g.client.connected) g
      (with_client (record g.client { send_queue = g.client.send_queue ++ message ∷ [] }) g) refl)
can_reconnect-step reconnects events g = refl
can_reconnect-step (calls_back client_established w) events g = refl
can_reconnect-step (calls_back (client_receive bytes true) w) events g = refl
can_reconnect-step (calls_back (client_receive bytes false) w) events g = refl
can_reconnect-step (calls_back client_writeable w) events g =
    ap (allowed events)
      (can_reconnect-popped g.client.send_queue (record g { writable_asked = false }))
can_reconnect-step (calls_back (ws_peer_initiated_close bytes) w) events g = ap (allowed events) (
    allowed-if (is_fatal (close_code bytes)) g.client.reconnect_allowed
    ∙ ap (λ (fatal : Bool). g.client.reconnect_allowed && not fatal)
        (is_fatal_lem (close_code bytes)))
can_reconnect-step (calls_back client_closed w) events g = refl
can_reconnect-step (calls_back closed w) events g = refl
can_reconnect-step (calls_back client_connection_error w) events g = refl
can_reconnect-step (calls_back other_reason w) events g = refl
can_reconnect-step waited events g = ap (allowed events) (can_reconnect-end_connect g)
can_reconnect-step heartbeat_starts events g = refl
can_reconnect-step heartbeat_stops events g = refl
can_reconnect-step serviced events g = refl

-- Whatever happens to a client, it may reconnect just where no close with the codes 4004 or 4010 to
-- 4014 came since the last connect, and where there was no connect, where it was allowed before
-- too.
pub can_reconnect-run :
    (events : List Event) (g : Gateway)
    → can_reconnect (run events g) ≡ allowed events (can_reconnect g)
unfolding run can_reconnect
can_reconnect-run [] g = refl
can_reconnect-run (e ∷ events) g =
    can_reconnect-run events (step e g) ∙ can_reconnect-step e events g
