-- ===== src/Kernel/Gateway/Tests.antt =====
-- A connection that is made, used and lost.
use routine_linux_edition.Base.{◌≡◌, refl, true, false, List, [], ◌∷◌, ◌++◌, map, some, length}
use routine_linux_edition.Base.Bytes.{bytes}
use routine_linux_edition.Kernel.Gateway.{
  Gateway, client_established, client_writeable, ws_peer_initiated_close, client_closed, new_client,
  can_reconnect,
}
use routine_linux_edition.Kernel.Gateway.Queue.{
  Event, connects, sends, calls_back, serviced, run, writables, accepted, run_sends,
  writables_drain,
}
use routine_linux_edition.Kernel.Gateway.Fragments.{Packet, whole, arrivals, arrivals_deliver}
use routine_linux_edition.Kernel.Gateway.Closing.{allowed, can_reconnect-run}

abbrev fresh : Gateway
fresh = record {
  client = record new_client { has_on_message = true };
  written = [];
  delivered = [];
  writable_asked = false;
  kill_asked = false;
}

abbrev life : List Event
life =
    connects (bytes "wss://gateway.discord.gg") true (some 5)
    ∷ sends (bytes "early")
    ∷ calls_back client_established 5
    ∷ sends (bytes "identify")
    ∷ sends (bytes "presence")
    ∷ serviced
    ∷ calls_back client_writeable 5
    ∷ calls_back (ws_peer_initiated_close (15 ∷ 164 ∷ [])) 5
    ∷ calls_back client_closed 5
    ∷ []

abbrev packets : List Packet
packets =
    record { before = bytes "{" ∷ bytes "op" ∷ []; last = bytes "}" }
    ∷ record { before = []; last = bytes "{}" }
    ∷ []

abbrev waiting : Gateway
waiting = record fresh { client = record fresh.client { send_queue = bytes "a" ∷ bytes "b" ∷ [] } }

run_sends_example :
    (run life fresh).written ++ (run life fresh).client.send_queue
    ≡ (fresh.written ++ fresh.client.send_queue) ++ accepted life fresh
run_sends_example = run_sends life fresh

writables_drain_example :
    ((run (writables (length waiting.client.send_queue)) waiting).client.send_queue ≡ [])
    × ((run (writables (length waiting.client.send_queue)) waiting).written
        ≡ waiting.written ++ waiting.client.send_queue)
writables_drain_example = writables_drain waiting

arrivals_deliver_example :
    ((run (arrivals packets) fresh).delivered ≡ fresh.delivered ++ map whole packets)
    × ((run (arrivals packets) fresh).client.receive_buffer ≡ [])
arrivals_deliver_example = arrivals_deliver packets fresh refl refl

can_reconnect-run_example : can_reconnect (run life fresh) ≡ allowed life (can_reconnect fresh)
can_reconnect-run_example = can_reconnect-run life fresh

-- The message before the connection is refused, and the close with code 4004 ends the reconnecting.
life_accepts : accepted life fresh ≡ bytes "identify" ∷ bytes "presence" ∷ []
unfolding accepted run routine_linux_edition.Kernel.Gateway.Queue.step
    routine_linux_edition.Kernel.Gateway.begin_connect
    routine_linux_edition.Kernel.Gateway.callback_discord
    routine_linux_edition.Kernel.Gateway.on_client_established
    routine_linux_edition.Kernel.Gateway.send
life_accepts = refl

life_ends : can_reconnect (run life fresh) ≡ false
life_ends = can_reconnect-run life fresh
