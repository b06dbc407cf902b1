-- ===== src/Kernel/Gateway/Fragments.antt =====
-- How on_receive of websocket_client.cpp puts fragments together.
use routine_linux_edition.Base.{
  ◌≡◌, refl, ◌∙◌, ap, sym, Bool, true, false, List, [], ◌∷◌, ◌++◌, if◌then◌else◌, map, append-nil,
  append_assoc,
}
use routine_linux_edition.Base.Bytes.{Bytes}
use routine_linux_edition.Kernel.Gateway.{Gateway, on_receive, callback_discord, client_receive}
use routine_linux_edition.Kernel.Gateway.Queue.{Event, calls_back, run, step}

-- A message as the network cuts it: the fragments before the last, and the last.
pub record Packet : Type 0 where
  pub before : List Bytes
  pub last : Bytes

abbrev pub joined : List Bytes → Bytes → Bytes
joined [] last = last
joined (part ∷ parts) last = part ++ joined parts last

abbrev pub whole : Packet → Bytes
whole p = joined p.before p.last

-- The callbacks of one message, and of a list of them.
abbrev pub arrival : List Bytes → Bytes → List Event → List Event
arrival [] last events = calls_back (client_receive last true) 0 ∷ events
arrival (part ∷ parts) last events =
    calls_back (client_receive part false) 0 ∷ arrival parts last events

abbrev pub arrivals : List Packet → List Event
arrivals [] = []
arrivals (p ∷ packets) = arrival p.before p.last (arrivals packets)

-- What a client holds once a message has come in over what its buffer held.
abbrev received : Bytes → Gateway → Gateway
received text g = record g {
  client = record g.client { receive_buffer = [] };
  delivered = g.delivered ++ text ∷ [];
}

abbrev pub buffered : Bytes → Gateway → Gateway
buffered text g = record g { client = record g.client { receive_buffer = text } }

run-arrival :
    (parts : List Bytes) (last text : Bytes) (events : List Event) (g : Gateway)
    → g.client.has_on_message ≡ true
    → run (arrival parts last events) (buffered text g)
      ≡ run events (received (text ++ joined parts last) g)
unfolding run step callback_discord on_receive
run-arrival [] last text events g e =
    ap
      (λ (there : Bool). run events (record g {
        client = record g.client { receive_buffer = [] };
        delivered = if there then g.delivered ++ (text ++ last) ∷ [] else g.delivered;
      }))
      e
run-arrival (part ∷ parts) last text events g e =
    run-arrival parts last (text ++ part) events g e
    ∙ ap (λ (t : Bytes). run events (received t g)) (append_assoc text part (joined parts last))

delivered-arrivals :
    (packets : List Packet) (g : Gateway)
    → g.client.has_on_message ≡ true
    → ((run (arrivals packets) (buffered [] g)).delivered ≡ g.delivered ++ map whole packets)
      × ((run (arrivals packets) (buffered [] g)).client.receive_buffer ≡ [])
unfolding run
delivered-arrivals [] g e = (sym (append-nil g.delivered), refl)
delivered-arrivals (p ∷ packets) g e =
    let came = run-arrival p.before p.last [] (arrivals packets) g e in
    let rest = delivered-arrivals packets (received (whole p) g) e in
    (
      ap (λ (h : Gateway). h.delivered) came
          ∙ (rest.0 ∙ append_assoc g.delivered (whole p ∷ []) (map whole packets)),
      ap (λ (h : Gateway). h.client.receive_buffer) came ∙ rest.1,
    )

-- With a message handler and an empty receive buffer, the fragments of any messages are delivered
-- as those messages, in their order, and the buffer is empty again.
pub arrivals_deliver :
    (packets : List Packet) (g : Gateway)
    → g.client.has_on_message ≡ true
    → g.client.receive_buffer ≡ []
    → ((run (arrivals packets) g).delivered ≡ g.delivered ++ map whole packets)
      × ((run (arrivals packets) g).client.receive_buffer ≡ [])
arrivals_deliver packets g there empty =
    let at = λ (b : Bytes). run (arrivals packets) (buffered b g) in
    let came = delivered-arrivals packets g there in
    (
      ap (λ (b : Bytes). (at b).delivered) empty ∙ came.0,
      ap (λ (b : Bytes). (at b).client.receive_buffer) empty ∙ came.1,
    )
