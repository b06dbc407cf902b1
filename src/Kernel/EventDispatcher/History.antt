-- ===== src/Kernel/EventDispatcher/History.antt =====
-- What a dispatcher promises: an event goes to the handlers that were registered for it since they were
-- last removed.
use routine_linux_edition.Base.{
  ◌≡◌, refl, ◌∙◌, ap, Bool, true, false, List, [], ◌∷◌, ◌++◌, if◌then◌else◌, arith,
}
use routine_linux_edition.Base.Bytes.{Bytes, bytes_eq, bytes_eq_iff}
use routine_linux_edition.Base.Dict.{lookup, at, lookup-insert, lookup-erase}
use routine_linux_edition.Kernel.EventDispatcher.{
  EventHandler, Ending, done, failed, escaped, EventDispatcher, on, remove_handlers, clear,
  call_all, after_call, dispatch,
}

-- The calls that change a dispatcher.
pub data Call : Type 0 where
  registers : Bytes → EventHandler → Call
  removes : Bytes → Call
  clears : Call

pub called : Call → EventDispatcher → EventDispatcher
called (registers event_name h) d = on event_name h d
called (removes event_name) d = remove_handlers event_name d
called clears d = clear d

pub run : List Call → EventDispatcher → EventDispatcher
run [] d = d
run (c ∷ calls) d = run calls (called c d)

-- The handlers of one event, with no table.
pub heard : Bytes → Call → List EventHandler → List EventHandler
heard event_name (registers name h) handlers =
    if bytes_eq event_name name then handlers ++ h ∷ [] else handlers
heard event_name (removes name) handlers = if bytes_eq event_name name then [] else handlers
heard event_name clears handlers = []

pub listeners : Bytes → List Call → List EventHandler → List EventHandler
listeners event_name [] handlers = handlers
listeners event_name (c ∷ calls) handlers = listeners event_name calls (heard event_name c handlers)

at-called :
    (event_name : Bytes) (c : Call) (d : EventDispatcher)
    → at [] event_name (called c d) ≡ heard event_name c (at [] event_name d)
unfolding called heard on remove_handlers clear
at-called event_name (registers name h) d =
    rw (lookup-insert event_name name (at [] name d ++ h ∷ []) d)
      (ground (arith, bytes_eq_iff event_name name))
at-called event_name (removes name) d = rw (lookup-erase event_name name d) (ground arith)
at-called event_name clears d = unfold lookup in refl

at-run :
    (event_name : Bytes) (calls : List Call) (d : EventDispatcher)
    → at [] event_name (run calls d) ≡ listeners event_name calls (at [] event_name d)
unfolding run listeners
at-run event_name [] d = refl
at-run event_name (c ∷ calls) d =
    at-run event_name calls (called c d)
    ∙ ap (listeners event_name calls) (at-called event_name c d)

abbrev pub is_caught : Ending → Bool
is_caught done = true
is_caught failed = true
is_caught escaped = false

after_call-caught :
    (e : Ending) (h : EventHandler) (rest : List EventHandler) (out : Bool)
    → is_caught e ≡ true
    → after_call e h (rest, out) ≡ (h ∷ rest, out)
after_call-caught done h rest out c = refl
after_call-caught failed h rest out c = refl
after_call-caught escaped h rest out c = cc

call_all_lem :
    (ends : EventHandler → Bytes → Ending) (text : Bytes) (handlers : List EventHandler)
    → ((h : EventHandler) → is_caught (ends h text) ≡ true)
    → call_all ends text handlers ≡ (handlers, false)
unfolding call_all
call_all_lem ends text [] caught = refl
call_all_lem ends text (h ∷ handlers) caught =
    rw (call_all_lem ends text handlers caught)
      (after_call-caught (ends h text) h handlers false (caught h))

-- Where the handlers throw nothing but a std::exception on the text of an event, dispatch calls,
-- after any sequence of registrations, removals and clears, the handlers that were registered for
-- the event since they were last removed, each of them once, in their order.
pub dispatch-run :
    (ends : EventHandler → Bytes → Ending) (event_name text : Bytes) (calls : List Call)
    → ((h : EventHandler) → is_caught (ends h text) ≡ true)
    → dispatch ends event_name text (run calls []) ≡ (listeners event_name calls [], false)
unfolding dispatch
dispatch-run ends event_name text calls caught =
    let start : at [] event_name (run calls []) ≡ listeners event_name calls [] =
      at-run event_name calls [] ∙ unfold lookup in refl in
    rw start (call_all_lem ends text _ caught)
