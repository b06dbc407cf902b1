-- ===== src/Kernel/EventDispatcher.antt =====
-- The class EventDispatcher of src/event_dispatcher.cpp. A handler is a number, and `ends` says how it ends on the
-- text of an event.
use routine_linux_edition.Base.{ℕ, Bool, true, false, List, [], ◌∷◌, ◌++◌, Option, none, some}
use routine_linux_edition.Base.Bytes.{Bytes}
use routine_linux_edition.Base.Dict.{Dict, lookup, insert, erase, at}
pub mod History
mod Tests

abbrev pub EventHandler : Type 0
EventHandler = ℕ

-- A std::exception is reported, anything else that is thrown leaves dispatch.
pub data Ending : Type 0 where
  done : Ending
  failed : Ending
  escaped : Ending

-- handlers_
abbrev pub EventDispatcher : Type 0
EventDispatcher = Dict (List EventHandler)

unfoldable pub on : Bytes → EventHandler → EventDispatcher → EventDispatcher
on event_name handler d = insert event_name (at [] event_name d ++ handler ∷ []) d

unfoldable pub remove_handlers : Bytes → EventDispatcher → EventDispatcher
remove_handlers event_name d = erase event_name d

unfoldable pub clear : EventDispatcher → EventDispatcher
clear d = []

-- A handler that leaves by another throw is the last.
abbrev pub after_call : Ending → EventHandler → List EventHandler × Bool → List EventHandler × Bool
after_call done h (rest, out) = (h ∷ rest, out)
after_call failed h (rest, out) = (h ∷ rest, out)
after_call escaped h (rest, out) = (h ∷ [], true)

-- The handlers that are called, and whether the last of them left by another throw.
unfoldable pub call_all :
    (EventHandler → Bytes → Ending) → Bytes → List EventHandler → List EventHandler × Bool
call_all ends text [] = ([], false)
call_all ends text (h ∷ handlers) = after_call (ends h text) h (call_all ends text handlers)

unfoldable pub dispatch :
    (EventHandler → Bytes → Ending) → Bytes → Bytes → EventDispatcher → List EventHandler × Bool
dispatch ends event_name text d = call_all ends text (at [] event_name d)
