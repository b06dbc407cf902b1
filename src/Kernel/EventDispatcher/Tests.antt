-- ===== src/Kernel/EventDispatcher/Tests.antt =====
-- Two handlers, one of which reports an exception.
use routine_linux_edition.Base.{◌≡◌, arith, true, false, List, [], ◌∷◌, ◌==◌, if◌then◌else◌}
use routine_linux_edition.Base.Bytes.{Bytes, bytes}
use routine_linux_edition.Kernel.EventDispatcher.{EventHandler, Ending, done, failed, dispatch}
use routine_linux_edition.Kernel.EventDispatcher.History.{
  Call, registers, removes, run, listeners, is_caught, dispatch-run,
}

abbrev ends : EventHandler → Bytes → Ending
ends h text = if h == 1 then failed else done

ends_caught : (text : Bytes) (h : EventHandler) → is_caught (ends h text) ≡ true
ends_caught text h = ground arith

abbrev calls : List Call
calls =
    registers (bytes "READY") 7
    ∷ removes (bytes "READY")
    ∷ registers (bytes "READY") 1
    ∷ registers (bytes "RESUMED") 3
    ∷ registers (bytes "READY") 2
    ∷ []

dispatch-run_example :
    dispatch ends (bytes "READY") (bytes "{}") (run calls [])
    ≡ (listeners (bytes "READY") calls [], false)
dispatch-run_example =
    dispatch-run ends (bytes "READY") (bytes "{}") calls (ends_caught (bytes "{}"))
