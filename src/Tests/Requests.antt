-- ===== src/Tests/Requests.antt =====
-- Calls of `Caller.Request` of golang/client beside each other and across, at concrete requests.
use how.Base.{ℕ, zero, suc, ◌≡◌, ◌≢◌, refl, [], ◌∷◌, false, none, some, get_elem?, bytes_eq}
use how.Base.Keyed.{lookup}
use how.Caller.{new_caller}
use how.Caller.System.{Thread, begin, arrive, shut, resume, run}
use how.Caller.Modes.{request_by_mode}
use how.Caller.OneMode.{KeepsTo, request_keeps_mode}
use how.Caller.Isolation.{IsAlone, others_leave_request-IsAlone}
use how.EndToEnd.Requests.{Crosses, request_reaches_handler}
use how.EndToEnd.Whole.{peer_mode}
use how.Base.{codes}
use how.Tests.Wires.{msgpack, json}
use how.Tests.Handlers.{quiet, quiet_reliable, get_root, id}
use how.Tests.Callers.{m, sender, pipe, goroutine, waiting_system}

request_reaches_handler_example :
    Crosses quiet (peer_mode quiet) sender id get_root (new_caller []) []
unfolding new_caller
request_reaches_handler_example =
    request_reaches_handler quiet sender id get_root (new_caller []) [] refl (λ f. refl)
      quiet_reliable tt tt

nobody_else : (j : ℕ) (u : Thread) → 0 ≢ j → get_elem? waiting_system.threads j ≡ some u → u.id ≢ id
nobody_else zero u away found = absurd (away refl)
nobody_else (suc j) u away found = absurd (cc)

waiting-IsAlone : IsAlone m sender pipe 0 goroutine waiting_system
unfolding lookup bytes_eq
waiting-IsAlone = record { at = refl; pending = refl; others = nobody_else }

others_leave_request-IsAlone_example : IsAlone m sender pipe 0 goroutine (
    run m sender pipe
      (begin (codes "id") get_root ∷ arrive (codes "x") ∷ shut none ∷ resume 1 ∷ [])
      waiting_system)
others_leave_request-IsAlone_example =
    others_leave_request-IsAlone m sender pipe 0 goroutine
      (begin (codes "id") get_root ∷ arrive (codes "x") ∷ shut none ∷ resume 1 ∷ []) waiting_system
      ((λ e. cc), (tt, (tt, ((λ e. cc), tt)))) waiting-IsAlone

request_keeps_mode_example :
    KeepsTo false
      (new_caller [])
      (request_by_mode msgpack json sender id get_root (new_caller [])).1
unfolding new_caller
request_keeps_mode_example = request_keeps_mode msgpack json sender id get_root (new_caller [])
