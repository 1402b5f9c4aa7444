-- ===== src/Service/Schedule/Alone.antt =====
-- The methods of src/app/session_service.cpp that no other thread interrupts.
use gnuradio4_control_plane.Prelude.{ℕ, String, ◌≡◌, Option, none, some, [], arith}
use gnuradio4_control_plane.Errors.{Exec, Result, ok, err, pure, ◌>>=◌, ◌>>◌}
use gnuradio4_control_plane.Domain.Session.{Session}
use gnuradio4_control_plane.Runtime.{RuntimeManager}
use gnuradio4_control_plane.Service.State.{World}
use gnuradio4_control_plane.Service.Operations.{
  Begun, returned, reserved, attempt, start_calls, restart_calls, remove_calls, start, stop,
  restart, remove,
}
use gnuradio4_control_plane.Service.Schedule.{
  Request, start_request, stop_request, restart_request, remove_request, System, begin, end,
  last_block,
}

-- The service when no method is under way.
abbrev pub alone : {R : Type 0} → World R → System R
alone w = record { world = w; calls = [] }

module _ {P R : Type 0} (manager : RuntimeManager P R) where
  -- What a method asks of the runtime manager.
  abbrev pub calls_of : Request → Session → Exec R (Unit {0})
  calls_of start_request session = start_calls manager session
  calls_of stop_request session = manager.stop session
  calls_of restart_request session = restart_calls manager session
  calls_of remove_request session = remove_calls manager session

  -- The whole method.
  unfoldable pub perform : Request → String → ℕ → Exec (World R) (Option Session)
  unfolding start stop restart remove
  perform start_request id now = do session ← start manager id now; pure (some session)
  perform stop_request id now = do session ← stop manager id now; pure (some session)
  perform restart_request id now = do session ← restart manager id now; pure (some session)
  perform remove_request id now = do remove manager id now; pure none

  -- The handlers and the last block, after the calls of the runtime manager.
  abbrev pub proceed : Request → String → ℕ → Result Begun → Exec (World R) (Option Session)
  proceed request id now (ok (reserved x)) w =
      end request id x (calls_of request x w.runtime).0 now
        (record w { runtime = (calls_of request x w.runtime).1 })
  proceed request id now (ok (returned x)) w = (ok (some x), w)
  proceed request id now (err e) w = (err e, w)

  -- The parts of a method: its first block, the calls, and the rest.
  pub perform-begin :
      (request : Request) (id : String) (now : ℕ) (w : World R)
      → perform request id now w
        ≡ proceed request id now (begin request id w).0 (begin request id w).1
  unfolding perform begin end attempt last_block
  perform-begin start_request id now w = ground arith
  perform-begin stop_request id now w = ground arith
  perform-begin restart_request id now w = ground arith
  perform-begin remove_request id now w = ground arith
