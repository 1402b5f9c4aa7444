-- ===== src/Service/Schedule.antt =====
-- Several threads in `SessionService` at once (src/app/session_service.cpp). Each block under
-- `lock_guard` is one event; a method that has left its first block is a call in flight, which
-- waits for the runtime manager and then for its last block. What the runtime manager does
-- meanwhile is open: any result, and any new state.
pub mod Begin
pub mod End
pub mod InFlight
pub mod Alone
pub mod Create
pub mod Exclusion
use gnuradio4_control_plane.Prelude.{
  ℕ, zero, suc, ◌+◌, String, Bool, true, false, Option, none, some, List, [], ◌∷◌, if◌then◌else◌,
  ◌==◌,
}
use gnuradio4_control_plane.Errors.{Exec, Result, ok, err, pure, ◌>>=◌, ◌>>◌}
use gnuradio4_control_plane.Domain.Session.{Session}
use gnuradio4_control_plane.Service.State.{World}
use gnuradio4_control_plane.Service.Ids.{create}
use gnuradio4_control_plane.Service.Operations.{
  Begun, returned, reserved, start_begin, stop_begin, restart_begin, remove_begin, running_end,
  stopped_end, remove_end, or_record_failure,
}

pub data Request : Type 0 where
  start_request stop_request restart_request remove_request : Request

-- A call in flight: `result` is what the runtime manager's part came to, once it is over.
pub record Call : Type 0 where
  pub request : Request
  pub id : String
  pub session : Session
  pub result : Option (Result (Unit {0}))

pub record System (R : Type 0) : Type 0 where
  pub world : World R
  pub calls : List Call

pub data Event (R : Type 0) : Type 0 where
  creates : String → String → Option String → List ℕ → ℕ → Event R
  begins : Request → String → Event R
  comes_back : ℕ → R → Result (Unit {0}) → Event R
  ends : ℕ → ℕ → Event R

abbrev pub action : Request → String
action start_request = "start"
action stop_request = "stop"
action restart_request = "restart"
action remove_request = "remove"

-- The call at a position, and the others.
unfoldable pub pick : ℕ → List Call → Option (Call × List Call)
pick n [] = none
pick zero (c ∷ calls) = some (c, calls)
pick (suc n) (c ∷ calls) = elim (pick n calls) [
  | none ↦ none
  | some (d, others) ↦ some (d, c ∷ others)
]

module _ {R : Type 0} where
  -- The first block of each method.
  unfoldable pub begin : Request → String → Exec (World R) Begun
  begin start_request id = do session ← start_begin id; pure (reserved session)
  begin stop_request id = stop_begin id
  begin restart_request id = do session ← restart_begin id; pure (reserved session)
  begin remove_request id = do session ← remove_begin id; pure (reserved session)

  -- The last block: the session that the method returns, if it returns one.
  unfoldable pub last_block : Request → String → ℕ → Exec (World R) (Option Session)
  last_block start_request id now = do session ← running_end id now; pure (some session)
  last_block stop_request id now = do session ← stopped_end id now; pure (some session)
  last_block restart_request id now = do session ← running_end id now; pure (some session)
  last_block remove_request id now = do remove_end id; pure none

  -- The handlers and, where nothing was thrown, the last block.
  unfoldable pub end :
      Request → String → Session → Result (Unit {0}) → ℕ → Exec (World R) (Option Session)
  end request id session result now = do
    or_record_failure (action request) id session now result
    last_block request id now

  abbrev admit : Request → String → List Call → Result Begun → World R → System R
  admit request id calls (ok (reserved session)) w = record {
    world = w;
    calls = record { request = request; id = id; session = session; result = none } ∷ calls;
  }
  admit request id calls (ok (returned session)) w = record { world = w; calls = calls }
  admit request id calls (err e) w = record { world = w; calls = calls }

  abbrev after_create : System R → Option (Result Session × World R) → System R
  after_create s none = s
  after_create s (some (r, w)) = record s { world = w }

  abbrev come_back : R → Result (Unit {0}) → System R → Option (Call × List Call) → System R
  come_back runtime result s none = s
  come_back runtime result s (some (c, others)) = elim c.result [
    | none ↦ record {
      world = record s.world { runtime = runtime };
      calls = record c { result = some result } ∷ others;
    }
    | some r ↦ s
  ]

  abbrev finish : ℕ → System R → Option (Call × List Call) → System R
  finish now s none = s
  finish now s (some (c, others)) = elim c.result [
    | none ↦ s
    | some r ↦ record { world = (end c.request c.id c.session r now s.world).1; calls = others }
  ]

  unfoldable pub step : Event R → System R → System R
  step (creates name grc alias draws now) s =
      after_create s (create name grc alias draws now s.world)
  step (begins request id) s =
      admit request id s.calls (begin request id s.world).0 (begin request id s.world).1
  step (comes_back n runtime result) s = come_back runtime result s (pick n s.calls)
  step (ends n now) s = finish now s (pick n s.calls)

  unfoldable pub run : List (Event R) → System R → System R
  run [] s = s
  run (event ∷ events) s = run events (step event s)
