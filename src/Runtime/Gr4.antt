-- ===== src/Runtime/Gr4.antt =====
-- src/runtime/gr4_runtime_manager.cpp, `Gr4RuntimeManager`: the resources that it keeps for each
-- session. `resources_` is an association list; a method works on the entry of its session under the
-- entry's mutex, so that the methods on one session are one after the other. The lines of the debug
-- log are left out.
pub mod Execute
pub mod Teardown
pub mod Blocks
pub mod Methods
pub mod Destructor
pub mod Quiet
pub mod Ports
pub mod Held
pub mod Ending
pub mod Balance
pub mod Failure
pub mod Refused
pub mod Stopped
pub mod Removed
pub mod Started
pub mod Active
use gnuradio4_control_plane.Prelude.{
  ℕ, zero, suc, ◌+◌, ◌%◌, ◌^◌, String, Bool, true, false, not, ◌&&◌, Option, none, some, List, [],
  ◌∷◌, ◌++◌, map, if◌then◌else◌, ◌==◌, ◌<>◌, nat_eq, length, has_value, Assoc, find, insert, erase,
  text_lt, sort,
}
use gnuradio4_control_plane.Errors.{
  Exec, Exception, Result, ok, err, pure, throw, lift, continue, ◌>>=◌, ◌>>◌, std_error, what,
}
use gnuradio4_control_plane.Pmt.{Pmt}
use gnuradio4_control_plane.Domain.Session.{Session}
use gnuradio4_control_plane.Domain.Stream.{
  RuntimeStreamBindingPlan, StreamRuntimePlan, InternalStreamBinding, RuntimeStreamBinding,
  to_browser_stream_descriptor,
}
use gnuradio4_control_plane.Streams.Blocks.{value_or, is_empty}
use gnuradio4_control_plane.Streams.Plan.{
  member, derive_stream_runtime_plan, validate_stream_runtime_contract,
}
use gnuradio4_control_plane.Runtime.Allocator.{
  Sockets, Allocator, allocate_http, allocate_websocket, release_all,
}
use gnuradio4_control_plane.Runtime.Graph.{normalize_graph_content}
use gnuradio4_control_plane.Runtime.Radio.{Radio}

-- `LifecyclePhase`.
pub data Phase : Type 0 where
  idle starting running stopping failed : Phase

abbrev pub is_running : Phase → Bool
is_running running = true
is_running _ = false

abbrev pub is_stopping : Phase → Bool
is_stopping stopping = true
is_stopping _ = false

pub record Execution (S : Type 0) : Type 0 where
  pub scheduler : S
  pub running : Bool

pub record Resources (S : Type 0) : Type 0 where
  pub session_id : String
  pub generation : ℕ
  pub lifecycle_phase : Phase
  pub teardown_complete : Bool
  pub teardown_error : Option String
  pub async_error : Option String
  pub execution : Option (Execution S)
  pub stream_bindings : List RuntimeStreamBinding

-- `std::make_shared<SessionRuntimeResources>()`, with its session's id.
abbrev pub fresh_resources : {S : Type 0} → String → Resources S
fresh_resources id = record {
  session_id = id;
  generation = 0;
  lifecycle_phase = idle;
  teardown_complete = true;
  teardown_error = none;
  async_error = none;
  execution = none;
  stream_bindings = [];
}

-- What the sessions share: the allocator, GNU Radio, and the outcome of the bootstrap, once it has
-- been made (`std::call_once`), with its error.
pub record Shared (O W : Type 0) : Type 0 where
  pub stream_allocator : Allocator O
  pub radio : W
  pub bootstrapped : Option (Option String)

-- The state of a method that holds the mutex of its session's resources.
pub record Locked (O W S : Type 0) : Type 0 where
  pub own : Resources S
  pub shared : Shared O W

pub record Manager (O W S : Type 0) : Type 0 where
  pub resources : Assoc (Resources S)
  pub shared : Shared O W

unfoldable pub session_error : Session → String → String → Exception
session_error session phase detail =
    std_error ("session " <> session.id <> " " <> phase <> " failed: " <> detail)

-- `std::call_once`: an error of the bootstrap is kept and thrown by every later call. An exception
-- that is no `std::exception` passes through, and the next call makes the bootstrap again.
abbrev pub bootstrap_error : Result (Unit {0}) → Option (Option String)
bootstrap_error (ok done) = some none
bootstrap_error (err e) = elim (what e) [ none ↦ none | some text ↦ some (some text) ]

abbrev pub throw_kept : {S : Type 0} → Option String → Exec S (Unit {0})
throw_kept none = pure tt
throw_kept (some text) = throw (std_error ("GNU Radio 4 runtime initialization failed: " <> text))

-- The first of the names that is available.
unfoldable pub first_available : List String → List String → Option String
first_available [] available = none
first_available (name ∷ names) available =
    if member name available then some name else first_available names available

abbrev front_or : List String → String → String
front_or [] name = name
front_or (first ∷ rest) name = first

unfoldable pub preferred_scheduler : List String → String
unfolding first_available
preferred_scheduler available =
    value_or
      (first_available
        ("gr::incubator::scheduler::BlockingBackoff" ∷ "gr::scheduler::SimpleMulti"
          ∷ "gr::scheduler::SimpleSingle" ∷ [])
        available)
      (front_or (sort text_lt available) "gr::scheduler::SimpleMulti")

module _ {O W : Type 0} where
  abbrev pub released : List RuntimeStreamBinding → Shared O W → Shared O W
  released bindings shared = record shared {
    stream_allocator = release_all bindings shared.stream_allocator;
  }

module _ {O W S : Type 0} where
  abbrev pub set_own : (Resources S → Resources S) → Exec (Locked O W S) (Unit {0})
  set_own f s = (ok tt, record s { own = f s.own })

  abbrev pub release_bindings : List RuntimeStreamBinding → Exec (Locked O W S) (Unit {0})
  release_bindings bindings s = (ok tt, record s { shared = released bindings s.shared })

  unfoldable pub release_stream_bindings_locked : Exec (Locked O W S) (Unit {0})
  release_stream_bindings_locked s = (
    ok tt,
    record {
      own = record s.own { stream_bindings = [] };
      shared = released s.own.stream_bindings s.shared;
    },
  )

  abbrev pub on_allocator : {A : Type 0} → Exec (Allocator O) A → Exec (Locked O W S) A
  on_allocator m s =
      let (result, allocator) = m s.shared.stream_allocator in
      (result, record s { shared = record s.shared { stream_allocator = allocator } })

  abbrev pub on_radio : {A : Type 0} → Exec W A → Exec (Locked O W S) A
  on_radio m s =
      let (result, radio) = m s.shared.radio in
      (result, record s { shared = record s.shared { radio = radio } })
