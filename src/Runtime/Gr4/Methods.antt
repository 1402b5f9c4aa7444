-- ===== src/Runtime/Gr4/Methods.antt =====
-- The public methods of `Gr4RuntimeManager` (src/runtime/gr4_runtime_manager.cpp).
use gnuradio4_control_plane.Prelude.{
  String, Bool, true, false, not, ◌&&◌, Option, none, some, List, [], ◌∷◌, map, if◌then◌else◌, ◌==◌,
  ◌<>◌, Assoc, find, insert, erase,
}
use gnuradio4_control_plane.Errors.{
  Exec, Exception, Result, ok, err, pure, throw, lift, ◌>>=◌, ◌>>◌, block_not_found_error,
  reply_timeout_error, what,
}
use gnuradio4_control_plane.Pmt.{Pmt}
use gnuradio4_control_plane.Domain.Session.{Session}
use gnuradio4_control_plane.Domain.Stream.{StreamRuntimePlan, RuntimeStreamBinding}
use gnuradio4_control_plane.Streams.Blocks.{is_empty}
use gnuradio4_control_plane.Runtime
use gnuradio4_control_plane.Runtime.{
  HttpStreamResponse, WebSocketStreamRoute, BlockSettingsMode, RuntimeManager,
}
use gnuradio4_control_plane.Runtime.Allocator.{Sockets}
use gnuradio4_control_plane.Runtime.Radio.{Radio, RuntimeBlock, HttpReply}
use gnuradio4_control_plane.Runtime.Gr4.{
  Execution, Resources, fresh_resources, Locked, Manager, is_running, session_error,
}
use gnuradio4_control_plane.Runtime.Gr4.Blocks.{
  resolve_runtime_block, summarize_runtime_blocks, block_or,
}
use gnuradio4_control_plane.Runtime.Gr4.Execute.{prepare_locked, start_locked}
use gnuradio4_control_plane.Runtime.Gr4.Teardown.{stop_locked, destroy_locked}

abbrev is_websocket : RuntimeStreamBinding → Bool
is_websocket binding = binding.plan.transport == "websocket"

-- `find_if` on the bindings, for a websocket stream or for another one.
unfoldable pub find_stream : Bool → String → List RuntimeStreamBinding → Option RuntimeStreamBinding
find_stream websocket stream_id [] = none
find_stream websocket stream_id (binding ∷ bindings) =
    if binding.plan.stream_id == stream_id
      && (if websocket then is_websocket binding else not (is_websocket binding))
    then some binding
    else find_stream websocket stream_id bindings

-- `execution != nullptr && execution->running && lifecycle_phase == Running`.
abbrev pub runs : {S : Type 0} → Option (Execution S) → Bool
runs none = false
runs (some execution) = execution.running

abbrev pub is_active : {S : Type 0} → Resources S → Bool
is_active r = runs r.execution && is_running r.lifecycle_phase

abbrev pub plan_of : List RuntimeStreamBinding → Option StreamRuntimePlan
plan_of [] = none
plan_of (binding ∷ bindings) = some (record { streams = map (λ b. b.plan) (binding ∷ bindings) })

abbrev pub active_plan : {S : Type 0} → Option (Resources S) → Option StreamRuntimePlan
active_plan none = none
active_plan (some r) = if is_active r then plan_of r.stream_bindings else none

-- The resources of a session that runs.
abbrev active_or : {S : Type 0} → Session → String → Option (Resources S) → Result (Resources S)
active_or session action none = err (session_error session action "session runtime is not running")
active_or session action (some r) =
    if is_active r
    then ok r
    else err (session_error session action "session runtime is not running")

abbrev stream_or :
    Session → String → String → Option RuntimeStreamBinding → Result RuntimeStreamBinding
stream_or session action stream_id none =
    err
      (session_error session action ("stream not found in active runtime resources: " <> stream_id))
stream_or session action stream_id (some binding) = ok binding

module _ (pmt : Pmt) where
  open pmt use {Value}

  -- The handlers around a request: two classes pass, every other `std::exception` is wrapped.
  abbrev wrapped : Session → String → Exception → Exception
  wrapped session action (block_not_found_error text) = block_not_found_error text
  wrapped session action (reply_timeout_error text) = reply_timeout_error text
  wrapped session action e = elim (what e) [
    | none ↦ e
    | some text ↦ session_error session action text
  ]

  abbrev wrap : {A : Type 0} → Session → String → Result A → Result A
  wrap session action (ok a) = ok a
  wrap session action (err e) = err (wrapped session action e)

  module _ {O W : Type 0} (sockets : Sockets O) (radio : Radio pmt W)
      (plugin_directories : List String) where
    open radio use {Scheduler}

    abbrev pub State : Type 0
    State = Manager O W Scheduler

    abbrev pub locked :
        {A : Type 0} → String → Resources Scheduler → Exec (Locked O W Scheduler) A → Exec State A
    locked id r m s =
        let (result, next) = m (record { own = r; shared = s.shared }) in
        (result, record { resources = insert id next.own s.resources; shared = next.shared })

    abbrev pub resources_or : String → Option (Resources Scheduler) → Resources Scheduler
    resources_or id none = fresh_resources id
    resources_or id (some r) = r

    unfoldable pub get_or_create_resources : String → State → Resources Scheduler
    get_or_create_resources id s = resources_or id (find id s.resources)

    unfoldable pub prepare : Session → Exec State (Unit {0})
    unfolding prepare_locked get_or_create_resources
    prepare session s =
        locked session.id (get_or_create_resources session.id s)
          (do prepare_locked pmt sockets radio plugin_directories session; pure tt) s

    unfoldable pub start : Session → Exec State (Unit {0})
    unfolding start_locked get_or_create_resources
    start session s =
        locked session.id (get_or_create_resources session.id s)
          (start_locked pmt sockets radio plugin_directories session) s

    abbrev pub stop_found : Session → Option (Resources Scheduler) → Exec State (Unit {0})
    stop_found session none s = (ok tt, s)
    stop_found session (some r) s =
        locked session.id r (stop_locked pmt sockets radio plugin_directories session) s

    unfoldable pub stop : Session → Exec State (Unit {0})
    unfolding stop_locked
    stop session s = stop_found session (find session.id s.resources) s

    -- The entry is taken out where nothing was thrown.
    abbrev pub take_out : String → Result (Unit {0}) → State → Result (Unit {0}) × State
    take_out id (ok done) s = (ok tt, record s { resources = erase id s.resources })
    take_out id (err e) s = (err e, s)

    abbrev pub destroy_found : Session → Option (Resources Scheduler) → Exec State (Unit {0})
    destroy_found session none s = (ok tt, s)
    destroy_found session (some r) s =
        let (result, next) =
          locked session.id r (destroy_locked pmt sockets radio plugin_directories session) s in
        take_out session.id result next

    unfoldable pub destroy : Session → Exec State (Unit {0})
    unfolding destroy_locked
    destroy session s = destroy_found session (find session.id s.resources) s

    unfoldable pub active_stream_plan : Session → Exec State (Option StreamRuntimePlan)
    active_stream_plan session s = (ok (active_plan (find session.id s.resources)), s)

    abbrev on_world : {A : Type 0} → Exec W A → Exec State A
    on_world m s =
        let (result, world) = m s.shared.radio in
        (result, record s { shared = record s.shared { radio = world } })

    abbrev reply_or : Session → Option HttpReply → Exec State HttpStreamResponse
    reply_or session none =
        throw (session_error session "stream fetch" "failed to reach internal HTTP stream endpoint")
    reply_or session (some reply) = pure (record {
      status = reply.status;
      body = reply.body;
      content_type =
          if is_empty reply.content_type then "application/octet-stream" else reply.content_type;
    })

    unfoldable pub fetch_http_stream : Session → String → Exec State HttpStreamResponse
    unfolding find_stream session_error
    fetch_http_stream session stream_id s =
        (do
          r ← lift (active_or session "stream fetch" (find session.id s.resources))
          binding ← lift (
              stream_or session "stream fetch" stream_id
                (find_stream false stream_id r.stream_bindings))
          reply ←
              on_world
                (radio.http_get binding.internal.host binding.internal.port binding.internal.path)
          reply_or session reply)
          s

    unfoldable pub resolve_websocket_stream : Session → String → Exec State WebSocketStreamRoute
    unfolding find_stream session_error
    resolve_websocket_stream session stream_id s =
        (do
          r ← lift (active_or session "websocket route" (find session.id s.resources))
          binding ← lift (
              stream_or session "websocket route" stream_id
                (find_stream true stream_id r.stream_bindings))
          pure (record { internal = binding.internal }))
          s

    abbrev execution_or :
        Session → String → Option (Execution Scheduler) → Result (Execution Scheduler)
    execution_or session action none =
        err (session_error session action "session runtime is not running")
    execution_or session action (some execution) = ok execution

    abbrev blocks_or :
        Session → String → Option (List (RuntimeBlock Value)) → Result (List (RuntimeBlock Value))
    blocks_or session action none =
        err (session_error session action "scheduler does not expose a runtime block model")
    blocks_or session action (some blocks) = ok blocks

    -- The scheduler and the unique name of the block that a settings request goes to.
    unfoldable pub settings_target : Session → String → String → Exec State (Scheduler × String)
    unfolding session_error resolve_runtime_block summarize_runtime_blocks
    settings_target session block_target action s =
        (do
          r ← lift (active_or session action (find session.id s.resources))
          execution ← lift (execution_or session action r.execution)
          blocks ←
              lift
                (blocks_or session action (radio.runtime_blocks execution.scheduler s.shared.radio))
          block ←
              lift
                (block_or pmt block_target blocks (resolve_runtime_block pmt block_target blocks))
          pure (execution.scheduler, block.unique_name))
          s

    abbrev asked : {A : Type 0} → Session → String → Exec W A → Exec State A
    asked session action m s =
        let (result, next) = on_world m s in (wrap session action result, next)

    -- The endpoints `kStagedSetting` and `kSetting`, which are GNU Radio's, are named by the mode.
    unfoldable pub set_block_settings :
        Session → String → Assoc Value → BlockSettingsMode → Exec State (Unit {0})
    unfolding settings_target
    set_block_settings session block_target patch mode = do
      target ← settings_target session block_target "settings update"
      asked session "settings update"
          (radio.request_set target.0 target.1 (Runtime.to_string mode) patch)

    unfoldable pub get_block_settings : Session → String → Exec State (Assoc Value)
    unfolding settings_target
    get_block_settings session block_target = do
      target ← settings_target session block_target "settings read"
      asked session "settings read" (radio.request_get target.0 target.1 "settings")

    -- The manager as the services see it.
    abbrev pub manager : RuntimeManager (Assoc Value) State
    manager = record {
      prepare = prepare;
      start = start;
      stop = stop;
      destroy = destroy;
      active_stream_plan = active_stream_plan;
      fetch_http_stream = fetch_http_stream;
      resolve_websocket_stream = resolve_websocket_stream;
      set_block_settings = set_block_settings;
      get_block_settings = get_block_settings;
    }
