-- ===== src/Runtime/Stub.antt =====
-- src/runtime/stub_runtime_manager.cpp: the runtime manager of the tests, which keeps the stream
-- bindings and the settings and runs nothing. The lines that it writes to the log are left out.
pub mod Balance
pub mod Settings
use gnuradio4_control_plane.Prelude.{
  ℕ, String, Bool, true, false, ◌&&◌, not, Option, none, some, List, [], ◌∷◌, ◌++◌, map,
  if◌then◌else◌, ◌==◌, ◌<>◌, Assoc, find, insert, erase,
}
use gnuradio4_control_plane.Errors.{Exec, Result, ok, err, pure, throw, ◌>>=◌, ◌>>◌, std_error}
use gnuradio4_control_plane.Pmt.{Pmt}
use gnuradio4_control_plane.Domain.Session.{Session}
use gnuradio4_control_plane.Domain.Stream.{
  RuntimeStreamBindingPlan, StreamRuntimePlan, InternalStreamBinding, RuntimeStreamBinding,
  to_browser_stream_descriptor,
}
use gnuradio4_control_plane.Streams.Plan.{
  derive_stream_runtime_plan, validate_stream_runtime_contract,
}
use gnuradio4_control_plane.Runtime.{
  HttpStreamResponse, WebSocketStreamRoute, BlockSettingsMode, RuntimeManager,
}
use gnuradio4_control_plane.Runtime.Allocator.{
  Sockets, Allocator, allocate_http, allocate_websocket, release_all,
}

-- `O` is the operating system's state and `V` the type of values.
pub record Stub (O V : Type 0) : Type 0 where
  pub stream_allocator : Allocator O
  pub stream_bindings : Assoc (List RuntimeStreamBinding)
  pub settings : Assoc (Assoc (Assoc V))

abbrev pub list_or : {A : Type 0} → Option (List A) → List A
list_or none = []
list_or (some xs) = xs

abbrev is_websocket : RuntimeStreamBinding → Bool
is_websocket binding = binding.plan.transport == "websocket"

-- `insert_or_assign` of each entry of a patch.
unfoldable pub merge : {V : Type 0} → Assoc V → Assoc V → Assoc V
merge [] settings = settings
merge ((key, value) ∷ patch) settings = merge patch (insert key value settings)

module _ {O V : Type 0} where
  abbrev pub released : String → Stub O V → Option (List RuntimeStreamBinding) → Stub O V
  released id s none = s
  released id s (some bindings) = record s {
    stream_allocator = release_all bindings s.stream_allocator;
    stream_bindings = erase id s.stream_bindings;
  }

  unfoldable pub release_streams : String → Exec (Stub O V) (Unit {0})
  release_streams id s = (ok tt, released id s (find id s.stream_bindings))

  -- `stream_bindings_[id]`, which makes an empty entry where there is none.
  unfoldable pub open_entry : String → Exec (Stub O V) (Unit {0})
  open_entry id s = (
    ok tt,
    record s {
      stream_bindings = insert id (list_or (find id s.stream_bindings)) s.stream_bindings;
    },
  )

  unfoldable pub push_binding : String → RuntimeStreamBinding → Exec (Stub O V) (Unit {0})
  push_binding id binding s = (
    ok tt,
    record s {
      stream_bindings =
          insert id (list_or (find id s.stream_bindings) ++ binding ∷ []) s.stream_bindings;
    },
  )

  abbrev pub on_allocator : {A : Type 0} → Exec (Allocator O) A → Exec (Stub O V) A
  on_allocator m s =
      ((m s.stream_allocator).0, record s { stream_allocator = (m s.stream_allocator).1 })

module _ (pmt : Pmt) {O : Type 0} (sockets : Sockets O) where
  open pmt use {Value}

  abbrev pub State : Type 0
  State = Stub O Value

  unfoldable pub add_stream : String → RuntimeStreamBindingPlan → Exec State (Unit {0})
  unfolding push_binding
  add_stream id stream_plan = do
    internal ← on_allocator (
        if stream_plan.transport == "websocket"
        then allocate_websocket sockets
        else allocate_http sockets)
    push_binding id (record {
      plan = record stream_plan { ready = true };
      internal = internal;
      browser = to_browser_stream_descriptor (record stream_plan { ready = true });
    })

  unfoldable pub add_streams : String → List RuntimeStreamBindingPlan → Exec State (Unit {0})
  add_streams id [] = pure tt
  add_streams id (stream_plan ∷ plans) = do add_stream id stream_plan; add_streams id plans

  abbrev pub add_plan : String → Option StreamRuntimePlan → Exec State (Unit {0})
  add_plan id none = pure tt
  add_plan id (some plan) = do open_entry id; add_streams id plan.streams

  abbrev pub throw_some : Option String → Exec State (Unit {0})
  throw_some none = pure tt
  throw_some (some text) = throw (std_error text)

  unfoldable pub prepare : Session → Exec State (Unit {0})
  unfolding release_streams open_entry
  prepare session = do
    release_streams session.id
    throw_some (validate_stream_runtime_contract pmt session)
    add_plan session.id (derive_stream_runtime_plan pmt session)

  unfoldable pub start : Session → Exec State (Unit {0})
  start session = pure tt

  unfoldable pub stop : Session → Exec State (Unit {0})
  unfolding release_streams
  stop session = release_streams session.id

  unfoldable pub destroy : Session → Exec State (Unit {0})
  unfolding release_streams
  destroy session s =
      let s' = (release_streams session.id s).1 in
      (ok tt, record s' { settings = erase session.id s'.settings })

  abbrev plan_of : Option (List RuntimeStreamBinding) → Option StreamRuntimePlan
  plan_of none = none
  plan_of (some []) = none
  plan_of (some (binding ∷ bindings)) =
      some (record { streams = map (λ b. b.plan) (binding ∷ bindings) })

  unfoldable pub active_stream_plan : Session → Exec State (Option StreamRuntimePlan)
  active_stream_plan session s = (ok (plan_of (find session.id s.stream_bindings)), s)

  unfoldable pub find_binding :
      Bool → String → List RuntimeStreamBinding → Option RuntimeStreamBinding
  find_binding websocket stream_id [] = none
  find_binding websocket stream_id (binding ∷ bindings) =
      if binding.plan.stream_id == stream_id
        && (if websocket then is_websocket binding else not (is_websocket binding))
      then some binding
      else find_binding websocket stream_id bindings

  abbrev located :
      {A : Type 0}
      → Bool
      → String
      → (RuntimeStreamBinding → A)
      → Option (List RuntimeStreamBinding)
      → Result A
  located websocket stream_id answer none =
      err (std_error "session stream resources are not available")
  located websocket stream_id answer (some bindings) =
      elim (find_binding websocket stream_id bindings) [
        | none ↦ err (std_error ("stream not found in active session resources: " <> stream_id))
        | some binding ↦ ok (answer binding)
      ]

  unfoldable pub fetch_http_stream : Session → String → Exec State HttpStreamResponse
  unfolding find_binding
  fetch_http_stream session stream_id s = (
    located false stream_id
        (λ binding. record {
          status = 200;
          body = "{\"stub\":true}";
          content_type = "application/json";
        })
        (find session.id s.stream_bindings),
    s,
  )

  unfoldable pub resolve_websocket_stream : Session → String → Exec State WebSocketStreamRoute
  unfolding find_binding
  resolve_websocket_stream session stream_id s = (
    located true stream_id (λ binding. record { internal = binding.internal })
        (find session.id s.stream_bindings),
    s,
  )

  unfoldable pub set_block_settings :
      Session → String → Assoc Value → BlockSettingsMode → Exec State (Unit {0})
  set_block_settings session block patch mode s =
      let blocks = list_or (find session.id s.settings) in
      let merged = merge patch (list_or (find block blocks)) in
      (ok tt, record s { settings = insert session.id (insert block merged blocks) s.settings })

  unfoldable pub get_block_settings : Session → String → Exec State (Assoc Value)
  get_block_settings session block s =
      (ok (list_or (find block (list_or (find session.id s.settings)))), s)

  -- The stub as the services see it.
  abbrev pub manager : RuntimeManager (Assoc Value) State
  manager = record {
    prepare = prepare;
    start = start;
    stop = stop;
    destroy = destroy;
    active_stream_plan = active_stream_plan;
    fetch_http_stream = fetch_http_stream;
    resolve_websocket_stream = resolve_websocket_stream;
    set_block_settings = set_block_settings;
    get_block_settings = get_block_settings;
  }
