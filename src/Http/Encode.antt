-- ===== src/Http/Encode.antt =====
-- The `…_to_json` functions of src/api/http_server.cpp. `format_timestamp_utc`, which prints by the
-- calendar of the C library, is a parameter.
use gnuradio4_control_plane.Prelude.{
  ℕ, String, Option, none, some, List, [], ◌∷◌, map, Assoc, insert,
}
use gnuradio4_control_plane.Domain.Session
use gnuradio4_control_plane.Domain.Session.{
  Session, SessionState, session_state_from_string, session_state_from_string-to_string,
}
use gnuradio4_control_plane.Domain.Stream.{
  BrowserStreamDescriptor, StreamRuntimePlan, to_browser_stream_descriptor,
}
use gnuradio4_control_plane.Catalog.{
  BlockParameterDefault, null_default, bool_default, int_default, double_default, string_default,
  BlockPortCardinalityKind, fixed, dynamic, BlockPortDescriptor, BlockParameterDescriptor,
  BlockDescriptor, SchedulerDescriptor,
}
use gnuradio4_control_plane.Json.{JsonLibrary}

-- `if (value.has_value()) body[key] = *value`.
abbrev set_some : {J A : Type 0} → String → (A → J) → Option A → Assoc J → Assoc J
set_some key encode none body = body
set_some key encode (some value) body = insert key (encode value) body

abbrev cardinality_text : BlockPortCardinalityKind → String
cardinality_text fixed = "fixed"
cardinality_text dynamic = "dynamic"

module _ (json : JsonLibrary) where
  open json use {Json, Double, null, boolean, integer, double, text, array, object, member}

  unfoldable pub stream_to_json : BrowserStreamDescriptor → Json
  stream_to_json stream = object (
      ("id", text stream.id)
      ∷ ("block_instance_name", text stream.block_instance_name)
      ∷ ("transport", text stream.transport)
      ∷ ("payload_format", text stream.payload_format)
      ∷ ("path", text stream.path)
      ∷ ("ready", boolean stream.ready)
      ∷ [])

  unfoldable pub stream_plan_to_json : StreamRuntimePlan → Json
  unfolding stream_to_json
  stream_plan_to_json plan =
      array (map (λ stream. stream_to_json (to_browser_stream_descriptor stream)) plan.streams)

  unfoldable pub block_parameter_default_to_json : BlockParameterDefault Double → Json
  block_parameter_default_to_json null_default = null
  block_parameter_default_to_json (bool_default b) = boolean b
  block_parameter_default_to_json (int_default n) = integer n
  block_parameter_default_to_json (double_default d) = double d
  block_parameter_default_to_json (string_default s) = text s

  unfoldable pub block_port_to_json : BlockPortDescriptor → Json
  block_port_to_json port =
      let body₀ : Assoc Json =
        ("name", text port.name)
        ∷ ("type", text port.type)
        ∷ ("cardinality_kind", text (cardinality_text port.cardinality_kind))
        ∷ [] in
      let body₁ = set_some "current_port_count" integer port.current_port_count body₀ in
      let body₂ = set_some "render_port_count" integer port.render_port_count body₁ in
      let body₃ = set_some "min_port_count" integer port.min_port_count body₂ in
      let body₄ = set_some "max_port_count" integer port.max_port_count body₃ in
      let body₅ = set_some "size_parameter" text port.size_parameter body₄ in
      object (set_some "handle_name_template" text port.handle_name_template body₅)

  abbrev labels_or : Assoc String → Assoc Json → Assoc Json
  labels_or [] body = body
  labels_or (label ∷ labels) body =
      insert "enum_labels"
        (object (map (λ (entry : String × String). (entry.0, text entry.1)) (label ∷ labels))) body

  unfoldable pub block_parameter_to_json : BlockParameterDescriptor Double → Json
  unfolding block_parameter_default_to_json
  block_parameter_to_json parameter =
      let body₀ : Assoc Json =
        ("name", text parameter.name)
        ∷ ("type", text parameter.type)
        ∷ ("required", boolean parameter.required)
        ∷ ("default", block_parameter_default_to_json parameter.default_value)
        ∷ ("summary", text parameter.summary)
        ∷ [] in
      let body₁ = set_some "runtime_mutability" text parameter.runtime_mutability body₀ in
      let body₂ = set_some "value_kind" text parameter.value_kind body₁ in
      let body₃ =
        set_some "enum_choices" (λ choices. array (map text choices)) parameter.enum_choices
          body₂ in
      let body₄ = set_some "enum_type" text parameter.enum_type body₃ in
      let body₅ = labels_or parameter.enum_labels body₄ in
      let body₆ = set_some "enum_source" text parameter.enum_source body₅ in
      let body₇ = set_some "ui_hint" text parameter.ui_hint body₆ in
      object (set_some "allow_custom_value" boolean parameter.allow_custom_value body₇)

  unfoldable pub block_to_json : BlockDescriptor Double → Json
  unfolding block_port_to_json block_parameter_to_json
  block_to_json block = object (
      ("id", text block.id)
      ∷ ("name", text block.name)
      ∷ ("category", text block.category)
      ∷ ("summary", text block.summary)
      ∷ ("inputs", array (map block_port_to_json block.inputs))
      ∷ ("outputs", array (map block_port_to_json block.outputs))
      ∷ ("parameters", array (map block_parameter_to_json block.parameters))
      ∷ [])

  unfoldable pub blocks_to_json : List (BlockDescriptor Double) → Json
  unfolding block_to_json
  blocks_to_json blocks = array (map block_to_json blocks)

  unfoldable pub scheduler_to_json : SchedulerDescriptor → Json
  scheduler_to_json scheduler = object (("id", text scheduler.id) ∷ [])

  unfoldable pub schedulers_to_json : List SchedulerDescriptor → Json
  unfolding scheduler_to_json
  schedulers_to_json schedulers = array (map scheduler_to_json schedulers)

  abbrev text_or_null : Option String → Json
  text_or_null none = null
  text_or_null (some s) = text s

  module _ (format_timestamp_utc : ℕ → String) where
    unfoldable pub session_to_json : Session → Option StreamRuntimePlan → Json
    unfolding stream_plan_to_json
    session_to_json session stream_plan =
        let body : Assoc Json =
          ("id", text session.id)
          ∷ ("name", text session.name)
          ∷ ("state", text (Session.to_string session.state))
          ∷ ("created_at", text (format_timestamp_utc session.created_at))
          ∷ ("updated_at", text (format_timestamp_utc session.updated_at))
          ∷ ("last_error", text_or_null session.last_error)
          ∷ [] in
        let with_scheduler = set_some "scheduler_id" text session.scheduler_alias body in
        object (set_some "streams" stream_plan_to_json stream_plan with_scheduler)

    -- The sessions with the plans at the same positions; a missing plan is none.
    unfoldable pub session_list : List Session → List (Option StreamRuntimePlan) → List Json
    unfolding session_to_json
    session_list [] plans = []
    session_list (session ∷ sessions) [] = session_to_json session none ∷ session_list sessions []
    session_list (session ∷ sessions) (plan ∷ plans) =
        session_to_json session plan ∷ session_list sessions plans

    unfoldable pub sessions_to_json : List Session → List (Option StreamRuntimePlan) → Json
    unfolding session_list
    sessions_to_json sessions plans = array (session_list sessions plans)
