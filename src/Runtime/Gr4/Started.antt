-- ===== src/Runtime/Gr4/Started.antt =====
-- A start that succeeds, in src/runtime/gr4_runtime_manager.cpp: the streams that run afterwards.
use gnuradio4_control_plane.Prelude.{
  String, ◌≡◌, refl, ap, true, false, inl, inr, Option, none, some, List, [], ◌∷◌, ◌==◌, arith,
  if◌then◌else◌, map, Option-cases,
}
use gnuradio4_control_plane.Errors.{
  Exec, Exception, Result, ok, err, pure, Result-cases, continue, ◌>>=◌, what,
}
use gnuradio4_control_plane.Pmt.{Pmt}
use gnuradio4_control_plane.Domain.Session.{Session}
use gnuradio4_control_plane.Domain.Stream.{
  RuntimeStreamBindingPlan, StreamRuntimePlan, InternalStreamBinding, RuntimeStreamBinding,
}
use gnuradio4_control_plane.Streams.Plan.{
  validate_stream_runtime_contract, derive_stream_runtime_plan,
}
use gnuradio4_control_plane.Runtime.Allocator.{
  allocate_http, allocate_websocket, Sockets, Allocator,
}
use gnuradio4_control_plane.Runtime.Radio.{Radio}
use gnuradio4_control_plane.Runtime.Gr4.{Locked, Execution, idle, release_stream_bindings_locked}
use gnuradio4_control_plane.Runtime.Gr4.Execute.{
  bound, allocate_streams, streams_or, allocate_and_load, prepare_new, loaded, failed_load,
  load_execution, ensure_runtime_environment,
}
use gnuradio4_control_plane.Runtime.Gr4.Methods.{plan_of, is_active}

-- A stream as it is announced while it runs.
abbrev pub ready : RuntimeStreamBindingPlan → RuntimeStreamBindingPlan
ready plan = record plan { ready = true }

abbrev pub announced : List RuntimeStreamBindingPlan → Option StreamRuntimePlan
announced [] = none
announced (plan ∷ plans) = some (record { streams = map ready (plan ∷ plans) })

abbrev pub plans_of : List RuntimeStreamBinding → List RuntimeStreamBindingPlan
plans_of bindings = map (λ b. b.plan) bindings

pub plan_of-announced :
    (bindings : List RuntimeStreamBinding) (plans : List RuntimeStreamBindingPlan)
    → plans_of bindings ≡ map ready plans
    → plan_of bindings ≡ announced plans
plan_of-announced [] [] e = refl
plan_of-announced [] (plan ∷ plans) e = absurd (ground arith)
plan_of-announced (b ∷ bindings) [] e = absurd (ground arith)
plan_of-announced (b ∷ bindings) (plan ∷ plans) e =
    ap (λ streams. some (record { streams = streams })) e

module _ (plans : List RuntimeStreamBindingPlan) where
  -- What holds of the outcome of the allocation, of `prepare` and of `start`, where it is a success.
  abbrev Announces : Result (List RuntimeStreamBinding) → Type 0
  Announces (ok bindings) = plans_of bindings ≡ map ready plans
  Announces (err e) = Unit

  module _ {O W S : Type 0} where
    abbrev pub Loaded : Result (Execution S) → Locked O W S → Type 0
    Loaded (ok execution) s =
        (execution.running ≡ false)
        × (s.own.lifecycle_phase ≡ idle)
        × (plans_of s.own.stream_bindings ≡ map ready plans)
    Loaded (err e) s = Unit

    abbrev pub Started : Result (Unit {0}) → Locked O W S → Type 0
    Started (ok done) s =
        (is_active s.own ≡ true) × (plans_of s.own.stream_bindings ≡ map ready plans)
    Started (err e) s = Unit

first-Announces :
    {O : Type 0} (plan : RuntimeStreamBindingPlan) (plans : List RuntimeStreamBindingPlan)
    (internal : InternalStreamBinding) (r : Result (List RuntimeStreamBinding)) (a : Allocator O)
    → Announces plans r
    → Announces (plan ∷ plans) (continue r (λ bindings. pure (bound plan internal ∷ bindings)) a).0
first-Announces plan plans internal (ok bindings) a h = ap (λ streams. ready plan ∷ streams) h
first-Announces plan plans internal (err e) a h = tt

continue-Announces :
    {O : Type 0} (plan : RuntimeStreamBindingPlan) (plans : List RuntimeStreamBindingPlan)
    (rest : Exec (Allocator O) (List RuntimeStreamBinding))
    → ((a : Allocator O) → Announces plans (rest a).0)
    → (r : Result InternalStreamBinding) (a : Allocator O)
    → Announces
        (plan ∷ plans)
        (continue r (λ internal. rest >>= λ bindings. pure (bound plan internal ∷ bindings)) a).0
continue-Announces plan plans rest h (ok internal) a =
    first-Announces plan plans internal (rest a).0 (rest a).1 (h a)
continue-Announces plan plans rest h (err e) a = tt

module _ (pmt : Pmt) {O W : Type 0} (sockets : Sockets O) (radio : Radio pmt W)
    (plugin_directories : List String) where
  open radio use {Scheduler}

  allocate_streams-Announces :
      (plans : List RuntimeStreamBindingPlan) (a : Allocator O)
      → Announces plans (allocate_streams pmt sockets radio plugin_directories plans a).0
  unfolding allocate_streams
  allocate_streams-Announces [] a = refl
  allocate_streams-Announces (plan ∷ plans) a =
      let m =
        if plan.transport == "websocket"
        then allocate_websocket sockets
        else allocate_http sockets in
      continue-Announces plan plans (allocate_streams pmt sockets radio plugin_directories plans)
        (allocate_streams-Announces plans) (m a).0 (m a).1

  failed_load-Loaded :
      (plans : List RuntimeStreamBindingPlan) (session : Session)
      (bindings : List RuntimeStreamBinding) (e : Exception) (o : Option String)
      (s : Locked O W Scheduler)
      → let m = failed_load pmt sockets radio plugin_directories session bindings e o s in
        Loaded plans m.0 m.1
  failed_load-Loaded plans session bindings e none s = tt
  failed_load-Loaded plans session bindings e (some text) s = tt

  loaded-Loaded :
      (plans : List RuntimeStreamBindingPlan) (session : Session)
      (bindings : List RuntimeStreamBinding) (r : Result Scheduler) (s : Locked O W Scheduler)
      → Announces plans (ok bindings)
      → let m = loaded pmt sockets radio plugin_directories session bindings r s in
        Loaded plans m.0 m.1
  loaded-Loaded plans session bindings (ok scheduler) s h = (refl, refl, h)
  loaded-Loaded plans session bindings (err e) s h =
      failed_load-Loaded plans session bindings e (what e) s

  allocated-Loaded :
      (plans : List RuntimeStreamBindingPlan) (session : Session)
      (r : Result (List RuntimeStreamBinding)) (s : Locked O W Scheduler)
      → Announces plans r
      → let m = continue r (load_execution pmt sockets radio plugin_directories session) s in
        Loaded plans m.0 m.1
  allocated-Loaded plans session (ok bindings) s h = loaded-Loaded plans session bindings _ _ h
  allocated-Loaded plans session (err e) s h = tt

  module _ (session : Session) where
    abbrev pub plans_for : List RuntimeStreamBindingPlan
    plans_for = streams_or (derive_stream_runtime_plan pmt session)

    allocate_and_load-Loaded :
        (s : Locked O W Scheduler)
        → let m = allocate_and_load pmt sockets radio plugin_directories session s in
          Loaded plans_for m.0 m.1
    allocate_and_load-Loaded s =
        allocated-Loaded plans_for session _ _
          (allocate_streams-Announces plans_for s.shared.stream_allocator)

    pub prepare_new-Loaded :
        (s : Locked O W Scheduler)
        → let m = prepare_new pmt sockets radio plugin_directories session s in
          Loaded plans_for m.0 m.1
    unfolding prepare_new release_stream_bindings_locked
    prepare_new-Loaded s =
        let m = ensure_runtime_environment pmt sockets radio plugin_directories s in
        elim (Option-cases (validate_stream_runtime_contract pmt session)) [
          | inl e ↦ elim (Result-cases m.0) [
            | inl (u, f) ↦
                rw (e, prepare_new, f)
                  (allocate_and_load-Loaded (release_stream_bindings_locked m.1).1)
            | inr (x, f) ↦ rw (e, prepare_new, f) tt
          ]
          | inr (text, e) ↦ rw (e, prepare_new) tt
        ]
