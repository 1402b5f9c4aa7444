-- ===== src/Runtime/Gr4/Quiet.antt =====
-- The steps of `Gr4RuntimeManager` (src/runtime/gr4_runtime_manager.cpp) that touch GNU Radio alone.
use gnuradio4_control_plane.Prelude.{
  String, ◌≡◌, refl, ◌∙◌, Option, none, some, List, inl, inr, Option-cases,
}
use gnuradio4_control_plane.Errors.{Exec, Result, ok, err, pure, continue}
use gnuradio4_control_plane.Pmt.{Pmt}
use gnuradio4_control_plane.Domain.Session.{Session}
use gnuradio4_control_plane.Domain.Stream.{RuntimeStreamBinding}
use gnuradio4_control_plane.Runtime.Allocator.{Sockets}
use gnuradio4_control_plane.Streams.Blocks.{value_or}
use gnuradio4_control_plane.Runtime.Radio.{Radio}
use gnuradio4_control_plane.Runtime.Graph.{normalize_graph_content}
use gnuradio4_control_plane.Runtime.Gr4.{
  Locked, on_radio, bootstrap_error, throw_kept, preferred_scheduler,
}
use gnuradio4_control_plane.Runtime.Gr4.Execute.{
  ensure_runtime_environment, default_scheduler_alias, load_scheduler, bootstrap_once,
  bootstrap_all, set_graph_or, instantiate, instantiate_or, load_from, load_graph,
}

module _ {O W S : Type 0} where
  -- The resources and the ports are as before.
  pub record Same (s s' : Locked O W S) : Type 0 where
    pub own : s'.own ≡ s.own
    pub allocator : s'.shared.stream_allocator ≡ s.shared.stream_allocator

  pub same : (s : Locked O W S) → Same s s
  same s = record { own = refl; allocator = refl }

  pub Same-trans : (s s' s'' : Locked O W S) → Same s s' → Same s' s'' → Same s s''
  Same-trans s s' s'' p q = record { own = q.own ∙ p.own; allocator = q.allocator ∙ p.allocator }

  pub on_radio-Same : {A : Type 0} (m : Exec W A) (s : Locked O W S) → Same s (on_radio m s).1
  on_radio-Same m s = record { own = refl; allocator = refl }

  -- A step is followed by another one.
  pub continue-Same :
      {A B : Type 0} (s s' : Locked O W S) (r : Result A) (f : A → Exec (Locked O W S) B)
      → Same s s'
      → ((a : A) (s : Locked O W S) → Same s (f a s).1)
      → Same s (continue r f s').1
  continue-Same s s' (ok a) f p q = Same-trans s s' _ p (q a s')
  continue-Same s s' (err e) f p q = p

  throw_kept-Same : (kept : Option String) (s : Locked O W S) → Same s (throw_kept kept s).1
  throw_kept-Same none s = same s
  throw_kept-Same (some text) s = same s

module _ (pmt : Pmt) {O W : Type 0} (sockets : Sockets O) (radio : Radio pmt W)
    (plugin_directories : List String) where
  open radio use {Graph, Scheduler}

  bootstrap_once-Same :
      (kept : Option (Option String)) (s : Locked O W Scheduler)
      → Same s (bootstrap_once pmt sockets radio plugin_directories kept s).1
  bootstrap_once-Same (some kept) s = throw_kept-Same kept s
  bootstrap_once-Same none s =
      elim (Option-cases
        (bootstrap_error (bootstrap_all pmt sockets radio plugin_directories s.shared.radio).0)) [
          | inl e ↦ rw (e, bootstrap_once) (record { own = refl; allocator = refl })
          | inr (kept, e) ↦
              rw (e, bootstrap_once)
                (Same-trans s _ _ (record { own = refl; allocator = refl })
                  (throw_kept-Same kept _))
        ]

  pub ensure_runtime_environment-Same :
      (s : Locked O W Scheduler)
      → Same s (ensure_runtime_environment pmt sockets radio plugin_directories s).1
  unfolding ensure_runtime_environment
  ensure_runtime_environment-Same s = bootstrap_once-Same s.shared.bootstrapped s

  set_graph_or-Same :
      (session : Session) (graph : Graph) (alias : String) (o : Option Scheduler)
      (s : Locked O W Scheduler)
      → Same s (set_graph_or pmt sockets radio plugin_directories session graph alias o s).1
  set_graph_or-Same session graph alias none s = same s
  set_graph_or-Same session graph alias (some scheduler) s =
      continue-Same s _ _ (λ done. pure scheduler)
        (on_radio-Same (radio.set_graph scheduler graph) s) (λ done s. same s)

  instantiate-Same :
      (session : Session) (graph : Graph) (alias : String) (s : Locked O W Scheduler)
      → Same s (instantiate pmt sockets radio plugin_directories session graph alias s).1
  instantiate-Same session graph alias s =
      continue-Same s _ _ (set_graph_or pmt sockets radio plugin_directories session graph alias)
        (on_radio-Same (radio.instantiate_scheduler alias) s)
        (set_graph_or-Same session graph alias)

  default_scheduler_alias-Same :
      (s : Locked O W Scheduler)
      → Same s (default_scheduler_alias pmt sockets radio plugin_directories s).1
  unfolding default_scheduler_alias
  default_scheduler_alias-Same s =
      continue-Same s _ _ (λ available. pure (preferred_scheduler available))
        (on_radio-Same radio.available_schedulers s) (λ available s. same s)

  load_from-Same :
      (session : Session) (graph : Graph) (s : Locked O W Scheduler)
      → Same s (load_from pmt sockets radio plugin_directories session graph s).1
  load_from-Same session graph s =
      continue-Same s _ _ (instantiate_or pmt sockets radio plugin_directories session graph)
        (default_scheduler_alias-Same s)
        (λ alias. instantiate-Same session graph (value_or session.scheduler_alias alias))

  load_graph-Same :
      (session : Session) (content : String) (s : Locked O W Scheduler)
      → Same s (load_graph pmt sockets radio plugin_directories session content s).1
  load_graph-Same session content s =
      continue-Same s _ _ (load_from pmt sockets radio plugin_directories session)
        (on_radio-Same (radio.load_grc content) s) (load_from-Same session)

  pub load_scheduler-Same :
      (session : Session) (bindings : List RuntimeStreamBinding) (s : Locked O W Scheduler)
      → Same s (load_scheduler pmt sockets radio plugin_directories session bindings s).1
  unfolding load_scheduler
  load_scheduler-Same session bindings s =
      continue-Same s s (normalize_graph_content pmt session.grc_content bindings)
        (load_graph pmt sockets radio plugin_directories session) (same s) (load_graph-Same session)
