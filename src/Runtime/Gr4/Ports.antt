-- ===== src/Runtime/Gr4/Ports.antt =====
-- The ports that the allocator of src/runtime/gr4_runtime_manager.cpp holds while the mutex of a
-- session's resources is held, against the bindings of that session and of the others.
use gnuradio4_control_plane.Prelude.{
  ℕ, ◌+◌, ◌≤◌, String, ◌≡◌, refl, Bool, true, false, some, List, [], ◌∷◌, arith, if◌then◌else◌,
  nat_eq, ◌==◌,
}
use gnuradio4_control_plane.Errors.{Exec, Result, ok, err, pure, continue, ◌>>=◌}
use gnuradio4_control_plane.Pmt.{Pmt}
use gnuradio4_control_plane.Domain.Stream.{
  RuntimeStreamBindingPlan, InternalStreamBinding, RuntimeStreamBinding,
}
use gnuradio4_control_plane.Runtime.Allocator.{
  Sockets, Allocator, allocate_http, allocate_websocket,
}
use gnuradio4_control_plane.Runtime.Allocator.Ports.{
  count, Adds, AddsPort, port_of, allocate_http-Adds, allocate_websocket-Adds,
}
use gnuradio4_control_plane.Runtime.Allocator.Bindings.{port_count}
use gnuradio4_control_plane.Runtime.Radio.{Radio}
use gnuradio4_control_plane.Runtime.Gr4.Execute.{bound, allocate_streams}

-- The ports of the bindings that an allocation brings.
abbrev pub gained : ℕ → Result (List RuntimeStreamBinding) → ℕ
gained port (ok bindings) = port_count port bindings
gained port (err e) = 0

abbrev pub Exact :
    {O : Type 0} → Allocator O → Result (List RuntimeStreamBinding) → Allocator O → Type 0
Exact a (ok bindings) a' =
    (port : ℕ)
    → count port a'.allocated_ports ≡ count port a.allocated_ports + port_count port bindings
Exact a (err e) a' = (port : ℕ) → count port a.allocated_ports ≤ count port a'.allocated_ports

-- What allocating for a list of streams does: a success adds the ports of its bindings, and a failure
-- takes no port away.
pub record Grows {O : Type 0} (a : Allocator O) (r : Result (List RuntimeStreamBinding))
    (a' : Allocator O) : Type 0 where
  pub exact : Exact a r a'
  pub single :
      ((port : ℕ) → count port a.allocated_ports ≤ 1)
      → (port : ℕ) → count port a'.allocated_ports ≤ 1

pub Grows-gained :
    {O : Type 0} (a : Allocator O) (r : Result (List RuntimeStreamBinding)) (a' : Allocator O)
    → Grows a r a'
    → (port : ℕ) → count port a.allocated_ports + gained port r ≤ count port a'.allocated_ports
Grows-gained a (ok bindings) a' g port = omega (arith, g.exact port)
Grows-gained a (err e) a' g port = omega (arith, g.exact port)

module _ {O : Type 0} (plan : RuntimeStreamBindingPlan) (internal : InternalStreamBinding)
    (a a' : Allocator O)
    (adds : AddsPort (some internal.port) a.allocated_ports a'.allocated_ports) where
  added :
      (port : ℕ)
      → count port a'.allocated_ports
        ≡ (if nat_eq internal.port port then 1 else 0) + count port a.allocated_ports
  unfolding count
  added port = rw adds.0 refl

  single_added :
      ((port : ℕ) → count port a.allocated_ports ≤ 1)
      → (port : ℕ) → count port a'.allocated_ports ≤ 1
  single_added h port = ground (arith, h port, added port, adds.1)

  -- The binding of the first stream before those of the rest.
  cons-Grows :
      (r : Result (List RuntimeStreamBinding)) (a'' : Allocator O)
      → Grows a' r a''
      → Grows a
          (continue r (λ bindings. pure (bound plan internal ∷ bindings)) a'').0
          (continue r (λ bindings. pure (bound plan internal ∷ bindings)) a'').1
  unfolding port_count
  cons-Grows (ok bindings) a'' g = record {
    exact = λ port. ground (arith, added port, g.exact port);
    single = λ h. g.single (single_added h);
  }
  cons-Grows (err e) a'' g = record {
    exact = λ port. ground (arith, added port, g.exact port);
    single = λ h. g.single (single_added h);
  }

-- The first allocation before those of the rest.
first-Grows :
    {O : Type 0} (plan : RuntimeStreamBindingPlan)
    (rest : Exec (Allocator O) (List RuntimeStreamBinding))
    → ((a : Allocator O) → Grows a (rest a).0 (rest a).1)
    → (a : Allocator O) (r : Result InternalStreamBinding) (a' : Allocator O)
    → Adds port_of a (r, a')
    → let m =
        continue r (λ internal. rest >>= λ bindings. pure (bound plan internal ∷ bindings)) a' in
      Grows a m.0 m.1
first-Grows plan rest g a (ok internal) a' adds = cons-Grows plan internal a a' adds _ _ (g a')
first-Grows plan rest g a (err e) a' same = record {
  exact = λ port. rw same (omega arith);
  single = λ h port. rw same (h port);
}

module _ (pmt : Pmt) {O W : Type 0} (sockets : Sockets O) (radio : Radio pmt W)
    (plugin_directories : List String) where
  allocate-Adds :
      (websocket : Bool) (a : Allocator O)
      → Adds port_of a ((if websocket then allocate_websocket sockets else allocate_http sockets) a)
  allocate-Adds true a = allocate_websocket-Adds sockets a
  allocate-Adds false a = allocate_http-Adds sockets a

  pub allocate_streams-Grows :
      (plans : List RuntimeStreamBindingPlan) (a : Allocator O)
      → Grows a
          (allocate_streams pmt sockets radio plugin_directories plans a).0
          (allocate_streams pmt sockets radio plugin_directories plans a).1
  unfolding allocate_streams port_count
  allocate_streams-Grows [] a = record { exact = λ port. omega arith; single = λ h. h }
  allocate_streams-Grows (plan ∷ plans) a =
      first-Grows plan (allocate_streams pmt sockets radio plugin_directories plans)
        (allocate_streams-Grows plans) a _ _ (allocate-Adds (plan.transport == "websocket") a)
