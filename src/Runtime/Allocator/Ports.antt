-- ===== src/Runtime/Allocator/Ports.antt =====
-- The ports that the allocator of src/runtime/stream_binding_allocator.cpp holds.
use gnuradio4_control_plane.Prelude.{
  ℕ, zero, suc, ◌+◌, ◌<◌, String, ◌≡◌, refl, true, false, inl, inr, Option, none, some, List, [],
  ◌∷◌, arith, if◌then◌else◌, nat_eq, Bool-cases,
}
use gnuradio4_control_plane.Errors.{Result, ok, err, Result-cases, continue}
use gnuradio4_control_plane.Domain.Stream.{InternalStreamBinding}
use gnuradio4_control_plane.Runtime.Allocator.{
  Sockets, Allocator, has_port, erase_port, reserve_ephemeral_loopback_port, allocate_port,
  bound_or, attempts, http_binding, websocket_binding, allocate_http, allocate_websocket,
}

-- How often a port stands in a list.
unfoldable pub count : ℕ → List ℕ → ℕ
count port [] = 0
count port (p ∷ ports) = (if nat_eq p port then 1 else 0) + count port ports

pub count-erase_port :
    (p q : ℕ) (ports : List ℕ)
    → count q (erase_port p ports) ≡ (if nat_eq p q then 0 else count q ports)
unfolding count erase_port
count-erase_port p q [] = ground arith
count-erase_port p q (r ∷ ports) = ground (arith, count-erase_port p q ports)

count-has_port : (p : ℕ) (ports : List ℕ) → has_port p ports ≡ false → count p ports ≡ 0
unfolding count has_port
count-has_port p [] h = refl
count-has_port p (q ∷ ports) h = ground (arith, count-has_port p ports)

abbrev pub AddsPort : Option ℕ → List ℕ → List ℕ → Type 0
AddsPort none ports ports' = ports' ≡ ports
AddsPort (some port) ports ports' = (ports' ≡ port ∷ ports) × (count port ports ≡ 0)

abbrev pub port_of : InternalStreamBinding → Option ℕ
port_of binding = some binding.port

-- What an allocation does to the set of ports: it adds the new port, which no one held, or nothing.
abbrev pub Adds :
    {O : Type 0} {A : Type 0} → (A → Option ℕ) → Allocator O → Result A × Allocator O → Type 0
Adds port_of a (ok x, a') = AddsPort (port_of x) a.allocated_ports a'.allocated_ports
Adds port_of a (err e, a') = a'.allocated_ports ≡ a.allocated_ports

module _ {O : Type 0} (sockets : Sockets O) where
  allocate_port-Adds : (n : ℕ) (a : Allocator O) → Adds (λ port. port) a (allocate_port sockets n a)
  unfolding allocate_port
  allocate_port-Adds zero a = refl
  allocate_port-Adds (suc n) a =
      elim (Result-cases (reserve_ephemeral_loopback_port sockets a.os).0) [
        | inr (e, f) ↦ rw (f, allocate_port) refl
        | inl (port, f) ↦ elim (Bool-cases (has_port port a.allocated_ports)) [
          | inl h ↦
              rw (f, allocate_port, h)
                (allocate_port-Adds n
                  (record a { os = (reserve_ephemeral_loopback_port sockets a.os).1 }))
          | inr h ↦ rw (f, allocate_port, h) (refl, count-has_port port a.allocated_ports h)
        ]
      ]

  bound-Adds :
      (text : String) (binding : ℕ → InternalStreamBinding)
      → ((port : ℕ) → (binding port).port ≡ port)
      → (a : Allocator O) (r : Result (Option ℕ)) (a' : Allocator O) → Adds (λ port. port) a (r, a')
      → Adds port_of a (continue r (bound_or text binding) a')
  bound-Adds text binding same a (ok none) a' h = h
  bound-Adds text binding same a (ok (some port)) a' h = rw (same port) h
  bound-Adds text binding same a (err e) a' h = h

  pub allocate_http-Adds : (a : Allocator O) → Adds port_of a (allocate_http sockets a)
  unfolding allocate_http
  allocate_http-Adds a =
      bound-Adds _ http_binding (λ port. refl) a _ _ (allocate_port-Adds attempts a)

  pub allocate_websocket-Adds : (a : Allocator O) → Adds port_of a (allocate_websocket sockets a)
  unfolding allocate_websocket
  allocate_websocket-Adds a =
      bound-Adds _ websocket_binding (λ port. refl) a _ _ (allocate_port-Adds attempts a)

  -- The outcome of the reservation that follows `k` others.
  unfoldable pub offer : ℕ → O → Result ℕ
  offer zero o = (reserve_ephemeral_loopback_port sockets o).0
  offer (suc k) o = offer k (reserve_ephemeral_loopback_port sockets o).1

  -- The outcomes before the `k`-th are ports that are taken.
  unfoldable pub AllTaken : ℕ → List ℕ → O → Type 0
  AllTaken k ports o =
      (j : ℕ) → j < k → (port : ℕ) × (offer j o ≡ ok port) × (has_port port ports ≡ true)

  allocate_port-first :
      (n k : ℕ) (a : Allocator O) (port : ℕ)
      → k < n
      → AllTaken k a.allocated_ports a.os
      → offer k a.os ≡ ok port
      → has_port port a.allocated_ports ≡ false
      → (allocate_port sockets n a).0 ≡ ok (some port)
  unfolding allocate_port offer AllTaken
  allocate_port-first zero k a port h taken fresh new = absurd (omega arith)
  allocate_port-first (suc n) zero a port h taken fresh new = rw (fresh, allocate_port, new) refl
  allocate_port-first (suc n) (suc k) a port h taken fresh new =
      let (p, e, f) = taken 0 (omega arith) in
      rw (e, allocate_port, f)
        (allocate_port-first n k
          (record a { os = (reserve_ephemeral_loopback_port sockets a.os).1 }) port (omega arith)
          (λ j less. taken (suc j) (omega arith)) fresh new)

  -- An allocation succeeds, with the first free port, if one of its 64 reservations brings one and
  -- the reservations before that brought taken ports.
  pub allocate_http-first :
      (k : ℕ) (a : Allocator O) (port : ℕ)
      → k < attempts
      → AllTaken k a.allocated_ports a.os
      → offer k a.os ≡ ok port
      → has_port port a.allocated_ports ≡ false
      → (allocate_http sockets a).0 ≡ ok (http_binding port)
  unfolding allocate_http
  allocate_http-first k a port h taken fresh new =
      rw (allocate_port-first attempts k a port h taken fresh new) refl
