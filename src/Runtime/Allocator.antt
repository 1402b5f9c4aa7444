-- ===== src/Runtime/Allocator.antt =====
-- src/runtime/stream_binding_allocator.cpp. The sockets are the operating system's: its state is `O`,
-- and the calls that the program makes are a record. The set of ports is a list.
pub mod Ports
pub mod Bindings
use gnuradio4_control_plane.Prelude.{
  ℕ, zero, suc, ◌+◌, String, Bool, true, false, ◌||◌, Option, none, some, List, [], ◌∷◌,
  if◌then◌else◌, nat_eq, ◌<>◌, decimal,
}
use gnuradio4_control_plane.Errors.{Exec, Result, ok, err, pure, throw, ◌>>=◌, ◌>>◌, std_error}
use gnuradio4_control_plane.Domain.Stream.{InternalStreamBinding, RuntimeStreamBinding}

-- `socket`, `bind` to an unused port of the loopback address, and `getsockname`.
pub record Sockets (O : Type 0) : Type 0 where
  pub socket : O → Bool × O
  pub bind : O → Bool × O
  pub bound_port : O → Option ℕ × O
  pub close : O → O

pub record Allocator (O : Type 0) : Type 0 where
  pub allocated_ports : List ℕ
  pub os : O

unfoldable pub has_port : ℕ → List ℕ → Bool
has_port port [] = false
has_port port (p ∷ ports) = nat_eq p port || has_port port ports

unfoldable pub erase_port : ℕ → List ℕ → List ℕ
erase_port port [] = []
erase_port port (p ∷ ports) =
    if nat_eq p port then erase_port port ports else p ∷ erase_port port ports

abbrev port_or : Option ℕ → Result ℕ
port_or none = err (std_error "failed to inspect allocated stream port")
port_or (some port) = ok port

abbrev pub attempts : ℕ
attempts = 64

abbrev pub http_binding : ℕ → InternalStreamBinding
http_binding port = record {
  protocol = "http";
  host = "127.0.0.1";
  port = port;
  path = "/snapshot";
  endpoint = "http://127.0.0.1:" <> decimal port <> "/snapshot";
}

abbrev pub websocket_binding : ℕ → InternalStreamBinding
websocket_binding port = record {
  protocol = "websocket";
  host = "127.0.0.1";
  port = port;
  path = "/stream";
  endpoint = "ws://127.0.0.1:" <> decimal port <> "/stream";
}

abbrev pub bound_or :
    {O : Type 0}
    → String
    → (ℕ → InternalStreamBinding)
    → Option ℕ
    → Exec (Allocator O) InternalStreamBinding
bound_or text binding none = throw (std_error text)
bound_or text binding (some port) = pure (binding port)

module _ {O : Type 0} (sockets : Sockets O) where
  -- The handle closes the socket on every way out.
  unfoldable pub reserve_ephemeral_loopback_port : Exec O ℕ
  reserve_ephemeral_loopback_port o =
      let (opened, o₁) = sockets.socket o in
      let (bound, o₂) = sockets.bind o₁ in
      let (port, o₃) = sockets.bound_port o₂ in
      if opened
      then (if bound then (port_or port, sockets.close o₃) else (
        err (std_error "failed to bind ephemeral loopback port for stream"),
        sockets.close o₂,
      ))
      else (err (std_error "failed to create stream binding allocation socket"), o₁)

  -- The loop: `none` when the attempts are used up.
  unfoldable pub allocate_port : ℕ → Exec (Allocator O) (Option ℕ)
  allocate_port zero allocator = (ok none, allocator)
  allocate_port (suc attempts) allocator =
      let (reserved, os) = reserve_ephemeral_loopback_port allocator.os in
      let next = record allocator { os = os } in
      let again = allocate_port attempts next in
      elim reserved [
        | err e ↦ (err e, next)
        | ok port ↦ if has_port port allocator.allocated_ports then again else (
          ok (some port),
          record next { allocated_ports = port ∷ allocator.allocated_ports },
        )
      ]

  unfoldable pub allocate_http : Exec (Allocator O) InternalStreamBinding
  allocate_http = do
    port ← allocate_port attempts
    bound_or "failed to allocate unique internal HTTP stream binding" http_binding port

  unfoldable pub allocate_websocket : Exec (Allocator O) InternalStreamBinding
  allocate_websocket = do
    port ← allocate_port attempts
    bound_or "failed to allocate unique internal websocket stream binding" websocket_binding port

module _ {O : Type 0} where
  unfoldable pub release : InternalStreamBinding → Allocator O → Allocator O
  unfolding erase_port
  release binding allocator = record allocator {
    allocated_ports = erase_port binding.port allocator.allocated_ports;
  }

  -- The loop over the bindings of a session, with which both runtime managers give the ports back.
  unfoldable pub release_all : List RuntimeStreamBinding → Allocator O → Allocator O
  release_all [] allocator = allocator
  release_all (binding ∷ bindings) allocator =
      release_all bindings (release binding.internal allocator)
