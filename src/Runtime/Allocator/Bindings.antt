-- ===== src/Runtime/Allocator/Bindings.antt =====
-- The ports that the bindings of a session have, and what releasing the bindings does to the ports of
-- the allocator (src/runtime/stream_binding_allocator.cpp).
use gnuradio4_control_plane.Prelude.{
  ℕ, ◌+◌, ◌≤◌, ◌≡◌, refl, List, [], ◌∷◌, ◌++◌, arith, if◌then◌else◌, nat_eq,
}
use gnuradio4_control_plane.Domain.Stream.{RuntimeStreamBinding}
use gnuradio4_control_plane.Runtime.Allocator.{Allocator, release, release_all}
use gnuradio4_control_plane.Runtime.Allocator.Ports.{count, count-erase_port}

-- How often a port stands in the bindings of a session.
unfoldable pub port_count : ℕ → List RuntimeStreamBinding → ℕ
port_count port [] = 0
port_count port (b ∷ bindings) =
    (if nat_eq b.internal.port port then 1 else 0) + port_count port bindings

pub port_count-append :
    (port : ℕ) (bindings : List RuntimeStreamBinding) (b : RuntimeStreamBinding)
    → port_count port (bindings ++ b ∷ [])
      ≡ port_count port bindings + (if nat_eq b.internal.port port then 1 else 0)
unfolding port_count
port_count-append port [] b = ground arith
port_count-append port (c ∷ bindings) b = ground (arith, port_count-append port bindings b)

-- Releasing a list of bindings leaves the ports that none of them has.
pub count-release_all :
    {O : Type 0} (port : ℕ) (bindings : List RuntimeStreamBinding) (a : Allocator O)
    → count port (release_all bindings a).allocated_ports
      ≡ (if nat_eq (port_count port bindings) 0 then count port a.allocated_ports else 0)
unfolding release_all port_count release
count-release_all port [] a = refl
count-release_all port (b ∷ bindings) a = ground (
  arith,
  count-release_all port bindings (release b.internal a),
  count-erase_port b.internal.port port a.allocated_ports,
)

-- Every port is held as often as it is asked for, and at most once.
abbrev pub Covers : {O : Type 0} → (ℕ → ℕ) → Allocator O → Type 0
Covers demand a =
    ((port : ℕ) → demand port ≤ count port a.allocated_ports)
    × ((port : ℕ) → count port a.allocated_ports ≤ 1)

pub release_all-Covers :
    {O : Type 0} (rest : ℕ → ℕ) (bindings : List RuntimeStreamBinding) (a : Allocator O)
    → Covers (λ port. port_count port bindings + rest port) a
    → Covers rest (release_all bindings a)
release_all-Covers rest bindings a h = (
  λ port. ground (arith, count-release_all port bindings a, h.0 port, h.1 port),
  λ port. ground (arith, count-release_all port bindings a, h.1 port),
)

pub nil-Covers :
    {O : Type 0} (rest : ℕ → ℕ) (a : Allocator O)
    → Covers rest a
    → Covers (λ port. port_count port [] + rest port) a
unfolding port_count
nil-Covers rest a h = (λ port. omega (arith, h.0 port), h.1)
