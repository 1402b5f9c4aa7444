-- ===== src/Service/Reading/Ordering.antt =====
-- The answer of `SessionService::list` (src/app/session_service.cpp).
use gnuradio4_control_plane.Prelude.{
  ◌≡◌, refl, true, false, List, arith, text_lt-asymmetric, sort, Ordered, sort-Perm, sort-Ordered,
}
use mathlib.Core.List.{Perm}
use gnuradio4_control_plane.Errors.{ok}
use gnuradio4_control_plane.Domain.Session.{Session}
use gnuradio4_control_plane.Storage
use gnuradio4_control_plane.Service.State.{World}
use gnuradio4_control_plane.Service.Reading.{session_before, list}

session_before-asymmetric : (a b : Session) → session_before a b ≡ true → session_before b a ≡ false
unfolding session_before
session_before-asymmetric a b h = ground (arith, text_lt-asymmetric a.id b.id)

-- `list` answers with the stored sessions, each as often as it is stored, so that no session comes
-- before one that is older, or as old and with a smaller id; it changes nothing.
pub list-Ordered :
    {R : Type 0} (w : World R)
    → (sessions : List Session) × (list w ≡ (ok sessions, w))
      × Perm sessions (Storage.list w.repository)
      × Ordered session_before sessions
unfolding list
list-Ordered w = (
  sort session_before (Storage.list w.repository),
  refl,
  sort-Perm session_before (Storage.list w.repository),
  sort-Ordered session_before session_before-asymmetric (Storage.list w.repository),
)
