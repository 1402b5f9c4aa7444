-- ===== src/Storage.antt =====
-- storage/in_memory_session_repository.cpp: the sessions by id. The order of `list` is the map's,
-- which the program does not rely on (the service sorts).
use gnuradio4_control_plane.Prelude.{
  String, Bool, Option, List, map, if◌then◌else◌, ◌<>◌, Assoc, find, insert, erase, contains,
}
use gnuradio4_control_plane.Errors.{Exec, ok, err, std_error}
use gnuradio4_control_plane.Domain.Session.{Session}

abbrev pub Repository : Type 0
Repository = Assoc Session

unfoldable pub create : Session → Exec Repository (Unit {0})
create session sessions =
    if contains session.id sessions
    then (err (std_error ("session already exists: " <> session.id)), sessions)
    else (ok tt, insert session.id session sessions)

unfoldable pub get : String → Repository → Option Session
get id sessions = find id sessions

unfoldable pub list : Repository → List Session
list sessions = map (λ entry. entry.1) sessions

unfoldable pub update : Session → Exec Repository (Unit {0})
update session sessions =
    if contains session.id sessions
    then (ok tt, insert session.id session sessions)
    else (err (std_error ("unknown session: " <> session.id)), sessions)

unfoldable pub remove : String → Exec Repository Bool
remove id sessions = (ok (contains id sessions), erase id sessions)
