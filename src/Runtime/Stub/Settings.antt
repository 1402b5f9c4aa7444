-- ===== src/Runtime/Stub/Settings.antt =====
-- The block settings that src/runtime/stub_runtime_manager.cpp keeps.
use gnuradio4_control_plane.Prelude.{
  String, ◌≡◌, refl, ◌&&◌, Option, none, some, [], ◌∷◌, arith, if◌then◌else◌, ◌==◌, eq_iff, Assoc,
  find, insert, find-insert, IsMap,
}
use gnuradio4_control_plane.Pmt.{Pmt}
use gnuradio4_control_plane.Domain.Session.{Session}
use gnuradio4_control_plane.Runtime.{BlockSettingsMode}
use gnuradio4_control_plane.Runtime.Allocator.{Sockets}
use gnuradio4_control_plane.Runtime.Stub.{State, list_or, merge, set_block_settings}

abbrev pub or_else : {V : Type 0} → Option V → Option V → Option V
or_else none o = o
or_else (some v) o = some v

pub find-merge :
    {V : Type 0} (key : String) (patch m : Assoc V)
    → IsMap patch
    → find key (merge patch m) ≡ or_else (find key patch) (find key m)
unfolding merge find
find-merge key [] m h = refl
find-merge key ((k, v) ∷ patch) m h =
    ground
      (arith, find-merge key patch (insert k v m) h.1, find-insert k key v m, eq_iff k key, h.0)

module _ (pmt : Pmt) {O : Type 0} (sockets : Sockets O) where
  abbrev pub settings_of : Session → String → State pmt sockets → Assoc (pmt.Value)
  settings_of session block s = list_or (find block (list_or (find session.id s.settings)))

  -- A setting that is read after an update is the update's, if it names the key, and otherwise the
  -- one of before; the settings of other blocks and of other sessions are those of before.
  pub get-set_block_settings :
      (session other : Session) (block name : String) (patch : Assoc (pmt.Value))
      (mode : BlockSettingsMode) (s : State pmt sockets) (key : String)
      → IsMap patch
      → let s' = (set_block_settings pmt sockets session block patch mode s).1 in
        find key (settings_of other name s') ≡ (
          if session.id == other.id && block == name
          then or_else (find key patch) (find key (settings_of other name s))
          else find key (settings_of other name s))
  unfolding set_block_settings
  get-set_block_settings session other block name patch mode s key h = ground (
    arith,
    find-insert session.id other.id
        (insert block (merge patch (list_or (find block (list_or (find session.id s.settings)))))
          (list_or (find session.id s.settings)))
        s.settings,
    find-insert block name
        (merge patch (list_or (find block (list_or (find session.id s.settings)))))
        (list_or (find session.id s.settings)),
    find-merge key patch (list_or (find block (list_or (find session.id s.settings)))) h,
    eq_iff session.id other.id,
    eq_iff block name,
  )
