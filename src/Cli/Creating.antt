-- ===== src/Cli/Creating.antt =====
-- The body of `sessions create` in src/cli/cli.cpp against its reading in src/api/http_server.cpp.
use gnuradio4_control_plane.Prelude.{ℕ, String, [], ◌∷◌, Assoc}
use gnuradio4_control_plane.Json.{JsonLibrary}
use gnuradio4_control_plane.Runtime.{RuntimeManager}

module _ (json : JsonLibrary) (format_timestamp_utc : ℕ → String) {P R : Type 0}
    (manager : RuntimeManager P R) where
  open json use {text, object, member, parse, dump}

  abbrev entries : String → String → Assoc json.Json
  entries name grc = ("name", text name) ∷ ("grc", text grc) ∷ []
