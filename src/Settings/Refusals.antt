-- ===== src/Settings/Refusals.antt =====
-- The exceptions of src/app/block_settings_service.cpp, and how src/api/http_server.cpp answers them.
use gnuradio4_control_plane.Prelude.{String, ◌≡◌, ◌∙◌, Option, some, find}
use gnuradio4_control_plane.Errors.{Result, ok, err, lift, continue, what}
use gnuradio4_control_plane.Results
use gnuradio4_control_plane.Storage
use gnuradio4_control_plane.Runtime.{RuntimeManager, BlockSettingsMode}
use gnuradio4_control_plane.Service.State.{World}
use gnuradio4_control_plane.Http.{ErrorDetails, current_error_details}
use gnuradio4_control_plane.Settings.{
  translated, translate, load_running_session_or_throw, update, get,
}
use gnuradio4_control_plane.Settings.Values.{
  JsonValue, null, boolean, number_integer, number_unsigned, number_float, text, object, array,
  other, Members, no_member, member, PropertyMap, mapping, json_to_pmt_value, members_to_entries,
  json_to_property_map, property_map_to_json, entry,
}
use gnuradio4_control_plane.Settings.Answers.{
  answer, runtime_details, runtime_answer, patch_answer, session_answer, session_answer_lem,
  translate-answer, continue-answer, Validated, bind-Validated, patch_answer_lem,
}

module _ {D : Type 0} where
  mutual
    unfolding json_to_pmt_value members_to_entries

    value-Validated : (j : JsonValue D) → Validated (json_to_pmt_value j)
    value-Validated null = tt
    value-Validated (boolean b) = tt
    value-Validated (number_integer z) = tt
    value-Validated (number_unsigned n) = tt
    value-Validated (number_float d) = tt
    value-Validated (text s) = tt
    value-Validated (object m) =
        bind-Validated (members_to_entries m) (λ entries. ok (mapping entries))
          (members-Validated m) (λ entries. tt)
    value-Validated (array xs) = tt
    value-Validated other = tt

    members-Validated : (m : Members D) → Validated (members_to_entries m)
    members-Validated no_member = tt
    members-Validated (member key item m) =
        bind-Validated (json_to_pmt_value item)
          (λ value. Results.◌>>=◌ (members_to_entries m) (λ entries. ok (entry key value entries)))
          (value-Validated item)
          (λ value.
            bind-Validated (members_to_entries m) (λ entries. ok (entry key value entries))
              (members-Validated m) (λ entries. tt))

  patch-Validated : (j : JsonValue D) → Validated (json_to_property_map j)
  unfolding json_to_property_map
  patch-Validated (object m) = members-Validated m
  patch-Validated null = tt
  patch-Validated (boolean b) = tt
  patch-Validated (number_integer z) = tt
  patch-Validated (number_unsigned n) = tt
  patch-Validated (number_float d) = tt
  patch-Validated (text s) = tt
  patch-Validated (array xs) = tt
  patch-Validated other = tt

  -- The settings that the runtime manager returns are converted in the `try` block too.
  abbrev pub read_answer : Result (PropertyMap D) → Option ErrorDetails
  unfolding what property_map_to_json
  read_answer (ok settings) = runtime_answer (property_map_to_json settings)
  read_answer (err e) = some (runtime_details e)

  read_answer_lem :
      {W : Type 0} (r : Result (PropertyMap D)) (w : W)
      → answer (translate (continue r (λ settings. lift (property_map_to_json settings)) w).0)
        ≡ read_answer r
  unfolding what property_map_to_json current_error_details translated
  read_answer_lem (ok settings) w = translate-answer (property_map_to_json settings)
  read_answer_lem (err e) w = translate-answer {A = JsonValue D} (err e)

  module _ {R : Type 0} (manager : RuntimeManager (PropertyMap D) R) where
    abbrev pub update_answer :
        String → String → JsonValue D → BlockSettingsMode → World R → Option ErrorDetails
    unfolding what json_to_property_map
    update_answer id block patch mode w = session_answer id (find id w.repository) (λ session.
        patch_answer (json_to_property_map patch) (λ settings.
          runtime_answer (manager.set_block_settings session block settings mode w.runtime).0))

    abbrev pub get_answer : String → String → World R → Option ErrorDetails
    unfolding what property_map_to_json
    get_answer id block w =
        session_answer id (find id w.repository)
          (λ session. read_answer (manager.get_block_settings session block w.runtime).0)

    update-answer :
        (id block : String) (patch : JsonValue D) (mode : BlockSettingsMode) (w : World R)
        → answer (update manager id block patch mode w).0 ≡ update_answer id block patch mode w
    unfolding update load_running_session_or_throw Storage.get what json_to_property_map
        current_error_details
    update-answer id block patch mode w =
        session_answer_lem id (find id w.repository) _ w _ (λ session.
          patch_answer_lem (json_to_property_map patch) _ w _ (patch-Validated patch) (λ settings.
            continue-answer
              (translate (manager.set_block_settings session block settings mode w.runtime).0) _ _
            ∙ translate-answer
                (manager.set_block_settings session block settings mode w.runtime).0))

    get-answer :
        (id block : String) (w : World R)
        → answer (get manager id block w).0 ≡ get_answer id block w
    unfolding get load_running_session_or_throw Storage.get what property_map_to_json
        current_error_details
    get-answer id block w =
        session_answer_lem id (find id w.repository) _ w _
          (λ session. read_answer_lem (manager.get_block_settings session block w.runtime).0 _)

    -- Every answer of the server to `update` and `get` is the meant one, for any runtime manager: none
    -- where the method returns; 404 "not_found" for an unknown session; 409 "invalid_state" for
    -- one that does not run; 400 "validation_error" for a patch that is refused; of the exceptions
    -- in the `try` block, 404 "not_found" for `BlockNotFoundError`, 504 "timeout" for
    -- `ReplyTimeoutError`, 500 "runtime_error" for every other `std::exception`, each with its
    -- text; and 500 "internal_error" for what is no `std::exception`.
    pub settings_answered :
        (id block : String) (patch : JsonValue D) (mode : BlockSettingsMode) (w : World R)
        → (answer (update manager id block patch mode w).0 ≡ update_answer id block patch mode w)
          × (answer (get manager id block w).0 ≡ get_answer id block w)
    settings_answered id block patch mode w =
        (update-answer id block patch mode w, get-answer id block w)
