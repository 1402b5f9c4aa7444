-- ===== src/Http/Catalogs.antt =====
-- The catalog routes of src/api/http_server.cpp. The id of a route is the part of its path, decoded.
use gnuradio4_control_plane.Prelude.{String, ◌≡◌, refl, inl, inr, none, List, if◌then◌else◌, nat_eq}
use gnuradio4_control_plane.Errors.{Exec, ok, pure, ◌>>=◌, Result-cases}
use gnuradio4_control_plane.Catalog.{BlockDescriptor, SchedulerDescriptor}
use gnuradio4_control_plane.Catalog.Blocks
use gnuradio4_control_plane.Catalog.Blocks.Lookup.{id_count, get-Looks}
use gnuradio4_control_plane.Catalog.Schedulers
use gnuradio4_control_plane.Json.{JsonLibrary}
use gnuradio4_control_plane.Http.{
  Response, set_json_response, set_error_response, handle_exception, current_error_details, execute,
}
use gnuradio4_control_plane.Http.Encode.{
  block_to_json, blocks_to_json, scheduler_to_json, schedulers_to_json,
}

module _ (json : JsonLibrary) {S : Type 0}
    (provider_list : Exec S (List (BlockDescriptor json.Double))) where
  abbrev State : Type 0
  State = Blocks.Service json.Double S

  abbrev handle_blocks : Exec State Response → State → Response × State
  handle_blocks action s = (execute json (action s).0, (action s).1)

  -- `GET /blocks`.
  unfoldable pub get_blocks : State → Response × State
  get_blocks = handle_blocks (do
    blocks ← Blocks.list provider_list
    pure (set_json_response json 200 (blocks_to_json json blocks)))

  -- `GET /blocks/{id}`.
  unfoldable pub get_block : String → State → Response × State
  get_block id = handle_blocks (do
    block ← Blocks.get provider_list id
    pure (set_json_response json 200 (block_to_json json block)))

  -- Where the provider lists some blocks and nothing is cached, `GET /blocks/{id}` answers with
  -- status 404 if none of them has the id, and with status 200 otherwise.
  pub get_block-status :
      (id : String) (s : State) (blocks : List (BlockDescriptor json.Double))
      → s.cached_catalog ≡ none
      → (provider_list s.provider).0 ≡ ok blocks
      → (get_block id s).0.status ≡ (if nat_eq (id_count id blocks) 0 then 404 else 200)
  unfolding get_block execute handle_exception set_error_response set_json_response
      current_error_details
  get_block-status id s blocks h e =
      let looks = (get-Looks provider_list id id s blocks h e).0 in
      elim (Result-cases (Blocks.get provider_list id s).0) [
        | inl (block, f) ↦ let found = rw f at looks in rw (f, found.1) refl
        | inr (x, f) ↦ let missing = rw f at looks in rw (f, missing.0, missing.1) refl
      ]

module _ (json : JsonLibrary) {S : Type 0} (provider_list : Exec S (List SchedulerDescriptor)) where
  abbrev handle_schedulers :
      Exec (Schedulers.Service S) Response → Schedulers.Service S → Response × Schedulers.Service S
  handle_schedulers action s = (execute json (action s).0, (action s).1)

  -- `GET /schedulers`.
  unfoldable pub get_schedulers : Schedulers.Service S → Response × Schedulers.Service S
  get_schedulers = handle_schedulers (do
    schedulers ← Schedulers.list provider_list
    pure (set_json_response json 200 (schedulers_to_json json schedulers)))

  -- `GET /schedulers/{id}`.
  unfoldable pub get_scheduler : String → Schedulers.Service S → Response × Schedulers.Service S
  get_scheduler id = handle_schedulers (do
    scheduler ← Schedulers.get provider_list id
    pure (set_json_response json 200 (scheduler_to_json json scheduler)))
