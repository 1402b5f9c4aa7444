-- ===== src/Provider/Caught.antt =====
-- What `reflect_block_in_subprocess` of src/catalog/gr4_block_catalog_provider.cpp throws.
use gnuradio4_control_plane.Prelude.{
  String, Bool, true, false, Option, List, ◌∷◌, ◌≡◌, refl, if◌then◌else◌, ◌==◌, nat_eq, decimal,
  ◌<>◌,
}
use gnuradio4_control_plane.Errors.{
  Result, ok, err, what, validation_error, not_found_error, invalid_state_error, runtime_error,
  timeout_error, block_not_found_error, reply_timeout_error, catalog_load_error,
  scheduler_catalog_load_error, std_error, unknown,
}
use gnuradio4_control_plane.Catalog.{BlockDescriptor}
use gnuradio4_control_plane.Settings.Values.{JsonValue}
use gnuradio4_control_plane.Provider.Fields.{JsonFault}
use gnuradio4_control_plane.Provider.Decode.{parse_block_descriptor}
use gnuradio4_control_plane.Provider.Worker.{
  Process, no_pipe, no_child, forked, end_of_file, read_failed, exited, signaled, wait_failed,
  wait_other, reflect_block_in_subprocess, invalid_or, payload_of,
}
use gnuradio4_control_plane.Provider.Listing.{added}

-- A value or a `CatalogLoadError`.
abbrev pub Caught : {A : Type 0} → Result A → Type 0
Caught (ok a) = Unit
Caught (err (catalog_load_error text)) = Unit
Caught (err e) = ⊥

module _ {D : Type 0} (fault_text : JsonFault → String)
    (parse : String → Option (JsonValue D)) where
  invalid_or-Caught :
      (id : String) (r : Result (BlockDescriptor D)) → Caught (invalid_or fault_text parse id r)
  unfolding what
  invalid_or-Caught id (ok block) = tt
  invalid_or-Caught id (err e) = tt

  exited-Caught :
      (id payload : String) (empty done : Bool)
      → Caught (
          if done
          then (if empty
              then err (
                  catalog_load_error
                    ("GNU Radio 4 block reflection returned empty payload for block: " <> id))
              else invalid_or fault_text parse id (parse_block_descriptor fault_text parse payload))
          else err (catalog_load_error ("GNU Radio 4 block reflection failed for block: " <> id)))
  unfolding what
  exited-Caught id payload true true = tt
  exited-Caught id payload false true = invalid_or-Caught id _
  exited-Caught id payload empty false = tt

  -- Whatever the operating system answers, the description of a block or a `CatalogLoadError`
  -- comes of its child.
  pub reflect_block_in_subprocess-Caught :
      (id : String) (process : Process)
      → Caught (reflect_block_in_subprocess fault_text parse id process)
  unfolding reflect_block_in_subprocess what decimal payload_of parse_block_descriptor
  reflect_block_in_subprocess-Caught id no_pipe = tt
  reflect_block_in_subprocess-Caught id no_child = tt
  reflect_block_in_subprocess-Caught id (forked chunks read_failed wait) = tt
  reflect_block_in_subprocess-Caught id (forked chunks end_of_file wait_failed) = tt
  reflect_block_in_subprocess-Caught id (forked chunks end_of_file wait_other) = tt
  reflect_block_in_subprocess-Caught id (forked chunks end_of_file (signaled signal)) = tt
  reflect_block_in_subprocess-Caught id (forked chunks end_of_file (exited status)) =
      exited-Caught id (payload_of chunks) (payload_of chunks == "") (nat_eq status 0)

module _ {D : Type 0} where
  -- The block of a result in front of those that follow.
  abbrev pub with_block :
      Result (BlockDescriptor D) → List (BlockDescriptor D) → List (BlockDescriptor D)
  with_block (ok block) blocks = block ∷ blocks
  with_block (err e) blocks = blocks

  pub added-Caught :
      (r : Result (BlockDescriptor D)) (blocks : List (BlockDescriptor D))
      → Caught r
      → added r (ok blocks) ≡ ok (with_block r blocks)
  added-Caught (ok block) blocks c = refl
  added-Caught (err (catalog_load_error text)) blocks c = refl
  added-Caught (err (validation_error text)) blocks c = absurd c
  added-Caught (err (not_found_error text)) blocks c = absurd c
  added-Caught (err (invalid_state_error text)) blocks c = absurd c
  added-Caught (err (runtime_error text)) blocks c = absurd c
  added-Caught (err (timeout_error text)) blocks c = absurd c
  added-Caught (err (block_not_found_error text)) blocks c = absurd c
  added-Caught (err (reply_timeout_error text)) blocks c = absurd c
  added-Caught (err (scheduler_catalog_load_error text)) blocks c = absurd c
  added-Caught (err (std_error text)) blocks c = absurd c
  added-Caught (err unknown) blocks c = absurd c
