-- ===== src/Provider/Children.antt =====
-- A listing of src/catalog/gr4_block_catalog_provider.cpp whose children run `reflect_block`.
use gnuradio4_control_plane.Prelude.{
  String, Bool, true, false, Option, some, List, [], ◌∷◌, ◌≡◌, ◌≢◌, refl, sym, ap, subst, ◌∙◌, All,
  Increasing, arith, if◌then◌else◌, nat_eq, ◌==◌, decimal, ◌<>◌,
}
use gnuradio4_control_plane.Errors.{Result, ok, err, what}
use gnuradio4_control_plane.Results.{bind-ok, ok-injective, err≢ok}
use gnuradio4_control_plane.Catalog.{BlockDescriptor}
use gnuradio4_control_plane.Settings.Values.{JsonValue}
use gnuradio4_control_plane.Provider.Model.{Values}
use gnuradio4_control_plane.Provider.Fields.{JsonFault}
use gnuradio4_control_plane.Provider.Encode.{block_to_json}
use gnuradio4_control_plane.Provider.Decode.{parse_block_descriptor}
use gnuradio4_control_plane.Provider.Reread.{reread}
use gnuradio4_control_plane.Provider.RoundTrip.{parse_block_descriptor-dump}
use gnuradio4_control_plane.Provider.Reflect.{GnuRadio, description, ready_block, reflect_block}
use gnuradio4_control_plane.Provider.Worker.{
  Process, no_pipe, no_child, forked, end_of_file, read_failed, wait_failed, wait_other, exited,
  signaled, payload_of, invalid_or, failed, reflect_block_in_subprocess,
}
use gnuradio4_control_plane.Provider.Handover.{reflect_block-Fits}
use gnuradio4_control_plane.Provider.Plugins.{System}
use gnuradio4_control_plane.Provider.Listing.{Registry, Provider, registered, reflected, load, list}
use gnuradio4_control_plane.Provider.Caught.{with_block}
use gnuradio4_control_plane.Provider.Described.{ids_of, described_in, describe_ids-ok}
use gnuradio4_control_plane.Provider.Listed.{listed-parts, list-Increasing}

module _ {D : Type 0} (fault_text : JsonFault → String)
    (parse : String → Option (JsonValue D)) where
  invalid_or-ok :
      (id : String) (r : Result (BlockDescriptor D)) (block : BlockDescriptor D)
      → invalid_or fault_text parse id r ≡ ok block
      → r ≡ ok block
  unfolding what
  invalid_or-ok id (ok other) block h = h
  invalid_or-ok id (err e) block h = absurd (err≢ok _ _ h)

  exited-ok :
      (id payload : String) (done empty : Bool) (block : BlockDescriptor D)
      → (if done
          then (if empty
              then failed ("GNU Radio 4 block reflection returned empty payload for block: " <> id)
              else invalid_or fault_text parse id (parse_block_descriptor fault_text parse payload))
          else failed ("GNU Radio 4 block reflection failed for block: " <> id))
        ≡ ok block
      → (done ≡ true) × (parse_block_descriptor fault_text parse payload ≡ ok block)
  unfolding what
  exited-ok id payload true true block h = absurd (err≢ok _ _ h)
  exited-ok id payload true false block h = (refl, invalid_or-ok id _ block h)
  exited-ok id payload false empty block h = absurd (err≢ok _ _ h)

  -- A description comes of a child that exited with 0, from what it sent.
  reflect_block_in_subprocess-ok :
      (id : String) (process : Process) (block : BlockDescriptor D)
      → reflect_block_in_subprocess fault_text parse id process ≡ ok block
      → (chunks : List String) × (process ≡ forked chunks end_of_file (exited 0))
        × (parse_block_descriptor fault_text parse (payload_of chunks) ≡ ok block)
  unfolding reflect_block_in_subprocess what decimal payload_of parse_block_descriptor
  reflect_block_in_subprocess-ok id no_pipe block h = absurd (err≢ok _ _ h)
  reflect_block_in_subprocess-ok id no_child block h = absurd (err≢ok _ _ h)
  reflect_block_in_subprocess-ok id (forked chunks read_failed wait) block h = absurd (err≢ok _ _ h)
  reflect_block_in_subprocess-ok id (forked chunks end_of_file wait_failed) block h =
      absurd (err≢ok _ _ h)
  reflect_block_in_subprocess-ok id (forked chunks end_of_file wait_other) block h =
      absurd (err≢ok _ _ h)
  reflect_block_in_subprocess-ok id (forked chunks end_of_file (signaled signal)) block h =
      absurd (err≢ok _ _ h)
  reflect_block_in_subprocess-ok id (forked chunks end_of_file (exited status)) block h =
      let (done, same) =
        exited-ok id (payload_of chunks) (nat_eq status 0) (payload_of chunks == "") block h in
      let zero_status : status ≡ 0 = ground (arith, done) in
      (chunks, ap (λ n. forked chunks end_of_file (exited n)) zero_status, same)

  with_block-All :
      (Q : BlockDescriptor D → Type 0) (r : Result (BlockDescriptor D))
      (blocks : List (BlockDescriptor D))
      → ((block : BlockDescriptor D) → r ≡ ok block → Q block)
      → All Q blocks
      → All Q (with_block r blocks)
  with_block-All Q (ok block) blocks own h = (own block refl, h)
  with_block-All Q (err e) blocks own h = h

  described_in-All_blocks :
      (process : String → Process) (Q : BlockDescriptor D → Type 0)
      → ((id : String) (block : BlockDescriptor D)
          → reflected fault_text parse process id ≡ ok block
          → Q block)
      → (ids : List String) → All Q (described_in fault_text parse process ids)
  described_in-All_blocks process Q own [] = tt
  described_in-All_blocks process Q own (id ∷ ids) =
      with_block-All Q (reflected fault_text parse process id) _ (own id)
        (described_in-All_blocks process Q own ids)

module _ (values : Values) (radio : GnuRadio values) where
  reflect_block-id :
      (pool : List radio.Loader) (id : String) (block : BlockDescriptor values.Double)
      → reflect_block values radio pool id ≡ ok block
      → block.id ≡ id
  unfolding reflect_block description
  reflect_block-id pool id block h =
      let (ready, _, same) =
        bind-ok (ready_block values radio pool id) (λ ready. ok (description values id ready)) block
          h in
      ap (λ (b : BlockDescriptor values.Double). b.id) (sym (ok-injective _ _ same))

  module _ (fault_text : JsonFault → String) (parse : String → Option (JsonValue values.Double))
      (process : String → Process) (pool : List radio.Loader)
      (sent : (id : String) (chunks : List String)
        → process id ≡ forked chunks end_of_file (exited 0)
        → (block : BlockDescriptor values.Double) × (reflect_block values radio pool id ≡ ok block)
          × (parse (payload_of chunks) ≡ some (reread (block_to_json block)))) where
    reflected-reflect_block :
        (id : String) (block : BlockDescriptor values.Double)
        → reflected fault_text parse process id ≡ ok block
        → reflect_block values radio pool id ≡ ok block
    unfolding reflect_block_in_subprocess
    reflected-reflect_block id block h =
        let (chunks, ended, parsed) =
          reflect_block_in_subprocess-ok fault_text parse id (process id) block h in
        let (made, described, back) = sent id chunks ended in
        let read =
          parse_block_descriptor-dump values.Double fault_text parse (λ v. payload_of chunks) made
            back (reflect_block-Fits values radio pool id made described) in
        described ∙ sym read ∙ parsed

    own_id :
        (id : String) (block : BlockDescriptor values.Double)
        → reflected fault_text parse process id ≡ ok block
        → block.id ≡ id
    own_id id block h = reflect_block-id pool id block (reflected-reflect_block id block h)

    module _ {W : Type 0} (system : System W) (registry : Registry W) where
      -- Where a child that exits with 0 has sent the description that `reflect_block` makes of its
      -- id, as a text that the JSON library reads back with the numbers that are not negative as
      -- unsigned ones, a listing that returns has at least one block, its ids strictly increase,
      -- every property that all registered ids have, they have, and each block is what
      -- `reflect_block` makes of its id.
      pub list-reflect_block :
          (plugin_directories : List String) (p : Provider system registry)
          (blocks : List (BlockDescriptor values.Double))
          → (list system registry fault_text parse process plugin_directories p).0 ≡ ok blocks
          → (blocks ≢ [])
            × Increasing (ids_of blocks)
            × ((P : String → Type 0)
                → All P (registered system registry (load system registry plugin_directories p).1)
                → All P (ids_of blocks))
            × All
                (λ (block : BlockDescriptor values.Double).
                  reflect_block values radio pool block.id ≡ ok block)
                blocks
      list-reflect_block plugin_directories p blocks h =
          let (filled, increasing, known) =
            list-Increasing fault_text parse process system registry plugin_directories p blocks
              own_id h in
          let (same, _) =
            describe_ids-ok fault_text parse process _ blocks (
              listed-parts fault_text parse process system registry plugin_directories p blocks
                h) in
          (
            filled,
            increasing,
            known,
            subst
                (All (λ (block : BlockDescriptor values.Double).
                  reflect_block values radio pool block.id ≡ ok block))
                same
                (described_in-All_blocks fault_text parse process _
                  (λ id block found.
                    subst (λ i. reflect_block values radio pool i ≡ ok block)
                      (sym (own_id id block found)) (reflected-reflect_block id block found))
                  _),
          )
