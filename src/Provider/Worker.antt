-- ===== src/Provider/Worker.antt =====
-- `reflect_block_in_subprocess` of src/catalog/gr4_block_catalog_provider.cpp: a child process
-- describes a block and writes the description to a pipe that the server reads. What the operating
-- system answers is an argument.
use gnuradio4_control_plane.Prelude.{
  ℕ, zero, suc, String, Option, none, some, List, [], ◌∷◌, ◌<>◌, if◌then◌else◌, ◌==◌, nat_eq,
  decimal,
}
use gnuradio4_control_plane.Errors.{Result, ok, err, catalog_load_error, what}
use gnuradio4_control_plane.Catalog.{ℤ, pos, negsuc, BlockDescriptor}
use gnuradio4_control_plane.Settings.Values.{JsonValue}
use gnuradio4_control_plane.Provider.Fields.{JsonFault}
use gnuradio4_control_plane.Provider.Encode.{block_to_json}
use gnuradio4_control_plane.Provider.Decode.{parse_block_descriptor}

-- `waitpid`: it fails, or the child exited with a status, was ended by a signal, or is neither.
pub data Wait : Type 0 where
  wait_failed wait_other : Wait
  exited signaled : ℕ → Wait

pub data ReadsEnd : Type 0 where
  end_of_file read_failed : ReadsEnd

-- What the calls of the parent bring: no pipe, no child, or the texts that are read and how the
-- reading and the child end.
pub data Process : Type 0 where
  no_pipe no_child : Process
  forked : List String → ReadsEnd → Wait → Process

unfoldable pub leading : ℕ → String → String
leading zero s = ""
leading (suc n) String.[] = ""
leading (suc n) (String.◌∷◌ c s) = String.◌∷◌ c (leading n s)

unfoldable pub behind_leading : ℕ → String → String
behind_leading zero s = s
behind_leading (suc n) String.[] = ""
behind_leading (suc n) (String.◌∷◌ c s) = behind_leading n s

-- The text that reaches the pipe, by the answers of `write`, which are counts of characters; with no
-- answer left the child has ended.
unfoldable pub write_all : List ℤ → String → String
unfolding leading behind_leading
write_all [] data_left = ""
write_all (pos zero ∷ answers) data_left = ""
write_all (negsuc n ∷ answers) data_left = ""
write_all (pos (suc n) ∷ answers) data_left =
    leading (suc n) data_left <> write_all answers (behind_leading (suc n) data_left)

-- The payload of the chunks in turn.
unfoldable pub payload_of : List String → String
payload_of [] = ""
payload_of (chunk ∷ chunks) = chunk <> payload_of chunks

abbrev pub failed : {A : Type 0} → String → Result A
failed text = err (catalog_load_error text)

module _ {D : Type 0} (dump : JsonValue D → String) where
  -- The child: what it writes, and the status it exits with.
  unfoldable pub child : List ℤ → Result (BlockDescriptor D) → String × ℕ
  unfolding write_all block_to_json
  child answers (ok block) = (write_all answers (dump (block_to_json block)), 0)
  child answers (err e) = ("", 2)

module _ {D : Type 0} (fault_text : JsonFault → String)
    (parse : String → Option (JsonValue D)) where
  abbrev text_or_other : Option String → String
  text_or_other none = ""
  text_or_other (some text) = text

  -- `catch (const std::exception& error)`. Parsing a payload throws no other exceptions.
  abbrev pub invalid_or : String → Result (BlockDescriptor D) → Result (BlockDescriptor D)
  unfolding what
  invalid_or id (ok block) = ok block
  invalid_or id (err e) = failed (
      "GNU Radio 4 block reflection returned invalid payload for block "
      <> id
      <> ": "
      <> text_or_other (what e))

  abbrev pub received : String → String → Wait → Result (BlockDescriptor D)
  unfolding parse_block_descriptor decimal
  received id payload wait_failed =
      failed ("failed to wait for GNU Radio 4 reflection worker for block: " <> id)
  received id payload (signaled signal) = failed (
      "GNU Radio 4 block reflection crashed for block "
      <> id
      <> " (signal "
      <> decimal signal
      <> ")")
  received id payload wait_other = failed ("GNU Radio 4 block reflection failed for block: " <> id)
  received id payload (exited status) =
      if nat_eq status 0
      then (if payload == ""
          then failed ("GNU Radio 4 block reflection returned empty payload for block: " <> id)
          else invalid_or id (parse_block_descriptor fault_text parse payload))
      else failed ("GNU Radio 4 block reflection failed for block: " <> id)

  unfoldable pub reflect_block_in_subprocess : String → Process → Result (BlockDescriptor D)
  unfolding parse_block_descriptor payload_of what decimal
  reflect_block_in_subprocess id no_pipe =
      failed ("failed to create GNU Radio 4 reflection pipe for block: " <> id)
  reflect_block_in_subprocess id no_child =
      failed ("failed to fork GNU Radio 4 reflection worker for block: " <> id)
  reflect_block_in_subprocess id (forked chunks read_failed wait) =
      failed ("failed to read GNU Radio 4 reflection payload for block: " <> id)
  reflect_block_in_subprocess id (forked chunks end_of_file wait) =
      received id (payload_of chunks) wait
