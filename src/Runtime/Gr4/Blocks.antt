-- ===== src/Runtime/Gr4/Blocks.antt =====
-- The block of a running session that a settings request is about: `resolve_runtime_block` and its
-- helpers in src/runtime/gr4_runtime_manager.cpp.
use gnuradio4_control_plane.Prelude.{
  String, Bool, false, ◌||◌, Option, none, some, List, [], ◌∷◌, if◌then◌else◌, ◌==◌, ◌<>◌,
}
use gnuradio4_control_plane.Errors.{Result, ok, err, block_not_found_error}
use gnuradio4_control_plane.Pmt.{Pmt}
use gnuradio4_control_plane.Streams.Blocks.{is_empty, parameter_string}
use gnuradio4_control_plane.Runtime.Radio.{RuntimeBlock}

module _ (pmt : Pmt) where
  open pmt use {Value}

  unfoldable pub find_block :
      (RuntimeBlock Value → Bool) → List (RuntimeBlock Value) → Option (RuntimeBlock Value)
  find_block fits [] = none
  find_block fits (block ∷ blocks) = if fits block then some block else find_block fits blocks

  abbrev text_is : String → Option String → Bool
  text_is target none = false
  text_is target (some s) = s == target

  abbrev or_else : {A : Type 0} → Option A → Option A → Option A
  or_else none other = other
  or_else (some a) other = some a

  -- By the name, else by the unique name, else by the setting `name`.
  unfoldable pub resolve_runtime_block :
      String → List (RuntimeBlock Value) → Option (RuntimeBlock Value)
  unfolding find_block parameter_string
  resolve_runtime_block target blocks =
      or_else (find_block (λ block. block.name == target) blocks) (
        or_else (find_block (λ block. block.unique_name == target) blocks) (
          find_block (λ block. text_is target (parameter_string pmt block.settings "name")) blocks))

  abbrev settings_name : RuntimeBlock Value → Option String → String
  settings_name block none = ""
  settings_name block (some s) =
      if is_empty s || s == block.unique_name || s == block.name
      then ""
      else " [settings.name=" <> s <> "]"

  unfoldable pub describe_runtime_block : RuntimeBlock Value → String
  unfolding parameter_string
  describe_runtime_block block =
      block.unique_name
      <> (if is_empty block.name || block.name == block.unique_name
          then ""
          else " (name=" <> block.name <> ")")
      <> (if is_empty block.type_name then "" else " [type=" <> block.type_name <> "]")
      <> settings_name block (parameter_string pmt block.settings "name")

  unfoldable pub join_blocks : List (RuntimeBlock Value) → String
  unfolding describe_runtime_block
  join_blocks [] = ""
  join_blocks (block ∷ blocks) = ", " <> describe_runtime_block block <> join_blocks blocks

  unfoldable pub summarize_runtime_blocks : List (RuntimeBlock Value) → String
  unfolding describe_runtime_block join_blocks
  summarize_runtime_blocks [] = "<none>"
  summarize_runtime_blocks (block ∷ blocks) = describe_runtime_block block <> join_blocks blocks

  abbrev pub block_or :
      String → List (RuntimeBlock Value) → Option (RuntimeBlock Value) → Result (RuntimeBlock Value)
  block_or target blocks none = err (
      block_not_found_error (
        "block not found in running session: "
        <> target
        <> "; available runtime blocks: "
        <> summarize_runtime_blocks blocks))
  block_or target blocks (some block) = ok block
