-- ===== src/Runtime/Graph/Names.antt =====
-- The name of a block after `normalize_block` of src/runtime/gr4_runtime_manager.cpp, by which a block
-- gets its endpoint, against the name that src/domain/session_stream.cpp gives it.
use gnuradio4_control_plane.Prelude.{
  String, ◌≡◌, refl, ap, sym, ◌∙◌, ◌⊎◌, true, false, Option, none, some, [], ◌∷◌, if◌then◌else◌,
  ◌==◌, Assoc, find, insert, contains, nat_eq, length, has_value, arith, Bool-cases, inl, inr,
  find-insert, find-insert_same, Option-cases,
}
use gnuradio4_control_plane.Pmt.{Pmt}
use gnuradio4_control_plane.Streams.Blocks.{
  is_filled, value_or, parameter_string, parameter_map, merged_parameters, instance_name_of,
}
use gnuradio4_control_plane.Runtime.Graph.{
  set_id, named, filled_only, first_filled, normalize_block, managed_name,
}

module _ (pmt : Pmt) where
  open pmt use {Value, of_map, of_string, as_map}

  abbrev map_in : Option Value → Option (Assoc Value)
  map_in o = elim o [ none ↦ none | some value ↦ as_map value ]

  parameter_map-insert :
      (k j : String) (v : Value) (block : Assoc Value)
      → (k == j) ≡ false
      → parameter_map pmt (insert k v block) j ≡ parameter_map pmt block j
  unfolding parameter_map
  parameter_map-insert k j v block e = ap map_in (find-insert k j v block ∙ rw e refl)

  parameter_map-same :
      (k : String) (m block : Assoc Value)
      → parameter_map pmt (insert k (of_map m) block) k ≡ some m
  unfolding parameter_map
  parameter_map-same k m block =
      ap map_in (find-insert_same k (of_map m) block) ∙ pmt.as_map-of_map m

  merged-insert :
      (v : Value) (block : Assoc Value)
      → merged_parameters pmt (insert "id" v block) ≡ merged_parameters pmt block
  unfolding merged_parameters
  merged-insert v block =
      rw
        (
          parameter_map-insert "id" "parameters" v block refl,
          parameter_map-insert "id" "raw_parameters" v block refl,
        )
        refl

  merged-set_id :
      (t : Option String) (block : Assoc Value)
      → merged_parameters pmt (set_id pmt t block) ≡ merged_parameters pmt block
  merged-set_id t block = elim (Bool-cases (is_filled t)) [
    | inl e ↦ rw e (merged-insert (of_string (value_or t "")) block)
    | inr e ↦ rw e refl
  ]

  -- The block with its type under "id".
  abbrev identified : Assoc Value → Assoc Value
  identified block =
      let typed = set_id pmt (parameter_string pmt block "block") block in
      if contains "id" typed
      then typed
      else set_id pmt (parameter_string pmt typed "block_type") typed

  merged-identified :
      (block : Assoc Value) → merged_parameters pmt (identified block) ≡ merged_parameters pmt block
  merged-identified block =
      let typed = set_id pmt (parameter_string pmt block "block") block in
      elim (Bool-cases (contains "id" typed)) [
        | inl e ↦ rw e (merged-set_id (parameter_string pmt block "block") block)
        | inr e ↦ rw e (
            merged-set_id (parameter_string pmt typed "block_type") typed
            ∙ merged-set_id (parameter_string pmt block "block") block)
      ]

  filled-length :
      (ps : Assoc Value)
      → is_filled (parameter_string pmt ps "name") ≡ true
      → nat_eq (length ps) 0 ≡ false
  unfolding parameter_string find
  filled-length [] h = ground arith
  filled-length (p ∷ ps) h = ground arith

  -- A name among the parameters is the name that is found.
  managed_name-insert :
      (ps block : Assoc Value)
      → is_filled (parameter_string pmt ps "name") ≡ true
      → managed_name pmt
          (if nat_eq (length ps) 0 then block else insert "parameters" (of_map ps) block)
        ≡ parameter_string pmt ps "name"
  unfolding managed_name
  managed_name-insert ps block h =
      rw (filled-length ps h, parameter_map-same "parameters" ps block, h) refl

  contains-filled :
      (ps : Assoc Value)
      → is_filled (parameter_string pmt ps "name") ≡ true
      → contains "name" ps ≡ true
  unfolding parameter_string
  contains-filled ps h = elim (Option-cases (find "name" ps)) [
    | inl e ↦ absurd (ground (arith, rw (e, is_filled, parameter_string) at h))
    | inr (v, e) ↦ rw e refl
  ]

  named-kept :
      (o : Option String) (ps : Assoc Value) → contains "name" ps ≡ true → named pmt o ps ≡ ps
  named-kept none ps h = refl
  named-kept (some name) ps h = rw h refl

  -- The parameters that `normalize_block` writes.
  abbrev written : Assoc Value → Assoc Value
  written block = named pmt (first_filled pmt ("instance_name" ∷ "name" ∷ []) (identified block)) (
      named pmt (filled_only pmt (parameter_string pmt block "id"))
        (merged_parameters pmt (identified block)))

  managed_name-written :
      (block ps : Assoc Value)
      → written block ≡ ps
      → is_filled (parameter_string pmt ps "name") ≡ true
      → managed_name pmt (normalize_block pmt block) ≡ parameter_string pmt ps "name"
  unfolding normalize_block
  managed_name-written block ps e h =
      ap
        (λ ps'. managed_name pmt (
          if nat_eq (length ps') 0
          then identified block
          else insert "parameters" (of_map ps') (identified block)))
        e
      ∙ managed_name-insert ps (identified block) h

  written-given :
      (block : Assoc Value)
      → contains "name" (merged_parameters pmt block) ≡ true
      → written block ≡ merged_parameters pmt block
  written-given block c = rw (merged-identified block) (
      ap (named pmt (first_filled pmt ("instance_name" ∷ "name" ∷ []) (identified block))) (
        named-kept (filled_only pmt (parameter_string pmt block "id")) (merged_parameters pmt block)
          c)
      ∙ named-kept (first_filled pmt ("instance_name" ∷ "name" ∷ []) (identified block))
          (merged_parameters pmt block) c)

  -- The runtime's name of a block whose parameters, completed by its raw ones, have a name.
  given_name :
      (block : Assoc Value)
      → is_filled (parameter_string pmt (merged_parameters pmt block) "name") ≡ true
      → managed_name pmt (normalize_block pmt block)
        ≡ parameter_string pmt (merged_parameters pmt block) "name"
  given_name block h =
      managed_name-written block (merged_parameters pmt block)
        (written-given block (contains-filled (merged_parameters pmt block) h)) h

  written-node :
      (block : Assoc Value) (id : String)
      → contains "name" (merged_parameters pmt block) ≡ false
      → parameter_string pmt block "id" ≡ some id
      → is_filled (some id) ≡ true
      → written block ≡ insert "name" (of_string id) (merged_parameters pmt block)
  written-node block id c e f =
      rw (merged-identified block, e, f, c)
        (named-kept (first_filled pmt ("instance_name" ∷ "name" ∷ []) (identified block)) _
          (ap has_value (find-insert_same "name" (of_string id) (merged_parameters pmt block))))

  named-string :
      (id : String) (ps : Assoc Value)
      → parameter_string pmt (insert "name" (of_string id) ps) "name" ≡ some id
  unfolding parameter_string
  named-string id ps =
      ap (λ o. elim o [ none ↦ none | some value ↦ pmt.as_string value ])
        (find-insert_same "name" (of_string id) ps)
      ∙ pmt.as_string-of_string id

  -- If no parameter of a block, raw or not, is called "name" and the block has an id that is not empty,
  -- then the runtime finds the block under its id.
  pub managed_name-node :
      (block : Assoc Value) (id : String)
      → contains "name" (merged_parameters pmt block) ≡ false
      → parameter_string pmt block "id" ≡ some id
      → is_filled (some id) ≡ true
      → managed_name pmt (normalize_block pmt block) ≡ some id
  managed_name-node block id c e f =
      let ps = insert "name" (of_string id) (merged_parameters pmt block) in
      managed_name-written block ps (written-node block id c e f)
        (rw (named-string id (merged_parameters pmt block)) f)
      ∙ named-string id (merged_parameters pmt block)

  -- The block has no parameter "name", but an id, and its type under "block".
  abbrev pub NodeNamed : Assoc Value → String → Type 0
  NodeNamed block id =
      (contains "name" (merged_parameters pmt block) ≡ false)
      × (parameter_string pmt block "id" ≡ some id)
      × (is_filled (some id) ≡ true)
      × (contains "block" block ≡ true)

  abbrev pub ParameterNamed : Assoc Value → Type 0
  ParameterNamed block =
      is_filled (parameter_string pmt (merged_parameters pmt block) "name") ≡ true

  instance_name-given :
      (block : Assoc Value)
      → ParameterNamed block
      → instance_name_of pmt block ≡ parameter_string pmt (merged_parameters pmt block) "name"
  unfolding instance_name_of
  instance_name-given block h = rw (h, instance_name_of) (rw h refl)

  missing-string :
      (ps : Assoc Value) → contains "name" ps ≡ false → parameter_string pmt ps "name" ≡ none
  unfolding parameter_string
  missing-string ps h = elim (Option-cases (find "name" ps)) [
    | inl e ↦ rw (e, parameter_string) refl
    | inr (v, e) ↦ absurd (ground (arith, rw e at h))
  ]

  instance_name-node :
      (block : Assoc Value) (id : String)
      → NodeNamed block id
      → instance_name_of pmt block ≡ some id
  unfolding instance_name_of
  instance_name-node block id h =
      rw (missing-string (merged_parameters pmt block) h.0, instance_name_of, h.1, h.2, h.3)
        (rw h.2 refl)

  -- If the parameters of a block, completed by its raw ones, have a name that is not empty, or if they
  -- have none and the block has its type under "block" and an id that is not empty, then the runtime
  -- finds the block under the name that the stream plan gives it.
  pub managed_name-instance_name :
      (block : Assoc Value)
      → ParameterNamed block ⊎ ((id : String) × NodeNamed block id)
      → managed_name pmt (normalize_block pmt block) ≡ instance_name_of pmt block
  managed_name-instance_name block (inl h) = given_name block h ∙ sym (instance_name-given block h)
  managed_name-instance_name block (inr (id, h)) =
      managed_name-node block id h.0 h.1 h.2 ∙ sym (instance_name-node block id h)
