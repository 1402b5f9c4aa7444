-- ===== src/Streams/Plan/Contract.antt =====
-- The loops of src/domain/session_stream.cpp over the declared blocks, compared.
use mathlib.Core.Bool.{false≢true}
use mathlib.Core.List.{append_assoc, append-nil}
use gnuradio4_control_plane.Prelude.{
  String, ◌≡◌, ◌≢◌, refl, ◌∙◌, true, false, inl, inr, Option, none, some, List, [], ◌∷◌, ◌++◌, map,
  arith, Bool-cases, Option-cases, All, All-map, All-weaken, Distinct, eq_iff,
}
use gnuradio4_control_plane.Domain.Stream.{RuntimeStreamBindingPlan}
use gnuradio4_control_plane.Streams.Blocks.{
  NormalizedBlock, transport_supported, is_empty, value_or,
}
use gnuradio4_control_plane.Streams.Plan.{
  keep_declared, member, stream_id_of, validate_stream_block, binding_plan, plan_streams,
  contract_error,
}

-- What a declared block that passes the check has.
pub record Passes (block : NormalizedBlock) : Type 0 where
  pub named : is_empty block.instance_name ≡ false
  pub identified : is_empty (stream_id_of block) ≡ false
  pub transported : transport_supported (value_or block.stream.transport "") ≡ true
  pub formatted : is_empty (value_or block.stream.payload_format "") ≡ false

abbrev pub Declared : NormalizedBlock → Type 0
Declared block = block.stream.declared ≡ true

module _ (block : NormalizedBlock) (seen : List String) (declared : Declared block)
    (passed : (validate_stream_block block seen).0 ≡ none) where
  validate-Passes : Passes block
  unfolding validate_stream_block
  validate-Passes = record {
    named = ground arith;
    identified = ground arith;
    transported = ground arith;
    formatted = ground arith;
  }

  validate-fresh : member (stream_id_of block) seen ≡ false
  unfolding validate_stream_block
  validate-fresh = ground arith

  validate-seen : (validate_stream_block block seen).1 ≡ stream_id_of block ∷ seen
  unfolding validate_stream_block
  validate-seen = ground arith

abbrev pub Unseen : List String → NormalizedBlock → Type 0
Unseen seen block = member (stream_id_of block) seen ≡ false

Unseen-cons :
    (id : String) (seen : List String) (block : NormalizedBlock)
    → Unseen (id ∷ seen) block
    → (id ≢ stream_id_of block) × Unseen seen block
unfolding member
Unseen-cons id seen block h =
    (λ e. false≢true (ground (arith, eq_iff id (stream_id_of block))), ground arith)

-- A list of declared blocks without an error: each passes, and their ids are new and differ.
pub record Accepted (blocks : List NormalizedBlock) (seen : List String) : Type 0 where
  pub passes : All Passes blocks
  pub unseen : All (Unseen seen) blocks
  pub distinct : Distinct (map stream_id_of blocks)

pub contract_error-Accepted :
    (blocks : List NormalizedBlock) (seen : List String)
    → All Declared blocks
    → contract_error blocks seen ≡ none
    → Accepted blocks seen
unfolding contract_error
contract_error-Accepted [] seen d h = record { passes = tt; unseen = tt; distinct = tt }
contract_error-Accepted (block ∷ blocks) seen d h =
    elim (Option-cases (validate_stream_block block seen).0) [
      | inr (error, e) ↦ ground arith
      | inl e ↦
          let later =
            contract_error-Accepted blocks (stream_id_of block ∷ seen) d.1
              (rw (e, contract_error, validate-seen block seen d.0 e) at h) in
          record {
            passes = (validate-Passes block seen d.0 e, later.passes);
            unseen = (
              validate-fresh block seen d.0 e,
              All-weaken (λ b u. (Unseen-cons (stream_id_of block) seen b u).1) blocks later.unseen,
            );
            distinct = (
              All-map (λ y. stream_id_of block ≢ y) stream_id_of blocks
                  (All-weaken (λ b u. (Unseen-cons (stream_id_of block) seen b u).0) blocks
                    later.unseen),
              later.distinct,
            );
          }
    ]

-- The plan is made exactly where there is no error, and holds one stream for each block, in order.
abbrev pub planned :
    String
    → List NormalizedBlock
    → List RuntimeStreamBindingPlan
    → Option String
    → Option (List RuntimeStreamBindingPlan)
planned session_id blocks streams none = some (streams ++ map (binding_plan session_id) blocks)
planned session_id blocks streams (some error) = none

planned-cons :
    (session_id : String) (block : NormalizedBlock) (blocks : List NormalizedBlock)
    (streams : List RuntimeStreamBindingPlan) (o : Option String)
    → planned session_id blocks (streams ++ binding_plan session_id block ∷ []) o
      ≡ planned session_id (block ∷ blocks) streams o
planned-cons session_id block blocks streams none = rw append_assoc
planned-cons session_id block blocks streams (some error) = refl

pub plan_streams-contract_error :
    (session_id : String) (blocks : List NormalizedBlock) (seen : List String)
    (streams : List RuntimeStreamBindingPlan)
    → plan_streams session_id blocks seen streams
      ≡ planned session_id blocks streams (contract_error blocks seen)
unfolding plan_streams contract_error
plan_streams-contract_error session_id [] seen streams = rw append-nil
plan_streams-contract_error session_id (block ∷ blocks) seen streams =
    elim (Option-cases (validate_stream_block block seen).0) [
      | inr (error, e) ↦ rw (e, plan_streams, contract_error) refl
      | inl e ↦
          rw (e, plan_streams, contract_error)
            (plan_streams-contract_error session_id blocks (validate_stream_block block seen).1
                (streams ++ binding_plan session_id block ∷ [])
              ∙ planned-cons session_id block blocks streams _)
    ]

pub keep_declared-Declared :
    (o : Option NormalizedBlock) (blocks : List NormalizedBlock)
    → All Declared blocks
    → All Declared (keep_declared o blocks)
keep_declared-Declared none blocks h = h
keep_declared-Declared (some block) blocks h = elim (Bool-cases block.stream.declared) [
  | inl e ↦ simp e (refl, h)
  | inr e ↦ simp e h
]
