-- ===== src/Streams/Plan/Validity.antt =====
-- The plans that src/domain/session_stream.cpp derives.
use mathlib.Core.Option.{some-injective}
use gnuradio4_control_plane.Prelude.{
  String, ◌≡◌, ◌≢◌, refl, sym, ap, subst, true, false, inl, inr, Option, none, some, List, [], ◌∷◌,
  map, arith, Option-cases, All, All-map, All-weaken, Distinct,
}
use gnuradio4_control_plane.Pmt.{Pmt}
use gnuradio4_control_plane.Domain.Session.{Session}
use gnuradio4_control_plane.Domain.Stream.{RuntimeStreamBindingPlan, StreamRuntimePlan}
use gnuradio4_control_plane.Streams.Blocks.{
  NormalizedBlock, transport_supported, make_stream_path, is_empty,
}
use gnuradio4_control_plane.Streams.Plan.{
  tensor_under, plan_or, normalized_or, stream_id_of, binding_plan, contract_error, nonempty_plan,
  declared_blocks, session_blocks, derive_stream_runtime_plan, validate_stream_runtime_contract,
}
use gnuradio4_control_plane.Streams.Plan.Contract.{
  Passes, Declared, Accepted, contract_error-Accepted, planned, plan_streams-contract_error,
  keep_declared-Declared,
}

-- What each stream of a plan of the session satisfies.
pub record IsValid (session : Session) (stream : RuntimeStreamBindingPlan) : Type 0 where
  pub identified : is_empty stream.stream_id ≡ false
  pub named : is_empty stream.block_instance_name ≡ false
  pub transported : transport_supported stream.transport ≡ true
  pub formatted : is_empty stream.payload_format ≡ false
  pub routed : stream.path ≡ make_stream_path session.id stream.stream_id stream.transport
  pub ready : stream.ready ≡ true

binding_plan-IsValid :
    (session : Session) (block : NormalizedBlock)
    → Passes block
    → IsValid session (binding_plan session.id block)
unfolding binding_plan
binding_plan-IsValid session block h = record {
  identified = h.identified;
  named = h.named;
  transported = h.transported;
  formatted = h.formatted;
  routed = refl;
  ready = refl;
}

stream_id-binding_plan :
    (session_id : String) (blocks : List NormalizedBlock)
    → map (λ stream. stream.stream_id) (map (binding_plan session_id) blocks)
      ≡ map stream_id_of blocks
unfolding binding_plan
stream_id-binding_plan session_id [] = refl
stream_id-binding_plan session_id (block ∷ blocks) =
    ap (◌∷◌ (stream_id_of block)) (stream_id-binding_plan session_id blocks)

none≢some : {A : Type 0} {a : A} → none ≡ some a → ⊥
none≢some h = cc

module _ (pmt : Pmt) where
  declared_blocks-Declared : (values : List (pmt.Value)) → All Declared (declared_blocks pmt values)
  unfolding declared_blocks
  declared_blocks-Declared [] = tt
  declared_blocks-Declared (value ∷ values) =
      keep_declared-Declared (normalized_or pmt (pmt.as_map value)) (declared_blocks pmt values)
        (declared_blocks-Declared values)

  -- What `derive_stream_runtime_plan` makes of the declared blocks and of the contract's check.
  abbrev pub derived :
      Session → Option (List NormalizedBlock) → Option String → Option StreamRuntimePlan
  derived session none error = none
  derived session (some blocks) (some error) = none
  derived session (some blocks) none = nonempty_plan (map (binding_plan session.id) blocks)

  -- A plan is derived exactly for a session that declares a stream and whose contract has no error,
  -- and it is then the declared blocks, in order.
  pub derive_stream_runtime_plan-derived :
      (session : Session)
      → derive_stream_runtime_plan pmt session
        ≡ derived session
            (session_blocks pmt session)
            (validate_stream_runtime_contract pmt session)
  unfolding derive_stream_runtime_plan validate_stream_runtime_contract
  derive_stream_runtime_plan-derived session = elim (Option-cases (session_blocks pmt session)) [
    | inl e ↦ rw (e, derive_stream_runtime_plan) refl
    | inr (blocks, e) ↦
        rw
          (
            e,
            derive_stream_runtime_plan,
            validate_stream_runtime_contract,
            plan_streams-contract_error session.id blocks [] [],
          )
          (planned-derived session blocks (contract_error blocks []))
  ]
    where
      planned-derived :
          (session : Session) (blocks : List NormalizedBlock) (o : Option String)
          → plan_or (planned session.id blocks [] o) ≡ derived session (some blocks) o
      planned-derived session blocks none = refl
      planned-derived session blocks (some error) = refl

  session_blocks-Declared :
      (session : Session) (blocks : List NormalizedBlock)
      → session_blocks pmt session ≡ some blocks
      → All Declared blocks
  unfolding session_blocks
  session_blocks-Declared session blocks h =
      elim (Option-cases (pmt.deserialize session.grc_content)) [
        | inl e ↦ ground arith
        | inr (root, e) ↦ elim (Option-cases (tensor_under pmt "blocks" root)) [
          | inl f ↦ ground (arith, f)
          | inr (values, f) ↦
              subst (All Declared) (some-injective _ _ (rw (e, session_blocks, f) at h))
                (declared_blocks-Declared values)
        ]
      ]

  validate-contract_error :
      (session : Session) (blocks : List NormalizedBlock)
      → session_blocks pmt session ≡ some blocks
      → validate_stream_runtime_contract pmt session ≡ contract_error blocks []
  unfolding validate_stream_runtime_contract
  validate-contract_error session blocks e = rw (e, validate_stream_runtime_contract) refl

  abbrev PlanIsValid : Session → StreamRuntimePlan → Type 0
  PlanIsValid session plan =
      All (IsValid session) plan.streams
      × Distinct (map (λ stream. stream.stream_id) plan.streams)
      × (plan.streams ≢ [])

  Accepted-PlanIsValid :
      (session : Session) (blocks : List NormalizedBlock) (plan : StreamRuntimePlan)
      → Accepted blocks []
      → nonempty_plan (map (binding_plan session.id) blocks) ≡ some plan
      → PlanIsValid session plan
  unfolding binding_plan
  Accepted-PlanIsValid session [] plan a h = absurd (none≢some h)
  Accepted-PlanIsValid session (block ∷ blocks) plan a h =
      subst (PlanIsValid session) (some-injective _ _ h) (
        All-map (IsValid session) (binding_plan session.id) (block ∷ blocks)
            (All-weaken (binding_plan-IsValid session) (block ∷ blocks) a.passes),
        subst Distinct (sym (stream_id-binding_plan session.id (block ∷ blocks))) a.distinct,
        λ e. cc,
      )

  -- Every stream of a derived plan is complete, on a supported transport and under its own path, and
  -- no two streams share an id; a plan has at least one stream.
  pub derive_stream_runtime_plan-IsValid :
      (session : Session) (plan : StreamRuntimePlan)
      → derive_stream_runtime_plan pmt session ≡ some plan
      → All (IsValid session) plan.streams
        × Distinct (map (λ stream. stream.stream_id) plan.streams)
        × (plan.streams ≢ [])
  unfolding session_blocks
  derive_stream_runtime_plan-IsValid session plan h =
      elim (Option-cases (session_blocks pmt session)) [
        | inl e ↦ absurd (none≢some (rw (derive_stream_runtime_plan-derived session, e) at h))
        | inr (blocks, e) ↦ elim (Option-cases (validate_stream_runtime_contract pmt session)) [
          | inr (error, f) ↦
              absurd (none≢some (rw (derive_stream_runtime_plan-derived session, e, f) at h))
          | inl f ↦
              Accepted-PlanIsValid session blocks plan
                (contract_error-Accepted blocks [] (session_blocks-Declared session blocks e)
                  (rw (validate-contract_error session blocks e) at f))
                (rw (derive_stream_runtime_plan-derived session, e, f) at h)
        ]
      ]
