-- ===== src/Provider/Described.antt =====
-- The descriptions that `Gr4BlockCatalogProvider::list` of
-- src/catalog/gr4_block_catalog_provider.cpp collects, in the order of their ids.
use gnuradio4_control_plane.Prelude.{
  String, true, Option, List, [], ◌∷◌, ◌≡◌, ◌≢◌, refl, sym, ap, subst, ◌∙◌, text_lt, Increasing,
  All, All-weaken, inl, inr, ◌⊎◌,
}
use mathlib.Core.List.{cons≢nil}
use gnuradio4_control_plane.Errors.{Result, ok, err}
use gnuradio4_control_plane.Results.{ok-injective, err≢ok}
use gnuradio4_control_plane.Catalog.{BlockDescriptor}
use gnuradio4_control_plane.Settings.Values.{JsonValue}
use gnuradio4_control_plane.Provider.Fields.{JsonFault}
use gnuradio4_control_plane.Provider.Worker.{Process, reflect_block_in_subprocess}
use gnuradio4_control_plane.Provider.Listing.{
  reflected, added, reflect_all, usable_or, describe_ids,
}
use gnuradio4_control_plane.Provider.Caught.{
  with_block, added-Caught, reflect_block_in_subprocess-Caught,
}

module _ {A : Type 0} where
  -- One of a list.
  abbrev pub Among : A → List A → Type 0
  Among a [] = ⊥
  Among a (other ∷ l) = (other ≡ a) ⊎ Among a l

  pub All-Among : (P : A → Type 0) (a : A) (l : List A) → All P l → Among a l → P a
  All-Among P a [] h m = absurd m
  All-Among P a (other ∷ l) h (inl e) = subst P e h.0
  All-Among P a (other ∷ l) h (inr m) = All-Among P a l h.1 m

module _ {D : Type 0} where
  abbrev pub ids_of : List (BlockDescriptor D) → List String
  ids_of [] = []
  ids_of (block ∷ blocks) = block.id ∷ ids_of blocks

  usable_or-Among :
      (blocks : List (BlockDescriptor D)) (block : BlockDescriptor D)
      → Among block blocks
      → usable_or (ok blocks) ≡ ok blocks
  usable_or-Among [] block h = absurd h
  usable_or-Among (other ∷ blocks) block h = refl

  usable_or-ok :
      (found blocks : List (BlockDescriptor D))
      → usable_or (ok found) ≡ ok blocks
      → (found ≡ blocks) × (blocks ≢ [])
  usable_or-ok [] blocks h = absurd (err≢ok _ _ h)
  usable_or-ok (block ∷ found) blocks h =
      let e = ok-injective (block ∷ found) blocks h in (e, λ none_left. cons≢nil (e ∙ none_left))

  with_block-All :
      (P : String → Type 0) (id : String) (r : Result (BlockDescriptor D))
      (blocks : List (BlockDescriptor D))
      → ((block : BlockDescriptor D) → r ≡ ok block → block.id ≡ id)
      → P id
      → All P (ids_of blocks)
      → All P (ids_of (with_block r blocks))
  with_block-All P id (ok block) blocks own h hs = (subst P (sym (own block refl)) h, hs)
  with_block-All P id (err e) blocks own h hs = hs

  with_block-Increasing :
      (id : String) (r : Result (BlockDescriptor D)) (blocks : List (BlockDescriptor D))
      → ((block : BlockDescriptor D) → r ≡ ok block → block.id ≡ id)
      → All (λ later. text_lt id later ≡ true) (ids_of blocks)
      → Increasing (ids_of blocks)
      → Increasing (ids_of (with_block r blocks))
  with_block-Increasing id (ok block) blocks own h hs = (
    subst (λ i. All (λ later. text_lt i later ≡ true) (ids_of blocks)) (sym (own block refl)) h,
    hs,
  )
  with_block-Increasing id (err e) blocks own h hs = hs

module _ {D : Type 0} (fault_text : JsonFault → String) (parse : String → Option (JsonValue D))
    (process : String → Process) where
  abbrev pub described_in : List String → List (BlockDescriptor D)
  described_in [] = []
  described_in (id ∷ ids) = with_block (reflected fault_text parse process id) (described_in ids)

  reflect_all-described_in :
      (ids : List String) → reflect_all fault_text parse process ids ≡ ok (described_in ids)
  unfolding reflect_all reflect_block_in_subprocess
  reflect_all-described_in [] = refl
  reflect_all-described_in (id ∷ ids) =
      ap (added (reflected fault_text parse process id)) (reflect_all-described_in ids)
      ∙ added-Caught (reflected fault_text parse process id) (described_in ids)
          (reflect_block_in_subprocess-Caught fault_text parse id (process id))

  Among-with_block :
      (r : Result (BlockDescriptor D)) (block : BlockDescriptor D)
      (blocks : List (BlockDescriptor D))
      → Among block blocks
      → Among block (with_block r blocks)
  Among-with_block (ok other) block blocks h = inr h
  Among-with_block (err e) block blocks h = h

  pub Among-described_in :
      (ids : List String)
      → All
          (λ id.
            (block : BlockDescriptor D)
            → reflected fault_text parse process id ≡ ok block
            → Among block (described_in ids))
          ids
  Among-described_in [] = tt
  Among-described_in (id ∷ ids) = (
    λ block e. subst (λ r. Among block (with_block r (described_in ids))) (sym e) (inl refl),
    All-weaken
        (λ other found block e.
          Among-with_block (reflected fault_text parse process id) block _ (found block e))
        ids (Among-described_in ids),
  )

  pub describe_ids-Among :
      (ids : List String) (block : BlockDescriptor D)
      → Among block (described_in ids)
      → describe_ids fault_text parse process ids ≡ ok (described_in ids)
  unfolding reflect_all reflect_block_in_subprocess
  describe_ids-Among [] block h = absurd h
  describe_ids-Among (id ∷ ids) block h =
      ap usable_or (reflect_all-described_in (id ∷ ids))
      ∙ usable_or-Among (described_in (id ∷ ids)) block h

  pub describe_ids-ok :
      (ids : List String) (blocks : List (BlockDescriptor D))
      → describe_ids fault_text parse process ids ≡ ok blocks
      → (described_in ids ≡ blocks) × (blocks ≢ [])
  unfolding reflect_all reflect_block_in_subprocess
  describe_ids-ok [] blocks h = absurd (err≢ok _ _ h)
  describe_ids-ok (id ∷ ids) blocks h =
      usable_or-ok (described_in (id ∷ ids)) blocks
        (ap usable_or (sym (reflect_all-described_in (id ∷ ids))) ∙ h)

  module _
      (own_id : (id : String) (block : BlockDescriptor D)
        → reflected fault_text parse process id ≡ ok block
        → block.id ≡ id) where
    pub described_in-All :
        (P : String → Type 0) (ids : List String) → All P ids → All P (ids_of (described_in ids))
    described_in-All P [] h = tt
    described_in-All P (id ∷ ids) h =
        with_block-All P id (reflected fault_text parse process id) (described_in ids) (own_id id)
          h.0 (described_in-All P ids h.1)

    pub described_in-Increasing :
        (ids : List String) → Increasing ids → Increasing (ids_of (described_in ids))
    described_in-Increasing [] h = tt
    described_in-Increasing (id ∷ ids) h =
        with_block-Increasing id (reflected fault_text parse process id) (described_in ids)
          (own_id id) (described_in-All _ ids h.0) (described_in-Increasing ids h.1)
