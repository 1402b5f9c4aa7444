-- ===== src/Catalog/Blocks/Browse.antt =====
-- The entries to browse that src/app/block_catalog_service.cpp keeps.
use gnuradio4_control_plane.Prelude.{
  ℕ, String, ◌≡◌, refl, ◌∙◌, not, ◌||◌, List, [], ◌∷◌, ◌++◌, if◌then◌else◌, ◌==◌, eq_iff, nat_eq,
  arith, Bool-cases, inl, inr, sort, tally, tally-append, tally-sort, insert,
}
use gnuradio4_control_plane.Streams.Plan.{member}
use gnuradio4_control_plane.Catalog.{BlockDescriptor}
use gnuradio4_control_plane.Catalog.Blocks.{
  CachedCatalog, canonical_catalog_key, improve, collect, build_catalog, block_before,
}

module _ {D : Type 0} where
  -- How many blocks have a canonical key.
  abbrev pub key_count : String → List (BlockDescriptor D) → ℕ
  key_count key blocks = tally (λ block. canonical_catalog_key block == key) blocks

  key_count-improve :
      (k : String) (block : BlockDescriptor D) (blocks : List (BlockDescriptor D))
      → key_count k (improve (canonical_catalog_key block) block blocks) ≡ key_count k blocks
  unfolding tally improve
  key_count-improve k block [] = refl
  key_count-improve k block (existing ∷ blocks) = ground (
    arith,
    key_count-improve k block blocks,
    eq_iff (canonical_catalog_key existing) (canonical_catalog_key block),
  )

  collect-key_count :
      (k : String) (blocks : List (BlockDescriptor D)) (keys : List String)
      (catalog : CachedCatalog D)
      → key_count k catalog.browse_blocks ≡ (if member k keys then 1 else 0)
      → key_count k (collect blocks keys catalog).browse_blocks
        ≡ (if member k keys || not (nat_eq (key_count k blocks) 0) then 1 else 0)
  unfolding collect tally member
  collect-key_count k [] keys catalog h = ground arith
  collect-key_count k (block ∷ blocks) keys catalog h =
      elim (Bool-cases (member (canonical_catalog_key block) keys)) [
        | inl e ↦
            let next : CachedCatalog D = record {
              browse_blocks = improve (canonical_catalog_key block) block catalog.browse_blocks;
              exact_blocks = insert block.id block catalog.exact_blocks;
            } in
            ground (
              arith,
              collect-key_count k blocks keys next
                  (key_count-improve k block catalog.browse_blocks ∙ h),
              eq_iff (canonical_catalog_key block) k,
            )
        | inr e ↦
            let next : CachedCatalog D = record {
              browse_blocks = catalog.browse_blocks ++ block ∷ [];
              exact_blocks = insert block.id block catalog.exact_blocks;
            } in
            let added : key_count k next.browse_blocks
                ≡ (if member k (canonical_catalog_key block ∷ keys) then 1 else 0) =
              ground (
                arith,
                h,
                tally-append (λ (x : BlockDescriptor D). canonical_catalog_key x == k)
                    catalog.browse_blocks (block ∷ []),
                eq_iff (canonical_catalog_key block) k,
              ) in
            ground (
              arith,
              collect-key_count k blocks (canonical_catalog_key block ∷ keys) next added,
              eq_iff (canonical_catalog_key block) k,
            )
      ]

  -- Of the blocks of the provider with the same canonical key exactly one is listed.
  pub build_catalog-key_count :
      (k : String) (blocks : List (BlockDescriptor D))
      → key_count k (build_catalog blocks).browse_blocks
        ≡ (if nat_eq (key_count k blocks) 0 then 0 else 1)
  unfolding build_catalog tally member
  build_catalog-key_count k blocks = ground (
    arith,
    tally-sort (λ (block : BlockDescriptor D). canonical_catalog_key block == k) block_before
        blocks,
    tally-sort (λ (block : BlockDescriptor D). canonical_catalog_key block == k) block_before
        (collect (sort block_before blocks) []
          (record { browse_blocks = []; exact_blocks = [] })).browse_blocks,
    collect-key_count k (sort block_before blocks) []
        (record { browse_blocks = []; exact_blocks = [] }) refl,
  )
