-- ===== src/Catalog/Blocks/Lookup.antt =====
-- The lookup of a block by its id in src/app/block_catalog_service.cpp.
use gnuradio4_control_plane.Prelude.{
  ℕ, ◌+◌, String, ◌≡◌, refl, subst, Assoc, false, Option, none, some, List, [], ◌∷◌, if◌then◌else◌,
  ◌==◌, eq_iff, nat_eq, arith, Bool-cases, inl, inr, sort, tally, tally-sort, find, insert,
  find-insert, ◌<>◌,
}
use gnuradio4_control_plane.Errors.{Exec, Result, ok, err, not_found_error}
use gnuradio4_control_plane.Catalog.{BlockDescriptor}
use gnuradio4_control_plane.Catalog.Blocks.{
  CachedCatalog, Service, collect, build_catalog, block_before, block_or, cached_catalog, list, get,
}

module _ {D : Type 0} where
  abbrev pub id_count : String → List (BlockDescriptor D) → ℕ
  id_count id blocks = tally (λ block. block.id == id) blocks

  -- What an id finds among `n` blocks with it.
  abbrev pub Finds : String → ℕ → Option (BlockDescriptor D) → Type 0
  Finds id n none = n ≡ 0
  Finds id n (some block) = (block.id ≡ id) × (nat_eq n 0 ≡ false)

  insert-Finds :
      (id : String) (block : BlockDescriptor D) (m : Assoc (BlockDescriptor D)) (n : ℕ)
      → Finds id n (find id m)
      → Finds id ((if block.id == id then 1 else 0) + n) (find id (insert block.id block m))
  insert-Finds id block m n h = elim (Bool-cases (block.id == id)) [
    | inl e ↦
        rw (find-insert block.id id block m, e)
          (ground (arith, e, eq_iff block.id id), ground arith)
    | inr e ↦
        rw (find-insert block.id id block m, e)
          (subst (λ k. Finds id k (find id m)) (omega arith) h)
  ]

  collect-Finds :
      (id : String) (blocks : List (BlockDescriptor D)) (keys : List String)
      (catalog : CachedCatalog D) (n : ℕ)
      → Finds id n (find id catalog.exact_blocks)
      → Finds id (id_count id blocks + n) (find id (collect blocks keys catalog).exact_blocks)
  unfolding collect tally
  collect-Finds id [] keys catalog n h =
      subst (λ k. Finds id k (find id catalog.exact_blocks)) (omega arith) h
  collect-Finds id (block ∷ blocks) keys catalog n h =
      subst (λ k. Finds id k (find id (collect (block ∷ blocks) keys catalog).exact_blocks))
        (omega arith)
        (collect-Finds id blocks _ _ ((if block.id == id then 1 else 0) + n)
          (insert-Finds id block catalog.exact_blocks n h))

  build_catalog-Finds :
      (id : String) (blocks : List (BlockDescriptor D))
      → Finds id (id_count id blocks) (find id (build_catalog blocks).exact_blocks)
  unfolding build_catalog find
  build_catalog-Finds id blocks =
      subst (λ k. Finds id k (find id (build_catalog blocks).exact_blocks))
        (ground
          (arith, tally-sort (λ (block : BlockDescriptor D). block.id == id) block_before blocks))
        (collect-Finds id (sort block_before blocks) []
          (record { browse_blocks = []; exact_blocks = [] }) 0 refl)

-- What a lookup answers, where the provider lists `blocks`.
abbrev pub Looks :
    {D : Type 0} → String → List (BlockDescriptor D) → Result (BlockDescriptor D) → Type 0
Looks id blocks (ok block) = (block.id ≡ id) × (nat_eq (id_count id blocks) 0 ≡ false)
Looks id blocks (err e) =
    (e ≡ not_found_error ("block not found: " <> id)) × (id_count id blocks ≡ 0)

module _ {D S : Type 0} (provider_list : Exec S (List (BlockDescriptor D))) where
  Finds-Looks :
      (id : String) (blocks : List (BlockDescriptor D)) (o : Option (BlockDescriptor D))
      (s : Service D S)
      → Finds id (id_count id blocks) o
      → Looks id blocks (block_or provider_list id o s).0
  Finds-Looks id blocks none s h = (refl, h)
  Finds-Looks id blocks (some block) s h = h

  -- The service once it has loaded a catalog.
  abbrev holding : List (BlockDescriptor D) → Service D S → Service D S
  holding blocks s = record {
    cached_catalog = some (build_catalog blocks);
    provider = (provider_list s.provider).1;
  }

  block_or-state :
      (id : String) (o : Option (BlockDescriptor D)) (s : Service D S)
      → (block_or provider_list id o s).1 ≡ s
  block_or-state id none s = refl
  block_or-state id (some block) s = refl

  get-loads :
      (id : String) (s : Service D S) (blocks : List (BlockDescriptor D))
      → s.cached_catalog ≡ none
      → (provider_list s.provider).0 ≡ ok blocks
      → get provider_list id s
        ≡ block_or provider_list id (find id (build_catalog blocks).exact_blocks) (holding blocks s)
  unfolding get cached_catalog
  get-loads id s blocks h e = rw (h, e) refl

  -- Where the provider lists some blocks, the first lookup by an id answers with a block of that id
  -- if one is listed, and throws `NotFoundError` if none is; the catalog is kept, so that the next
  -- lookups and listings do not ask the provider again.
  pub get-Looks :
      (id other : String) (s : Service D S) (blocks : List (BlockDescriptor D))
      → s.cached_catalog ≡ none
      → (provider_list s.provider).0 ≡ ok blocks
      → Looks id blocks (get provider_list id s).0
        × ((get provider_list other (get provider_list id s).1).1 ≡ (get provider_list id s).1)
        × (list provider_list (get provider_list id s).1
            ≡ (ok (build_catalog blocks).browse_blocks, (get provider_list id s).1))
  unfolding list get cached_catalog
  get-Looks id other s blocks h e =
      rw
        (
          get-loads id s blocks h e,
          block_or-state id (find id (build_catalog blocks).exact_blocks) (holding blocks s),
        )
        (
          Finds-Looks id blocks _ (holding blocks s) (build_catalog-Finds id blocks),
          block_or-state other _ (holding blocks s),
          refl,
        )
