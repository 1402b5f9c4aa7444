-- ===== src/Catalog/Blocks.antt =====
-- src/app/block_catalog_service.cpp: the cache of the block catalog, the entries to browse and the
-- lookup by id. The provider is a program over its own state `S`.
pub mod Browse
pub mod Lookup
use gnuradio4_control_plane.Prelude.{
  ℕ, String, Bool, true, false, not, ◌&&◌, Option, none, some, List, [], ◌∷◌, ◌++◌, if◌then◌else◌,
  ◌==◌, ◌<>◌, nat_eq, ltb, Assoc, find, insert, text_lt, sort,
}
use Prim.Native.String.{len}
use gnuradio4_control_plane.Errors.{
  Exec, Result, ok, err, pure, throw, ◌>>=◌, ◌>>◌, not_found_error,
}
use gnuradio4_control_plane.Streams.Blocks.{is_filled, value_or}
use gnuradio4_control_plane.Streams.Plan.{member}
use gnuradio4_control_plane.Catalog.{BlockDescriptor}

abbrev differs : String → String → Bool
differs s t = not (s == t)

module _ {D : Type 0} where
  unfoldable pub canonical_catalog_key : BlockDescriptor D → String
  canonical_catalog_key block =
      if is_filled block.canonical_type then value_or block.canonical_type "" else block.id

  unfoldable pub is_canonical_implementation_entry : BlockDescriptor D → Bool
  is_canonical_implementation_entry block =
      is_filled block.canonical_type && block.id == value_or block.canonical_type ""

  -- `len` counts bytes of UTF-8, as `std::string::size` does.
  unfoldable pub is_better_browse_entry : BlockDescriptor D → BlockDescriptor D → Bool
  unfolding is_canonical_implementation_entry
  is_better_browse_entry candidate current =
      let candidate_is_impl = is_canonical_implementation_entry candidate in
      let current_is_impl = is_canonical_implementation_entry current in
      if (if candidate_is_impl then not current_is_impl else current_is_impl)
      then not candidate_is_impl
      else if not (nat_eq (len candidate.id) (len current.id))
      then ltb (len current.id) (len candidate.id)
      else if differs candidate.category current.category
      then text_lt candidate.category current.category
      else if differs candidate.name current.name
      then text_lt candidate.name current.name
      else text_lt candidate.id current.id

  -- The order of both sorts.
  unfoldable pub block_before : BlockDescriptor D → BlockDescriptor D → Bool
  block_before left right =
      if differs left.category right.category
      then text_lt left.category right.category
      else if differs left.name right.name
      then text_lt left.name right.name
      else text_lt left.id right.id

pub record CachedCatalog (D : Type 0) : Type 0 where
  pub browse_blocks : List (BlockDescriptor D)
  pub exact_blocks : Assoc (BlockDescriptor D)

-- The service beside the provider's state.
pub record Service (D S : Type 0) : Type 0 where
  pub cached_catalog : Option (CachedCatalog D)
  pub provider : S

module _ {D : Type 0} where
  -- `find_if` by the key, and the replacement of what it finds.
  unfoldable pub improve :
      String → BlockDescriptor D → List (BlockDescriptor D) → List (BlockDescriptor D)
  improve key block [] = []
  improve key block (existing ∷ blocks) =
      let rest = improve key block blocks in
      if canonical_catalog_key existing == key
      then (if is_better_browse_entry block existing then block else existing) ∷ blocks
      else existing ∷ rest

  -- The loop over the sorted blocks.
  unfoldable pub collect :
      List (BlockDescriptor D) → List String → CachedCatalog D → CachedCatalog D
  collect [] browse_keys catalog = catalog
  collect (block ∷ blocks) browse_keys catalog =
      let key = canonical_catalog_key block in
      let seen = member key browse_keys in
      collect blocks (if seen then browse_keys else key ∷ browse_keys) (record {
        browse_blocks =
            if seen
            then improve key block catalog.browse_blocks
            else catalog.browse_blocks ++ block ∷ [];
        exact_blocks = insert block.id block catalog.exact_blocks;
      })

  unfoldable pub build_catalog : List (BlockDescriptor D) → CachedCatalog D
  build_catalog blocks =
      let catalog =
        collect (sort block_before blocks) [] (record { browse_blocks = []; exact_blocks = [] }) in
      record catalog { browse_blocks = sort block_before catalog.browse_blocks }

module _ {D S : Type 0} (provider_list : Exec S (List (BlockDescriptor D))) where
  abbrev loaded :
      Result (List (BlockDescriptor D)) → S → Service D S → Result (CachedCatalog D) × Service D S
  loaded (err e) provider s = (err e, record s { provider = provider })
  loaded (ok blocks) provider s = (
    ok (build_catalog blocks),
    record { cached_catalog = some (build_catalog blocks); provider = provider },
  )

  abbrev cached_or : Option (CachedCatalog D) → Exec (Service D S) (CachedCatalog D)
  cached_or (some catalog) s = (ok catalog, s)
  cached_or none s = loaded (provider_list s.provider).0 (provider_list s.provider).1 s

  unfoldable pub cached_catalog : Exec (Service D S) (CachedCatalog D)
  cached_catalog s = cached_or s.cached_catalog s

  unfoldable pub list : Exec (Service D S) (List (BlockDescriptor D))
  list = do catalog ← cached_catalog; pure catalog.browse_blocks

  abbrev pub block_or : String → Option (BlockDescriptor D) → Exec (Service D S) (BlockDescriptor D)
  block_or id none = throw (not_found_error ("block not found: " <> id))
  block_or id (some block) = pure block

  unfoldable pub get : String → Exec (Service D S) (BlockDescriptor D)
  get id = do catalog ← cached_catalog; block_or id (find id catalog.exact_blocks)
