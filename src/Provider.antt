-- ===== src/Provider.antt =====
-- src/catalog/gr4_block_catalog_provider.cpp: the catalog of the blocks that the plugins of GNU
-- Radio register. Each block is made and described in a child process, which sends its description as JSON.
pub mod Fields
pub mod Encode
pub mod Decode
pub mod Fits
pub mod Reread
pub mod RoundTrip
pub mod Text
pub mod Model
pub mod Naming
pub mod Parameters
pub mod Ports
pub mod Collections
pub mod Reflect
pub mod Worker
pub mod Reflected
pub mod Ranges
pub mod Bounds
pub mod Handover
pub mod Plugins
pub mod Loading
pub mod Listing
pub mod Caught
pub mod Described
pub mod Listed
pub mod Schedulers
pub mod Aliases
pub mod Children
