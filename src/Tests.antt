-- ===== src/Tests.antt =====
-- A concrete instance of each parameter, and runs of the program on small inputs.
pub mod Values
pub mod Sessions
pub mod Streams
pub mod Gr4
pub mod Graph
pub mod Reading
pub mod Catalogs
pub mod Http
pub mod Targets
pub mod Settings
pub mod Cli
pub mod Provider
