-- ===== src/Lib.antt =====
-- gr4-control-plane is a server that keeps sessions, each a GNU Radio 4 graph, starts and stops them
-- in a runtime, and serves their data streams over HTTP. This library models its parts, each as
-- functions on the state that the part keeps, and proves what makes them correct.
--
-- The parts and their files:
--
--   Domain.Session, Domain.Stream   include/gr4cp/domain/session.hpp and session_stream.hpp and
--     src/domain/session.cpp: sessions, their states, stream plans.
--   Storage   src/storage/in_memory_session_repository.cpp: the sessions by id.
--   Streams   src/domain/session_stream.cpp: the blocks of a graph that declare a stream, the check
--     of the stream contract and the plan (`derive_stream_runtime_plan`).
--   Service   src/app/session_service.cpp. `Service.State` is the state of `SessionService` with
--     the repository and the runtime manager that it holds by reference; `Service.Ids` is `create`;
--     `Service.Operations` is `start`, `stop`, `restart` and `remove`, cut at the blocks under
--     `lock_guard`; `Service.Reading` is `list` and the methods that read streams.
--     `Service.Schedule` puts the blocks of many threads in any order: an event is a block under the
--     lock, or the answer of the runtime manager to a call in flight. `Service.Refinement` compares
--     the methods to a specification that has no phases.
--   Runtime   include/gr4cp/runtime/runtime_manager.hpp, the interface that the services call;
--     Runtime.Allocator is src/runtime/stream_binding_allocator.cpp and Runtime.Stub is
--     src/runtime/stub_runtime_manager.cpp.
--     Runtime.Gr4 is `Gr4RuntimeManager` of src/runtime/gr4_runtime_manager.cpp: `Runtime.Gr4.Execute`
--     and `Runtime.Gr4.Teardown` have what a method does under the mutex of a session's resources,
--     `Runtime.Gr4.Methods` the public methods, `Runtime.Gr4.Blocks` the search for a block, and
--     `Runtime.Gr4.Destructor` the destructor. `Runtime.Graph` is `normalize_graph_content` of the
--     same file with its helpers, `Runtime.Graph.Ports` its reading of port tokens. `Runtime.Radio`
--     is the interface to GNU Radio.
--   Catalog   src/app/block_catalog_service.cpp and scheduler_catalog_service.cpp with the
--     descriptors of include/gr4cp/domain; `Catalog.Examples` is
--     src/catalog/static_block_catalog_provider.cpp.
--   Provider   src/catalog/gr4_block_catalog_provider.cpp. `Provider.Naming`, `Provider.Parameters`,
--     `Provider.Ports` and `Provider.Collections` describe a block of GNU Radio, and
--     `Provider.Reflect` is `reflect_block`; `Provider.Encode` and `Provider.Decode` are the JSON in which
--     a child process sends the description, `Provider.Worker` is `reflect_block_in_subprocess`;
--     `Provider.Plugins` and `Provider.Loading` find and load the libraries, `Provider.Listing` is
--     `list`. `Provider.Schedulers` is src/catalog/gr4_scheduler_catalog_provider.cpp.
--     `Provider.Model` is the interface to a block of GNU Radio and its values.
--   Http   src/api/http_server.cpp: `Http.Encode` is the JSON of the answers, `Http.Requests` the
--     reading of a body, `Http.Catalogs`, `Http.Sessions` and `Http.Settings` the routes,
--     `Http.Targets` the reading of the target of a websocket.
--   Settings   src/app/block_settings_service.cpp; `Settings.Values` are its conversions between JSON
--     and property maps, as trees.
--   Cli   src/cli/cli.cpp, the command line client; `Cli.Url` is its `parse_url`, and
--     `Cli.Options` its options.
--   Tests   concrete instances of every parameter, and the theorems at small inputs.
--
-- How a definition stands for the code. A method that mutates its object and may throw is a function
-- from the state to a result and a state (`Errors.Exec`); nothing is rolled back by an exception. A
-- `std::map` or `std::unordered_map` is an association list, a `std::set` a list. `std::sort` is
-- insertion sort, `Prelude.Sorting`. Readings of the clock and draws of the random generator are
-- arguments; an instant is a count of ticks. A port is a natural number. Texts are Unicode, so that the
-- JSON library can write each.
--
-- Parameters, for what is not in the repository: the runtime manager behind its interface, which may
-- answer anything and change its state in any way; the operating system's sockets; the values of
-- GNU Radio and its YAML reader (`Pmt`); GNU Radio's loader, schedulers and messages and the HTTP
-- client that reads a stream (`Radio`); the HTTP client and the files of the command line client
-- (`Cli.Client`); the JSON library (`Json`; in `Provider` its reader and writer of texts);
-- the blocks, values, loaders and registries of GNU Radio, the file system, the dynamic loader and
-- what the calls for a child process answer (`Provider`); the calendar behind `format_timestamp_utc`.
--
-- Loops. The id loop of `create` recurses on the draws at hand, and answers with `none` while it has
-- used them up and found no id. The allocator's 64 attempts and the 20 attempts to fetch a
-- stream are the source's own bounds. `write_all` recurses on the answers of `write`.
--
-- Not modelled: the search of `Gr4RuntimeManager` for plugin libraries, the matching of a route, the
-- sockets and threads of the server and its websocket bridge, the comparison of descriptors, log
-- lines, delays, and src/main.cpp, which constructs the services.
pub mod Prelude
pub mod Provider
pub mod Errors
pub mod Results
pub mod Domain
pub mod Storage
pub mod Runtime
pub mod Service
pub mod Pmt
pub mod Streams
pub mod Catalog
pub mod Json
pub mod Settings
pub mod Http
pub mod Cli
pub mod Tests
