-- ===== src/Service.antt =====
-- app/session_service.hpp and src/app/session_service.cpp: `SessionService`. The definitions stand
-- in `State`, `Ids`, `Operations` and `Schedule`, the proofs in the other children.
pub mod State
pub mod Ids
pub mod Operations
pub mod Schedule
pub mod Reading
pub mod Refinement
