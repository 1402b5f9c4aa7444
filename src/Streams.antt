-- ===== src/Streams.antt =====
-- src/domain/session_stream.cpp: the streams that a session's graph declares.
pub mod Blocks
pub mod Plan
