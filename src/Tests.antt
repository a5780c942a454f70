-- ===== src/Tests.antt =====
-- Concrete runs, and each theorem with hypotheses at an input that meets them.
mod Bytes
mod Coordinator
mod Routes
mod Scan
mod Sessions
mod Names
mod Caches
mod Offsets
mod Clauses
mod Cursors
mod Indexes
