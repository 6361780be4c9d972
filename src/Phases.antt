-- ===== src/Phases.antt =====
-- The earlier phases of the server: the pool of phases 3 and 4 (server_phase3.cpp,
-- server_phase4.cpp), and the cache and the handler of phase 4.
pub mod Pool
pub mod Cache
pub mod Handler
mod Tests
