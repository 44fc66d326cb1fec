-- ===== src/Semaphores.antt =====
-- Small programs under semaphores: turns of two threads (Lab13) and an assembly line (Lab22).
pub mod Condition
pub mod Mutexes
pub mod Alternation
pub mod Assembly
mod Tests
