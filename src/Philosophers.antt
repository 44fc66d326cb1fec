-- ===== src/Philosophers.antt =====
-- The dining philosophers of Lab9 and Lab21.
pub mod Trylock
pub mod Food
pub mod Monitor
pub mod Naive
pub mod Waiter
