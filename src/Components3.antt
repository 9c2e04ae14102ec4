-- ===== src/Components3.antt =====
-- The counting threads of apps/mini_components3: the variant with an atomic counter, those with a mutex
-- or a read-write lock, the one with a condition variable, and the one in which nobody counts.
pub mod Threads
pub mod Atomic
pub mod Guarded
pub mod Cond
pub mod Plain
mod Tests
