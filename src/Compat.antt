-- ===== src/Compat.antt =====
-- Sinetek-rtsx/compat/openbsd: OpenBSD's kernel interfaces over Darwin's.
pub mod Spl
pub mod Sleep
pub mod Thread
pub mod RwLock
pub mod BusSpace
