-- ===== src/Driver.antt =====
-- Sinetek-rtsx/Sinetek_rtsx.cpp, and what carries it in the compatibility layer.
pub mod Tasks
pub mod Interrupts
pub mod Registers
pub mod Owner
pub mod Storage
pub mod Life
pub mod Service
pub mod Autoconf
