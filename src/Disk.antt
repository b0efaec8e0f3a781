-- ===== src/Disk.antt =====
-- Sinetek-rtsx/SDDisk.cpp: the block storage device.
pub mod Io
pub mod Transfer
pub mod Task
pub mod Buffered
pub mod Request
pub mod Nub
pub mod Debug
