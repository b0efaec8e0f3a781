-- ===== src/Tests.antt =====
-- The definitions and the theorems at concrete inputs.
mod Device
mod Memories
mod ReadBack
mod Disk
mod Dict
mod Dma
mod Retry
mod Life
mod Races
mod Compat
mod Service
mod Success
mod Maps
mod Driver
mod Buffered
mod Queue
