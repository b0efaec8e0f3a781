-- ===== src/Dma.antt =====
-- Sinetek-rtsx/compat/openbsd/dma.cpp: OpenBSD's DMA interface over IOKit.
pub mod Alloc
pub mod Load
pub mod Mapping
pub mod Segments
