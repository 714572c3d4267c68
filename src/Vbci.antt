-- ===== src/Vbci.antt =====
-- VBCI, the interpreter of VBC (directory vbci).
pub mod Types
pub mod Regions
pub mod Location
pub mod WriteBarrier
pub mod Stack
pub mod Header
