-- ===== src/Vbc.antt =====
-- The VBC byte stream: virc/vbc/emitter.cc writes it, vbci/program.h and vbci/program.cc read it.
pub mod Reader
pub mod Leb
pub mod Sections
pub mod ComplexTypes
pub mod Tests
