-- ===== src/Liveness.antt =====
-- The liveness pass of VIRC, virc/passes/liveness.cc, over the label states of Label.
pub mod Flow
pub mod Body
pub mod Paths
