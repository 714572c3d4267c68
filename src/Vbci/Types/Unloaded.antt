-- ===== src/Vbci/Types/Unloaded.antt =====
-- `subtype` before the complex types are loaded, where `Program::load` asks for the type of `main`.
