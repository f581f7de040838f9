-- ===== src/Providers.antt =====
-- The providers of tile/providers/.
pub mod Assembler
pub mod Serialization
pub mod Adapter
