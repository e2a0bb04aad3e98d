-- ===== src/Generator.antt =====
-- protocol/generator: the generator of the content structs.
pub mod Jen
pub mod MessageModel
pub mod MapperModel
pub mod Mappers
pub mod Types
pub mod StructGenerator
pub mod Debug
