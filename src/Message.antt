-- ===== src/Message.antt =====
-- protocol/message: what a message is made of.
pub mod Header
pub mod Status
pub mod Search
pub mod Feature
pub mod Maybe
pub mod Params
pub mod Content
pub mod Struct
pub mod Accessors
pub mod NamedGets
