-- ===== src/Message/Content.antt =====
-- protocol/message/content_*.go: the content of the known messages.
pub mod Tables
pub mod Generic
pub mod Sta
pub mod Inf
pub mod Res
pub mod Qui
pub mod Get
pub mod Sch
pub mod Msg
pub mod Ctm
pub mod Gfi
pub mod Gpa
pub mod Pas
pub mod Rcm
pub mod Sid
pub mod Snd
pub mod Sup
