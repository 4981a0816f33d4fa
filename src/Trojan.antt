-- ===== src/Trojan.antt =====
-- src/map/trojan: the trojan proxy protocol.
pub mod Consts
pub mod Users
pub mod Client
pub mod Server
pub mod Handshake
pub mod Writer
pub mod Reader
