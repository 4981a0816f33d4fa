-- ===== src/Socks5.antt =====
-- SOCKS5 (src/map/socks5).
pub mod Consts
pub mod Diagram
pub mod Udp
pub mod Session
pub mod Server
pub mod Client
