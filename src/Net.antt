-- ===== src/Net.antt =====
-- src/net: addresses and their wire form.
pub mod Http
pub mod Addr
pub mod Conn
pub mod Cid
pub mod Helpers
pub mod ReadBuf
pub mod Mock
pub mod EarlyData
