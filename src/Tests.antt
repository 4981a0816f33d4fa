-- ===== src/Tests.antt =====
-- Runs on concrete inputs, and the theorems at inputs where their hypotheses hold.
mod Net
mod Users
mod Reader
mod Trojan
mod Socks5
mod Streams
mod Route
mod Fold
mod Listen
mod Http
mod Text
mod Datagrams
mod Selectors
