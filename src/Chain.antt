-- ===== src/Chain.antt =====
-- rucimp/src/modes/chain: the chains that a configuration describes.
pub mod Dynamic
