-- ===== src/Route.antt =====
-- rucimp/src/route: which outbound a connection takes.
pub mod RuleSet
pub mod Selectors
