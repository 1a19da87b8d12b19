-- ===== src/Query.antt =====
-- lib/query: parse trees as JSON, the search for a node, and the rewriting that adds access checks.
pub mod Json
pub mod Acler
pub mod Statement
pub mod Regex
pub mod ProxyCommand
