-- ===== src/Session/Plugins.antt =====
-- lib/session/plugin.cpp: what is applied to a request before it is forwarded, and to a response
-- before it is.
pub mod Tree
pub mod Rewrite
pub mod Drop
pub mod Create
pub mod Update
pub mod Chain
pub mod Wiring
pub mod Nodes
pub mod Columns
