-- ===== src/Tests.antt =====
-- Runs of the modelled code at concrete inputs.
pub mod Conn
pub mod Schema
pub mod Query
pub mod Startup
pub mod Trees
pub mod Plugins
pub mod ProxyCommand
pub mod Deque
pub mod Session
pub mod Operator
pub mod Sharing
pub mod Server
