-- ===== src/Query/ProxyCommand.antt =====
-- lib/query/proxy-command.cpp
pub mod Patterns
pub mod Rewriting
pub mod Replacing
pub mod Searching
pub mod Translate
pub mod Fuel
pub mod Total
pub mod Ordinary
pub mod Columns
