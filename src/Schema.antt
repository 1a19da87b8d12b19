-- ===== src/Schema.antt =====
-- lib/schema: the set of the relations that access control knows.
pub mod Tracker
