-- ===== src/Migration.antt =====
-- src/migration: the plan of a migration between MongoDB and PostgreSQL. The analyzers that read the
-- databases and the engines that copy the rows are not modelled.
pub mod Names
pub mod Values
pub mod Types
pub mod References
pub mod Fields
pub mod ToPostgres
pub mod ToMongo
