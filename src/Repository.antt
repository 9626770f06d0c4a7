-- ===== src/Repository.antt =====
-- internal/adapters/repository: the tables of the database and the queries on them.
pub mod Models
pub mod Query
pub mod Mailboxes
pub mod Accounts
pub mod Runtime
pub mod Support
