-- ===== src/Database.antt =====
-- processors/database: the tables (models.py, storage/init/01-schema.sql) and the repositories.
pub mod Models
pub mod Rows
pub mod Tasks
pub mod Mappings
pub mod Emails
pub mod Users
