-- ===== src/Examples.antt =====
-- The theorems at concrete inputs.
mod Names
mod Rows
mod Sheets
mod Tasks
mod Routes
mod Queue
mod Files
mod Users
mod Mails
