-- ===== src/Tests.antt =====
-- Runs of the modelled operations, and each main theorem at a concrete input.
pub mod Mailboxes
pub mod Texts
pub mod Sets
pub mod Sessions
pub mod Searches
pub mod Clients
pub mod Turns
pub mod Folders
pub mod Written
pub mod Tasks
pub mod Commands
