-- ===== src/Mbox.antt =====
-- asimap/mbox.py: the mailbox.
pub mod State
pub mod Sequences
pub mod Flags
pub mod Store
pub mod Invariant
pub mod Expunge
pub mod Resync
pub mod Find
pub mod MsgSet
pub mod FolderFlags
pub mod Conflict
pub mod Manager
pub mod Select
pub mod Append
pub mod Database
