-- ===== src/Pop3.antt =====
-- POP3: asimap/pop3_client.py and asimap/pop3_parse.py.
pub mod DotStuffing
pub mod Session
pub mod Commands
