-- ===== src/Ftp.antt =====
-- example/miniftpd/src: one FTP session, all of whose callbacks run in the thread of its loop.
pub mod Session
