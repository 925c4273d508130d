-- ===== src/Daemon.antt =====
-- src/server.c: the server's life, its signals, its timer and its PID file.
pub mod Cron
pub mod Start
pub mod Events
pub mod Main
