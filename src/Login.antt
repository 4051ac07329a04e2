-- ===== src/Login.antt =====
-- src/gost_login.rs: the login over a connection.
pub mod Messages
pub mod Certificates
pub mod Driver
pub mod Session
