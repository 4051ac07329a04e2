-- ===== src/Tls.antt =====
-- src/tls.rs: the wire formats of TLS 1.2 and the transport.
pub mod Types
pub mod Wire
pub mod Transport
pub mod Framing
pub mod Reassembly
pub mod Flow
