-- ===== src/Card.antt =====
-- src/lib.rs: the smart card, from APDUs to the commands of the Rutoken.
pub mod Apdu
pub mod Ccid
pub mod Rutoken
pub mod Token
pub mod Privacy
pub mod Encoding
pub mod Points
