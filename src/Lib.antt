-- ===== src/Lib.antt =====
-- CryptoKiddie: the GOST TLS 1.2 client of the repository (crate `src/`).
--
-- The program opens a TLS 1.2 connection with the GOST suite 0xFF85 by itself: the block cipher,
-- the stream mode, the message code, the record layer, the handshake and the transport are its
-- own code, and a smart card does the private-key operations. The parts and the files here that
-- model them (paths are from the root of the repository):
--
--   src/gost28147.rs        Cipher: g, schedule, feistel, the block functions and one round of the
--                           message code; Keystream: CntKeystream with its two counters, its
--                           buffer and key meshing; Imit: imit and ImitContext.
--   src/gost_record.rs      Record: DirectionState, RecordCrypto, protect and unprotect.
--   src/gost_keywrap.rs     KeyWrap: the ECB and CFB helpers, kek_diversify, gost_key_wrap,
--                           gost_key_unwrap and the 44 bytes of WrappedKey.
--   src/gost_prf.rs         Prf: HMAC, P_hash, prf, master_secret, key_block and the verify data.
--   src/gost_keytransport.rs  Der (the encoder) and KeyTransport: the ClientKeyExchange body.
--   src/gost_login.rs       Der (the reader: der_peek and what is made of it); Login.Messages,
--                           Login.Certificates (the walk over the server's certificate),
--                           Login.Driver: run_login in stages, from the ClientHello to the server's
--                           Finished; Login.Session: LoginSession, application data both ways.
--   src/gost_handshake.rs   Handshake: framing, Transcript, build_client_hello, finished_body.
--   src/gost_client.rs      Client: ClientHandshake and each of its calls.
--   src/tls.rs              Tls.Types: the enumerations; Tls.Wire: writer, reader, records and the
--                           parsers; Tls.Transport: the messages of the flight and TlsTransport.
--   src/gost_ec.rs          Curve: the modular arithmetic, the group operations, scalar_mul, the bytes
--                           of a point and the parameter sets; Curve.ParameterSets has the
--                           standard's numbers of the sets.
--   src/gost_vko.rs         Curve.Agreement: VKO, the ephemeral key and software_key_transport.
--   src/lib.rs              Card.Apdu, Card.Ccid and Card.Rutoken: the modules apdu, ccid and
--                           rutoken, with what the exchange log shows of a PIN; Card.Token and
--                           Card.Token.Scan: the signature, the VKO and the reading of a certificate,
--                           command by command. The device is a parameter: a state and its answers.
--
-- Bytes and words are natural numbers, and the arithmetic of the code keeps its wrap-around
-- (`% 2 ^ 32`; the sequence number of a record counts modulo 2 ^ 64, as a release build does).
-- A byte array is a list; `IsArray n` says that it has `n` bytes. A method that changes its object
-- takes the old state and returns the new one beside the result, also where it returns an error.
-- A panic (the session id in build_client_hello) is `none`; the messages of CliError and
-- LoginError are constructors. A socket is what the peer has still to deliver and what was sent,
-- and a read beyond the end fails; writes succeed.
--
-- An error of run_login or of the session ends the connection, so that those functions return it
-- without the state behind it.
--
-- The bounds of the loops: der_len has 8 rounds, for a length of 64 bits; der_oid_arc has 4 behind
-- the first seven bits, for 32 bits; P_hash has one round for each wanted byte, and a round writes
-- at least one. The loops of the transport have one round for each byte of the stream and one
-- more, and a round that does not return reads five bytes at least. The loops of the parsers have
-- one round for each byte of their input, and a round reads three bytes or four. The loop over the
-- server's flight has one round for each byte of the buffer and the stream, and a message takes four;
-- the chunks of application data have one for each byte of the text, and a chunk that is not the
-- last takes 16384; the loop over READ BINARY has 65 rounds, and one that goes on reads 256 bytes
-- of 16 KiB; the loop that drains the application data has one for each byte of the stream,
-- and a record takes five.
--
-- Streebog-256 comes from another crate: it is a parameter of Prf, KeyTransport, Handshake and
-- Client, and that its output has 32 bytes is a hypothesis where it is needed. What the token
-- computes, the key-encryption key and the signature, are inputs, as in the code. In the login, the
-- software key agreement (software_key_transport with its random source) and the closure `sign` are
-- functions that give a result or fail.
--
-- The numbers of the crate num-bigint are a parameter of Curve: the record BigUint has what the code
-- calls and IsNatural what the crate documents of it. A result of VKO or of the key transport is
-- missing for an error and for the panic on a shared point at infinity.
--
-- Not modelled: the probes, the dumps and the alert that enriches a failed write in
-- src/gost_login.rs, the bridge (src/gost_bridge.rs, src/bin), the key URI of the token, its USB
-- and PC/SC devices and the command line over the PKCS#11, CMS and USB crates (src/lib.rs), and connect,
-- timeouts and probe_peer of the transport.
pub mod Prelude
pub mod Cipher
pub mod Keystream
pub mod Imit
pub mod Tls
pub mod Record
pub mod KeyWrap
pub mod Tests
pub mod Prf
pub mod Der
pub mod KeyTransport
pub mod Handshake
pub mod Client
pub mod Card
pub mod Curve
pub mod Login
