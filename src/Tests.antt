-- ===== src/Tests.antt =====
-- Known answers from the test modules of src/, and the theorems at concrete inputs.
mod Samples
mod CipherRuns
mod KeystreamRuns
mod ImitRuns
mod RecordRuns
mod KeyWrapRuns
mod HandshakeRuns
mod TlsRuns
mod CardRuns
mod LoginRuns
mod TokenRuns
mod Naturals
mod CurveRuns
