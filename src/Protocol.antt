-- ===== src/Protocol.antt =====
-- protocol/src/lib.rs and protocol/src/aead.rs: the frames, their wire format, the REPORTDATA
-- binding and the HPKE envelope that host, loader and runtime share.
pub mod Frame
pub mod Wire
pub mod Platform
pub mod Binding
pub mod Aead
pub mod Cache
pub mod Verify
