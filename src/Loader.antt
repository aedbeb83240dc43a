-- ===== src/Loader.antt =====
-- loader/src/main.rs: blobs, quotes, the multiplexer between the runtime and the host, the frames
-- on its sockets, and the checks before it launches the enclave.
pub mod Blobs
pub mod Names
pub mod Operations
pub mod Multiplexer
pub mod Sockets
pub mod Start
