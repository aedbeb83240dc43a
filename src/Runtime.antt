-- ===== src/Runtime.antt =====
-- runtime/src/main.rs: the enclave's server. `Link` has the state of its one stream, `Compute` the
-- computation and its input, `Loader` the calls of the loader, `Attest` quotes and persistence,
-- `Server` the handlers and the loop, `Main` its start, `Connected` the runtime on the loader of loader/src/main.rs.
pub mod Compute
pub mod Link
pub mod LoaderCalls
pub mod Attest
pub mod Server
pub mod Connected
pub mod Main
