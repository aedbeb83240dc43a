-- ===== src/Lib.antt =====
-- tee-demo: the protocol crate, the SGX runtime that keeps HPKE keys, attests them and computes on
-- sealed requests, the loader's start-up and multiplexer, the host's daemon, and the client that
-- verifies an attestation and asks for a computation.
--
-- The program has three processes. The runtime (runtime/src) is an SGX enclave: it keeps the key
-- store, answers requests, and reaches the outside by one stream only. The loader (loader/src) is
-- at the other end: it makes quotes, keeps blobs on disk and forwards every other frame between
-- the host and the runtime. The host (host/src) serves clients. All of them exchange the frames of
-- the protocol crate (protocol/src). The loader and the host are not trusted by the enclave, so the
-- runtime is modelled against any peer (Runtime/Link: a peer takes a frame and puts replies, good,
-- bad or none, into the runtime's inbox).
--
-- Files and code:
--   Base, Base/*: tests, lists, results, bytes, i64. `Outcome` is Rust's `Result` with a third case
--     for a panic, so that an index out of range is a value; `slice` panics where Rust's does.
--   Strings/*: what the code uses of Rust's numbers as texts, of `str`, of hex and of `from_utf8`; a
--     text is the list of its bytes. `slice_from` and `slice_to` (Slices) panic out of range and
--     inside a character.
--   Protocol/Frame, Wire, Binding, Cache: protocol/src/lib.rs (`Frame`, `encode_frame`, `read_frame`,
--     `write_frame`, `report_data_binding`, `attestation_cache_json`).
--   Protocol/Verify: module `verify` of protocol/src/lib.rs. dcap-qvl, with its collateral client and
--     its clock, and the tokio runtime that a caller verifies on, is the record `Dcap`: a value of it
--     is what one verification meets. Of its report the model has what the code reads.
--   Protocol/Aead: protocol/src/aead.rs. Protocol/Platform: the crates and the hardware that the code
--     calls and that are not part of the repository, as a record of functions (base64, sha2, hpke,
--     aes-gcm, sgx-isa, getrandom, the clock); a theorem that relies on what one of them documents
--     has it as a hypothesis (`IsKeyPair`, `SealSupport`, or written out). serde_json is the record
--     `Json` of Protocol/Wire; what a writer's `write_all` and `flush` give is the record `Sink`.
--   KeyStore: runtime/src/key_store.rs. `rotate` and `new` return the store that the source mutates.
--   Sealing: the SGX build of runtime/src/sealing.rs.
--   Runtime/Compute, LoaderCalls, Attest, Server: runtime/src/main.rs, function by function. An action
--     (`M`) takes the state of the stream, the counter `loader_seq` and the counters of clock readings
--     and random draws to a result and the new state; `?` is the bind. What the handlers change by
--     `&mut` (`last_attested_at`, `store`, `attest_sequence`) is the record `Session`.
--   Runtime/Main: `main` of runtime/src/main.rs, on the stream that it connected.
--   Runtime/Connected: the runtime with the loader of loader/src/main.rs as its peer. Each frame that
--     the runtime sends goes through one round of the multiplexer, on the disk of `Machine`; what the
--     host sends before and after it is any list of frames and errors (`Host`).
--   Loader/Blobs, Operations, Multiplexer: loader/src/main.rs (`safe_blob_name`, `handle_blob_op`,
--     `handle_loader_op`, `run_multiplexer`). The file system and the AESM client are the record
--     `Machine`. A `Turn` of the multiplexer says which leg's frame is complete first, how many bytes
--     the read that `select!` drops has taken from the other leg, and what the write gives;
--     `select_reads` makes the reads on the two byte streams, and `route_rounds` is the loop on what
--     they give (`Round`).
--   Loader/Names: the accepted names as names in a directory.
--   Loader/Sockets: `read_frame_async`, `write_frame_async` and `connect_stream` of loader/src/main.rs.
--   Loader/Start: `main`, `run` and `verify_mrenclave` of loader/src/main.rs, from the parsed arguments
--     to what enclave-runner is given (`Launch`); paths and devices are the record `Disk`.
--   Host/Connection: `RuntimeConnection` of host/src/main.rs (`request_attestation`,
--     `request_compute_ct`, `request_rotate`). The result of a request's write is an argument.
--   Host/Connection/Plain: `request_compute`, which nothing calls.
--   Host/Spawn: the rest of `RuntimeConnection::start`: the loader's command, and the wait until it
--     connects. Host/Process: the pid file, the start of `cmd_serve`, and `cmd_stop`, on a state of
--     files and signals. What the operating system gives is the records `Launcher` and `Kernel`.
--   Host/Clients: `handle_client` of host/src/main.rs, with the connection behind the mutex and what
--     was written to the client as its state.
--   Host/Daemon: the loop over clients of `cmd_serve`, the thread of `spawn_attest_worker` and frames
--     that come in, as the steps of a relation on the connection: the mutex makes each call one step.
--   Host/Client: the client's side of host/src/main.rs: `random_challenge_nonce`,
--     `verify_attestation_frame`, `challenge_and_verify`, `hex_decode` (Hex), the commands `calc`,
--     `challenge`, `pubkey` and `rotate` (Commands), and `attest` (OneShot). The state is the daemon,
--     the printed lines and the counters of clock readings and draws; the daemon behind its socket,
--     the clock and /dev/urandom are the record `Surroundings`.
--   Host/Main: the subcommands of host/src/main.rs with their default values, and `main` on a parsed
--     command, down to the exit code. What happens while the daemon serves is a list of events.
--   Tests/*: a small platform, codec and loader, and each theorem at a concrete input.
--
-- Bounds: numbers are natural numbers; the width of a field shows where the code depends on it (`% 2
-- ^ 64` in `rotate` and `next_seq`, `wrap_i64` in `compute`, the casts to u16 and u8 in the encodings),
-- with the wrap-around of a release build. `serve_loop` and `wait_loader` take fuel; the printing of
-- numbers and the trimming in Strings recur on a length that bounds the rounds.
-- The runtime's loop ends by an error only, the model's after a number of rounds that the caller
-- names. The daemon's wait for the loader has a theorem that 601 looks are enough: 30 seconds in
-- steps of 50 milliseconds. `Reach` of Host/Daemon counts its steps. The loop that waits for a reply
-- is a recursion on the inbox: an empty inbox is the end of the stream. A peer's replies are put into
-- the inbox when a frame is written.
--
-- Not modelled: logging; the stubs of `main` and of sealing on other builds; the tasks of the loader's
-- executor; of host/src/main.rs the argument parser, which is clap, a mutex that a panic has poisoned,
-- what stands behind the loop of `cmd_serve`, which never ends by itself, and the sockets of
-- `client_roundtrip`; the texts of Rust's own errors on files; scripts.
pub mod Base
pub mod Strings
pub mod Protocol
pub mod KeyStore
pub mod Sealing
pub mod Runtime
pub mod Loader
pub mod Host
pub mod Tests
