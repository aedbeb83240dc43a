-- ===== src/Tests.antt =====
-- The theorems at concrete inputs, on a small platform and a small peer.
pub mod Toy
pub mod Keys
pub mod Packets
pub mod Server
pub mod Loader
pub mod Host
pub mod Restart
pub mod Verify
pub mod Client
pub mod Challenge
pub mod Replies
pub mod Renewal
pub mod Process
pub mod Waits
pub mod Clients
pub mod Launch
pub mod Main
