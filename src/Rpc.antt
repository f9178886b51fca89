-- ===== src/Rpc.antt =====
-- The package rpc: the server, the client, and what they are to each other.
pub mod Paths
pub mod Wire
pub mod Services
pub mod Server
pub mod Client
pub mod EndToEnd
pub mod Registration
pub mod Signatures
pub mod Statistics
pub mod Connections
pub mod Stats
pub mod Logging
