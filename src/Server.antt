-- ===== src/Server.antt =====
-- node.js/server.js, function by function.
pub mod State
pub mod Log
pub mod Response
pub mod Clients
pub mod Dispatch
pub mod Post
pub mod Connection
pub mod World
pub mod Hub
pub mod Args
mod Tests
