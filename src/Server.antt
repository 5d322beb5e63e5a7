-- ===== src/Server.antt =====
-- The server's side of a connection.
pub mod Events
pub mod State
pub mod Commands
pub mod Handlers
pub mod Counting
pub mod Answers
pub mod Runs
pub mod Keeping
pub mod Watching
pub mod Updates
pub mod Dispatch
pub mod Variables
