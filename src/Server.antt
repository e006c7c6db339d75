-- ===== src/Server.antt =====
-- src/core/rpc_server.cc: connections, the loop that reads their requests, and the dispatch of a
-- request in the background.
pub mod State
pub mod Dispatch
pub mod Session
