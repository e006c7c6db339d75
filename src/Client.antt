-- ===== src/Client.antt =====
-- src/core/rpc_client.cc and src/include/smf/rpc_client.h: calls, the fiber that reads replies, and
-- the life of the connection.
pub mod State
pub mod Slots
pub mod Linked
pub mod Calls
