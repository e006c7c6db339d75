-- ===== src/Rpc.antt =====
-- The parts that client and server share: core/rpc.fbs, rpc_letter, rpc_envelope,
-- rpc_connection, rpc_recv_context, rpc_filter.h and the handle router.
pub mod Header
pub mod Io
pub mod Letter
pub mod Connection
pub mod Recv
pub mod Router
