-- ===== src/Server/State.antt =====
-- The state of src/core/rpc_server.cc, of src/include/smf/rpc_server_connection.h and of
-- src/include/smf/rpc_server_stats.h, and what opens, ends and destroys a connection.
pub mod Units
pub mod Counters
use smurf.Prelude.{
  ℕ, ◌+◌, ◌-◌, ◌%◌, ◌^◌, ◌≡◌, Bool, true, false, not, Option, none, some, List, [], ◌∷◌, ◌++◌,
  Bytes, codes, ◌==◌, get_elem?, set, if◌then◌else◌,
}
use smurf.Future.{Future}
use smurf.Rpc.Header.{Header}
use smurf.Rpc.Io.{InputStream, OutputStream}
use smurf.Rpc.Letter.{Letter}
use smurf.Rpc.Connection.{Connection, open_connection, set_error, has_error, disable, is_valid}
use smurf.Rpc.Recv.{RecvContext}
use smurf.Rpc.Router.{Service}

-- rpc_service_method_handle::apply
abbrev pub Handle : Type 0
Handle = RecvContext → Future Letter

-- What the server is built with: the streams and the hash of the libraries, the build, the filters
-- and the services that were registered.
pub record Setup (I O : Type 0) : Type 0 where
  pub input : InputStream I
  pub output : OutputStream O
  pub xxh64 : Bytes → ℕ
  pub debug : Bool
  pub in_filters : List (RecvContext → Future RecvContext)
  pub out_filters : List (Letter → Future Letter)
  pub routes : List (Service Handle)

-- rpc_server_stats; the counters are uint64_t.
pub record Stats : Type 0 where
  pub active_connections : ℕ
  pub total_connections : ℕ
  pub in_bytes : ℕ
  pub out_bytes : ℕ
  pub bad_requests : ℕ
  pub no_route_requests : ℕ
  pub completed_requests : ℕ
  pub too_large_requests : ℕ

abbrev pub plus : ℕ → ℕ → ℕ
plus a b = (a + b) % 2 ^ 64

abbrev pub minus_one : ℕ → ℕ
minus_one a = (a + 2 ^ 64 - 1) % 2 ^ 64

-- Where the fiber of handle_client_connection stands: before the test of its loop, waiting for
-- memory for the payload of a header, reading that payload, or past its end.
pub data Phase : Type 0 where
  idle : Phase
  waiting : Header → Phase
  reading : Header → Phase
  closed : Phase

-- rpc_server_connection
pub record Peer (I O : Type 0) : Type 0 where
  pub id : ℕ
  pub conn : Connection I O
  pub phase : Phase

-- Where the fiber of do_dispatch_rpc stands: with a context to filter and handle, with a reply to
-- write, or at its end.
pub data Stage : Type 0 where
  handling : Handle → RecvContext → Stage
  replying : Letter → Stage
  finished : Stage

pub record Request : Type 0 where
  pub peer : ℕ
  pub payload_size : ℕ
  pub stage : Stage

-- `peers` are the connections that were accepted, at the positions by which requests refer to them;
-- `open_connections` are the keys of the map of that name. `waited` and `signalled` are the sums of the arguments of the calls of wait and signal on the
-- semaphore limits_->resources_available.
pub record Server (I O : Type 0) : Type 0 where
  pub stats : Stats
  pub peers : List (Peer I O)
  pub connection_idx : ℕ
  pub open_connections : List ℕ
  pub requests : List Request
  pub waited : ℕ
  pub signalled : ℕ
  pub gate_closed : Bool

abbrev pub empty_stats : Stats
empty_stats = record {
  active_connections = 0;
  total_connections = 0;
  in_bytes = 0;
  out_bytes = 0;
  bad_requests = 0;
  no_route_requests = 0;
  completed_requests = 0;
  too_large_requests = 0;
}

unfoldable pub contains : ℕ → List ℕ → Bool
contains id [] = false
contains id (j ∷ ids) = if j == id then true else contains id ids

unfoldable pub erase : ℕ → List ℕ → List ℕ
erase id [] = []
erase id (j ∷ ids) = let rest = erase id ids in if j == id then rest else j ∷ rest

module _ {I O : Type 0} where
  abbrev pub start : Server I O
  start = record {
    stats = empty_stats;
    peers = [];
    connection_idx = 0;
    open_connections = [];
    requests = [];
    waited = 0;
    signalled = 0;
    gate_closed = false;
  }

  -- The constructor of rpc_server_connection, after accept(), and the insertion of the connection.
  unfoldable pub accept : I → O → Server I O → Server I O
  accept i o s =
      let id = plus s.connection_idx 1 in
      record s {
        peers = s.peers ++ (record { id = id; conn = open_connection i o; phase = idle } ∷ []);
        connection_idx = id;
        open_connections = id ∷ s.open_connections;
        stats = record s.stats {
          active_connections = plus s.stats.active_connections 1;
          total_connections = plus s.stats.total_connections 1;
        };
      }

  abbrev pub put_peer : ℕ → Peer I O → Server I O → Server I O
  put_peer i p s = record s { peers = set s.peers i p }

  -- The branch of cleanup_dispatch_rpc for a connection that has an error and is still open.
  unfoldable pub close_peer : ℕ → Peer I O → Server I O → Server I O
  close_peer i p s = record s {
    peers = set s.peers i (record p { conn = disable p.conn });
    open_connections = erase p.id s.open_connections;
    stats = record s.stats {
      bad_requests = plus s.stats.bad_requests 1;
      active_connections = minus_one s.stats.active_connections;
    };
  }

  unfoldable pub complete : Server I O → Server I O
  complete s = record s {
    stats = record s.stats { completed_requests = plus s.stats.completed_requests 1 };
  }

  -- cleanup_dispatch_rpc on the connection at the position `i`, which is `p`
  unfoldable pub cleanup_dispatch_rpc : ℕ → Peer I O → Server I O → Server I O
  cleanup_dispatch_rpc i p s =
      if has_error p.conn
      then if contains p.id s.open_connections then close_peer i p s else s
      else complete s

  -- ~rpc_server_connection
  unfoldable pub destroy_connection : Server I O → Server I O
  destroy_connection s = record s {
    stats = record s.stats { active_connections = minus_one s.stats.active_connections };
  }

  -- conn->set_error on the connection at the position `i`
  unfoldable pub fail_peer : ℕ → Bytes → Peer I O → Server I O → Server I O
  fail_peer i e p s = put_peer i (record p { conn = set_error e p.conn }) s
