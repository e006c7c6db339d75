-- ===== src/Tests/Peers.antt =====
-- Instances of the theorems on the server: one request, from its connection to its reply.
use smurf.Prelude.{◌-◌, ◌^◌, ◌+◌, ◌≡◌, refl, false, some, List, [], ◌∷◌, ◌++◌, Bytes, codes, arith}
use smurf.Future.{ready}
use smurf.Rpc.Header.{Header, encode_header, decode_header, read_le, write_le}
use smurf.Rpc.Letter.{rpc_checksum_payload}
use smurf.Rpc.Recv.{parse_header, parse_payload, check_header, check_payload, enable_compression}
use smurf.Rpc.Connection.{disable, open_connection, is_valid, has_error}
use smurf.Rpc.Router.{Service, get_handle_for_request}
use smurf.Server.State.{
  idle, contains, cleanup_dispatch_rpc, destroy_connection, Setup, Server, Peer, reading, Handle,
  start, accept,
}
use smurf.Server.State.Units.{held, IsAccounted}
use smurf.Server.Dispatch.{dispatch_rpc, do_dispatch_rpc, start_request, add_request, add_in_bytes}
use smurf.Server.Session.{
  Event, accepted, looped, granted, arrived, resumed, step, run, loop_phase, loop_idle,
  after_header, grant_phase, arrive_phase, after_payload,
}
use smurf.Server.Session.Account.{AllOrderly, run-IsBalanced}
use smurf.Server.State.Counters.{cleanup_once, active_connections_wrap}
use smurf.Tests.Instances.{bytes_in, bytes_out, toy_hash}

abbrev header : Header
header = record { compression = 0; bitflags = 0; session = 1; size = 3; checksum = 10; meta = 77 }

abbrev echo : Handle
echo ctx = ready (record { header = ctx.header; dynamic_headers = []; body = ctx.payload })

abbrev service : Service Handle
service = record {
  service_name = codes "echo";
  service_id = 1;
  method_for_request_id = λ id. some echo;
}

abbrev setup : Setup Bytes Bytes
setup = record {
  input = bytes_in;
  output = bytes_out;
  xxh64 = toy_hash;
  debug = false;
  in_filters = [];
  out_filters = [];
  routes = service ∷ [];
}

abbrev request : Bytes
request = encode_header header ++ (1 ∷ 2 ∷ 3 ∷ [])

abbrev schedule : List (Event Bytes Bytes)
schedule =
    accepted request [] ∷ looped 0 ∷ granted 0 ∷ arrived 0 ∷ resumed 0 ∷ resumed 0 ∷ looped 0 ∷ []

schedule-AllOrderly : AllOrderly setup start schedule
unfolding step run accept open_connection loop_phase loop_idle is_valid has_error parse_header
    decode_header check_header enable_compression read_le encode_header write_le after_header
    grant_phase parse_payload check_payload rpc_checksum_payload
schedule-AllOrderly = (tt, (tt, (tt, ((omega arith, refl, tt), (tt, (tt, (tt, tt)))))))

run-IsBalanced_example :
    (run setup start schedule).signalled + held (run setup start schedule)
    ≡ (run setup start schedule).waited
run-IsBalanced_example = run-IsBalanced setup schedule schedule-AllOrderly

-- The server when it has started the request
abbrev serving : Server Bytes Bytes
serving = run setup start (accepted request [] ∷ looped 0 ∷ granted 0 ∷ arrived 0 ∷ [])

serving-IsAccounted : IsAccounted serving
unfolding step run accept open_connection loop_phase loop_idle is_valid has_error parse_header
    decode_header check_header enable_compression read_le encode_header write_le after_header
    grant_phase parse_payload check_payload rpc_checksum_payload arrive_phase after_payload
    dispatch_rpc do_dispatch_rpc get_handle_for_request start_request add_request add_in_bytes
serving-IsAccounted = record { balance = refl; fit = ((omega arith, omega arith), tt) }

-- The server when the payload of its first connection is read
abbrev reading_server : Server Bytes Bytes
reading_server = run setup start (accepted request [] ∷ looped 0 ∷ granted 0 ∷ [])

abbrev reading_peer : Peer Bytes Bytes
reading_peer = record {
  id = 1;
  conn = record (open_connection request []) { istream = 1 ∷ 2 ∷ 3 ∷ [] };
  phase = reading header;
}

-- A server with one connection, whose first bytes were no header
abbrev bad_peer : Peer Bytes Bytes
bad_peer = record {
  id = 1;
  conn = record (open_connection [] []) { error = some (codes "Error parsing connection header") };
  phase = idle;
}

abbrev one_connection : Server Bytes Bytes
one_connection = accept [] [] start

cleanup_once_example :
    cleanup_dispatch_rpc 0
      (record bad_peer { conn = disable bad_peer.conn })
      (cleanup_dispatch_rpc 0 bad_peer one_connection)
    ≡ cleanup_dispatch_rpc 0 bad_peer one_connection
unfolding has_error
cleanup_once_example = cleanup_once 0 bad_peer one_connection refl

active_connections_wrap_example :
    (destroy_connection (cleanup_dispatch_rpc 0 bad_peer one_connection)).stats.active_connections
    ≡ 2 ^ 64 - 1
unfolding has_error accept contains
active_connections_wrap_example = active_connections_wrap 0 bad_peer one_connection refl refl refl
