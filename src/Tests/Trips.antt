-- ===== src/Tests/Trips.antt =====
-- Instances of the theorems on a call and its service, and on the client against its abstract
-- machine.
use smurf.Prelude.{
  ℕ, ◌+◌, ◌≡◌, refl, true, false, none, some, List, [], ◌∷◌, ◌++◌, Bytes, codes, arith, get_elem?,
}
use smurf.Future.{ready}
use smurf.Rpc.Header.{encode_header, read_le, write_le, decode_header}
use smurf.Rpc.Letter.{Letter, rpc_checksum_payload, mutate_session, send}
use smurf.Rpc.Connection.{Connection, open_connection, is_valid, has_error}
use smurf.Rpc.Recv.{
  enable_compression, session, parse_header, check_header, parse_payload, check_payload,
}
use smurf.Rpc.Recv.RoundTrip.{IsSendable}
use smurf.Rpc.Recv.Stream.{context_of}
use smurf.Rpc.Router.{Service, get_handle_for_request}
use smurf.Filter.{rpc_filter_apply}
use smurf.Client.State as ClientState
use smurf.Client.State.{resolve, erase, Client, new_client, find, insert, is_conn_valid, resolved}
use smurf.Client.Calls
use smurf.Client.Calls.{
  process_one_request, times_out, stops, connects, sends, writes, reads, connect, next_session,
  raw_send, send_call, write_next,
}
use smurf.Client.Calls.Trip.{CanCall}
use smurf.Client.Calls.Outstanding.{AllNoReuse, run-IsLinked, new_client-IsLinked}
use smurf.Client.Calls.Spec.{Reaches}
use smurf.Client.Calls.Refines.{run-Reaches, reply_belongs, result_stays}
use smurf.Server.State as ServerState
use smurf.Server.State.{Handle, Server, start, accept, idle, plus}
use smurf.Server.Session
use smurf.Server.State.{complete, cleanup_dispatch_rpc}
use smurf.Server.Session.{
  loop_phase, loop_idle, after_header, grant_phase, arrive_phase, after_payload,
}
use smurf.Server.Dispatch.{
  handled, dispatch_rpc, do_dispatch_rpc, start_request, add_request, add_in_bytes, add_out_bytes,
  resume, resume_stage, after_handling, put_stage, reply, write_reply, after_reply, finish_dispatch,
  signal, signal_units,
}
use smurf.Server.Session.Served.{CanServe, one_request, serve_once}
use smurf.System.{call_returns}
use smurf.Tests.Instances.{
  open_in, open_in-ReadsFrom, open_in-StaysOpen, bytes_out, bytes_out-WritesTo, toy_hash,
}

abbrev echo : Handle
echo ctx = ready (record { header = ctx.header; dynamic_headers = []; body = ctx.payload })

abbrev service : Service Handle
service = record {
  service_name = codes "echo";
  service_id = 1;
  method_for_request_id = λ id. some echo;
}

abbrev server : ServerState.Setup Bytes Bytes
server = record {
  input = open_in;
  output = bytes_out;
  xxh64 = toy_hash;
  debug = true;
  in_filters = [];
  out_filters = [];
  routes = service ∷ [];
}

abbrev client : ClientState.Setup Bytes Bytes
client = record {
  input = open_in;
  output = bytes_out;
  xxh64 = toy_hash;
  debug = true;
  in_filters = [];
  out_filters = [];
}

abbrev letter_of : ℕ → Letter
letter_of id = record {
  header = record {
    compression = 0;
    bitflags = 0;
    session = id;
    size = 3;
    checksum = 10;
    meta = 70000;
  };
  dynamic_headers = [];
  body = 1 ∷ 2 ∷ 3 ∷ [];
}

letter-IsSendable : IsSendable toy_hash (letter_of 1)
unfolding rpc_checksum_payload
letter-IsSendable = record {
  fits = record {
    compression = omega arith;
    bitflags = omega arith;
    session = omega arith;
    size = omega arith;
    checksum = omega arith;
    meta = omega arith;
  };
  known = omega arith;
  plain = refl;
  labelled = omega arith;
  filled = omega arith;
  bounded = omega arith;
  sized = refl;
  summed = refl;
  checksum = omega arith;
}

abbrev request : Bytes
request = encode_header (letter_of 1).header ++ (1 ∷ 2 ∷ 3 ∷ [])

-- A server that has a connection with the request and one more byte, and a client to the same bytes
abbrev serving : Server Bytes Bytes
serving = accept (request ++ (9 ∷ [])) (7 ∷ []) start

serving-CanServe :
    CanServe server serving 0 1
      (open_connection (request ++ (9 ∷ [])) (7 ∷ []))
      (letter_of 1)
      (letter_of 1)
      echo
unfolding accept is_valid has_error open_connection get_handle_for_request handled rpc_filter_apply
    enable_compression
serving-CanServe = record {
  at = refl;
  gate = refl;
  valid = refl;
  alone = refl;
  sendable = letter-IsSendable;
  routed = refl;
  handles = refl;
  answer = letter-IsSendable;
}

serve_once_example :
    (c' : Connection Bytes Bytes) × (get_elem?
        (Session.run server serving (one_request 0 0)).peers
        0
      ≡ some (record { id = 1; conn = c'; phase = idle }))
    × (is_valid open_in c' ≡ true)
    × (c'.istream_active_parser ≡ 0)
    × (c'.istream ≡ 9 ∷ [])
    × (c'.ostream ≡ (7 ∷ []) ++ (encode_header (letter_of 1).header ++ (1 ∷ 2 ∷ 3 ∷ [])))
    × ((Session.run server serving (one_request 0 0)).stats.completed_requests ≡ plus 0 1)
    × ((Session.run server serving (one_request 0 0)).waited ≡ 0 + 3)
    × ((Session.run server serving (one_request 0 0)).signalled ≡ 0 + 3)
unfolding accept open_connection encode_header write_le
serve_once_example =
    serve_once server (λ s. s) (λ s. s) serving 0 1 (open_connection (request ++ (9 ∷ [])) (7 ∷ []))
      (letter_of 1) (letter_of 1) (9 ∷ []) echo open_in-ReadsFrom open_in-StaysOpen
      bytes_out-WritesTo serving-CanServe refl

abbrev connected : Client Bytes Bytes
connected = Calls.run client (new_client false) (connects (ready (request, [])) ∷ [])

connected-AllNoReuse : AllNoReuse client (new_client false) (connects (ready (request, [])) ∷ [])
connected-AllNoReuse = (tt, tt)

connected-CanCall :
    CanCall client connected (open_connection request []) (letter_of 0) (letter_of 1)
unfolding Calls.run Calls.step connect is_conn_valid is_valid has_error open_connection next_session
    find rpc_filter_apply mutate_session
connected-CanCall = record {
  linked = run-IsLinked client false (connects (ready (request, [])) ∷ []) connected-AllNoReuse;
  gate = refl;
  first = refl;
  at = refl;
  valid = refl;
  alone = refl;
  free = refl;
  filtered = refl;
  sendable = letter-IsSendable;
  counted = omega arith;
}

-- The connection of the server when the reply is written
abbrev after_request : Connection Bytes Bytes
after_request = open_connection (9 ∷ []) ((7 ∷ []) ++ request)

call_returns_example :
    (get_elem? (Calls.run client connected (sends (letter_of 0) ∷ writes ∷ reads ∷ [])).works 0
      ≡ some (record { session = 1; pr = resolved (ready (some (context_of (letter_of 1)))) }))
    × (find 1 (Calls.run client connected (sends (letter_of 0) ∷ writes ∷ reads ∷ [])).rpc_slots
        ≡ none)
    × (after_request.istream ≡ 9 ∷ [])
unfolding Calls.run Calls.step connect is_conn_valid is_valid has_error open_connection next_session
    find rpc_filter_apply mutate_session insert raw_send send_call write_next send encode_header
    write_le Session.run Session.step accept loop_phase loop_idle parse_header decode_header
    check_header enable_compression read_le after_header grant_phase parse_payload check_payload
    rpc_checksum_payload arrive_phase after_payload dispatch_rpc do_dispatch_rpc
    get_handle_for_request start_request add_request add_in_bytes add_out_bytes complete resume
    resume_stage handled after_handling put_stage reply write_reply after_reply finish_dispatch
    signal signal_units cleanup_dispatch_rpc
call_returns_example =
    call_returns client server (λ s. s) (λ s. s) (λ s. s) (λ s. s) connected serving
      (open_connection request []) (open_connection request request)
      (open_connection (request ++ (9 ∷ [])) (7 ∷ [])) after_request 0 1 (letter_of 0) (letter_of 1)
      (letter_of 1) echo [] (9 ∷ []) open_in-ReadsFrom open_in-StaysOpen bytes_out-WritesTo
      open_in-ReadsFrom open_in-StaysOpen bytes_out-WritesTo refl connected-CanCall serving-CanServe
      refl refl refl refl refl

-- The client that sends two calls and gets the reply to the first, and what it does then
abbrev two_calls : List (Calls.Event Bytes Bytes)
two_calls =
    connects (ready (request, [])) ∷ sends (letter_of 0) ∷ writes ∷ sends (letter_of 0) ∷ reads ∷ []

two_calls-AllNoReuse : AllNoReuse client (new_client false) two_calls
unfolding Calls.run Calls.step connect is_conn_valid is_valid has_error open_connection next_session
    find rpc_filter_apply mutate_session insert raw_send send_call write_next send encode_header
    write_le
two_calls-AllNoReuse = (tt, (refl, (tt, (refl, (tt, tt)))))

run-Reaches_example :
    Reaches
      (new_client {I = Bytes} {O = Bytes} false).works
      (Calls.run client (new_client false) two_calls).works
run-Reaches_example =
    run-Reaches client (new_client false) two_calls (new_client-IsLinked client false)
      two_calls-AllNoReuse

reply_belongs_example : session (context_of (letter_of 1)) ≡ 1
unfolding Calls.run Calls.step connect is_conn_valid is_valid has_error open_connection next_session
    find rpc_filter_apply mutate_session insert raw_send send_call write_next send encode_header
    write_le parse_header decode_header check_header enable_compression read_le parse_payload
    check_payload rpc_checksum_payload process_one_request resolve erase
reply_belongs_example =
    reply_belongs client false two_calls 0 1 (context_of (letter_of 1)) two_calls-AllNoReuse refl

-- The first call has its reply, and the connection is lost.
abbrev answered : Client Bytes Bytes
answered = Calls.run client (new_client false) two_calls

result_stays_example :
    get_elem? (Calls.run client answered (times_out ∷ stops ∷ [])).works 0
    ≡ some (record { session = 1; pr = resolved (ready (some (context_of (letter_of 1)))) })
unfolding Calls.run Calls.step connect is_conn_valid is_valid has_error open_connection next_session
    find rpc_filter_apply mutate_session insert raw_send send_call write_next send encode_header
    write_le parse_header decode_header check_header enable_compression read_le parse_payload
    check_payload rpc_checksum_payload process_one_request resolve erase
result_stays_example =
    result_stays client answered (times_out ∷ stops ∷ []) 0 1
      (ready (some (context_of (letter_of 1))))
      (run-IsLinked client false two_calls two_calls-AllNoReuse) (tt, (tt, tt)) refl
