-- ===== src/Tests/Calls.antt =====
-- Instances of the theorems on the client.
use smurf.Prelude.{◌≡◌, refl, true, false, none, some, List, [], ◌∷◌, ◌++◌, Bytes, get_elem?, arith}
use smurf.Future.{ready, failed, undefined}
use smurf.Rpc.Header.{Header, encode_header, decode_header, read_le, write_le}
use smurf.Rpc.Letter.{empty_letter, rpc_checksum_payload, mutate_session}
use smurf.Rpc.Recv.{
  RecvContext, parse_header, parse_payload, check_header, check_payload, enable_compression,
}
use smurf.Filter.{rpc_filter_apply}
use smurf.Rpc.Connection.{Connection, open_connection, is_valid, has_error, disable}
use smurf.Client.State.{
  fail_all, Setup, Client, pending, new_client, find, insert, is_conn_valid,
  fail_outstanding_futures,
}
use smurf.Client.Slots.{settle}
use smurf.Client.Linked.{IsLinked, fail_outstanding_exactly}
use smurf.Client.Calls.{
  Event, sends, starts_read, reads_late, times_out, reconnects, begin_read, time_out, connects,
  connect, reconnect, send_call, process_one_request, run, next_session, step, raw_send,
}
use smurf.Client.Calls.Outstanding.{AllNoReuse, run-IsLinked}
use smurf.Client.Calls.Replies.{reply_resolves}
use smurf.Client.Calls.Late.{stale_read_ends_calls}
use smurf.Client.Calls.Tls.{reconnect_drops_tls}
use smurf.Reconnect.{ReconnectClient, attempt}
use smurf.Reconnect.Delays.{fails, delays_grow}
use smurf.Tests.Instances.{bytes_in, bytes_out, toy_hash}

abbrev setup : Setup Bytes Bytes
setup = record {
  input = bytes_in;
  output = bytes_out;
  xxh64 = toy_hash;
  debug = false;
  in_filters = [];
  out_filters = [];
}

abbrev header : Header
header = record { compression = 0; bitflags = 0; session = 2; size = 3; checksum = 10; meta = 200 }

abbrev reply : Bytes
reply = encode_header header ++ (1 ∷ 2 ∷ 3 ∷ [])

-- Two calls over a connection that holds the reply to the second
abbrev schedule : List (Event Bytes Bytes)
schedule = connects (ready (reply, [])) ∷ sends empty_letter ∷ sends empty_letter ∷ []

schedule-AllNoReuse : AllNoReuse setup (new_client false) schedule
unfolding step run send_call raw_send next_session insert find connect is_conn_valid is_valid
    has_error rpc_filter_apply mutate_session open_connection encode_header write_le
schedule-AllNoReuse = (tt, (refl, (refl, tt)))

abbrev two_calls : Client Bytes Bytes
two_calls = run setup (new_client false) schedule

run-IsLinked_example : IsLinked two_calls
run-IsLinked_example = run-IsLinked setup false schedule schedule-AllNoReuse

fail_outstanding_exactly_example :
    ((fail_outstanding_futures setup two_calls).rpc_slots ≡ [])
    × (get_elem? (fail_outstanding_futures setup two_calls).works 1
        ≡ some (record { session = 2; pr = settle pending }))
unfolding step run send_call raw_send next_session insert find connect is_conn_valid is_valid
    has_error rpc_filter_apply mutate_session open_connection encode_header write_le
fail_outstanding_exactly_example =
    fail_outstanding_exactly setup two_calls 1 (record { session = 2; pr = pending })
      run-IsLinked_example refl

reconnect_drops_tls_example :
    ((connect setup (ready ([], [])) (new_client true)).0 ≡ ready tt)
    × ((connect setup (ready ([], [])) (new_client true)).1.tls ≡ true)
    × ((reconnect setup (ready ([], [])) (connect setup (ready ([], [])) (new_client true)).1).0
        ≡ ready tt)
    × ((reconnect setup (ready ([], [])) (connect setup (ready ([], [])) (new_client true)).1).1.tls
        ≡ false)
unfolding is_conn_valid
reconnect_drops_tls_example = reconnect_drops_tls setup (new_client true) [] [] [] [] refl refl refl

-- The connection after the header of the reply is read, and after its payload
abbrev conn : Connection Bytes Bytes
conn = open_connection reply []

abbrev context : RecvContext
context = record { header = header; payload = 1 ∷ 2 ∷ 3 ∷ [] }

reply_resolves_example :
    (get_elem? (process_one_request setup two_calls).works 0
      ≡ some (record { session = 1; pr = pending }))
    × (find 2 (process_one_request setup two_calls).rpc_slots ≡ none)
unfolding step run send_call raw_send next_session insert find connect is_conn_valid is_valid
    has_error rpc_filter_apply mutate_session open_connection encode_header write_le parse_header
    parse_payload check_header decode_header read_le enable_compression check_payload
    rpc_checksum_payload
reply_resolves_example =
    reply_resolves setup two_calls conn header context 1 0 2 run-IsLinked_example refl refl refl
      refl (omega arith) refl

-- The client when all of the 65,536 sessions but one were given out since its first call
abbrev wrapped : Client Bytes Bytes
wrapped =
    record (run setup (new_client false) (connects (ready (reply, [])) ∷ sends empty_letter ∷ [])) {
      session_idx = 0;
    }

-- A read that was given up waits for a header when the client has a new connection and a call on it.
abbrev replaced : List (Event Bytes Bytes)
replaced =
    connects (ready (1 ∷ 2 ∷ 3 ∷ [], []))
    ∷ starts_read
    ∷ times_out
    ∷ reconnects (ready (reply, []))
    ∷ sends empty_letter
    ∷ []

replaced-AllNoReuse : AllNoReuse setup (new_client false) replaced
unfolding step run send_call raw_send next_session insert find connect is_conn_valid is_valid
    has_error rpc_filter_apply mutate_session open_connection encode_header write_le reconnect
    fail_outstanding_futures disable begin_read time_out
replaced-AllNoReuse = (tt, (tt, (tt, (tt, (refl, tt)))))

abbrev renewed : Client Bytes Bytes
renewed = run setup (new_client false) replaced

stale_read_ends_calls_example :
    ((step setup renewed (reads_late 1)).rpc_slots ≡ [])
    × (get_elem? (step setup renewed (reads_late 1)).works 0
        ≡ some (record { session = 1; pr = settle pending }))
    × (is_conn_valid setup (step setup renewed (reads_late 1)) ≡ false)
unfolding step run send_call raw_send next_session insert find connect is_conn_valid is_valid
    has_error rpc_filter_apply mutate_session open_connection encode_header write_le reconnect
    fail_outstanding_futures disable begin_read time_out parse_header check_header fail_all
stale_read_ends_calls_example =
    stale_read_ends_calls setup renewed 1 0 (disable (open_connection (1 ∷ 2 ∷ 3 ∷ []) [])) true
      (record { session = 1; pr = pending }) (run-IsLinked setup false replaced replaced-AllNoReuse)
      refl refl refl

-- A client that was never connected
abbrev unreached : ReconnectClient Bytes Bytes
unreached = record { client = new_client false; bo = 0; gate_closed = false }

delays_grow_example :
    (attempt setup (failed undefined) (fails setup undefined 4 unreached)).0 ≡ some 20
unfolding is_conn_valid
delays_grow_example = delays_grow setup undefined 4 unreached refl refl refl refl
