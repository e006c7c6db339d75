-- ===== src/Client/Calls.antt =====
-- The operations of src/core/rpc_client.cc, and the client under a schedule of events.
pub mod Outstanding
pub mod Replies
pub mod Lost
pub mod Late
pub mod Kept
pub mod Spec
pub mod Refines
pub mod Trip
pub mod Tls
use smurf.Prelude.{
  ℕ, ◌+◌, ◌-◌, ◌%◌, ◌^◌, ◌≡◌, Bool, true, false, not, ◌&&◌, Option, none, some, List, [], ◌∷◌, ◌++◌,
  Bytes, codes, ◌==◌, length, get_elem?, set, if◌then◌else◌,
}
use smurf.Future.{
  Error, Future, ready, failed, ◌>>=◌, runtime_error, invalid_connection_state, gate_closed,
  undefined,
}
use smurf.Filter.{rpc_filter_apply}
use smurf.Rpc.Header.{Header, compression_flags_none}
use smurf.Rpc.Letter.{Letter, mutate_session, bad_letter, send}
use smurf.Rpc.Connection.{Connection, open_connection, set_error}
use smurf.Rpc.Recv.{RecvContext, session, parse_header, parse_payload}
use smurf.Client.State.{
  Setup, Promise, promise_of, pending, resolved, WorkItem, Wait, no_read, for_header, for_payload,
  Orphan, Client, find, insert, erase, resolve, is_conn_valid, fail_outstanding_futures,
}

-- What a call gets: the position of its work item, or the exception that it ends with at once.
abbrev pub Ticket : Type 0
Ticket = Future ℕ

is_taken : Option ℕ → Bool
is_taken none = false
is_taken (some t) = true

module _ {I O : Type 0} where
  -- The new session and work item; the index is a uint16_t, the counter a uint64_t.
  unfoldable pub next_session : Client I O → ℕ
  next_session c = (c.session_idx + 1) % 2 ^ 16

  count_call : Client I O → Client I O
  count_call c = record c {
    session_idx = next_session c;
    read_counter = (c.read_counter + 1) % 2 ^ 64;
  }

  add_work : Client I O → Client I O
  add_work c = record c {
    works =
        c.works
        ++ (record { session = c.session_idx; pr = promise_of (find c.session_idx c.rpc_slots) }
            ∷ []);
    rpc_slots = insert c.session_idx (length c.works) c.rpc_slots;
  }

  -- .then of the outgoing filters: the write is dispatched, and the call waits for its promise.
  dispatch : ℕ → Future Letter → Client I O → Ticket × Client I O
  dispatch t (failed e) c = (failed e, c)
  dispatch t (ready e) c = (ready t, record c { writes = c.writes ++ (e ∷ []) })

  unfoldable pub raw_send : Setup I O → Letter → Client I O → Ticket × Client I O
  unfolding count_call add_work dispatch next_session is_taken
  raw_send setup e c =
      let c' = count_call c in
      if not (is_conn_valid setup c)
      then (failed invalid_connection_state, c)
      else if setup.debug && is_taken (find c'.session_idx c'.rpc_slots)
      then (failed runtime_error, c')
      else dispatch (length c.works)
          (rpc_filter_apply setup.out_filters (mutate_session c'.session_idx e)) (add_work c')

  -- send<T>, under the gate
  unfoldable pub send_call : Setup I O → Letter → Client I O → Ticket × Client I O
  send_call setup e c = if c.gate_closed then (failed gate_closed, c) else raw_send setup e c

  -- What raw_send makes of the value of its promise.
  filter_reply : Setup I O → Option RecvContext → Future (Option RecvContext)
  filter_reply setup none = ready none
  filter_reply setup (some r) = rpc_filter_apply setup.in_filters r >>= λ ctx.
      if not (ctx.header.compression == compression_flags_none)
      then failed runtime_error
      else ready (some ctx)

  unfoldable pub reply_of : Setup I O → Future (Option RecvContext) → Future (Option RecvContext)
  unfolding filter_reply
  reply_of setup r = r >>= filter_reply setup

  after_write : Setup I O → Connection I O → O → Future (Unit {0}) → Client I O → Client I O
  after_write setup conn o (ready _) c = record c { conn = some (record conn { ostream = o }) }
  after_write setup conn o (failed e) c =
      fail_outstanding_futures setup (record c { conn = some (record conn { ostream = o }) })

  write_letter : Setup I O → Letter → Option (Connection I O) → Client I O → Client I O
  unfolding after_write bad_letter
  write_letter setup e none c = c
  write_letter setup e (some conn) c =
      let (r, o) = send setup.output setup.debug e conn.ostream in
      if setup.debug && bad_letter e then c else after_write setup conn o r c

  -- dispatch_write of the oldest letter, once its semaphores are granted. What DLOG_THROW_IF throws
  -- in send() comes before handle_exception and is left in the future of the write.
  unfoldable pub write_next : Setup I O → Client I O → Client I O
  unfolding write_letter
  write_next setup c = elim c.writes [
    | [] ↦ c
    | e ∷ rest ↦ write_letter setup e c.conn (record c { writes = rest })
  ]

  -- conn->set_error(…); fail_outstanding_futures();
  fail_conn : Setup I O → Bytes → Connection I O → Client I O → Client I O
  fail_conn setup msg conn c =
      fail_outstanding_futures setup (record c { conn = some (set_error msg conn) })

  -- A reply came for the session.
  route : Setup I O → Connection I O → RecvContext → Option ℕ → Client I O → Client I O
  unfolding fail_conn
  route setup conn ctx none c = fail_conn setup (codes "Invalid session") conn c
  route setup conn ctx (some t) c = record c {
    conn = some conn;
    read_counter = (c.read_counter + 2 ^ 64 - 1) % 2 ^ 64;
    works = resolve t (ready (some ctx)) c.works;
    rpc_slots = erase (session ctx) c.rpc_slots;
  }

  after_payload : Setup I O → Connection I O → Future (Option RecvContext) → Client I O → Client I O
  unfolding fail_conn route
  after_payload setup conn (failed e) c =
      fail_outstanding_futures setup (record c { conn = some conn })
  after_payload setup conn (ready none) c =
      if setup.debug && (c.read_counter == 0)
      then fail_outstanding_futures setup (record c { conn = some conn })
      else fail_conn setup (codes "Could not parse response from server. Bad payload") conn c
  after_payload setup conn (ready (some ctx)) c =
      if setup.debug && (c.read_counter == 0)
      then fail_outstanding_futures setup (record c { conn = some conn })
      else route setup conn ctx (find (session ctx) c.rpc_slots) c

  after_header : Setup I O → Connection I O → Future (Option Header) → Client I O → Client I O
  unfolding fail_conn after_payload
  after_header setup conn (failed e) c =
      fail_outstanding_futures setup (record c { conn = some conn })
  after_header setup conn (ready none) c =
      fail_conn setup (codes "Could not parse header from server") conn c
  after_header setup conn (ready (some hdr)) c =
      let (r, conn') = parse_payload setup.input setup.xxh64 hdr conn in
      after_payload setup conn' r c

  process_conn : Setup I O → Option (Connection I O) → Client I O → Client I O
  unfolding after_header
  process_conn setup none c = c
  process_conn setup (some conn) c =
      let (r, conn') = parse_header setup.input setup.debug conn in after_header setup conn' r c

  -- One round of do_reads with nothing between its parts: the test, and process_one_request with its exceptions handled.
  unfoldable pub process_one_request : Setup I O → Client I O → Client I O
  unfolding process_conn
  process_one_request setup c = if is_conn_valid setup c then process_conn setup c.conn c else c

  -- The same round in its parts, between which other things happen, also after its timeout
  start_read : Wait → Client I O → Client I O
  start_read no_read c = record c { reading = for_header; overdue = false }
  start_read _ c = c

  unfoldable pub begin_read : Setup I O → Client I O → Client I O
  unfolding start_read
  begin_read setup c = if is_conn_valid setup c then start_read c.reading c else c

  header_came : Setup I O → Connection I O → Future (Option Header) → Client I O → Client I O
  unfolding fail_conn
  header_came setup conn (failed e) c =
      fail_outstanding_futures setup (record c { conn = some conn; reading = no_read })
  header_came setup conn (ready none) c =
      fail_conn setup (codes "Could not parse header from server") conn
        (record c { reading = no_read })
  header_came setup conn (ready (some hdr)) c = record c {
    conn = some conn;
    reading = for_payload hdr;
  }

  go_on : Setup I O → Wait → Option (Connection I O) → Client I O → Client I O
  unfolding header_came after_payload
  go_on setup for_header (some conn) c =
      let (r, conn') = parse_header setup.input setup.debug conn in header_came setup conn' r c
  go_on setup (for_payload hdr) (some conn) c =
      let (r, conn') = parse_payload setup.input setup.xxh64 hdr conn in
      after_payload setup conn' r (record c { reading = no_read })
  go_on setup _ _ c = c

  unfoldable pub read_on : Setup I O → Client I O → Client I O
  unfolding go_on
  read_on setup c = go_on setup c.reading c.conn c

  -- So also on a connection that is not conn_ any more; the slots and the counter are those of the
  -- client. An exception is handled by do_reads, unless with_timeout gave the read up.
  late_failed : Setup I O → Bool → Client I O → Client I O
  late_failed setup overdue c = if overdue then c else fail_outstanding_futures setup c

  late_header : Setup I O → ℕ → Orphan I O → Future (Option Header) → Client I O → Client I O
  unfolding late_failed
  late_header setup j o (failed e) c = late_failed setup o.overdue c
  late_header setup j o (ready none) c = fail_outstanding_futures setup c
  late_header setup j o (ready (some hdr)) c = record c {
    orphans = set c.orphans j (record o { wait = for_payload hdr });
  }

  late_route : Setup I O → RecvContext → Option ℕ → Client I O → Client I O
  late_route setup ctx none c = fail_outstanding_futures setup c
  late_route setup ctx (some t) c = record c {
    read_counter = (c.read_counter + 2 ^ 64 - 1) % 2 ^ 64;
    works = resolve t (ready (some ctx)) c.works;
    rpc_slots = erase (session ctx) c.rpc_slots;
  }

  late_payload : Setup I O → Bool → Future (Option RecvContext) → Client I O → Client I O
  unfolding late_failed late_route
  late_payload setup overdue (failed e) c = late_failed setup overdue c
  late_payload setup overdue (ready none) c =
      if setup.debug && (c.read_counter == 0)
      then late_failed setup overdue c
      else fail_outstanding_futures setup c
  late_payload setup overdue (ready (some ctx)) c =
      if setup.debug && (c.read_counter == 0)
      then late_failed setup overdue c
      else late_route setup ctx (find (session ctx) c.rpc_slots) c

  -- An orphan whose read is over
  abbrev pub put_orphan : ℕ → Orphan I O → Connection I O → Client I O → Client I O
  put_orphan j o conn c = record c {
    orphans = set c.orphans j (record o { conn = some conn; wait = no_read });
  }

  late_wait : Setup I O → ℕ → Orphan I O → Wait → Option (Connection I O) → Client I O → Client I O
  unfolding late_header late_payload
  late_wait setup j o for_header (some conn) c =
      let (r, conn') = parse_header setup.input setup.debug conn in
      late_header setup j (record o { conn = some conn' }) r (put_orphan j o conn' c)
  late_wait setup j o (for_payload hdr) (some conn) c =
      let (r, conn') = parse_payload setup.input setup.xxh64 hdr conn in
      late_payload setup o.overdue r (put_orphan j o conn' c)
  late_wait setup j o _ _ c = c

  late_read : Setup I O → ℕ → Option (Orphan I O) → Client I O → Client I O
  unfolding late_wait
  late_read setup j none c = c
  late_read setup j (some o) c = late_wait setup j o o.wait o.conn c

  unfoldable pub read_late : Setup I O → ℕ → Client I O → Client I O
  unfolding late_read
  read_late setup j c = late_read setup j (get_elem? c.orphans j) c

  -- with_timeout of do_reads ends before the read
  unfoldable pub time_out : Setup I O → Client I O → Client I O
  time_out setup c = record (fail_outstanding_futures setup c) { overdue = true }

  -- The gate waits for a read that was not given up, to its end.
  finish_read : Setup I O → Client I O → Client I O
  unfolding read_on
  finish_read setup c = if c.overdue then c else read_on setup (read_on setup c)

  -- conn_ is about to be another one.
  abbrev pub abandon : Client I O → Client I O
  abandon c = record c {
    reading = no_read;
    overdue = false;
    orphans = c.orphans ++ (record { conn = c.conn; wait = c.reading; overdue = c.overdue } ∷ []);
  }

  -- stop(), up to the closing of the gate
  unfoldable pub stop : Setup I O → Client I O → Client I O
  stop setup c = record (fail_outstanding_futures setup c) { gate_closed = true }

  -- connect(), over what the network gives; the credentials are moved into the wrapped connection.
  after_connect : Future (I × O) → Client I O → Future (Unit {0}) × Client I O
  after_connect (failed e) c = (failed e, c)
  after_connect (ready (i, o)) c = (
    ready tt,
    record (abandon c) { conn = some (open_connection i o); tls = c.creds; creds = false },
  )

  unfoldable pub connect : Setup I O → Future (I × O) → Client I O → Future (Unit {0}) × Client I O
  unfolding after_connect
  connect setup socket c =
      if is_conn_valid setup c then (failed runtime_error, c) else after_connect socket c

  -- The writes that had entered the gate, for which close() waits
  drain : Setup I O → List Letter → Client I O → Client I O
  unfolding write_next
  drain setup [] c = c
  drain setup (e ∷ es) c = drain setup es (write_next setup c)

  -- reconnect(): the gate is closed by stop() and made anew. A gate may be closed only once: what is
  -- done to one that stop() closed is not defined.
  unfoldable pub reconnect :
      Setup I O → Future (I × O) → Client I O → Future (Unit {0}) × Client I O
  unfolding stop connect drain finish_read
  reconnect setup socket c =
      let c' = stop setup (fail_outstanding_futures setup c) in
      if c.gate_closed
      then (failed undefined, c')
      else connect setup socket (record (abandon (finish_read setup (drain setup c'.writes c'))) {
        gate_closed = false;
        conn = none;
      })

-- What the program that owns the client does, and what the network and the timers do.
pub data Event (I O : Type 0) : Type 0 where
  sends : Letter → Event I O
  writes : Event I O
  reads : Event I O
  -- the parts of a read between which other things happen, and one on a connection that was replaced
  starts_read reads_on : Event I O
  reads_late : ℕ → Event I O
  -- with_timeout of do_reads ends before the reply
  times_out : Event I O
  stops : Event I O
  connects reconnects : Future (I × O) → Event I O

module _ {I O : Type 0} (setup : Setup I O) where
  unfoldable pub step : Client I O → Event I O → Client I O
  step c (sends e) = (send_call setup e c).1
  step c writes = write_next setup c
  step c reads = process_one_request setup c
  step c starts_read = begin_read setup c
  step c reads_on = read_on setup c
  step c (reads_late j) = read_late setup j c
  step c times_out = time_out setup c
  step c stops = stop setup c
  step c (connects socket) = (connect setup socket c).1
  step c (reconnects socket) = (reconnect setup socket c).1

  unfoldable pub run : Client I O → List (Event I O) → Client I O
  run c [] = c
  run c (e ∷ es) = run (step c e) es
