-- ===== src/Client/Calls/Kept.antt =====
-- What every operation of src/core/rpc_client.cc keeps of the slots and the work items.
use smurf.Prelude.{
  ℕ, ◌≡◌, refl, Bool, not, ◌&&◌, false, Option, none, some, List, [], ◌∷◌, ◌++◌, ◌==◌, length,
  if_both, get_elem?,
}
use smurf.Future.{Future, ready, failed}
use smurf.Rpc.Header.{Header}
use smurf.Rpc.Letter.{Letter, bad_letter}
use smurf.Rpc.Connection.{Connection}
use smurf.Rpc.Recv.{RecvContext, session, parse_header, parse_payload}
use smurf.Client.State.{
  Setup, promise_of, WorkItem, Wait, no_read, for_header, for_payload, Orphan, Client, find, insert,
  erase, resolve, is_conn_valid, fail_outstanding_futures, fail_all,
}
use smurf.Client.Linked.{slots-fail_outstanding, works-fail_outstanding}
use smurf.Client.Calls.{
  Ticket, next_session, count_call, add_work, dispatch, raw_send, send_call, after_write,
  write_letter, write_next, drain, fail_conn, route, after_payload, after_header, process_conn,
  process_one_request, start_read, begin_read, header_came, go_on, read_on, finish_read, time_out,
  late_failed, late_header, late_route, late_payload, put_orphan, late_wait, late_read, read_late,
  abandon, stop, after_connect, connect, reconnect, is_taken, Event, sends, writes, reads,
  starts_read, reads_on, reads_late, times_out, stops, connects, reconnects, step,
}

-- A property of the slots and the work items that the operations keep: of the loop that ends every
-- call, of a new work item under an allowed session, and of a reply.
pub record IsKept (P : List (ℕ × ℕ) → List WorkItem → Type 0) (Allowed : ℕ → List (ℕ × ℕ) → Type 0)
    : Type 0 where
  pub ended :
      (slots : List (ℕ × ℕ)) (works : List WorkItem) → P slots works → P [] (fail_all slots works)
  pub added :
      (slots : List (ℕ × ℕ)) (works : List WorkItem) (k : ℕ)
      → Allowed k slots
      → P slots works
      → P
          (insert k (length works) slots)
          (works ++ (record { session = k; pr = promise_of (find k slots) } ∷ []))
  pub answered :
      (slots : List (ℕ × ℕ)) (works : List WorkItem) (ctx : RecvContext) (t : ℕ)
      → find (session ctx) slots ≡ some t
      → P slots works
      → P (erase (session ctx) slots) (resolve t (ready (some ctx)) works)

module _ {P : List (ℕ × ℕ) → List WorkItem → Type 0} {Allowed : ℕ → List (ℕ × ℕ) → Type 0}
    (kept : IsKept P Allowed) {I O : Type 0} (setup : Setup I O) where
  abbrev Holds : Client I O → Type 0
  Holds c = P c.rpc_slots c.works

  fail_outstanding_keeps : (c : Client I O) → Holds c → Holds (fail_outstanding_futures setup c)
  fail_outstanding_keeps c l =
      rw (slots-fail_outstanding setup c, works-fail_outstanding setup c)
        (kept.ended c.rpc_slots c.works l)

  dispatch_keeps : (t : ℕ) (r : Future Letter) (c : Client I O) → Holds c → Holds (dispatch t r c).1
  unfolding dispatch
  dispatch_keeps t (ready e) c l = l
  dispatch_keeps t (failed e) c l = l

  send_call_keeps :
      (e : Letter) (c : Client I O)
      → Allowed (next_session c) c.rpc_slots
      → Holds c
      → Holds (send_call setup e c).1
  unfolding send_call raw_send
  send_call_keeps e c new l =
      if_both (λ (r : Ticket × Client I O). Holds r.1) c.gate_closed _ _ (λ _. l)
        λ _.
          if_both (λ (r : Ticket × Client I O). Holds r.1) (not (is_conn_valid setup c)) _ _
            (λ _. l)
            λ _.
              if_both (λ (r : Ticket × Client I O). Holds r.1)
                (setup.debug && is_taken (find (next_session c) c.rpc_slots)) _ _ (λ _. l)
                λ _.
                  dispatch_keeps (length c.works) _ (add_work (count_call c))
                    (kept.added c.rpc_slots c.works (next_session c) new l)

  after_write_keeps :
      (conn : Connection I O) (o : O) (r : Future (Unit {0})) (c : Client I O)
      → Holds c
      → Holds (after_write setup conn o r c)
  unfolding after_write
  after_write_keeps conn o (ready u) c l = l
  after_write_keeps conn o (failed e) c l = fail_outstanding_keeps _ l

  write_letter_keeps :
      (e : Letter) (conn : Option (Connection I O)) (c : Client I O)
      → Holds c
      → Holds (write_letter setup e conn c)
  unfolding write_letter
  write_letter_keeps e none c l = l
  write_letter_keeps e (some conn) c l =
      if_both Holds (setup.debug && bad_letter e) _ _ (λ _. l) (λ _. after_write_keeps conn _ _ c l)

  write_list_keeps :
      (es : List Letter) (c : Client I O) → c.writes ≡ es → Holds c → Holds (write_next setup c)
  unfolding write_next
  write_list_keeps [] c e l = rw (e, write_next) l
  write_list_keeps (x ∷ rest) c e l =
      rw (e, write_next) (write_letter_keeps x c.conn (record c { writes = rest }) l)

  drain_keeps : (es : List Letter) (c : Client I O) → Holds c → Holds (drain setup es c)
  unfolding drain
  drain_keeps [] c l = l
  drain_keeps (e ∷ es) c l =
      drain_keeps es (write_next setup c) (write_list_keeps c.writes c refl l)

  route_keeps :
      (conn : Connection I O) (ctx : RecvContext) (o : Option ℕ) (c : Client I O)
      → find (session ctx) c.rpc_slots ≡ o
      → Holds c
      → Holds (route setup conn ctx o c)
  unfolding route fail_conn
  route_keeps conn ctx none c e l = fail_outstanding_keeps _ l
  route_keeps conn ctx (some t) c e l = kept.answered c.rpc_slots c.works ctx t e l

  after_payload_keeps :
      (conn : Connection I O) (r : Future (Option RecvContext)) (c : Client I O)
      → Holds c
      → Holds (after_payload setup conn r c)
  unfolding after_payload fail_conn
  after_payload_keeps conn (failed e) c l = fail_outstanding_keeps _ l
  after_payload_keeps conn (ready none) c l =
      if_both Holds (setup.debug && (c.read_counter == 0)) _ _ (λ _. fail_outstanding_keeps _ l)
        (λ _. fail_outstanding_keeps _ l)
  after_payload_keeps conn (ready (some ctx)) c l =
      if_both Holds (setup.debug && (c.read_counter == 0)) _ _ (λ _. fail_outstanding_keeps _ l)
        (λ _. route_keeps conn ctx _ c refl l)

  after_header_keeps :
      (conn : Connection I O) (r : Future (Option Header)) (c : Client I O)
      → Holds c
      → Holds (after_header setup conn r c)
  unfolding after_header fail_conn
  after_header_keeps conn (failed e) c l = fail_outstanding_keeps _ l
  after_header_keeps conn (ready none) c l = fail_outstanding_keeps _ l
  after_header_keeps conn (ready (some hdr)) c l = after_payload_keeps _ _ c l

  process_conn_keeps :
      (conn : Option (Connection I O)) (c : Client I O)
      → Holds c
      → Holds (process_conn setup conn c)
  unfolding process_conn
  process_conn_keeps none c l = l
  process_conn_keeps (some conn) c l = after_header_keeps _ _ c l

  process_one_request_keeps : (c : Client I O) → Holds c → Holds (process_one_request setup c)
  unfolding process_one_request
  process_one_request_keeps c l =
      if_both Holds (is_conn_valid setup c) _ _ (λ _. process_conn_keeps c.conn c l) (λ _. l)

  start_read_keeps : (w : Wait) (c : Client I O) → Holds c → Holds (start_read w c)
  unfolding start_read
  start_read_keeps no_read c l = l
  start_read_keeps for_header c l = l
  start_read_keeps (for_payload hdr) c l = l

  begin_read_keeps : (c : Client I O) → Holds c → Holds (begin_read setup c)
  unfolding begin_read
  begin_read_keeps c l =
      if_both Holds (is_conn_valid setup c) _ _ (λ _. start_read_keeps c.reading c l) (λ _. l)

  header_came_keeps :
      (conn : Connection I O) (r : Future (Option Header)) (c : Client I O)
      → Holds c
      → Holds (header_came setup conn r c)
  unfolding header_came fail_conn
  header_came_keeps conn (failed e) c l = fail_outstanding_keeps _ l
  header_came_keeps conn (ready none) c l = fail_outstanding_keeps _ l
  header_came_keeps conn (ready (some hdr)) c l = l

  go_on_keeps :
      (w : Wait) (conn : Option (Connection I O)) (c : Client I O)
      → Holds c
      → Holds (go_on setup w conn c)
  unfolding go_on
  go_on_keeps no_read conn c l = l
  go_on_keeps for_header none c l = l
  go_on_keeps for_header (some conn) c l = header_came_keeps _ _ c l
  go_on_keeps (for_payload hdr) none c l = l
  go_on_keeps (for_payload hdr) (some conn) c l =
      after_payload_keeps _ _ (record c { reading = no_read }) l

  finish_read_keeps : (c : Client I O) → Holds c → Holds (finish_read setup c)
  unfolding finish_read read_on
  finish_read_keeps c l =
      if_both Holds c.overdue _ _ (λ _. l)
        (λ _.
          go_on_keeps (read_on setup c).reading (read_on setup c).conn (read_on setup c)
            (go_on_keeps c.reading c.conn c l))

  late_failed_keeps :
      (overdue : Bool) (c : Client I O) → Holds c → Holds (late_failed setup overdue c)
  unfolding late_failed
  late_failed_keeps overdue c l =
      if_both Holds overdue _ _ (λ _. l) (λ _. fail_outstanding_keeps c l)

  late_header_keeps :
      (j : ℕ) (o : Orphan I O) (r : Future (Option Header)) (c : Client I O)
      → Holds c
      → Holds (late_header setup j o r c)
  unfolding late_header
  late_header_keeps j o (failed e) c l = late_failed_keeps o.overdue c l
  late_header_keeps j o (ready none) c l = fail_outstanding_keeps c l
  late_header_keeps j o (ready (some hdr)) c l = l

  late_route_keeps :
      (ctx : RecvContext) (o : Option ℕ) (c : Client I O)
      → find (session ctx) c.rpc_slots ≡ o
      → Holds c
      → Holds (late_route setup ctx o c)
  unfolding late_route
  late_route_keeps ctx none c e l = fail_outstanding_keeps c l
  late_route_keeps ctx (some t) c e l = kept.answered c.rpc_slots c.works ctx t e l

  late_payload_keeps :
      (overdue : Bool) (r : Future (Option RecvContext)) (c : Client I O)
      → Holds c
      → Holds (late_payload setup overdue r c)
  unfolding late_payload
  late_payload_keeps overdue (failed e) c l = late_failed_keeps overdue c l
  late_payload_keeps overdue (ready none) c l =
      if_both Holds (setup.debug && (c.read_counter == 0)) _ _ (λ _. late_failed_keeps overdue c l)
        (λ _. fail_outstanding_keeps c l)
  late_payload_keeps overdue (ready (some ctx)) c l =
      if_both Holds (setup.debug && (c.read_counter == 0)) _ _ (λ _. late_failed_keeps overdue c l)
        (λ _. late_route_keeps ctx _ c refl l)

  late_wait_keeps :
      (j : ℕ) (o : Orphan I O) (w : Wait) (conn : Option (Connection I O)) (c : Client I O)
      → Holds c
      → Holds (late_wait setup j o w conn c)
  unfolding late_wait
  late_wait_keeps j o no_read conn c l = l
  late_wait_keeps j o for_header none c l = l
  late_wait_keeps j o for_header (some conn) c l =
      let conn' = (parse_header setup.input setup.debug conn).1 in
      late_header_keeps j (record o { conn = some conn' }) _ (put_orphan j o conn' c) l
  late_wait_keeps j o (for_payload hdr) none c l = l
  late_wait_keeps j o (for_payload hdr) (some conn) c l =
      let conn' = (parse_payload setup.input setup.xxh64 hdr conn).1 in
      late_payload_keeps o.overdue _ (put_orphan j o conn' c) l

  late_read_keeps :
      (j : ℕ) (x : Option (Orphan I O)) (c : Client I O) → Holds c → Holds (late_read setup j x c)
  unfolding late_read
  late_read_keeps j none c l = l
  late_read_keeps j (some o) c l = late_wait_keeps j o o.wait o.conn c l

  connect_keeps :
      (socket : Future (I × O)) (c : Client I O) → Holds c → Holds (connect setup socket c).1
  unfolding connect after_connect
  connect_keeps (failed e) c l =
      if_both (λ (r : Future (Unit {0}) × Client I O). Holds r.1) (is_conn_valid setup c) _ _
        (λ _. l) (λ _. l)
  connect_keeps (ready (i, o)) c l =
      if_both (λ (r : Future (Unit {0}) × Client I O). Holds r.1) (is_conn_valid setup c) _ _
        (λ _. l) (λ _. l)

  -- What a schedule may do: make calls under allowed sessions.
  abbrev pub AllowedEvent : Client I O → Event I O → Type 0
  AllowedEvent c (sends e) = Allowed (next_session c) c.rpc_slots
  AllowedEvent c _ = Unit {0}

  pub step_keeps :
      (c : Client I O) (e : Event I O) → AllowedEvent c e → Holds c → Holds (step setup c e)
  unfolding step stop reconnect read_on read_late time_out
  step_keeps c (sends e) new l = send_call_keeps e c new l
  step_keeps c writes new l = write_list_keeps c.writes c refl l
  step_keeps c reads new l = process_one_request_keeps c l
  step_keeps c starts_read new l = begin_read_keeps c l
  step_keeps c reads_on new l = go_on_keeps c.reading c.conn c l
  step_keeps c (reads_late j) new l = late_read_keeps j (get_elem? c.orphans j) c l
  step_keeps c times_out new l = fail_outstanding_keeps c l
  step_keeps c stops new l = fail_outstanding_keeps c l
  step_keeps c (connects socket) new l = connect_keeps socket c l
  step_keeps c (reconnects socket) new l =
      let c' = stop setup (fail_outstanding_futures setup c) in
      let stopped : Holds c' =
        fail_outstanding_keeps (fail_outstanding_futures setup c) (fail_outstanding_keeps c l) in
      if_both (λ (r : Future (Unit {0}) × Client I O). Holds r.1) c.gate_closed _ _ (λ _. stopped)
        (λ _.
          connect_keeps socket
            (record (abandon (finish_read setup (drain setup c'.writes c'))) {
              gate_closed = false;
              conn = none;
            })
            (finish_read_keeps (drain setup c'.writes c') (drain_keeps c'.writes c' stopped)))
