-- ===== src/Client/Calls/Trip.antt =====
-- One call of src/core/rpc_client.cc, from send to the bytes on the stream, and from the bytes of
-- its reply to its promise.
use smurf.Prelude.{
  ℕ, ◌+◌, ◌^◌, ◌≡◌, ◌≢◌, ◌<◌, refl, ap, ◌∙◌, Bool, true, false, not, ◌&&◌, Option, none, some, [],
  ◌∷◌, ◌++◌, Bytes, arith, get_elem?, length, if◌then◌else◌, get_elem?_append_last,
}
use smurf.Future.{ready, failed, gate_closed, invalid_connection_state, runtime_error}
use smurf.Filter.{rpc_filter_apply}
use smurf.Rpc.Header.{encode_header}
use smurf.Rpc.Io.{ReadsFrom, WritesTo}
use smurf.Rpc.Letter.{Letter, mutate_session, bad_letter, send}
use smurf.Rpc.Connection.{Connection, is_valid}
use smurf.Rpc.Recv.{session, enable_compression}
use smurf.Rpc.Recv.RoundTrip.{IsSendable, send_content}
use smurf.Rpc.Recv.Stream.{StaysOpen, context_of, received}
use smurf.Client.State.{Setup, promise_of, resolved, Client, find, is_conn_valid}
use smurf.Client.Slots.{find-insert_new}
use smurf.Client.Linked.{IsLinked}
use smurf.Client.Calls.Outstanding.{Linked-kept, run_keeps}
use smurf.Client.Calls.{
  Ticket, next_session, count_call, add_work, dispatch, raw_send, send_call, after_write,
  write_letter, write_next, is_taken, sends, writes, reads, step, run,
}
use smurf.Client.Calls.Replies.{reply_resolves}
use smurf.Client.Calls.Spec.{waits}

not_taken : (debug : Bool) (o : Option ℕ) → o ≡ none → (debug && is_taken o) ≡ false
unfolding is_taken
not_taken debug o e = ground arith

not_bad :
    {xxh64 : Bytes → ℕ} (debug : Bool) (l : Letter)
    → IsSendable xxh64 l
    → (debug && bad_letter l) ≡ false
unfolding bad_letter
not_bad debug l ok = ground (arith, ok.sized, ok.filled, ok.checksum)

module _ {I O : Type 0} (setup : Setup I O) (c : Client I O) where
  -- A call on a valid connection, under a session that is free and an open gate.
  send_call-ready :
      (e l : Letter)
      → c.gate_closed ≡ false
      → is_conn_valid setup c ≡ true
      → find (next_session c) c.rpc_slots ≡ none
      → rpc_filter_apply setup.out_filters (mutate_session (next_session c) e) ≡ ready l
      → send_call setup e c ≡ (
        ready (length c.works),
        record (add_work (count_call c)) { writes = c.writes ++ (l ∷ []) },
      )
  unfolding send_call raw_send dispatch
  send_call-ready e l gate valid free filtered =
      let c' = count_call c in
      let go = rpc_filter_apply setup.out_filters (mutate_session (next_session c) e) in
      let sent : Ticket × Client I O = dispatch (length c.works) go (add_work c') in
      let checked : Ticket × Client I O =
        if setup.debug && is_taken (find (next_session c) c.rpc_slots)
        then (failed runtime_error, c')
        else sent in
      ap (λ b. if b then (failed gate_closed, c) else raw_send setup e c) gate
      ∙ (ap (λ b. if not b then (failed invalid_connection_state, c) else checked) valid
          ∙ (ap (λ b. if b then (failed runtime_error, c') else sent) (not_taken setup.debug _ free)
              ∙ ap (λ r. dispatch (length c.works) r (add_work c')) filtered))

  -- The letter that is written first
  write_next-sends :
      (content : O → Bytes) (l : Letter) (conn : Connection I O)
      → WritesTo setup.output content
      → c.writes ≡ l ∷ []
      → c.conn ≡ some conn
      → IsSendable setup.xxh64 l
      → (o : O) × (write_next setup c
          ≡ record c { conn = some (record conn { ostream = o }); writes = [] })
        × (content o ≡ content conn.ostream ++ (encode_header l.header ++ l.body))
  unfolding write_next write_letter after_write
  write_next-sends content l conn laws queued at ok =
      let (done, bytes) =
        send_content setup.output content laws setup.xxh64 setup.debug l conn.ostream ok in
      let o = (send setup.output setup.debug l conn.ostream).1 in
      let c' = record c { writes = [] } in
      (
        o,
        rw (queued, write_next)
            (ap (λ x. write_letter setup l x c') at
              ∙ (ap
                    (λ b.
                      if b
                      then c'
                      else after_write setup conn o (send setup.output setup.debug l conn.ostream).0
                          c')
                    (not_bad setup.debug l ok)
                  ∙ ap (λ r. after_write setup conn o r c') done)),
        bytes,
      )

-- What a call needs to go out at once: a valid connection that no parser reads, an open gate, no
-- letter before it, a session that is free, and a letter that the filters make sendable. The slots
-- are linked to the calls, and the counter of the replies to read is not at its end.
pub record CanCall {I O : Type 0} (setup : Setup I O) (c : Client I O) (conn : Connection I O)
    (e l : Letter) : Type 0 where
  pub linked : IsLinked c
  pub gate : c.gate_closed ≡ false
  pub first : c.writes ≡ []
  pub at : c.conn ≡ some conn
  pub valid : is_valid setup.input conn ≡ true
  pub alone : conn.istream_active_parser ≡ 0
  pub free : find (next_session c) c.rpc_slots ≡ none
  pub filtered : rpc_filter_apply setup.out_filters (mutate_session (next_session c) e) ≡ ready l
  pub sendable : IsSendable setup.xxh64 l
  pub counted : c.read_counter + 1 < 2 ^ 64

-- A call is on the stream, as `l`, and waits at the position `t` for a reply of its session.
pub record IsWaiting {I O : Type 0} (content : O → Bytes) (l : Letter) (t k : ℕ) (before : O)
    (conn : Connection I O) (c : Client I O) : Type 0 where
  pub linked : IsLinked c
  pub at : c.conn ≡ some conn
  pub bytes : content conn.ostream ≡ content before ++ (encode_header l.header ++ l.body)
  pub waiting : get_elem? c.works t ≡ some (waits k)
  pub slot : find k c.rpc_slots ≡ some t
  pub counted : c.read_counter ≢ 0

module _ {I O : Type 0} (setup : Setup I O) (c : Client I O) (conn : Connection I O) where
  is_conn_valid-at :
      c.conn ≡ some conn → is_valid setup.input conn ≡ true → is_conn_valid setup c ≡ true
  unfolding is_conn_valid
  is_conn_valid-at at valid = rw (at, is_conn_valid) valid

module _ {I O : Type 0} (setup : Setup I O) (c : Client I O) (conn : Connection I O)
    (e l : Letter) where
  pub call_goes_out :
      (content : O → Bytes)
      → WritesTo setup.output content
      → CanCall setup c conn e l
      → (o : O) × IsWaiting content l
          (length c.works)
          (next_session c)
          conn.ostream
          (record conn { ostream = o })
          (run setup c (sends e ∷ writes ∷ []))
  unfolding run step count_call add_work
  call_goes_out content laws can =
      let n = next_session c in
      let c1 : Client I O = record (add_work (count_call c)) { writes = l ∷ [] } in
      let sent =
        send_call-ready setup c e l can.gate (is_conn_valid-at setup c conn can.at can.valid)
          can.free can.filtered
        ∙ ap
            (λ ls. (
              ready (length c.works),
              record (add_work (count_call c)) { writes = ls ++ (l ∷ []) },
            ))
            can.first in
      let (o, wrote, bytes) =
        write_next-sends setup c1 content l conn laws refl can.at can.sendable in
      let final = ap (λ r. write_next setup r.1) sent ∙ wrote in
      (
        o,
        record {
          linked =
              run_keeps setup Linked-kept c (sends e ∷ writes ∷ []) (can.free, (tt, tt)) can.linked;
          at = ap (λ x. x.conn) final;
          bytes = bytes;
          waiting =
              ap (λ x. get_elem? x.works (length c.works)) final
              ∙ (get_elem?_append_last c.works _
                  ∙ ap (λ o. some (record { session = n; pr = promise_of o })) can.free);
          slot =
              ap (λ x. find n x.rpc_slots) final
              ∙ (find-insert_new n n (length c.works) c.rpc_slots can.free ∙ ground arith);
          counted = rw (ap (λ x. x.read_counter) final) (omega (arith, can.counted));
        },
      )

module _ {I O : Type 0} (setup : Setup I O) (content : I → Bytes) (c : Client I O)
    (conn : Connection I O) (r : Letter) (t : ℕ) (rest : Bytes) where
  -- The reply of a call that waits is read to its promise.
  pub reply_comes_in :
      {written : O → Bytes} {l : Letter} {k : ℕ} {before : O}
      → ReadsFrom setup.input content
      → StaysOpen setup.input content
      → IsWaiting written l t k before conn c
      → is_valid setup.input conn ≡ true
      → conn.istream_active_parser ≡ 0
      → content conn.istream ≡ encode_header r.header ++ (r.body ++ rest)
      → IsSendable setup.xxh64 r
      → session (context_of r) ≡ k
      → (get_elem? (step setup c reads).works t
          ≡ some (record { session = k; pr = resolved (ready (some (context_of r))) }))
        × (find k (step setup c reads).rpc_slots ≡ none)
  unfolding step
  reply_comes_in {k} laws opens w valid alone bytes ok same =
      let got =
        received setup.input content setup.xxh64 setup.debug r rest conn laws opens ok alone
          bytes in
      let (works, slots) =
        reply_resolves setup c conn (enable_compression r.header) (context_of r) t t k w.linked
          (is_conn_valid-at setup c conn w.at valid) w.at got.header
          (rw got.after_header got.payload) w.counted (rw same w.slot) in
      (works ∙ ground (arith, same), slots ∙ ground (arith, same))
