-- ===== src/Server/Session/Served.antt =====
-- A request that stands in the stream of an idle connection, and its reply in the other stream.
use smurf.Prelude.{
  ℕ, ◌+◌, ◌^◌, ◌≡◌, ◌≢◌, ◌<◌, ap, ◌∙◌, true, false, some, List, [], ◌∷◌, ◌++◌, Bytes, arith,
  get_elem?, set, length, get_elem?-set_at, get_elem?_append_last, if◌then◌else◌,
}
use smurf.Future.{ready, failed}
use smurf.Rpc.Header.{Header, encode_header}
use smurf.Rpc.Io.{ReadsFrom, WritesTo}
use smurf.Rpc.Letter.{Letter, send}
use smurf.Rpc.Connection.{Connection, is_valid, has_error}
use smurf.Rpc.Recv.{RecvContext, request_id, parse_header, parse_payload, enable_compression}
use smurf.Rpc.Recv.RoundTrip.{IsSendable, send_content, size-enable_compression}
use smurf.Rpc.Recv.Stream.{StaysOpen, context_of, received}
use smurf.Rpc.Router.{get_handle_for_request}
use smurf.Server.State.{
  Setup, Stage, Handle, idle, waiting, reading, handling, replying, finished, Request, Server,
  put_peer, complete, plus,
}
use smurf.Server.Dispatch.{add_request, add_in_bytes, handled, add_out_bytes, write_reply}
use smurf.Server.Session.{Event, looped, granted, arrived, resumed, run}
use smurf.Server.Session.Serve.{
  peer_at, step-looped, step-granted, step-arrived, step-handled, step-replied, finish-ok,
}

meta-enable_compression : (h : Header) → (enable_compression h).meta ≡ h.meta
unfolding enable_compression
meta-enable_compression h = ground arith

module _ {I O : Type 0} (setup : Setup I O) (written : O → Bytes) (e : Letter)
    (c : Connection I O) where
  -- The reply is put on the stream of a valid connection.
  write_reply-sends :
      WritesTo setup.output written
      → IsSendable setup.xxh64 e
      → is_valid setup.input c ≡ true
      → (o : O) × (write_reply setup e c ≡ (ready tt, record c { ostream = o }))
        × (written o ≡ written c.ostream ++ (encode_header e.header ++ e.body))
  unfolding write_reply is_valid has_error
  write_reply-sends laws ok valid =
      let (done, content) =
        send_content setup.output written laws setup.xxh64 setup.debug e c.ostream ok in
      let o = (send setup.output setup.debug e c.ostream).1 in
      let c1 = record c { ostream = o } in
      let c2 = record c { ostream = (setup.output.flush o).1 } in
      (
        (setup.output.flush o).1,
        ap
              (λ r. elim r [
                | failed err ↦ (failed err, c1)
                | ready _ ↦
                    if is_valid setup.input c1
                    then ((setup.output.flush o).0, c2)
                    else (ready tt, c1)
              ])
              done
            ∙ (ap (λ b. if b then ((setup.output.flush o).0, c2) else (ready tt, c1)) valid
                ∙ ap (λ r. (r, c2)) (laws.flush_ready o)),
        laws.flushed o ∙ content,
      )

module _ {I O : Type 0} (setup : Setup I O) (c : Connection I O) where
  valid_open : is_valid setup.input c ≡ true → setup.input.eof c.istream ≡ false
  unfolding is_valid has_error
  valid_open v = ground arith

  valid-no_error : is_valid setup.input c ≡ true → has_error c ≡ false
  unfolding is_valid has_error
  valid-no_error v = ground arith

  valid_next :
      (j : I)
      → is_valid setup.input c ≡ true
      → setup.input.eof j ≡ false
      → is_valid setup.input (record c { istream = j }) ≡ true
  unfolding is_valid has_error
  valid_next j v open_ = ground arith

pair {ℓ κ} : {A : Type ℓ} {B : Type κ} {x : A × B} {a : A} {b : B} → x.0 ≡ a → x.1 ≡ b → x ≡ (a, b)
pair p q = cc

-- The events of one request, the `r`-th, on the connection at the position `i`.
abbrev pub one_request : {I O : Type 0} → ℕ → ℕ → List (Event I O)
one_request i r = looped i ∷ granted i ∷ arrived i ∷ resumed r ∷ resumed r ∷ []

-- `t` is `s` after a request of `n` bytes of payload that left the connection at `i` as `c`.
record AfterRequest {I O : Type 0} (i id n : ℕ) (c : Connection I O) (s t : Server I O)
    : Type 0 where
  pub peer : get_elem? t.peers i ≡ some (record { id = id; conn = c; phase = idle })
  pub completed : t.stats.completed_requests ≡ plus s.stats.completed_requests 1
  pub waited : t.waited ≡ s.waited + n
  pub signalled : t.signalled ≡ s.signalled + n

module _ {I O : Type 0} (setup : Setup I O) where
  run-one_request :
      (s : Server I O) (i id : ℕ) (c c1 c2 c3 : Connection I O) (ctx : RecvContext)
      (handle : Handle) (e : Letter)
      → get_elem? s.peers i ≡ some (record { id = id; conn = c; phase = idle })
      → s.gate_closed ≡ false
      → is_valid setup.input c ≡ true
      → parse_header setup.input setup.debug c ≡ (ready (some ctx.header), c1)
      → parse_payload setup.input setup.xxh64 ctx.header c1 ≡ (ready (some ctx), c2)
      → request_id ctx ≢ 0
      → get_handle_for_request setup.routes (request_id ctx) ≡ some handle
      → handled setup handle ctx ≡ ready (some e)
      → is_valid setup.input c2 ≡ true
      → write_reply setup e c2 ≡ (ready tt, c3)
      → has_error c3 ≡ false
      → ctx.header.size < 2 ^ 31
      → AfterRequest i id ctx.header.size c3 s (run setup s (one_request i (length s.requests)))
  unfolding run add_request add_in_bytes add_out_bytes complete
  run-one_request s i id c c1 c2 c3 ctx handle e at gate valid header payload labelled routed h
        valid2 sent good fits =
      let n = ctx.header.size in
      let r = length s.requests in
      let p = peer_at setup i id in
      let s1 : Server I O = record s {
        peers = set s.peers i (p c1 (waiting ctx.header));
        waited = s.waited + n;
      } in
      let at1 = get_elem?-set_at s.peers i (p c idle) (p c1 (waiting ctx.header)) at in
      let s2 = put_peer i (p c1 (reading ctx.header)) s1 in
      let at2 = get_elem?-set_at s1.peers i _ (p c1 (reading ctx.header)) at1 in
      let q : Stage → Request = λ g. record { peer = i; payload_size = n; stage = g } in
      let s3 =
        add_request i n (handling handle ctx) (add_in_bytes ctx (put_peer i (p c2 idle) s2)) in
      let at3 = get_elem?-set_at s2.peers i _ (p c2 idle) at2 in
      let req3 = get_elem?_append_last s.requests (q (handling handle ctx)) in
      let s4 : Server I O = record s3 { requests = set s3.requests r (q (replying e)) } in
      let req4 = get_elem?-set_at s3.requests r _ (q (replying e)) req3 in
      let s5 =
        put_peer i (p c3 idle)
          (add_out_bytes e (record s4 { requests = set s4.requests r (q finished) })) in
      let at5 = get_elem?-set_at s4.peers i _ (p c3 idle) at3 in
      let final : run setup s (one_request i r)
          ≡ record (complete s5) { signalled = s5.signalled + n } =
        ap (λ u. run setup u (granted i ∷ arrived i ∷ resumed r ∷ resumed r ∷ []))
          (step-looped setup i id s c c1 ctx.header at valid (ap (λ x. x.0) header)
            (ap (λ x. x.1) header))
        ∙ (ap (λ u. run setup u (arrived i ∷ resumed r ∷ resumed r ∷ []))
              (step-granted setup i id s1 c1 ctx.header at1)
            ∙ (ap (λ u. run setup u (resumed r ∷ resumed r ∷ []))
                  (step-arrived setup i id s2 c1 c2 ctx handle at2 gate (ap (λ x. x.0) payload)
                    (ap (λ x. x.1) payload) labelled routed)
                ∙ (ap (λ u. run setup u (resumed r ∷ []))
                      (step-handled setup i id s3 r n handle ctx e req3 h)
                    ∙ (step-replied setup i id s4 r n e c2 c3 req4 at3 valid2 sent
                        ∙ finish-ok setup i id s5 c3 n at5 good fits)))) in
      record {
        peer = ap (λ u. get_elem? u.peers i) final ∙ at5;
        completed = ap (λ u. u.stats.completed_requests) final;
        waited = ap (λ u. u.waited) final;
        signalled = ap (λ u. u.signalled) final;
      }

-- What the server needs to serve the request `l` on the connection at `i`, with the reply `e`.
pub record CanServe {I O : Type 0} (setup : Setup I O) (s : Server I O) (i id : ℕ)
    (c : Connection I O) (l e : Letter) (handle : Handle) : Type 0 where
  pub at : get_elem? s.peers i ≡ some (record { id = id; conn = c; phase = idle })
  pub gate : s.gate_closed ≡ false
  pub valid : is_valid setup.input c ≡ true
  pub alone : c.istream_active_parser ≡ 0
  pub sendable : IsSendable setup.xxh64 l
  pub routed : get_handle_for_request setup.routes l.header.meta ≡ some handle
  pub handles : handled setup handle (context_of l) ≡ ready (some e)
  pub answer : IsSendable setup.xxh64 e

module _ {I O : Type 0} (setup : Setup I O) (content : I → Bytes) (written : O → Bytes) where
  -- A sendable request that stands next in the stream of an idle, valid connection, for which there
  -- is a handle whose filtered reply is sendable, is served by five steps under an open gate: the
  -- reply's header and body are written after what was written before, what follows the request is
  -- left to read, the connection is idle and valid again, one more request is counted as completed,
  -- and as much was given back to the semaphore as was taken from it. The stream is not at its end
  -- once it has given the bytes of a letter.
  pub serve_once :
      (s : Server I O) (i id : ℕ) (c : Connection I O) (l e : Letter) (rest : Bytes)
      (handle : Handle)
      → ReadsFrom setup.input content
      → StaysOpen setup.input content
      → WritesTo setup.output written
      → CanServe setup s i id c l e handle
      → content c.istream ≡ encode_header l.header ++ (l.body ++ rest)
      → (c' : Connection I O) × (get_elem? (run setup s (one_request i (length s.requests))).peers i
          ≡ some (record { id = id; conn = c'; phase = idle }))
        × (is_valid setup.input c' ≡ true)
        × (c'.istream_active_parser ≡ 0)
        × (content c'.istream ≡ rest)
        × (written c'.ostream ≡ written c.ostream ++ (encode_header e.header ++ e.body))
        × ((run setup s (one_request i (length s.requests))).stats.completed_requests
            ≡ plus s.stats.completed_requests 1)
        × ((run setup s (one_request i (length s.requests))).waited ≡ s.waited + length l.body)
        × ((run setup s (one_request i (length s.requests))).signalled
            ≡ s.signalled + length l.body)
  unfolding is_valid has_error
  serve_once s i id c l e rest handle reads opens writes can bytes =
      let got =
        received setup.input content setup.xxh64 setup.debug l rest c reads opens can.sendable
          can.alone bytes in
      let valid2 =
        valid_next setup c got.second can.valid (got.stays (valid_open setup c can.valid)) in
      let c2 = record c { istream = got.second } in
      let (o, sent, content_o) = write_reply-sends setup written e c2 writes can.answer valid2 in
      let n =
        size-enable_compression setup.input content setup.xxh64 setup.debug l rest c can.sendable in
      let id_kept = meta-enable_compression l.header in
      let after =
        run-one_request setup s i id c (record c { istream = got.first }) c2
          (record c2 { ostream = o }) (context_of l) handle e can.at can.gate can.valid
          (pair got.header got.after_header) (pair got.payload got.after_payload)
          (rw id_kept can.sendable.labelled) (rw id_kept can.routed) can.handles valid2 sent
          (valid-no_error setup c can.valid) (omega (arith, n, can.sendable.bounded)) in
      (
        record c2 { ostream = o },
        after.peer,
        valid2,
        can.alone,
        got.left,
        content_o,
        after.completed,
        after.waited ∙ ap (λ m. s.waited + m) n,
        after.signalled ∙ ap (λ m. s.signalled + m) n,
      )
