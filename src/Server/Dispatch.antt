-- ===== src/Server/Dispatch.antt =====
-- dispatch_rpc and do_dispatch_rpc of src/core/rpc_server.cc, cut where they wait: the start of a
-- request, its filters and its handler, and the writing of its reply.
pub mod Units
pub mod Requests
use smurf.Prelude.{
  ℕ, zero, suc, ◌+◌, ◌-◌, ◌^◌, ◌≡◌, Bool, true, false, not, Option, none, some, List, [], ◌∷◌, ◌++◌,
  Bytes, codes, ◌==◌, ltb, length, get_elem?, set, if◌then◌else◌,
}
use smurf.Future.{Error, Future, ready, failed, ◌>>=◌}
use smurf.Filter.{rpc_filter_apply}
use smurf.Rpc.Header.{Header, compression_flags_none}
use smurf.Rpc.Io.{Io}
use smurf.Rpc.Letter.{Letter, size, send}
use smurf.Rpc.Connection.{Connection, is_valid}
use smurf.Rpc.Recv.{RecvContext, request_id}
use smurf.Rpc.Router.{get_handle_for_request}
use smurf.Server.State.{
  Setup, Stats, Phase, idle, Peer, Stage, handling, replying, finished, Request, Server, Handle,
  plus, put_peer, cleanup_dispatch_rpc, fail_peer,
}

-- signal(payload_size) of a payload_size that came from a uint32_t into the int32_t parameter of
-- dispatch_rpc, and goes on into a size_t.
unfoldable pub signal_units : ℕ → ℕ
signal_units payload_size =
    if ltb payload_size (2 ^ 31) then payload_size else payload_size + 2 ^ 64 - 2 ^ 32

module _ {I O : Type 0} where
  unfoldable pub signal : ℕ → Server I O → Server I O
  signal payload_size s = record s { signalled = s.signalled + signal_units payload_size }

  abbrev pub with_peer : ℕ → (Peer I O → Server I O → Server I O) → Server I O → Server I O
  with_peer i f s = elim (get_elem? s.peers i) [ none ↦ s | some p ↦ f p s ]

  -- .then(cleanup_dispatch_rpc).finally(signal)
  unfoldable pub finish_dispatch : ℕ → ℕ → Server I O → Server I O
  finish_dispatch i payload_size s = signal payload_size (with_peer i (cleanup_dispatch_rpc i) s)

  unfoldable pub add_in_bytes : RecvContext → Server I O → Server I O
  add_in_bytes ctx s = record s {
    stats = record s.stats {
      in_bytes = plus s.stats.in_bytes (ctx.header.size + length ctx.payload);
    };
  }

  unfoldable pub add_no_route : Server I O → Server I O
  add_no_route s = record s {
    stats = record s.stats { no_route_requests = plus s.stats.no_route_requests 1 };
  }

  unfoldable pub add_request : ℕ → ℕ → Stage → Server I O → Server I O
  add_request i payload_size stage s = record s {
    requests = s.requests ++ (record { peer = i; payload_size = payload_size; stage = stage } ∷ []);
  }

  unfoldable pub start_request :
      ℕ → ℕ → RecvContext → Option Handle → Peer I O → Server I O → Server I O
  start_request i payload_size ctx none p s =
      finish_dispatch i payload_size
        (fail_peer i (codes "Can't find route for request. Invalid") p (add_no_route s))
  start_request i payload_size ctx (some handle) p s =
      add_request i payload_size (handling handle ctx) (add_in_bytes ctx s)

  unfoldable pub put_stage : ℕ → Request → Stage → Server I O → Server I O
  put_stage r q stage s = record s { requests = set s.requests r (record q { stage = stage }) }

  -- The continuation of the filters and the handler. After an exception only .finally runs.
  unfoldable pub after_handling : ℕ → Request → Future (Option Letter) → Server I O → Server I O
  after_handling r q (failed e) s = signal q.payload_size (put_stage r q finished s)
  after_handling r q (ready none) s = finish_dispatch q.peer q.payload_size (
      with_peer q.peer
        (fail_peer q.peer (codes "There was no decompression filter for compression enum"))
        (put_stage r q finished s))
  after_handling r q (ready (some e)) s = put_stage r q (replying e) s

  unfoldable pub add_out_bytes : Letter → Server I O → Server I O
  add_out_bytes e s = record s {
    stats = record s.stats { out_bytes = plus s.stats.out_bytes (size e) };
  }

  unfoldable pub after_reply : ℕ → ℕ → Future (Unit {0}) → Server I O → Server I O
  after_reply i payload_size (failed e) s = signal payload_size s
  after_reply i payload_size (ready _) s = finish_dispatch i payload_size s

  module _ (setup : Setup I O) where
    -- do_dispatch_rpc up to the filters
    unfoldable pub do_dispatch_rpc : ℕ → ℕ → RecvContext → Peer I O → Server I O → Server I O
    do_dispatch_rpc i payload_size ctx p s =
        if request_id ctx == 0
        then finish_dispatch i payload_size
            (fail_peer i (codes "Missing request_id. Invalid request") p s)
        else start_request i payload_size ctx (get_handle_for_request setup.routes (request_id ctx))
            p s

    -- dispatch_rpc; with_gate on a closed gate fails before it calls anything.
    unfoldable pub dispatch_rpc : ℕ → ℕ → Option RecvContext → Peer I O → Server I O → Server I O
    dispatch_rpc i payload_size none p s =
        fail_peer i (codes "Could not parse payload") p (signal payload_size s)
    dispatch_rpc i payload_size (some ctx) p s =
        if s.gate_closed then s else do_dispatch_rpc i payload_size ctx p s

    -- What the filters, the test of the compression and the handler make of a context: `none` where
    -- there was no filter for its compression.
    unfoldable pub handled : Handle → RecvContext → Future (Option Letter)
    handled handle ctx = rpc_filter_apply setup.in_filters ctx >>= λ ctx'.
        if ctx'.header.compression == compression_flags_none
        then (handle ctx' >>= rpc_filter_apply setup.out_filters) >>= (λ e. ready (some e))
        else ready none

    -- with_semaphore(serialize_writes, 1, send), then a flush if the connection is still valid
    unfoldable pub write_reply : Letter → Connection I O → Future (Unit {0}) × Connection I O
    write_reply e c =
        let (r, o) = send setup.output setup.debug e c.ostream in
        let c' = record c { ostream = o } in
        let (r', o') = setup.output.flush o in
        elim r [
          | failed err ↦ (failed err, c')
          | ready _ ↦
              if is_valid setup.input c' then (r', record c { ostream = o' }) else (ready tt, c')
        ]

    -- The continuation with a reply: it is skipped if the connection is no longer valid.
    unfoldable pub reply : Request → Letter → Peer I O → Server I O → Server I O
    reply q e p s =
        let (r, c) = write_reply e p.conn in
        if is_valid setup.input p.conn
        then after_reply q.peer q.payload_size r
            (put_peer q.peer (record p { conn = c }) (add_out_bytes e s))
        else finish_dispatch q.peer q.payload_size s

    unfoldable pub resume_stage : ℕ → Request → Stage → Server I O → Server I O
    resume_stage r q (handling handle ctx) s = after_handling r q (handled handle ctx) s
    resume_stage r q (replying e) s = with_peer q.peer (reply q e) (put_stage r q finished s)
    resume_stage r q finished s = s

    -- The request at the position `r` goes on by one stage.
    unfoldable pub resume : ℕ → Server I O → Server I O
    resume r s = elim (get_elem? s.requests r) [ none ↦ s | some q ↦ resume_stage r q q.stage s ]
