-- ===== src/Server/Session.antt =====
-- handle_one_client_session and handle_client_connection of src/core/rpc_server.cc, cut where they
-- wait, and the server as a whole under a schedule of events.
pub mod Units
pub mod Account
pub mod Serve
pub mod Served
use smurf.Prelude.{
  ℕ, ◌+◌, ◌≡◌, Bool, true, false, not, Option, none, some, List, [], ◌∷◌, Bytes, codes, ◌==◌,
  get_elem?, set, if◌then◌else◌,
}
use smurf.Future.{Error, Future, ready, failed, timed_out}
use smurf.Rpc.Header.{Header}
use smurf.Rpc.Connection.{Connection, is_valid, set_error}
use smurf.Rpc.Recv.{RecvContext, parse_header, parse_payload}
use smurf.Server.State.{
  Setup, Phase, idle, waiting, reading, closed, Peer, Server, accept, put_peer,
  cleanup_dispatch_rpc, fail_peer, destroy_connection,
}
use smurf.Server.Dispatch.{with_peer, dispatch_rpc, resume}

-- What the environment decides: when each fiber goes on, and when a timer fires first.
pub data Event (I O : Type 0) : Type 0 where
  accepted : I → O → Event I O
  -- the test of do_until, and parse_header
  looped : ℕ → Event I O
  -- the semaphore grants the memory
  granted : ℕ → Event I O
  -- parse_payload ends before its timeout
  arrived : ℕ → Event I O
  -- with_timeout ends first
  expired : ℕ → Event I O
  -- a request in the background goes on
  resumed : ℕ → Event I O
  -- the last pointer to a connection goes
  destroyed : Event I O
  -- stop() closes the gate
  stopped : Event I O

module _ {I O : Type 0} where
  unfoldable pub close_phase : ℕ → Server I O → Server I O
  close_phase i s = with_peer i (λ p. put_peer i (record p { phase = closed })) s

  -- .finally(cleanup) of a loop that ended by its test
  unfoldable pub end_loop : ℕ → Server I O → Server I O
  end_loop i s = close_phase i (with_peer i (cleanup_dispatch_rpc i) s)

  -- .finally(cleanup).handle_exception(set_error, cleanup) of a loop that ended by an exception
  unfoldable pub fail_loop : ℕ → Server I O → Server I O
  fail_loop i s =
      let s1 = with_peer i (cleanup_dispatch_rpc i) s in
      let s2 = with_peer i (fail_peer i (codes "handling client session exception")) s1 in
      close_phase i (with_peer i (cleanup_dispatch_rpc i) s2)

  -- The continuation of parse_header: `p` is the peer with the connection after the read.
  unfoldable pub after_header : ℕ → Peer I O → Future (Option Header) → Server I O → Server I O
  after_header i p (failed e) s = fail_loop i (put_peer i p s)
  after_header i p (ready none) s =
      put_peer i (record p { conn = set_error (codes "Error parsing connection header") p.conn }) s
  after_header i p (ready (some hdr)) s = record s {
    peers = set s.peers i (record p { phase = waiting hdr });
    waited = s.waited + hdr.size;
  }

  module _ (setup : Setup I O) where
    unfoldable pub loop_idle : ℕ → Peer I O → Server I O → Server I O
    loop_idle i p s =
        let (r, c) = parse_header setup.input setup.debug p.conn in
        if is_valid setup.input p.conn
        then after_header i (record p { conn = c }) r s
        else end_loop i s

    unfoldable pub loop_phase : ℕ → Peer I O → Phase → Server I O → Server I O
    loop_phase i p idle s = loop_idle i p s
    loop_phase i p _ s = s

    unfoldable pub grant_phase : ℕ → Peer I O → Phase → Server I O → Server I O
    grant_phase i p (waiting hdr) s = put_peer i (record p { phase = reading hdr }) s
    grant_phase i p _ s = s

    -- The continuation of parse_payload.
    unfoldable pub after_payload :
        ℕ → Header → Peer I O → Future (Option RecvContext) → Server I O → Server I O
    after_payload i hdr p (failed e) s = fail_loop i (put_peer i p s)
    after_payload i hdr p (ready maybe_payload) s =
        let p' = record p { phase = idle } in
        dispatch_rpc setup i hdr.size maybe_payload p' (put_peer i p' s)

    unfoldable pub arrive_phase : ℕ → Peer I O → Phase → Server I O → Server I O
    arrive_phase i p (reading hdr) s =
        let (r, c) = parse_payload setup.input setup.xxh64 hdr p.conn in
        after_payload i hdr (record p { conn = c }) r s
    arrive_phase i p _ s = s

    unfoldable pub expire_phase : ℕ → Peer I O → Phase → Server I O → Server I O
    expire_phase i p (reading hdr) s = fail_loop i s
    expire_phase i p _ s = s

    unfoldable pub step : Server I O → Event I O → Server I O
    step s (accepted i o) = accept i o s
    step s (looped i) = with_peer i (λ p. loop_phase i p p.phase) s
    step s (granted i) = with_peer i (λ p. grant_phase i p p.phase) s
    step s (arrived i) = with_peer i (λ p. arrive_phase i p p.phase) s
    step s (expired i) = with_peer i (λ p. expire_phase i p p.phase) s
    step s (resumed r) = resume setup r s
    step s destroyed = destroy_connection s
    step s stopped = record s { gate_closed = true }

    unfoldable pub run : Server I O → List (Event I O) → Server I O
    run s [] = s
    run s (e ∷ es) = run (step s e) es
