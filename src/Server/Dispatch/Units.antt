-- ===== src/Server/Dispatch/Units.antt =====
-- What dispatching a request does to the account of the semaphore.
use smurf.Prelude.{
  ℕ, ◌+◌, ◌^◌, ◌<◌, ◌≡◌, refl, inl, inr, false, Option, none, some, [], ◌∷◌, codes, arith,
  get_elem?, ◌==◌, sum_by, sum_by-set, sum_by-append, length, get_elem?_of_lt, Option-cases,
  if_both,
}
use smurf.Future.{Future, ready, failed}
use smurf.Rpc.Letter.{Letter}
use smurf.Rpc.Recv.{RecvContext, request_id}
use smurf.Rpc.Connection.{is_valid}
use smurf.Server.State.{
  Setup, Peer, Stage, handling, replying, finished, Request, Server, Handle, put_peer,
  cleanup_dispatch_rpc, fail_peer,
}
use smurf.Server.State.Units.{
  peer_units, request_units, stage_units, held, IsBalanced, SameUnits, SameUnits-refl,
  SameUnits-trans, SameUnits-IsBalanced, put_peer-SameUnits, fail_peer-SameUnits, cleanup-SameUnits,
}
use smurf.Server.Dispatch.{
  signal_units, signal, with_peer, finish_dispatch, add_in_bytes, add_no_route, add_request,
  start_request, do_dispatch_rpc, dispatch_rpc, handled, put_stage, after_handling, add_out_bytes,
  write_reply, after_reply, reply, resume_stage,
}

-- `t` differs from `s` by `n` units that were given back; no phase and no request changed.
pub record Gives {I O : Type 0} (n : ℕ) (s t : Server I O) : Type 0 where
  pub waited : t.waited ≡ s.waited
  pub signalled : t.signalled ≡ s.signalled + n
  pub requests : t.requests ≡ s.requests
  pub peers : sum_by peer_units t.peers ≡ sum_by peer_units s.peers
  pub count : length t.peers ≡ length s.peers

module _ {I O : Type 0} where
  pub with_peer-SameUnits :
      (i : ℕ) (f : Peer I O → Server I O → Server I O) (s : Server I O)
      → ((p : Peer I O) → get_elem? s.peers i ≡ some p → SameUnits s (f p s))
      → SameUnits s (with_peer i f s)
  with_peer-SameUnits i f s keep = elim (Option-cases (get_elem? s.peers i)) [
    | inl missing ↦ rw (missing, with_peer) (SameUnits-refl s)
    | inr (p, at) ↦ rw (at, with_peer) (keep p at)
  ]

  signal_lem : (n : ℕ) {s t : Server I O} → n < 2 ^ 31 → SameUnits s t → Gives n s (signal n t)
  unfolding signal signal_units
  signal_lem n small a = record {
    waited = a.waited;
    signalled = ground arith;
    requests = a.requests;
    peers = a.peers;
    count = a.count;
  }

  pub finish_dispatch-Gives :
      (i n : ℕ) {s t : Server I O} → n < 2 ^ 31 → SameUnits s t → Gives n s (finish_dispatch i n t)
  unfolding finish_dispatch
  finish_dispatch-Gives i n {t = t} small a = signal_lem n small (
      SameUnits-trans a
        (with_peer-SameUnits i (cleanup_dispatch_rpc i) t (λ p at. cleanup-SameUnits i p t at)))

  -- A balanced server to which a request with `n` units is added.
  IsBalanced-Gives :
      (n : ℕ) {s t : Server I O}
      → Gives n s t
      → s.signalled + (held s + n) ≡ s.waited
      → IsBalanced t
  IsBalanced-Gives n g b = rw (g.waited, g.signalled, g.requests, g.peers) (omega arith)

  module _ (setup : Setup I O) where
    start_request-IsBalanced :
        (i n : ℕ) (ctx : RecvContext) (h : Option Handle) (p : Peer I O) (s : Server I O)
        → n < 2 ^ 31
        → get_elem? s.peers i ≡ some p
        → s.signalled + (held s + n) ≡ s.waited
        → IsBalanced (start_request i n ctx h p s)
    unfolding start_request add_in_bytes add_no_route add_request
    start_request-IsBalanced i n ctx none p s small at b =
        IsBalanced-Gives n
          (finish_dispatch-Gives i n {s = add_no_route s} small
            (fail_peer-SameUnits i _ p (add_no_route s) at))
          b
    start_request-IsBalanced i n ctx (some h) p s small at b = omega (
      arith,
      sum_by-append request_units s.requests
          (record { peer = i; payload_size = n; stage = handling h ctx } ∷ []),
    )

    pub dispatch_rpc-IsBalanced :
        (i n : ℕ) (ctx : Option RecvContext) (p : Peer I O) (s : Server I O)
        → n < 2 ^ 31
        → s.gate_closed ≡ false
        → get_elem? s.peers i ≡ some p
        → s.signalled + (held s + n) ≡ s.waited
        → IsBalanced (dispatch_rpc setup i n ctx p s)
    unfolding dispatch_rpc do_dispatch_rpc signal
    dispatch_rpc-IsBalanced i n none p s small gate at b =
        SameUnits-IsBalanced (fail_peer-SameUnits i _ p (signal n s) at)
          (IsBalanced-Gives n (signal_lem n small (SameUnits-refl s)) b)
    dispatch_rpc-IsBalanced i n (some ctx) p s small gate at b =
        if_both IsBalanced s.gate_closed _ _ (λ shut. cc)
          λ _.
            if_both IsBalanced (request_id ctx == 0) _ _
              (λ _.
                IsBalanced-Gives n
                  (finish_dispatch-Gives i n {s = s} small (fail_peer-SameUnits i _ p s at)) b)
              (λ _. start_request-IsBalanced i n ctx _ p s small at b)

    -- The stages of a request `q` that stands at the position `r`.
    module _ (r : ℕ) (q : Request) where
      Finishing : Server I O → Type 0
      Finishing s =
          (get_elem? s.requests r ≡ some q) × (stage_units q.stage q.payload_size ≡ q.payload_size)

      put_finished-units :
          (s : Server I O)
          → Finishing s
          → IsBalanced s
          → (put_stage r q finished s).signalled
              + (held (put_stage r q finished s) + q.payload_size)
            ≡ (put_stage r q finished s).waited
      unfolding put_stage Finishing
      put_finished-units s at b = omega (
        arith,
        sum_by-set request_units s.requests r q (record q { stage = finished }) at.0,
        at.1,
      )

      after_handling-IsBalanced :
          (o : Future (Option Letter)) (s : Server I O)
          → q.payload_size < 2 ^ 31
          → Finishing s
          → IsBalanced s
          → IsBalanced (after_handling r q o s)
      unfolding after_handling put_stage Finishing
      after_handling-IsBalanced (failed e) s small at b =
          IsBalanced-Gives q.payload_size
            (signal_lem q.payload_size small (SameUnits-refl (put_stage r q finished s)))
            (put_finished-units s at b)
      after_handling-IsBalanced (ready none) s small at b =
          IsBalanced-Gives q.payload_size
            (finish_dispatch-Gives q.peer q.payload_size small (
              with_peer-SameUnits q.peer
                (fail_peer q.peer (codes "There was no decompression filter for compression enum"))
                (put_stage r q finished s) (λ p found. fail_peer-SameUnits q.peer _ p _ found)))
            (put_finished-units s at b)
      after_handling-IsBalanced (ready (some e)) s small at b = omega (
        arith,
        sum_by-set request_units s.requests r q (record q { stage = replying e }) at.0,
        at.1,
      )

      after_reply-Gives :
          (i n : ℕ) (o : Future (Unit {0})) {s t : Server I O}
          → n < 2 ^ 31
          → SameUnits s t
          → Gives n s (after_reply i n o t)
      unfolding after_reply
      after_reply-Gives i n (failed e) small a = signal_lem n small a
      after_reply-Gives i n (ready u) small a = finish_dispatch-Gives i n small a

      counted-SameUnits :
          (e : Letter) (p : Peer I O) (s : Server I O)
          → get_elem? s.peers q.peer ≡ some p
          → SameUnits s (
              put_peer q.peer
                (record p { conn = (write_reply setup e p.conn).1 })
                (add_out_bytes e s))
      unfolding add_out_bytes
      counted-SameUnits e p s at =
          SameUnits-trans {t = add_out_bytes e s}
            (record {
              waited = refl;
              signalled = refl;
              requests = refl;
              peers = refl;
              count = refl;
            })
            (put_peer-SameUnits q.peer p (record p { conn = (write_reply setup e p.conn).1 })
              (add_out_bytes e s) at refl)

      pub reply-Gives :
          (e : Letter) (p : Peer I O) (s : Server I O)
          → q.payload_size < 2 ^ 31
          → get_elem? s.peers q.peer ≡ some p
          → Gives q.payload_size s (reply setup q e p s)
      unfolding reply
      reply-Gives e p s small at =
          if_both (Gives q.payload_size s) (is_valid setup.input p.conn) _ _
            (λ _.
              after_reply-Gives q.peer q.payload_size (write_reply setup e p.conn).0 small
                (counted-SameUnits e p s at))
            (λ _. finish_dispatch-Gives q.peer q.payload_size small (SameUnits-refl s))

      replying-IsBalanced :
          (l : Letter) (s : Server I O)
          → q.payload_size < 2 ^ 31
          → q.peer < length s.peers
          → Finishing s
          → IsBalanced s
          → IsBalanced (with_peer q.peer (reply setup q l) (put_stage r q finished s))
      unfolding put_stage
      replying-IsBalanced l s small there at b =
          let (p, found) = get_elem?_of_lt s.peers q.peer there in
          rw (found, with_peer)
            (IsBalanced-Gives q.payload_size
              (reply-Gives l p (put_stage r q finished s) small found) (put_finished-units s at b))

      pub resume_stage-IsBalanced :
          (stage : Stage) (s : Server I O)
          → (q.peer < length s.peers) × (q.payload_size < 2 ^ 31)
          → get_elem? s.requests r ≡ some q
          → q.stage ≡ stage
          → IsBalanced s
          → IsBalanced (resume_stage setup r q stage s)
      unfolding resume_stage Finishing
      resume_stage-IsBalanced (handling handle ctx) s small at e b =
          after_handling-IsBalanced (handled setup handle ctx) s small.1 (at, rw e) b
      resume_stage-IsBalanced (replying l) s small at e b =
          replying-IsBalanced l s small.1 small.0 (at, rw e) b
      resume_stage-IsBalanced finished s small at e b = b
