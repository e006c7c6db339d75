-- ===== src/Server/Dispatch/Requests.antt =====
-- The requests of the server refer to its peers, through dispatching and resuming them; with the
-- account of the semaphore this is `IsAccounted`.
use smurf.Prelude.{
  ℕ, ◌+◌, ◌^◌, ◌<◌, ◌≡◌, refl, inl, inr, false, Option, none, some, codes, get_elem?, length,
  get_elem?-some_lt, ◌==◌, Option-cases, if_both,
}
use smurf.Future.{Future, ready, failed}
use smurf.Rpc.Letter.{Letter}
use smurf.Rpc.Recv.{RecvContext, request_id}
use smurf.Server.State.{
  Setup, Peer, Stage, handling, replying, finished, Request, Server, Handle, cleanup_dispatch_rpc,
  fail_peer,
}
use smurf.Server.State.Units.{
  held, SameUnits, fail_peer-SameUnits, cleanup-SameUnits, AllFit, AllFit-append, AllFit-get,
  AllFit-set, IsAccounted,
}
use smurf.Server.Dispatch.{
  signal, with_peer, finish_dispatch, add_in_bytes, add_no_route, add_request, start_request,
  do_dispatch_rpc, dispatch_rpc, handled, put_stage, after_handling, reply, resume_stage, resume,
}
use smurf.Server.Dispatch.Units.{
  with_peer-SameUnits, reply-Gives, dispatch_rpc-IsBalanced, resume_stage-IsBalanced,
}

module _ {I O : Type 0} where
  abbrev HasFit : Server I O → Type 0
  HasFit s = AllFit (length s.peers) s.requests

  SameUnits-HasFit : {s t : Server I O} → SameUnits s t → HasFit s → HasFit t
  SameUnits-HasFit a f = rw (a.requests, a.count) f

  signal-HasFit : (n : ℕ) (s : Server I O) → HasFit s → HasFit (signal n s)
  unfolding signal
  signal-HasFit n s f = f

  finish_dispatch-HasFit : (i n : ℕ) (s : Server I O) → HasFit s → HasFit (finish_dispatch i n s)
  unfolding finish_dispatch
  finish_dispatch-HasFit i n s f = signal-HasFit n (with_peer i (cleanup_dispatch_rpc i) s) (
      SameUnits-HasFit
        (with_peer-SameUnits i (cleanup_dispatch_rpc i) s (λ p at. cleanup-SameUnits i p s at)) f)

  module _ (setup : Setup I O) where
    start_request-HasFit :
        (i n : ℕ) (ctx : RecvContext) (h : Option Handle) (p : Peer I O) (s : Server I O)
        → n < 2 ^ 31
        → get_elem? s.peers i ≡ some p
        → HasFit s
        → HasFit (start_request i n ctx h p s)
    unfolding start_request add_in_bytes add_no_route add_request
    start_request-HasFit i n ctx none p s small at f =
        finish_dispatch-HasFit i n _
          (SameUnits-HasFit (fail_peer-SameUnits i _ p (add_no_route s) at) f)
    start_request-HasFit i n ctx (some h) p s small at f =
        AllFit-append (length s.peers) s.requests _ f
          ((get_elem?-some_lt s.peers i p at, small), tt)

    dispatch_rpc-HasFit :
        (i n : ℕ) (ctx : Option RecvContext) (p : Peer I O) (s : Server I O)
        → n < 2 ^ 31
        → get_elem? s.peers i ≡ some p
        → HasFit s
        → HasFit (dispatch_rpc setup i n ctx p s)
    unfolding dispatch_rpc do_dispatch_rpc signal
    dispatch_rpc-HasFit i n none p s small at f =
        SameUnits-HasFit (fail_peer-SameUnits i _ p (signal n s) at) f
    dispatch_rpc-HasFit i n (some ctx) p s small at f =
        if_both HasFit s.gate_closed _ _ (λ _. f)
          λ _.
            if_both HasFit (request_id ctx == 0) _ _
              (λ _.
                finish_dispatch-HasFit i n _ (SameUnits-HasFit (fail_peer-SameUnits i _ p s at) f))
              (λ _. start_request-HasFit i n ctx _ p s small at f)

    -- A request of under 2 GB is dispatched on a server whose fibers hold its units beside those of
    -- their own: the account is in balance afterwards.
    pub dispatch_rpc-IsAccounted :
        (i n : ℕ) (ctx : Option RecvContext) (p : Peer I O) (s : Server I O)
        → n < 2 ^ 31
        → s.gate_closed ≡ false
        → get_elem? s.peers i ≡ some p
        → s.signalled + (held s + n) ≡ s.waited
        → HasFit s
        → IsAccounted (dispatch_rpc setup i n ctx p s)
    dispatch_rpc-IsAccounted i n ctx p s small gate at b f = record {
      balance = dispatch_rpc-IsBalanced setup i n ctx p s small gate at b;
      fit = dispatch_rpc-HasFit i n ctx p s small at f;
    }

    module _ (r : ℕ) (q : Request) where
      put_stage-HasFit :
          (stage : Stage) (s : Server I O)
          → get_elem? s.requests r ≡ some q
          → HasFit s
          → HasFit (put_stage r q stage s)
      unfolding put_stage
      put_stage-HasFit stage s at f =
          AllFit-set (length s.peers) s.requests r _ f
            (AllFit-get (length s.peers) s.requests r q f at)

      after_handling-HasFit :
          (o : Future (Option Letter)) (s : Server I O)
          → get_elem? s.requests r ≡ some q
          → HasFit s
          → HasFit (after_handling r q o s)
      unfolding after_handling
      after_handling-HasFit (failed e) s at f =
          signal-HasFit q.payload_size _ (put_stage-HasFit finished s at f)
      after_handling-HasFit (ready none) s at f = finish_dispatch-HasFit q.peer q.payload_size _ (
          SameUnits-HasFit
            (with_peer-SameUnits q.peer
              (fail_peer q.peer (codes "There was no decompression filter for compression enum"))
              (put_stage r q finished s) (λ p found. fail_peer-SameUnits q.peer _ p _ found))
            (put_stage-HasFit finished s at f))
      after_handling-HasFit (ready (some e)) s at f = put_stage-HasFit (replying e) s at f

      replying-HasFit :
          (l : Letter) (s : Server I O)
          → q.payload_size < 2 ^ 31
          → HasFit s
          → HasFit (with_peer q.peer (reply setup q l) s)
      replying-HasFit l s small f = elim (Option-cases (get_elem? s.peers q.peer)) [
        | inl missing ↦ rw (missing, with_peer) f
        | inr (p, found) ↦
            let g = reply-Gives setup r q l p s small found in
            rw (found, with_peer) (rw (g.requests, g.count) f)
      ]

      resume_stage-HasFit :
          (stage : Stage) (s : Server I O)
          → get_elem? s.requests r ≡ some q
          → HasFit s
          → HasFit (resume_stage setup r q stage s)
      unfolding resume_stage
      resume_stage-HasFit (handling handle ctx) s at f =
          after_handling-HasFit (handled setup handle ctx) s at f
      resume_stage-HasFit (replying l) s at f =
          replying-HasFit l (put_stage r q finished s)
            (AllFit-get (length s.peers) s.requests r q f at).1 (put_stage-HasFit finished s at f)
      resume_stage-HasFit finished s at f = f

    -- If the account of the server is in balance and its requests fit its peers, then both hold after
    -- any request goes on by a stage, whatever the filters, the handler and the streams do.
    pub resume-IsAccounted :
        (r : ℕ) (s : Server I O) → IsAccounted s → IsAccounted (resume setup r s)
    unfolding resume
    resume-IsAccounted r s a = elim (Option-cases (get_elem? s.requests r)) [
      | inl missing ↦ rw (missing, resume) a
      | inr (q, at) ↦
          rw (at, resume)
            (record {
              balance =
                  resume_stage-IsBalanced setup r q q.stage s
                    (AllFit-get (length s.peers) s.requests r q a.fit at) at refl a.balance;
              fit = resume_stage-HasFit r q q.stage s at a.fit;
            })
    ]
