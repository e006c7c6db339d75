-- ===== src/Server/Session/Serve.antt =====
-- One request from its bytes to the bytes of its reply, through handle_one_client_session,
-- dispatch_rpc and do_dispatch_rpc of src/core/rpc_server.cc.
use smurf.Prelude.{
  ℕ, ◌+◌, ◌^◌, ◌≡◌, ◌≢◌, ◌<◌, refl, ap, ◌∙◌, true, false, some, codes, arith, ◌==◌, if◌then◌else◌,
  get_elem?, set,
}
use smurf.Future.{ready}
use smurf.Rpc.Header.{Header}
use smurf.Rpc.Letter.{Letter}
use smurf.Rpc.Connection.{Connection, is_valid, has_error}
use smurf.Rpc.Recv.{RecvContext, request_id, parse_header, parse_payload}
use smurf.Rpc.Router.{get_handle_for_request}
use smurf.Server.State.{
  Setup, Handle, Phase, idle, waiting, reading, Peer, handling, replying, finished, Request, Server,
  fail_peer, put_peer, complete, close_peer, contains, cleanup_dispatch_rpc,
}
use smurf.Server.Dispatch.{
  with_peer, dispatch_rpc, do_dispatch_rpc, start_request, add_request, add_in_bytes, handled,
  put_stage, add_out_bytes, finish_dispatch, signal, signal_units, resume, resume_stage,
  after_handling, reply, write_reply, after_reply,
}
use smurf.Server.Session.{
  looped, granted, arrived, resumed, loop_phase, loop_idle, after_header, grant_phase, arrive_phase,
  after_payload, end_loop, step,
}

ne→== : (a b : ℕ) → a ≢ b → (a == b) ≡ false
ne→== a b h = ground arith

signal_units-small : (n : ℕ) → n < 2 ^ 31 → signal_units n ≡ n
unfolding signal_units
signal_units-small n h = ground arith

module _ {I O : Type 0} (setup : Setup I O) (i : ℕ) (id : ℕ) where
  with_peer-some :
      (f : Peer I O → Server I O → Server I O) (s : Server I O) (p : Peer I O)
      → get_elem? s.peers i ≡ some p
      → with_peer i f s ≡ f p s
  with_peer-some f s p at = rw (at, with_peer) refl

  abbrev pub peer_at : Connection I O → Phase → Peer I O
  peer_at c ph = record { id = id; conn = c; phase = ph }

  pub step-looped :
      (s : Server I O) (c c' : Connection I O) (hdr : Header)
      → get_elem? s.peers i ≡ some (peer_at c idle)
      → is_valid setup.input c ≡ true
      → (parse_header setup.input setup.debug c).0 ≡ ready (some hdr)
      → (parse_header setup.input setup.debug c).1 ≡ c'
      → step setup s (looped i) ≡ record s {
        peers = set s.peers i (peer_at c' (waiting hdr));
        waited = s.waited + hdr.size;
      }
  unfolding step loop_phase loop_idle after_header
  step-looped s c c' hdr at valid header conn =
      with_peer-some (λ p. loop_phase setup i p p.phase) s (peer_at c idle) at
      ∙ (ap
            (λ b.
              if b
              then after_header i (peer_at (parse_header setup.input setup.debug c).1 idle)
                  (parse_header setup.input setup.debug c).0 s
              else end_loop i s)
            valid
          ∙ (ap (λ r. after_header i (peer_at (parse_header setup.input setup.debug c).1 idle) r s)
                header
              ∙ ap (λ d. after_header i (peer_at d idle) (ready (some hdr)) s) conn))

  pub step-granted :
      (s : Server I O) (c : Connection I O) (hdr : Header)
      → get_elem? s.peers i ≡ some (peer_at c (waiting hdr))
      → step setup s (granted i) ≡ put_peer i (peer_at c (reading hdr)) s
  unfolding step grant_phase
  step-granted s c hdr at =
      with_peer-some (λ p. grant_phase setup i p p.phase) s (peer_at c (waiting hdr)) at

  starts :
      (ctx : RecvContext) (handle : Handle) (p : Peer I O) (s : Server I O)
      → s.gate_closed ≡ false
      → request_id ctx ≢ 0
      → get_handle_for_request setup.routes (request_id ctx) ≡ some handle
      → dispatch_rpc setup i ctx.header.size (some ctx) p s
        ≡ add_request i ctx.header.size (handling handle ctx) (add_in_bytes ctx s)
  unfolding dispatch_rpc do_dispatch_rpc start_request
  starts ctx handle p s gate labelled routed =
      let n = ctx.header.size in
      ap (λ b. if b then s else do_dispatch_rpc setup i n ctx p s) gate
      ∙ (ap
            (λ b.
              if b
              then finish_dispatch i n
                  (fail_peer i (codes "Missing request_id. Invalid request") p s)
              else start_request i n ctx (get_handle_for_request setup.routes (request_id ctx)) p s)
            (ne→== (request_id ctx) 0 labelled)
          ∙ ap (λ h. start_request i n ctx h p s) routed)

  pub step-arrived :
      (s : Server I O) (c c' : Connection I O) (ctx : RecvContext) (handle : Handle)
      → get_elem? s.peers i ≡ some (peer_at c (reading ctx.header))
      → s.gate_closed ≡ false
      → (parse_payload setup.input setup.xxh64 ctx.header c).0 ≡ ready (some ctx)
      → (parse_payload setup.input setup.xxh64 ctx.header c).1 ≡ c'
      → request_id ctx ≢ 0
      → get_handle_for_request setup.routes (request_id ctx) ≡ some handle
      → step setup s (arrived i)
        ≡ add_request i ctx.header.size
            (handling handle ctx)
            (add_in_bytes ctx (put_peer i (peer_at c' idle) s))
  unfolding step arrive_phase after_payload dispatch_rpc do_dispatch_rpc start_request
  step-arrived s c c' ctx handle at gate payload conn labelled routed =
      let p' = peer_at c' idle in
      with_peer-some (λ p. arrive_phase setup i p p.phase) s (peer_at c (reading ctx.header)) at
      ∙ (ap
            (λ r.
              after_payload setup i ctx.header
                (peer_at (parse_payload setup.input setup.xxh64 ctx.header c).1
                  (reading ctx.header))
                r s)
            payload
          ∙ (ap
                (λ d.
                  after_payload setup i ctx.header (peer_at d (reading ctx.header))
                    (ready (some ctx)) s)
                conn
              ∙ starts ctx handle p' (put_peer i p' s) gate labelled routed))

  resume-some :
      (s : Server I O) (r : ℕ) (q : Request)
      → get_elem? s.requests r ≡ some q
      → resume setup r s ≡ resume_stage setup r q q.stage s
  unfolding resume
  resume-some s r q at = rw (at, resume) refl

  -- The request at the position `r` is handled.
  pub step-handled :
      (s : Server I O) (r n : ℕ) (handle : Handle) (ctx : RecvContext) (e : Letter)
      → get_elem? s.requests r
        ≡ some (record { peer = i; payload_size = n; stage = handling handle ctx })
      → handled setup handle ctx ≡ ready (some e)
      → step setup s (resumed r) ≡ record s {
        requests = set s.requests r (record { peer = i; payload_size = n; stage = replying e });
      }
  unfolding step resume resume_stage after_handling put_stage
  step-handled s r n handle ctx e at h = rw (at, resume) (rw h refl)

  -- A dispatch on a connection with no error ends with its units given back.
  pub finish-ok :
      (s : Server I O) (c : Connection I O) (n : ℕ)
      → get_elem? s.peers i ≡ some (peer_at c idle)
      → has_error c ≡ false
      → n < 2 ^ 31
      → finish_dispatch i n s ≡ record (complete s) { signalled = s.signalled + n }
  unfolding finish_dispatch signal signal_units cleanup_dispatch_rpc complete
  finish-ok s c n at good fits =
      ap (signal n) (
        with_peer-some (cleanup_dispatch_rpc i) s (peer_at c idle) at
        ∙ ap
            (λ b.
              if b
              then if contains id s.open_connections then close_peer i (peer_at c idle) s else s
              else complete s)
            good)
      ∙ ap (λ m. record (complete s) { signalled = s.signalled + m }) (signal_units-small n fits)

  -- The reply is written on a connection that is still valid.
  pub step-replied :
      (s : Server I O) (r n : ℕ) (e : Letter) (c c' : Connection I O)
      → get_elem? s.requests r ≡ some (record { peer = i; payload_size = n; stage = replying e })
      → get_elem? s.peers i ≡ some (peer_at c idle)
      → is_valid setup.input c ≡ true
      → write_reply setup e c ≡ (ready tt, c')
      → step setup s (resumed r)
        ≡ finish_dispatch i n (
            put_peer i (peer_at c' idle) (
              add_out_bytes e (record s {
                requests =
                    set s.requests r (record { peer = i; payload_size = n; stage = finished });
              })))
  unfolding step resume_stage put_stage reply after_reply
  step-replied s r n e c c' at peer valid written =
      let q : Request = record { peer = i; payload_size = n; stage = replying e } in
      let t = put_stage r q finished s in
      let p = peer_at c idle in
      let w = write_reply setup e c in
      resume-some s r q at
      ∙ (with_peer-some (reply setup q e) t p peer
          ∙ (ap
                (λ b.
                  if b
                  then after_reply i n w.0
                      (put_peer i (record p { conn = w.1 }) (add_out_bytes e t))
                  else finish_dispatch i n t)
                valid
              ∙ ap
                  (λ v.
                    let (f, d) = v in
                    after_reply i n f (put_peer i (record p { conn = d }) (add_out_bytes e t)))
                  written))
