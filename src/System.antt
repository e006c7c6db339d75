-- ===== src/System.antt =====
-- A client of src/core/rpc_client.cc and a server of src/core/rpc_server.cc, with what one writes
-- in the stream that the other reads.
use smurf.Prelude.{
  some-inj, subst, ℕ, ◌≡◌, sym, ap, ◌∙◌, none, some, [], ◌∷◌, ◌++◌, Bytes, get_elem?, length,
}
use mathlib.Core.List.{append_assoc}
use smurf.Future.{ready}
use smurf.Rpc.Header.{encode_header}
use smurf.Rpc.Io.{ReadsFrom, WritesTo}
use smurf.Rpc.Letter.{Letter}
use smurf.Rpc.Connection.{Connection, is_valid}
use smurf.Rpc.Recv.{session}
use smurf.Rpc.Recv.RoundTrip.{IsSendable}
use smurf.Rpc.Recv.Stream.{StaysOpen, context_of}
use smurf.Client.State.{Client, find, resolved}
use smurf.Client.Calls.{next_session, sends, writes, reads}
use smurf.Client.Calls.Trip.{CanCall, call_goes_out, reply_comes_in}
use smurf.Server.State.{Handle, Server, idle, plus}
use smurf.Server.Session.Served.{CanServe, one_request, serve_once}
use smurf.Client.State as ClientState
use smurf.Server.State as ServerState
use smurf.Client.Calls
use smurf.Server.Session

append_cancel_left : (xs ys zs : Bytes) → xs ++ ys ≡ xs ++ zs → ys ≡ zs
append_cancel_left [] ys zs e = e
append_cancel_left (x ∷ xs) ys zs e = append_cancel_left xs ys zs cc

-- What is read next, if between `before` and `after` a letter was written.
arrives :
    (before after now header body rest : Bytes)
    → after ++ rest ≡ before ++ now
    → after ≡ before ++ (header ++ body)
    → now ≡ header ++ (body ++ rest)
arrives before after now header body rest delivered wrote =
    append_cancel_left before now (header ++ (body ++ rest)) (
      sym delivered
      ∙ (ap (λ x. x ++ rest) wrote
          ∙ (append_assoc before (header ++ body) rest
              ∙ ap (λ x. before ++ x) (append_assoc header body rest))))

module _ {I O J P : Type 0} (client : ClientState.Setup I O) (server : ServerState.Setup J P)
    (client_in : I → Bytes) (client_out : O → Bytes) (server_in : J → Bytes)
    (server_out : P → Bytes) where
  -- A call of the client on a server that has a handle for it: with the client's bytes delivered to
  -- the server and the server's to the client, in order and whole, the promise of the call gets the
  -- context of the reply that the handle and the filters made, the slot of its session is free again,
  -- and the server is left with the bytes that come after the request. The handle gives the reply the
  -- session of the call, and both ends are as `CanCall` and `CanServe` say.
  pub call_returns :
      (c : Client I O) (s : Server J P) (conn conn' : Connection I O) (peer peer' : Connection J P)
      (i id : ℕ) (e l r : Letter) (handle : Handle) (later_in later_out : Bytes)
      → ReadsFrom client.input client_in
      → StaysOpen client.input client_in
      → WritesTo client.output client_out
      → ReadsFrom server.input server_in
      → StaysOpen server.input server_in
      → WritesTo server.output server_out
      → client.xxh64 ≡ server.xxh64
      → CanCall client c conn e l
      → CanServe server s i id peer l r handle
      → session (context_of r) ≡ next_session c
      → (Calls.run client c (sends e ∷ writes ∷ [])).conn ≡ some conn'
      → client_out conn'.ostream ++ later_out ≡ client_out conn.ostream ++ server_in peer.istream
      → get_elem? (Session.run server s (one_request i (length s.requests))).peers i
        ≡ some (record { id = id; conn = peer'; phase = idle })
      → server_out peer'.ostream ++ later_in ≡ server_out peer.ostream ++ client_in conn.istream
      → (get_elem? (Calls.run client c (sends e ∷ writes ∷ reads ∷ [])).works (length c.works)
          ≡ some (record { session = next_session c; pr = resolved (ready (some (context_of r))) }))
        × (find (next_session c) (Calls.run client c (sends e ∷ writes ∷ reads ∷ [])).rpc_slots
            ≡ none)
        × (server_in peer'.istream ≡ later_out)
  unfolding Calls.run is_valid
  call_returns c s conn conn' peer peer' i id e l r handle later_in later_out client_reads
        client_opens client_writes server_reads server_opens server_writes hash can able same sent
        out done back =
      let (o, w) = call_goes_out client c conn e l client_out client_writes can in
      let same_conn : record conn { ostream = o } ≡ conn' = cc in
      let (peer2, at2, _, _, left, answered, _, _, _) =
        serve_once server server_in server_out s i id peer l r later_out handle server_reads
          server_opens server_writes able
          (arrives (client_out conn.ostream) (client_out conn'.ostream) (server_in peer.istream)
            (encode_header l.header) l.body later_out out (rw (← same_conn) w.bytes)) in
      let same_peer : peer2 ≡ peer' = ap (λ p. p.conn) (some-inj (sym at2 ∙ done)) in
      let (works, slots) =
        reply_comes_in client client_in (Calls.run client c (sends e ∷ writes ∷ []))
          (record conn { ostream = o }) r (length c.works) later_in client_reads client_opens w
          can.valid can.alone
          (arrives (server_out peer.ostream) (server_out peer'.ostream) (client_in conn.istream)
            (encode_header r.header) r.body later_in back (rw (← same_peer) answered))
          (subst (λ h. IsSendable h r) (sym hash) able.answer) same in
      (works, slots, ap (λ p. server_in p.istream) (sym same_peer) ∙ left)
