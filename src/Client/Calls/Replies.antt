-- ===== src/Client/Calls/Replies.antt =====
-- What a reply does in src/core/rpc_client.cc.
use smurf.Prelude.{
  ℕ, ◌≡◌, ◌≢◌, ap, true, none, some, ◌==◌, arith, ℕ_discrete, get_elem?, if◌then◌else◌, ◌∙◌,
}
use smurf.Future.{ready}
use smurf.Rpc.Header.{Header}
use smurf.Rpc.Connection.{Connection}
use smurf.Rpc.Recv.{RecvContext, session, parse_header, parse_payload}
use smurf.Client.State.{Setup, resolved, Client, find, erase, resolve, is_conn_valid}
use smurf.Client.Slots.{AllOwned-find, find-erase, get_elem?-resolve_ne, get_elem?-resolve_self}
use smurf.Client.Linked.{IsLinked}
use smurf.Client.Calls.{route, after_payload, after_header, process_conn, process_one_request}

module _ {I O : Type 0} (setup : Setup I O) (c : Client I O) (conn : Connection I O) where
  routed :
      (conn' : Connection I O) (ctx : RecvContext) (t : ℕ)
      → c.read_counter ≢ 0
      → find (session ctx) c.rpc_slots ≡ some t
      → ((after_payload setup conn' (ready (some ctx)) c).works
          ≡ resolve t (ready (some ctx)) c.works)
        × ((after_payload setup conn' (ready (some ctx)) c).rpc_slots
            ≡ erase (session ctx) c.rpc_slots)
  unfolding after_payload route
  routed conn' ctx t counted at = ground arith

  read_reply :
      (hdr : Header) (ctx : RecvContext)
      → is_conn_valid setup c ≡ true
      → c.conn ≡ some conn
      → (parse_header setup.input setup.debug conn).0 ≡ ready (some hdr)
      → (parse_payload setup.input setup.xxh64 hdr (parse_header setup.input setup.debug conn).1).0
        ≡ ready (some ctx)
      → process_one_request setup c
        ≡ after_payload setup
            (parse_payload setup.input setup.xxh64 hdr
              (parse_header setup.input setup.debug conn).1).1
            (ready (some ctx))
            c
  unfolding process_one_request
  read_reply hdr ctx valid here header payload =
      let (_, next) = parse_header setup.input setup.debug conn in
      let (_, last) = parse_payload setup.input setup.xxh64 hdr next in
      ap (λ b. if b then process_conn setup c.conn c else c) valid
      ∙ (ap (λ o. process_conn setup o c) here
          ∙ (ap (λ r. after_header setup next r c) header
              ∙ ap (λ r. after_payload setup last r c) payload))

  -- A reply that is read whole goes to the call of its session, in whatever order replies come: that
  -- call gets the context, every other call is as it was, and of the slots only that of the session
  -- is gone. The connection is valid, the slots are linked to the calls, and the counter of replies to
  -- read is not 0.
  pub reply_resolves :
      (hdr : Header) (ctx : RecvContext) (t u k : ℕ)
      → IsLinked c
      → is_conn_valid setup c ≡ true
      → c.conn ≡ some conn
      → (parse_header setup.input setup.debug conn).0 ≡ ready (some hdr)
      → (parse_payload setup.input setup.xxh64 hdr (parse_header setup.input setup.debug conn).1).0
        ≡ ready (some ctx)
      → c.read_counter ≢ 0
      → find (session ctx) c.rpc_slots ≡ some t
      → (get_elem? (process_one_request setup c).works u ≡ (
          if t == u
          then some (record { session = session ctx; pr = resolved (ready (some ctx)) })
          else get_elem? c.works u))
        × (find k (process_one_request setup c).rpc_slots
            ≡ (if session ctx == k then none else find k c.rpc_slots))
  reply_resolves hdr ctx t u k l valid here header payload counted at =
      let e = read_reply hdr ctx valid here header payload in
      let conn' =
        (parse_payload setup.input setup.xxh64 hdr
          (parse_header setup.input setup.debug conn).1).1 in
      let (works, slots) = routed conn' ctx t counted at in
      let owner = AllOwned-find (session ctx) t c.rpc_slots c.works l.owned at in
      let r = ready (some ctx) in
      (
        rw (e, works)
            (elim (ℕ_discrete t u) [
              | yes same ↦ ground (arith, same, get_elem?-resolve_self t r c.works _ owner)
              | no ne ↦ ground (arith, ne, get_elem?-resolve_ne t u r c.works ne)
            ]),
        rw (e, slots) (find-erase (session ctx) k c.rpc_slots),
      )
