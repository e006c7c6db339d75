-- ===== src/Client/Calls/Tls.antt =====
-- The credentials of src/core/rpc_client.cc over connect() and reconnect().
use smurf.Prelude.{
  ℕ, ◌==◌, ◌≡◌, refl, ◌∙◌, true, false, ◌&&◌, Option, none, some, List, [], ◌∷◌, arith, if_both,
}
use smurf.Future.{Future, ready, failed}
use smurf.Rpc.Letter.{Letter, bad_letter}
use smurf.Rpc.Header.{Header}
use smurf.Rpc.Recv.{RecvContext}
use smurf.Rpc.Connection.{Connection}
use smurf.Client.State.{
  Setup, Client, Wait, no_read, for_header, for_payload, is_conn_valid, fail_outstanding_futures,
}
use smurf.Client.Calls.{
  route, fail_conn, after_payload, header_came, go_on, read_on, finish_read, write_letter,
  write_next, after_write, drain, stop, connect, reconnect,
}

module _ {I O : Type 0} (setup : Setup I O) where
  creds-fail : (c : Client I O) → (fail_outstanding_futures setup c).creds ≡ c.creds
  unfolding fail_outstanding_futures
  creds-fail c = ground arith

  creds-after_write :
      (conn : Connection I O) (o : O) (r : Future (Unit {0})) (c : Client I O)
      → (after_write setup conn o r c).creds ≡ c.creds
  unfolding after_write
  creds-after_write conn o (ready _) c = refl
  creds-after_write conn o (failed e) c = creds-fail _

  creds-write_letter :
      (e : Letter) (conn : Option (Connection I O)) (c : Client I O)
      → (write_letter setup e conn c).creds ≡ c.creds
  unfolding write_letter
  creds-write_letter e none c = refl
  creds-write_letter e (some conn) c =
      if_both (λ (d : Client I O). d.creds ≡ c.creds) (setup.debug && bad_letter e) _ _ (λ _. refl)
        (λ _. creds-after_write conn _ _ c)

  creds-write_list :
      (es : List Letter) (c : Client I O) → c.writes ≡ es → (write_next setup c).creds ≡ c.creds
  unfolding write_next
  creds-write_list [] c e = rw (e, write_next) refl
  creds-write_list (x ∷ rest) c e =
      rw (e, write_next) (creds-write_letter x c.conn (record c { writes = rest }))

  creds-drain : (es : List Letter) (c : Client I O) → (drain setup es c).creds ≡ c.creds
  unfolding drain
  creds-drain [] c = refl
  creds-drain (e ∷ es) c = creds-drain es (write_next setup c) ∙ creds-write_list c.writes c refl

  creds-route :
      (conn : Connection I O) (ctx : RecvContext) (o : Option ℕ) (c : Client I O)
      → (route setup conn ctx o c).creds ≡ c.creds
  unfolding route fail_conn
  creds-route conn ctx none c = creds-fail _
  creds-route conn ctx (some t) c = refl

  creds-after_payload :
      (conn : Connection I O) (r : Future (Option RecvContext)) (c : Client I O)
      → (after_payload setup conn r c).creds ≡ c.creds
  unfolding after_payload fail_conn
  creds-after_payload conn (failed e) c = creds-fail _
  creds-after_payload conn (ready none) c =
      if_both (λ (d : Client I O). d.creds ≡ c.creds) (setup.debug && (c.read_counter == 0)) _ _
        (λ _. creds-fail _) (λ _. creds-fail _)
  creds-after_payload conn (ready (some ctx)) c =
      if_both (λ (d : Client I O). d.creds ≡ c.creds) (setup.debug && (c.read_counter == 0)) _ _
        (λ _. creds-fail _) (λ _. creds-route conn ctx _ c)

  creds-header_came :
      (conn : Connection I O) (r : Future (Option Header)) (c : Client I O)
      → (header_came setup conn r c).creds ≡ c.creds
  unfolding header_came fail_conn
  creds-header_came conn (failed e) c = creds-fail _
  creds-header_came conn (ready none) c = creds-fail _
  creds-header_came conn (ready (some hdr)) c = refl

  creds-go_on :
      (w : Wait) (conn : Option (Connection I O)) (c : Client I O)
      → (go_on setup w conn c).creds ≡ c.creds
  unfolding go_on
  creds-go_on no_read conn c = refl
  creds-go_on for_header none c = refl
  creds-go_on for_header (some conn) c = creds-header_came _ _ c
  creds-go_on (for_payload hdr) none c = refl
  creds-go_on (for_payload hdr) (some conn) c =
      creds-after_payload _ _ (record c { reading = no_read })

  creds-finish_read : (c : Client I O) → (finish_read setup c).creds ≡ c.creds
  unfolding finish_read read_on
  creds-finish_read c =
      let d = read_on setup c in
      if_both (λ (d : Client I O). d.creds ≡ c.creds) c.overdue _ _ (λ _. refl)
        (λ _. creds-go_on d.reading d.conn d ∙ creds-go_on c.reading c.conn c)

  -- A client that is not connected, has credentials and an open gate wraps its first connection by them; a reconnect that
  -- reaches the server succeeds over a connection that is not wrapped.
  pub reconnect_drops_tls :
      (c : Client I O) (i i' : I) (o o' : O)
      → c.creds ≡ true
      → is_conn_valid setup c ≡ false
      → c.gate_closed ≡ false
      → ((connect setup (ready (i, o)) c).0 ≡ ready tt)
        × ((connect setup (ready (i, o)) c).1.tls ≡ true)
        × ((reconnect setup (ready (i', o')) (connect setup (ready (i, o)) c).1).0 ≡ ready tt)
        × ((reconnect setup (ready (i', o')) (connect setup (ready (i, o)) c).1).1.tls ≡ false)
  unfolding connect reconnect stop is_conn_valid
  reconnect_drops_tls c i i' o o' creds down gate =
      let c1 = (connect setup (ready (i, o)) c).1 in
      let c2 = stop setup (fail_outstanding_futures setup c1) in
      ground (
        arith,
        creds-fail c1,
        creds-fail (fail_outstanding_futures setup c1),
        creds-drain c2.writes c2,
        creds-finish_read (drain setup c2.writes c2),
      )
