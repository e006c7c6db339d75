-- ===== src/Server/Session/Units.antt =====
-- What the loop of a connection does to the account of the semaphore.
use smurf.Prelude.{
  ℕ, ◌+◌, ◌≡◌, refl, ◌∙◌, some, Bytes, codes, arith, get_elem?, length, length-set, sum_by,
  sum_by-set, get_elem?-set_at, if_both,
}
use smurf.Rpc.Connection.{has_error}
use smurf.Server.State.{
  Phase, closed, Peer, Server, cleanup_dispatch_rpc, close_peer, complete, contains, fail_peer,
}
use smurf.Server.State.Units.{
  phase_units, peer_units, SameUnits, SameUnits-trans, put_peer-SameUnits, cleanup-SameUnits,
}
use smurf.Server.Dispatch.{with_peer}
use smurf.Server.Session.{close_phase, end_loop, fail_loop}

-- `t` is `s` but for `n` units that a phase held and no fiber holds any more.
pub record Drops {I O : Type 0} (n : ℕ) (s t : Server I O) : Type 0 where
  pub waited : t.waited ≡ s.waited
  pub signalled : t.signalled ≡ s.signalled
  pub requests : t.requests ≡ s.requests
  pub peers : sum_by peer_units t.peers + n ≡ sum_by peer_units s.peers
  pub count : length t.peers ≡ length s.peers

module _ {I O : Type 0} (i : ℕ) where
  -- There is a peer at the position, in that phase.
  abbrev pub PeerIn : Phase → Server I O → Type 0
  PeerIn ph s = (p : Peer I O) × (get_elem? s.peers i ≡ some p) × (p.phase ≡ ph)

  -- What `f` makes of the peer at the position keeps the account and the phase.
  abbrev KeepsPhase : (Server I O → Server I O) → Type 0
  KeepsPhase f = (ph : Phase) (s : Server I O) → PeerIn ph s → SameUnits s (f s) × PeerIn ph (f s)

  cleanup-PeerIn :
      (p : Peer I O) (s : Server I O)
      → get_elem? s.peers i ≡ some p
      → PeerIn p.phase (cleanup_dispatch_rpc i p s)
  unfolding cleanup_dispatch_rpc close_peer complete
  cleanup-PeerIn p s at =
      if_both (PeerIn p.phase) (has_error p.conn) _ _
        (λ _.
          if_both (PeerIn p.phase) (contains p.id s.open_connections) _ _
            (λ _. (_, get_elem?-set_at s.peers i p _ at, refl)) (λ _. (p, at, refl)))
        (λ _. (p, at, refl))

  with_cleanup-KeepsPhase : KeepsPhase (with_peer i (cleanup_dispatch_rpc i))
  with_cleanup-KeepsPhase ph s (p, at, e) =
      rw (at, with_peer, ← e) (cleanup-SameUnits i p s at, cleanup-PeerIn p s at)

  with_fail-KeepsPhase : (msg : Bytes) → KeepsPhase (with_peer i (fail_peer i msg))
  unfolding fail_peer
  with_fail-KeepsPhase msg ph s (p, at, e) =
      rw (at, with_peer)
        (put_peer-SameUnits i p _ s at refl, (_, get_elem?-set_at s.peers i p _ at, e))

  close_phase-Drops :
      (ph : Phase) (s : Server I O) → PeerIn ph s → Drops (phase_units ph) s (close_phase i s)
  unfolding close_phase
  close_phase-Drops ph s (p, at, e) =
      let q = record p { phase = closed } in
      rw (at, with_peer)
        (record {
          waited = refl;
          signalled = refl;
          requests = refl;
          peers = rw (← e) (omega (arith, sum_by-set peer_units s.peers i p q at));
          count = length-set s.peers i q;
        })

  Drops-after : (n : ℕ) {s t u : Server I O} → SameUnits s t → Drops n t u → Drops n s u
  Drops-after n a d = record {
    waited = d.waited ∙ a.waited;
    signalled = d.signalled ∙ a.signalled;
    requests = d.requests ∙ a.requests;
    peers = d.peers ∙ a.peers;
    count = d.count ∙ a.count;
  }

  pub end_loop-Drops :
      (ph : Phase) (s : Server I O) → PeerIn ph s → Drops (phase_units ph) s (end_loop i s)
  unfolding end_loop
  end_loop-Drops ph s there =
      let (a, there') = with_cleanup-KeepsPhase ph s there in
      Drops-after (phase_units ph) a (close_phase-Drops ph _ there')

  -- A loop that ends by an exception does not give back what its phase held.
  pub fail_loop-Drops :
      (ph : Phase) (s : Server I O) → PeerIn ph s → Drops (phase_units ph) s (fail_loop i s)
  unfolding fail_loop
  fail_loop-Drops ph s there =
      let (a, there1) = with_cleanup-KeepsPhase ph s there in
      let (b, there2) =
        with_fail-KeepsPhase (codes "handling client session exception") ph _ there1 in
      let (c, there3) = with_cleanup-KeepsPhase ph _ there2 in
      Drops-after (phase_units ph) (SameUnits-trans a (SameUnits-trans b c))
        (close_phase-Drops ph _ there3)
