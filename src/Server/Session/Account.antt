-- ===== src/Server/Session/Account.antt =====
-- The account of the memory semaphore of src/core/rpc_server.cc, over any schedule.
use smurf.Prelude.{
  ℕ, ◌+◌, ◌^◌, ◌<◌, ◌≡◌, refl, ap, subst, inl, inr, false, Option, none, some, List, [], ◌∷◌, codes,
  arith, get_elem?, length-append, length-set, sum_by-set, get_elem?-set_at, Option-cases, if_both,
}
use smurf.Future.{Future, ready, failed}
use smurf.Rpc.Header.{Header}
use smurf.Rpc.Connection.{Connection, is_valid, set_error}
use smurf.Rpc.Recv.{RecvContext, parse_payload}
use smurf.Server.State.{
  Setup, Phase, idle, waiting, reading, Peer, Server, start, accept, put_peer, destroy_connection,
}
use smurf.Server.State.Units.{
  phase_units, peer_units, held, SameUnits, accept-IsBalanced, AllFit-mono, IsAccounted,
}
use smurf.Server.Dispatch.{with_peer}
use smurf.Server.Dispatch.Requests.{dispatch_rpc-IsAccounted, resume-IsAccounted}
use smurf.Server.Session.{
  Event, accepted, looped, granted, arrived, expired, resumed, destroyed, stopped, fail_loop,
  after_header, loop_idle, loop_phase, grant_phase, after_payload, arrive_phase, expire_phase, step,
  run,
}
use smurf.Server.Session.Units.{Drops, end_loop-Drops, fail_loop-Drops}

abbrev IsRead : Future (Option RecvContext) → Type 0
IsRead (ready m) = Unit {0}
IsRead (failed e) = ⊥

abbrev NotReading : Phase → Type 0
NotReading (reading hdr) = ⊥
NotReading _ = Unit {0}

module _ {I O : Type 0} where
  abbrev ReadsWell : Setup I O → Server I O → Connection I O → Phase → Type 0
  ReadsWell setup s c (reading hdr) =
      (hdr.size < 2 ^ 31)
      × (s.gate_closed ≡ false)
      × IsRead (parse_payload setup.input setup.xxh64 hdr c).0
  ReadsWell setup s c _ = Unit {0}

  abbrev OfPeer : ℕ → (Peer I O → Type 0) → Server I O → Type 0
  OfPeer i P s = elim (get_elem? s.peers i) [ none ↦ Unit {0} | some p ↦ P p ]

  -- No payload that memory was taken for goes missing: its timer does not fire, its read does not
  -- fail, it is under 2 GB and the server is not stopping when it arrives.
  abbrev pub IsOrderly : Setup I O → Server I O → Event I O → Type 0
  IsOrderly setup s (expired i) = OfPeer i (λ p. NotReading p.phase) s
  IsOrderly setup s (arrived i) = OfPeer i (λ p. ReadsWell setup s p.conn p.phase) s
  IsOrderly setup s _ = Unit {0}

  abbrev pub AllOrderly : Setup I O → Server I O → List (Event I O) → Type 0
  AllOrderly setup s [] = Unit {0}
  AllOrderly setup s (e ∷ es) = IsOrderly setup s e × AllOrderly setup (step setup s e) es

  SameUnits-IsAccounted : {s t : Server I O} → SameUnits s t → IsAccounted s → IsAccounted t
  SameUnits-IsAccounted a b = record {
    balance = rw (a.waited, a.signalled, a.requests, a.peers) b.balance;
    fit = rw (a.requests, a.count) b.fit;
  }

  Drops-IsAccounted : {s t : Server I O} → Drops 0 s t → IsAccounted s → IsAccounted t
  Drops-IsAccounted d b = record {
    balance = rw (d.waited, d.signalled, d.requests) (omega (arith, d.peers, b.balance));
    fit = rw (d.requests, d.count) b.fit;
  }

  accept-IsAccounted : (i : I) (o : O) (s : Server I O) → IsAccounted s → IsAccounted (accept i o s)
  unfolding accept
  accept-IsAccounted i o s a = record {
    balance = accept-IsBalanced i o s a.balance;
    fit = AllFit-mono s.requests (omega (arith, length-append s.peers)) a.fit;
  }

  module _ (i : ℕ) (p : Peer I O) (s : Server I O) (at : get_elem? s.peers i ≡ some p) where
    -- A peer is written back with another connection, and in a phase that holds as much.
    put_peer-IsAccounted :
        (q : Peer I O)
        → phase_units q.phase ≡ phase_units p.phase
        → IsAccounted s
        → IsAccounted (put_peer i q s)
    put_peer-IsAccounted q same a = record {
      balance = omega (arith, a.balance, sum_by-set peer_units s.peers i p q at);
      fit = rw (length-set s.peers i q) a.fit;
    }

    fail_loop-IsAccounted :
        (q : Peer I O)
        → phase_units q.phase ≡ 0
        → phase_units p.phase ≡ 0
        → IsAccounted s
        → IsAccounted (fail_loop i (put_peer i q s))
    fail_loop-IsAccounted q nothing before a =
        let d =
          fail_loop-Drops i q.phase (put_peer i q s) (q, get_elem?-set_at s.peers i p q at, refl) in
        Drops-IsAccounted (rw nothing at d) (put_peer-IsAccounted q (omega arith) a)

    after_header-IsAccounted :
        (c : Connection I O) (r : Future (Option Header))
        → p.phase ≡ idle
        → IsAccounted s
        → IsAccounted (after_header i (record p { conn = c }) r s)
    unfolding after_header
    after_header-IsAccounted c (failed e) ph a =
        fail_loop-IsAccounted (record p { conn = c }) (ap phase_units ph) (ap phase_units ph) a
    after_header-IsAccounted c (ready none) ph a =
        put_peer-IsAccounted
          (record p { conn = set_error (codes "Error parsing connection header") c }) refl a
    after_header-IsAccounted c (ready (some hdr)) ph a = record {
      balance = omega (
        arith,
        a.balance,
        sum_by-set peer_units s.peers i p (record p { conn = c; phase = waiting hdr }) at,
        ap phase_units ph,
      );
      fit = rw (length-set s.peers i (record p { conn = c; phase = waiting hdr })) a.fit;
    }

    loop_idle-IsAccounted :
        (setup : Setup I O) → p.phase ≡ idle → IsAccounted s → IsAccounted (loop_idle setup i p s)
    unfolding loop_idle
    loop_idle-IsAccounted setup ph a =
        if_both IsAccounted (is_valid setup.input p.conn) _ _
          (λ _. after_header-IsAccounted _ _ ph a)
          (λ _. Drops-IsAccounted (end_loop-Drops i idle s (p, at, ph)) a)

    after_payload-IsAccounted :
        (setup : Setup I O) (hdr : Header) (c : Connection I O) (r : Future (Option RecvContext))
        → p.phase ≡ reading hdr
        → hdr.size < 2 ^ 31
        → s.gate_closed ≡ false
        → IsRead r
        → IsAccounted s
        → IsAccounted (after_payload setup i hdr (record p { conn = c }) r s)
    unfolding after_payload
    after_payload-IsAccounted setup hdr c (failed e) ph small gate well a = absurd well
    after_payload-IsAccounted setup hdr c (ready m) ph small gate well a =
        let q = record p { conn = c; phase = idle } in
        dispatch_rpc-IsAccounted setup i hdr.size m q (put_peer i q s) small gate
          (get_elem?-set_at s.peers i p q at)
          (omega (arith, a.balance, sum_by-set peer_units s.peers i p q at, ap phase_units ph))
          (rw (length-set s.peers i q) a.fit)

    module _ (setup : Setup I O) where
      loop_phase-IsAccounted :
          (ph : Phase) → p.phase ≡ ph → IsAccounted s → IsAccounted (loop_phase setup i p ph s)
      unfolding loop_phase
      loop_phase-IsAccounted idle e a = loop_idle-IsAccounted setup e a
      loop_phase-IsAccounted _ e a = a

      grant_phase-IsAccounted :
          (ph : Phase) → p.phase ≡ ph → IsAccounted s → IsAccounted (grant_phase setup i p ph s)
      unfolding grant_phase
      grant_phase-IsAccounted (waiting hdr) e a =
          put_peer-IsAccounted (record p { phase = reading hdr }) (ground arith) a
      grant_phase-IsAccounted _ e a = a

      arrive_phase-IsAccounted :
          (ph : Phase)
          → p.phase ≡ ph
          → ReadsWell setup s p.conn ph
          → IsAccounted s
          → IsAccounted (arrive_phase setup i p ph s)
      unfolding arrive_phase
      arrive_phase-IsAccounted (reading hdr) e well a =
          after_payload-IsAccounted setup hdr _ _ e well.0 well.1 well.2 a
      arrive_phase-IsAccounted _ e well a = a

      expire_phase-IsAccounted :
          (ph : Phase) → NotReading ph → IsAccounted s → IsAccounted (expire_phase setup i p ph s)
      unfolding expire_phase
      expire_phase-IsAccounted (reading hdr) well a = absurd well
      expire_phase-IsAccounted _ well a = a

module _ {I O : Type 0} (setup : Setup I O) where
  with_peer-IsAccounted :
      (f : Peer I O → Server I O → Server I O) (i : ℕ) (s : Server I O)
      → IsAccounted s
      → ((p : Peer I O) → get_elem? s.peers i ≡ some p → IsAccounted (f p s))
      → IsAccounted (with_peer i f s)
  with_peer-IsAccounted f i s a keep = elim (Option-cases (get_elem? s.peers i)) [
    | inl missing ↦ rw (missing, with_peer) a
    | inr (p, at) ↦ rw (at, with_peer) (keep p at)
  ]

  -- What is assumed of the peer at a position is assumed of the peer that is found there.
  of_peer :
      (P : Peer I O → Type 0) (i : ℕ) (s : Server I O) (p : Peer I O)
      → get_elem? s.peers i ≡ some p
      → OfPeer i P s
      → P p
  of_peer P i s p at well = subst (λ o. elim o [ none ↦ Unit {0} | some q ↦ P q ]) at well

  step-IsAccounted :
      (s : Server I O) (e : Event I O)
      → IsOrderly setup s e
      → IsAccounted s
      → IsAccounted (step setup s e)
  unfolding step destroy_connection
  step-IsAccounted s (accepted i o) well a = accept-IsAccounted i o s a
  step-IsAccounted s (looped i) well a =
      with_peer-IsAccounted (λ p. loop_phase setup i p p.phase) i s a
        λ p at. loop_phase-IsAccounted i p s at setup p.phase refl a
  step-IsAccounted s (granted i) well a =
      with_peer-IsAccounted (λ p. grant_phase setup i p p.phase) i s a
        λ p at. grant_phase-IsAccounted i p s at setup p.phase refl a
  step-IsAccounted s (arrived i) well a =
      with_peer-IsAccounted (λ p. arrive_phase setup i p p.phase) i s a
        λ p at.
          arrive_phase-IsAccounted i p s at setup p.phase refl
            (of_peer (λ q. ReadsWell setup s q.conn q.phase) i s p at well) a
  step-IsAccounted s (expired i) well a =
      with_peer-IsAccounted (λ p. expire_phase setup i p p.phase) i s a
        λ p at.
          expire_phase-IsAccounted i p s at setup p.phase
            (of_peer (λ q. NotReading q.phase) i s p at well) a
  step-IsAccounted s (resumed r) well a = resume-IsAccounted setup r s a
  step-IsAccounted s destroyed well a = record { balance = a.balance; fit = a.fit }
  step-IsAccounted s stopped well a = record { balance = a.balance; fit = a.fit }

  run-IsAccounted :
      (s : Server I O) (es : List (Event I O))
      → AllOrderly setup s es
      → IsAccounted s
      → IsAccounted (run setup s es)
  unfolding run
  run-IsAccounted s [] well a = a
  run-IsAccounted s (e ∷ es) well a =
      run-IsAccounted (step setup s e) es well.1 (step-IsAccounted s e well.0 a)

  -- From the start and over any schedule of connections, reads, grants, requests and replies, what
  -- was asked of the memory semaphore is what was given back and what the fibers that wait for a
  -- payload, read one or serve a request still hold. The schedule is orderly: no timer fires while a
  -- payload is read, and when one arrives its read does not fail, it is under 2 GB and the gate of
  -- the server is open.
  pub run-IsBalanced :
      (es : List (Event I O))
      → AllOrderly setup start es
      → (run setup start es).signalled + held (run setup start es) ≡ (run setup start es).waited
  run-IsBalanced es well =
      (run-IsAccounted start es well (record { balance = refl; fit = tt })).balance
