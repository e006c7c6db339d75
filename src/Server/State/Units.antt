-- ===== src/Server/State/Units.antt =====
-- The units of memory that the fibers of the server hold, and what the operations of the state do
-- to the account of the semaphore limits_->resources_available of src/core/rpc_server.cc.
use smurf.Prelude.{
  ℕ, ◌+◌, ◌≡◌, refl, ◌∙◌, inl, inr, some, List, [], ◌∷◌, Bytes, arith, get_elem?, set, sum_by,
  sum_by-set, sum_by-append, length, length-set, zero, suc, ◌<◌, ◌≤◌, ◌^◌, ◌++◌, Bool-cases,
}
use smurf.Rpc.Connection.{has_error, disable, open_connection}
use smurf.Server.State.{
  Phase, idle, waiting, reading, closed, Peer, Stage, handling, replying, finished, Request, Server,
  accept, put_peer, close_peer, complete, cleanup_dispatch_rpc, fail_peer, contains, plus,
}

-- The units that a fiber has asked for and not given back.
abbrev pub phase_units : Phase → ℕ
phase_units idle = 0
phase_units (waiting hdr) = hdr.size
phase_units (reading hdr) = hdr.size
phase_units closed = 0

abbrev pub stage_units : Stage → ℕ → ℕ
stage_units (handling handle ctx) n = n
stage_units (replying e) n = n
stage_units finished n = 0

abbrev pub peer_units : {I O : Type 0} → Peer I O → ℕ
peer_units p = phase_units p.phase

abbrev pub request_units : Request → ℕ
request_units q = stage_units q.stage q.payload_size

module _ {I O : Type 0} where
  abbrev pub held : Server I O → ℕ
  held s = sum_by peer_units s.peers + sum_by request_units s.requests

  -- What was asked for is what was given back and what fibers hold.
  abbrev pub IsBalanced : Server I O → Type 0
  IsBalanced s = s.signalled + held s ≡ s.waited

  -- `t` has the account of `s`, and the same requests and phases.
  pub record SameUnits (s t : Server I O) : Type 0 where
    pub waited : t.waited ≡ s.waited
    pub signalled : t.signalled ≡ s.signalled
    pub requests : t.requests ≡ s.requests
    pub peers : sum_by peer_units t.peers ≡ sum_by peer_units s.peers
    pub count : length t.peers ≡ length s.peers

  pub SameUnits-refl : (s : Server I O) → SameUnits s s
  SameUnits-refl s = record {
    waited = refl;
    signalled = refl;
    requests = refl;
    peers = refl;
    count = refl;
  }

  pub SameUnits-trans : {s t u : Server I O} → SameUnits s t → SameUnits t u → SameUnits s u
  SameUnits-trans a b = record {
    waited = b.waited ∙ a.waited;
    signalled = b.signalled ∙ a.signalled;
    requests = b.requests ∙ a.requests;
    peers = b.peers ∙ a.peers;
    count = b.count ∙ a.count;
  }

  pub SameUnits-IsBalanced : {s t : Server I O} → SameUnits s t → IsBalanced s → IsBalanced t
  SameUnits-IsBalanced a b = rw (a.waited, a.signalled, a.requests, a.peers) b

  -- Writing a peer back with its phase.
  pub put_peer-SameUnits :
      (i : ℕ) (p q : Peer I O) (s : Server I O)
      → get_elem? s.peers i ≡ some p
      → q.phase ≡ p.phase
      → SameUnits s (put_peer i q s)
  put_peer-SameUnits i p q s at same = record {
    waited = refl;
    signalled = refl;
    requests = refl;
    peers = ground (arith, sum_by-set peer_units s.peers i p q at);
    count = length-set s.peers i q;
  }

  pub fail_peer-SameUnits :
      (i : ℕ) (e : Bytes) (p : Peer I O) (s : Server I O)
      → get_elem? s.peers i ≡ some p
      → SameUnits s (fail_peer i e p s)
  unfolding fail_peer
  fail_peer-SameUnits i e p s at = put_peer-SameUnits i p _ s at refl

  close_peer-SameUnits :
      (i : ℕ) (p : Peer I O) (s : Server I O)
      → get_elem? s.peers i ≡ some p
      → SameUnits s (close_peer i p s)
  unfolding close_peer
  close_peer-SameUnits i p s at = record {
    waited = refl;
    signalled = refl;
    requests = refl;
    peers =
        ground (arith, sum_by-set peer_units s.peers i p (record p { conn = disable p.conn }) at);
    count = length-set s.peers i (record p { conn = disable p.conn });
  }

  pub cleanup-SameUnits :
      (i : ℕ) (p : Peer I O) (s : Server I O)
      → get_elem? s.peers i ≡ some p
      → SameUnits s (cleanup_dispatch_rpc i p s)
  unfolding cleanup_dispatch_rpc complete
  cleanup-SameUnits i p s at = elim (Bool-cases (has_error p.conn)) [
    | inl bad ↦ elim (Bool-cases (contains p.id s.open_connections)) [
      | inl found ↦ rw (bad, found) (close_peer-SameUnits i p s at)
      | inr gone ↦ rw (bad, gone) (SameUnits-refl s)
    ]
    | inr good ↦
        rw good
          (record { waited = refl; signalled = refl; requests = refl; peers = refl; count = refl })
  ]

  pub accept-IsBalanced :
      (i : I) (o : O) (s : Server I O) → IsBalanced s → IsBalanced (accept i o s)
  unfolding accept
  accept-IsBalanced i o s b = omega (
    arith,
    sum_by-append peer_units s.peers
        (record { id = plus s.connection_idx 1; conn = open_connection i o; phase = idle } ∷ []),
  )

-- Every request refers to one of `n` peers, and its payload is under 2 GB.
abbrev pub AllFit : ℕ → List Request → Type 0
AllFit n [] = Unit {0}
AllFit n (q ∷ qs) = ((q.peer < n) × (q.payload_size < 2 ^ 31)) × AllFit n qs

pub AllFit-mono : {m n : ℕ} (qs : List Request) → m ≤ n → AllFit m qs → AllFit n qs
AllFit-mono [] h a = tt
AllFit-mono {m} {n} (q ∷ qs) h a = ((omega arith, a.0.1), AllFit-mono qs h a.1)

pub AllFit-append : (n : ℕ) (qs rs : List Request) → AllFit n qs → AllFit n rs → AllFit n (qs ++ rs)
AllFit-append n [] rs a b = b
AllFit-append n (q ∷ qs) rs a b = (a.0, AllFit-append n qs rs a.1 b)

pub AllFit-get :
    (n : ℕ) (qs : List Request) (r : ℕ) (q : Request)
    → AllFit n qs
    → get_elem? qs r ≡ some q
    → (q.peer < n) × (q.payload_size < 2 ^ 31)
AllFit-get n [] r q a h = cc
AllFit-get n (x ∷ qs) zero q a h = ground arith
AllFit-get n (x ∷ qs) (suc r) q a h = AllFit-get n qs r q a.1 h

pub AllFit-set :
    (n : ℕ) (qs : List Request) (r : ℕ) (q : Request)
    → AllFit n qs
    → (q.peer < n) × (q.payload_size < 2 ^ 31)
    → AllFit n (set qs r q)
AllFit-set n [] r q a h = tt
AllFit-set n (x ∷ qs) zero q a h = (h, a.1)
AllFit-set n (x ∷ qs) (suc r) q a h = (a.0, AllFit-set n qs r q a.1 h)

-- The account of the server is in balance, and its requests can be finished.
pub record IsAccounted {I O : Type 0} (s : Server I O) : Type 0 where
  pub balance : IsBalanced s
  pub fit : AllFit (length s.peers) s.requests
