-- ===== src/Server/State/Counters.antt =====
-- How often cleanup_dispatch_rpc of src/core/rpc_server.cc counts a connection, and the counter of
-- active connections once ~rpc_server_connection has run.
use smurf.Prelude.{
  ℕ, ◌-◌, ◌^◌, ◌≡◌, ◌∙◌, refl, sym, ap, inl, inr, true, false, List, [], ◌∷◌, arith, Bool-cases,
}
use smurf.Rpc.Connection.{has_error, disable}
use smurf.Server.State.{
  Peer, Server, contains, erase, close_peer, cleanup_dispatch_rpc, destroy_connection,
}

contains-erase : (id : ℕ) (ids : List ℕ) → contains id (erase id ids) ≡ false
unfolding contains erase
contains-erase id [] = refl
contains-erase id (j ∷ ids) = ground (arith, contains-erase id ids)

module _ {I O : Type 0} where
  module _ (i : ℕ) (p : Peer I O) (s : Server I O) where
    cleanup_open :
        has_error p.conn ≡ true
        → contains p.id s.open_connections ≡ true
        → cleanup_dispatch_rpc i p s ≡ close_peer i p s
    unfolding cleanup_dispatch_rpc
    cleanup_open bad found = rw (bad, found) refl

    cleanup_gone :
        has_error p.conn ≡ true
        → contains p.id s.open_connections ≡ false
        → cleanup_dispatch_rpc i p s ≡ s
    unfolding cleanup_dispatch_rpc
    cleanup_gone bad gone = rw (bad, gone) refl

    closed_is_gone : contains p.id (close_peer i p s).open_connections ≡ false
    unfolding close_peer
    closed_is_gone = contains-erase p.id s.open_connections

  -- A connection with an error that is cleaned up, and cleaned up again once it is disabled, is as
  -- after the first time, and so are the counters and the rest of the server.
  pub cleanup_once :
      (i : ℕ) (p : Peer I O) (s : Server I O)
      → has_error p.conn ≡ true
      → cleanup_dispatch_rpc i (record p { conn = disable p.conn }) (cleanup_dispatch_rpc i p s)
        ≡ cleanup_dispatch_rpc i p s
  unfolding disable has_error
  cleanup_once i p s bad = elim (Bool-cases (contains p.id s.open_connections)) [
    | inl found ↦
        ap (cleanup_dispatch_rpc i (record p { conn = disable p.conn }))
          (cleanup_open i p s bad found)
        ∙ cleanup_gone i (record p { conn = disable p.conn }) (close_peer i p s) bad
            (closed_is_gone i p s)
        ∙ sym (cleanup_open i p s bad found)
    | inr gone ↦
        ap (cleanup_dispatch_rpc i (record p { conn = disable p.conn }))
          (cleanup_gone i p s bad gone)
        ∙ cleanup_gone i (record p { conn = disable p.conn }) s bad gone
        ∙ sym (cleanup_gone i p s bad gone)
  ]

  -- When one connection is active, and it has an error and is open, its clean-up and its destructor
  -- both count it off: the counter goes round to 2^64 - 1.
  pub active_connections_wrap :
      (i : ℕ) (p : Peer I O) (s : Server I O)
      → has_error p.conn ≡ true
      → contains p.id s.open_connections ≡ true
      → s.stats.active_connections ≡ 1
      → (destroy_connection (cleanup_dispatch_rpc i p s)).stats.active_connections ≡ 2 ^ 64 - 1
  unfolding cleanup_dispatch_rpc close_peer destroy_connection
  active_connections_wrap i p s bad open_one one = rw (bad, open_one, one) refl
