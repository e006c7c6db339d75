-- ===== src/Client/Calls/Late.antt =====
-- A read of src/core/rpc_client.cc that goes on after its connection was replaced.
use smurf.Prelude.{ℕ, ◌≡◌, ap, ◌∙◌, Bool, false, none, some, [], arith, get_elem?}
use smurf.Future.{ready}
use smurf.Rpc.Connection.{Connection, is_valid, disable}
use smurf.Rpc.Recv.{parse_header}
use smurf.Client.State.{
  Setup, WorkItem, for_header, Orphan, Client, is_conn_valid, disable_conn,
  fail_outstanding_futures,
}
use smurf.Client.Slots.{settle}
use smurf.Client.Linked.{IsLinked, fail_outstanding_exactly}
use smurf.Client.Calls.{late_read, late_wait, late_header, put_orphan, read_late, step, reads_late}

module _ {I O : Type 0} (setup : Setup I O) where
  down-fail_outstanding :
      (c : Client I O) → is_conn_valid setup (fail_outstanding_futures setup c) ≡ false
  unfolding fail_outstanding_futures is_conn_valid is_valid disable disable_conn
  down-fail_outstanding c = ground arith

  -- In a client whose slots are linked to its calls, a read that goes on on a connection that was
  -- replaced, and whose stream gives no whole header, ends every outstanding call, those on the new
  -- connection, with the exception of a lost connection, leaves the calls that have a result with it,
  -- empties the slots and leaves the client without a valid connection.
  pub stale_read_ends_calls :
      (c : Client I O) (j t : ℕ) (conn : Connection I O) (overdue : Bool) (w : WorkItem)
      → IsLinked c
      → get_elem? c.orphans j
        ≡ some (record { conn = some conn; wait = for_header; overdue = overdue })
      → (parse_header setup.input setup.debug conn).0 ≡ ready none
      → get_elem? c.works t ≡ some w
      → ((step setup c (reads_late j)).rpc_slots ≡ [])
        × (get_elem? (step setup c (reads_late j)).works t
            ≡ some (record { session = w.session; pr = settle w.pr }))
        × (is_conn_valid setup (step setup c (reads_late j)) ≡ false)
  unfolding step read_late late_read late_wait late_header
  stale_read_ends_calls c j t conn overdue w l waiting broken at =
      let (r, conn') = parse_header setup.input setup.debug conn in
      let o : Orphan I O = record { conn = some conn; wait = for_header; overdue = overdue } in
      let c' = put_orphan j o conn' c in
      let same : step setup c (reads_late j) ≡ fail_outstanding_futures setup c' =
        ap (λ x. late_read setup j x c) waiting
        ∙ ap (λ x. late_header setup j (record o { conn = some conn' }) x c') broken in
      let (slots, works) =
        fail_outstanding_exactly setup c' t w (record { owned = l.owned; found = l.found }) at in
      rw same (slots, works, down-fail_outstanding c')
