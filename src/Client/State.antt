-- ===== src/Client/State.antt =====
-- The state of src/include/smf/rpc_client.h, and what ends every outstanding call.
use smurf.Prelude.{
  ℕ, Bool, false, Option, none, some, List, [], ◌∷◌, Bytes, ◌==◌, get_elem?, set, if◌then◌else◌,
}
use smurf.Future.{Future, failed, remote_connection_error, broken_promise}
use smurf.Rpc.Header.{Header}
use smurf.Rpc.Io.{InputStream, OutputStream}
use smurf.Rpc.Letter.{Letter}
use smurf.Rpc.Connection.{Connection, disable, is_valid}
use smurf.Rpc.Recv.{RecvContext}

-- The streams and the hash of the libraries, the build, and the filters that were pushed.
pub record Setup (I O : Type 0) : Type 0 where
  pub input : InputStream I
  pub output : OutputStream O
  pub xxh64 : Bytes → ℕ
  pub debug : Bool
  pub in_filters : List (RecvContext → Future RecvContext)
  pub out_filters : List (Letter → Future Letter)

-- The promise of a work_item.
pub data Promise : Type 0 where
  pending : Promise
  resolved : Future (Option RecvContext) → Promise

-- rpc_client::work_item
pub record WorkItem : Type 0 where
  pub session : ℕ
  pub pr : Promise

-- The promise of a work item that is inserted where there is such a slot already, or none. The map
-- does not take one whose slot is there: then the call alone owns it, and it is destroyed once the
-- outgoing filters have gone on.
abbrev pub promise_of : Option ℕ → Promise
promise_of none = pending
promise_of (some t) = resolved (failed broken_promise)

-- What a read waits for
pub data Wait : Type 0 where
  no_read : Wait
  for_header : Wait
  for_payload : Header → Wait

-- A connection that was replaced, with the read that goes on on it
pub record Orphan (I O : Type 0) : Type 0 where
  pub conn : Option (Connection I O)
  pub wait : Wait
  pub overdue : Bool

-- `works` are the promises of the work items that were made, at the positions by which rpc_slots_
-- points to them, with what their futures got, also once the work items are gone;
-- `writes` are the letters of dispatch_write that are not written yet. `creds` says whether creds_
-- holds credentials, `tls` whether the connection is wrapped by them. `reading` is what
-- process_one_request waits for on `conn`, `overdue` says whether with_timeout gave it up, and
-- `orphans` are the connections that others took the place of.
pub record Client (I O : Type 0) : Type 0 where
  pub conn : Option (Connection I O)
  pub rpc_slots : List (ℕ × ℕ)
  pub works : List WorkItem
  pub writes : List Letter
  pub read_counter : ℕ
  pub session_idx : ℕ
  pub gate_closed : Bool
  pub creds : Bool
  pub tls : Bool
  pub reading : Wait
  pub overdue : Bool
  pub orphans : List (Orphan I O)

-- std::unordered_map<uint16_t, …>: find, insert, which keeps an entry that is there, and erase.
unfoldable pub find : ℕ → List (ℕ × ℕ) → Option ℕ
find k [] = none
find k ((j, t) ∷ m) = if j == k then some t else find k m

unfoldable pub insert : ℕ → ℕ → List (ℕ × ℕ) → List (ℕ × ℕ)
insert k t m = elim (find k m) [ none ↦ (k, t) ∷ m | some _ ↦ m ]

unfoldable pub erase : ℕ → List (ℕ × ℕ) → List (ℕ × ℕ)
erase k [] = []
erase k ((j, t) ∷ m) = let rest = erase k m in if j == k then rest else (j, t) ∷ rest

-- pr.set_value and pr.set_exception
unfoldable pub resolve : ℕ → Future (Option RecvContext) → List WorkItem → List WorkItem
resolve t r works = elim (get_elem? works t) [
  | none ↦ works
  | some w ↦ set works t (record w { pr = resolved r })
]

-- The loop of fail_outstanding_futures.
unfoldable pub fail_all : List (ℕ × ℕ) → List WorkItem → List WorkItem
fail_all [] works = works
fail_all ((session, t) ∷ m) works = fail_all m (resolve t (failed remote_connection_error) works)

module _ {I O : Type 0} where
  -- rpc_client(opts)
  abbrev pub new_client : Bool → Client I O
  new_client creds = record {
    conn = none;
    rpc_slots = [];
    works = [];
    writes = [];
    read_counter = 0;
    session_idx = 0;
    gate_closed = false;
    creds = creds;
    tls = false;
    reading = no_read;
    overdue = false;
    orphans = [];
  }

  unfoldable pub is_conn_valid : Setup I O → Client I O → Bool
  is_conn_valid setup c = elim c.conn [ none ↦ false | some conn ↦ is_valid setup.input conn ]

  unfoldable pub disable_conn : Client I O → Client I O
  disable_conn c = elim c.conn [ none ↦ c | some conn ↦ record c { conn = some (disable conn) } ]

  unfoldable pub fail_outstanding_futures : Setup I O → Client I O → Client I O
  unfolding disable_conn
  fail_outstanding_futures setup c =
      let c' = if is_conn_valid setup c then disable_conn c else c in
      record c' { works = fail_all c'.rpc_slots c'.works; rpc_slots = [] }
