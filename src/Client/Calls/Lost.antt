-- ===== src/Client/Calls/Lost.antt =====
-- A session is a uint16_t: what happens in src/core/rpc_client.cc to a call whose session is still
-- in use, in a build without the check of DLOG_THROW_IF.
use smurf.Prelude.{ℕ, ◌≡◌, some, List, get_elem?}
use smurf.Rpc.Letter.{Letter}
use smurf.Client.State.{WorkItem, Client}
use smurf.Client.Slots.{Unslotted}

-- The work item at the position `t` is `w`, and no slot points to it.
pub record Unreached (t : ℕ) (w : WorkItem) (slots : List (ℕ × ℕ)) (works : List WorkItem)
    : Type 0 where
  pub item : get_elem? works t ≡ some w
  pub unslotted : Unslotted t slots
