-- ===== src/Reconnect.antt =====
-- src/include/smf/reconnect_client.h: a client that is connected again in the background.
pub mod Delays
use smurf.Prelude.{ℕ, ◌+◌, Bool, true, Option, none, some, List, [], ◌∷◌, leb, if◌then◌else◌}
use smurf.Future.{Future, ready, failed}
use smurf.Client.State.{Setup, Client, is_conn_valid}
use smurf.Client.Calls.{reconnect, stop}

-- The values of reconnect_backoff, in seconds; `none` is 0 and `max` is 1800.
abbrev pub clamp_table : List ℕ
clamp_table = 0 ∷ 1 ∷ 3 ∷ 5 ∷ 10 ∷ 20 ∷ 30 ∷ 60 ∷ 300 ∷ 600 ∷ 1800 ∷ []

-- The first value of the table that is not under `b`, or wait_1800_sec
unfoldable pub clamp : ℕ → List ℕ → ℕ
clamp b [] = 1800
clamp b (x ∷ xs) = let rest = clamp b xs in if leb b x then x else rest

-- operator++
unfoldable pub next_backoff : ℕ → ℕ
unfolding clamp
next_backoff b = clamp (b + 1) clamp_table

pub record ReconnectClient (I O : Type 0) : Type 0 where
  pub client : Client I O
  pub bo : ℕ
  pub gate_closed : Bool

module _ {I O : Type 0} where
  -- The continuations of client_->reconnect(): what is waited for before the next attempt, in
  -- seconds and less the jitter of under 100 ms, and the state then.
  after_reconnect :
      ReconnectClient I O → Future (Unit {0}) → Client I O → Option ℕ × ReconnectClient I O
  after_reconnect r (ready _) c = (none, record r { client = c; bo = 0 })
  after_reconnect r (failed e) c =
      (some (next_backoff r.bo), record r { client = c; bo = next_backoff r.bo })

  -- connect(), over what the network gives; `none` where no attempt follows.
  unfoldable pub attempt :
      Setup I O → Future (I × O) → ReconnectClient I O → Option ℕ × ReconnectClient I O
  unfolding after_reconnect
  attempt setup socket r =
      let (result, c) = reconnect setup socket r.client in
      if is_conn_valid setup r.client
      then (none, r)
      else if r.gate_closed
      then (none, r)
      else after_reconnect r result c

  -- stop()
  unfoldable pub close : Setup I O → ReconnectClient I O → ReconnectClient I O
  close setup r = record r { gate_closed = true; client = stop setup r.client }
