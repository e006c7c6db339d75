-- ===== src/Reconnect/Delays.antt =====
-- The delays of a client that cannot reach its server.
use smurf.Prelude.{ℕ, zero, suc, ◌≡◌, ◌∙◌, refl, sym, ap, subst, false, some, List, [], ◌∷◌}
use smurf.Future.{Error, failed}
use smurf.Client.State.{Setup, Client, is_conn_valid}
use smurf.Client.Calls.{reconnect, connect}
use smurf.Reconnect.{ReconnectClient, next_backoff, attempt}

-- The delays of the first attempts, in seconds
abbrev pub first_delays : List ℕ
first_delays = 1 ∷ 3 ∷ 5 ∷ 10 ∷ 20 ∷ 30 ∷ 60 ∷ 300 ∷ 600 ∷ []

-- The delay after so many failures before it: half an hour once the first delays are over
abbrev pub delay_after : ℕ → List ℕ → ℕ
delay_after n [] = 1800
delay_after zero (d ∷ ds) = d
delay_after (suc n) (d ∷ ds) = delay_after n ds

-- The back-off after so many failures
abbrev backoff : ℕ → ℕ
backoff zero = 0
backoff (suc n) = next_backoff (backoff n)

at_max : (n : ℕ) → backoff (suc (suc (suc (suc (suc (suc (suc (suc (suc (suc n)))))))))) ≡ 1800
unfolding next_backoff
at_max zero = refl
at_max (suc n) = ap next_backoff (at_max n)

next-backoff : (n : ℕ) → next_backoff (backoff n) ≡ delay_after n first_delays
unfolding next_backoff
next-backoff zero = refl
next-backoff (suc zero) = refl
next-backoff (suc (suc zero)) = refl
next-backoff (suc (suc (suc zero))) = refl
next-backoff (suc (suc (suc (suc zero)))) = refl
next-backoff (suc (suc (suc (suc (suc zero))))) = refl
next-backoff (suc (suc (suc (suc (suc (suc zero)))))) = refl
next-backoff (suc (suc (suc (suc (suc (suc (suc zero))))))) = refl
next-backoff (suc (suc (suc (suc (suc (suc (suc (suc zero)))))))) = refl
next-backoff (suc (suc (suc (suc (suc (suc (suc (suc (suc n))))))))) = at_max n

module _ {I O : Type 0} (setup : Setup I O) (e : Error) where
  -- So many attempts that find no server
  unfoldable pub fails : ℕ → ReconnectClient I O → ReconnectClient I O
  fails zero r = r
  fails (suc n) r = (attempt setup (failed e) (fails n r)).1

  -- A client that is not connected, with the back-off of so many failures
  record Failing (n : ℕ) (r : ReconnectClient I O) : Type 0 where
    down : is_conn_valid setup r.client ≡ false
    open_gate : r.gate_closed ≡ false
    not_stopped : r.client.gate_closed ≡ false
    level : r.bo ≡ backoff n

  result-reconnect :
      (c : Client I O) → c.gate_closed ≡ false → (reconnect setup (failed e) c).0 ≡ failed e
  unfolding reconnect connect is_conn_valid
  result-reconnect c gate = rw (gate, reconnect) refl

  down-reconnect :
      (c : Client I O)
      → c.gate_closed ≡ false
      → (is_conn_valid setup (reconnect setup (failed e) c).1 ≡ false)
        × ((reconnect setup (failed e) c).1.gate_closed ≡ false)
  unfolding reconnect connect is_conn_valid
  down-reconnect c gate = rw (gate, reconnect) (refl, refl)

  attempt-eq :
      (r : ReconnectClient I O)
      → is_conn_valid setup r.client ≡ false
      → r.gate_closed ≡ false
      → r.client.gate_closed ≡ false
      → attempt setup (failed e) r ≡ (
        some (next_backoff r.bo),
        record r { client = (reconnect setup (failed e) r.client).1; bo = next_backoff r.bo },
      )
  unfolding attempt
  attempt-eq r down gate up = rw (down, gate, result-reconnect r.client up) refl

  attempt-Failing :
      (n : ℕ) (r : ReconnectClient I O)
      → Failing n r
      → ((attempt setup (failed e) r).0 ≡ some (next_backoff (backoff n)))
        × Failing (suc n) (attempt setup (failed e) r).1
  attempt-Failing n r f = (
    ap (λ x. x.0) (attempt-eq r f.down f.open_gate f.not_stopped)
        ∙ ap (λ b. some (next_backoff b)) f.level,
    subst (Failing (suc n)) (sym (ap (λ x. x.1) (attempt-eq r f.down f.open_gate f.not_stopped)))
        (record {
          down = (down-reconnect r.client f.not_stopped).0;
          open_gate = f.open_gate;
          not_stopped = (down-reconnect r.client f.not_stopped).1;
          level = ap next_backoff f.level;
        }),
  )

  fails-Failing : (n : ℕ) (r : ReconnectClient I O) → Failing 0 r → Failing n (fails n r)
  unfolding fails
  fails-Failing zero r f = f
  fails-Failing (suc n) r f = (attempt-Failing n (fails n r) (fails-Failing n r f)).1

module _ {I O : Type 0} (setup : Setup I O) (e : Error) where
  -- A client that is not connected and not stopped, and has no back-off yet, waits after each failure
  -- in a row: 1, 3, 5, 10, 20, 30, 60, 300 and 600 seconds after the first nine, and 1800 seconds
  -- after every other.
  pub delays_grow :
      (n : ℕ) (r : ReconnectClient I O)
      → is_conn_valid setup r.client ≡ false
      → r.gate_closed ≡ false
      → r.client.gate_closed ≡ false
      → r.bo ≡ 0
      → (attempt setup (failed e) (fails setup e n r)).0 ≡ some (delay_after n first_delays)
  delays_grow n r down gate up fresh =
      (attempt-Failing setup e n (fails setup e n r) (
        fails-Failing setup e n r
          (record { down = down; open_gate = gate; not_stopped = up; level = fresh }))).0
      ∙ ap some (next-backoff n)
