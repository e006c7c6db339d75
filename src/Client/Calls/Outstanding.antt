-- ===== src/Client/Calls/Outstanding.antt =====
-- Every operation of src/core/rpc_client.cc keeps the slots linked to the outstanding calls, as
-- long as no session is given out that is still in use.
use smurf.Prelude.{ℕ, ◌≡◌, sym, subst, Bool, none, some, List, [], ◌∷◌, ◌++◌, length}
use smurf.Future.{ready}
use smurf.Rpc.Recv.{session}
use smurf.Client.State.{Setup, pending, promise_of, WorkItem, Client, new_client, find, insert}
use smurf.Client.Linked.{Linked, IsLinked, Linked-fail_all, Linked-insert, Linked-resolve}
use smurf.Client.Calls.{
  next_session, Event, sends, writes, reads, starts_read, reads_on, reads_late, times_out, stops,
  connects, reconnects, step, run,
}
use smurf.Client.Calls.Kept.{IsKept, step_keeps}

-- The work item of a session that is free has a promise that waits.
pub free_added :
    (P : List (ℕ × ℕ) → List WorkItem → Type 0) (slots : List (ℕ × ℕ)) (works : List WorkItem)
    (k : ℕ)
    → find k slots ≡ none
    → P (insert k (length works) slots) (works ++ (record { session = k; pr = pending } ∷ []))
    → P
        (insert k (length works) slots)
        (works ++ (record { session = k; pr = promise_of (find k slots) } ∷ []))
free_added P slots works k free p =
    subst
      (λ o.
        P (insert k (length works) slots)
          (works ++ (record { session = k; pr = promise_of o } ∷ [])))
      (sym free) p

pub Linked-kept : IsKept Linked (λ k slots. find k slots ≡ none)
Linked-kept = record {
  ended = Linked-fail_all;
  added = λ slots works k free l.
      free_added Linked slots works k free (Linked-insert slots works k free l);
  answered = λ slots works ctx t. Linked-resolve slots works (session ctx) t (ready (some ctx));
}

module _ {I O : Type 0} (setup : Setup I O) where
  -- What a schedule must not do: make a call when its session is in use.
  abbrev pub NoReuse : Client I O → Event I O → Type 0
  NoReuse c (sends e) = find (next_session c) c.rpc_slots ≡ none
  NoReuse c _ = Unit {0}

  abbrev pub AllNoReuse : Client I O → List (Event I O) → Type 0
  AllNoReuse c [] = Unit {0}
  AllNoReuse c (e ∷ es) = NoReuse c e × AllNoReuse (step setup c e) es

  module _ {P : List (ℕ × ℕ) → List WorkItem → Type 0}
      (kept : IsKept P (λ k slots. find k slots ≡ none)) where
    reuse_step :
        (c : Client I O) (e : Event I O)
        → NoReuse c e
        → P c.rpc_slots c.works
        → P (step setup c e).rpc_slots (step setup c e).works
    reuse_step c (sends e) ok l = step_keeps kept setup c (sends e) ok l
    reuse_step c writes ok l = step_keeps kept setup c writes tt l
    reuse_step c reads ok l = step_keeps kept setup c reads tt l
    reuse_step c starts_read ok l = step_keeps kept setup c starts_read tt l
    reuse_step c reads_on ok l = step_keeps kept setup c reads_on tt l
    reuse_step c (reads_late j) ok l = step_keeps kept setup c (reads_late j) tt l
    reuse_step c times_out ok l = step_keeps kept setup c times_out tt l
    reuse_step c stops ok l = step_keeps kept setup c stops tt l
    reuse_step c (connects socket) ok l = step_keeps kept setup c (connects socket) tt l
    reuse_step c (reconnects socket) ok l = step_keeps kept setup c (reconnects socket) tt l

    pub run_keeps :
        (c : Client I O) (es : List (Event I O))
        → AllNoReuse c es
        → P c.rpc_slots c.works
        → P (run setup c es).rpc_slots (run setup c es).works
    unfolding run
    run_keeps c [] ok l = l
    run_keeps c (e ∷ es) ok l = run_keeps (step setup c e) es ok.1 (reuse_step c e ok.0 l)

  pub new_client-IsLinked : (creds : Bool) → IsLinked (new_client {I = I} {O = O} creds)
  new_client-IsLinked creds = record { owned = tt; found = λ t k at. cc }

  -- Over any schedule that never makes a call under a session still in use, the slots of the client
  -- are those of its outstanding calls: each pending promise has the slot of its session, and each
  -- slot a pending promise of its session.
  pub run-IsLinked :
      (creds : Bool) (es : List (Event I O))
      → AllNoReuse (new_client creds) es
      → IsLinked (run setup (new_client creds) es)
  run-IsLinked creds es ok =
      run_keeps Linked-kept (new_client creds) es ok (new_client-IsLinked creds)
