-- ===== src/Client/Linked.antt =====
-- The calls of src/core/rpc_client.cc that are outstanding are those that rpc_slots_ holds.
use smurf.Prelude.{
  ℕ, ◌<◌, ◌≡◌, ◌≢◌, refl, sym, inl, inr, Option, none, some, List, [], ◌∷◌, ◌++◌, arith, get_elem?,
  length, ◌∙◌, ℕ_discrete, get_elem?-some_lt, get_elem?_of_lt, get_elem?_append_one,
  get_elem?_append_last,
}
use smurf.Future.{Future}
use smurf.Rpc.Recv.{RecvContext}
use smurf.Client.State.{
  Setup, Promise, pending, resolved, WorkItem, Client, find, insert, erase, resolve, fail_all,
  fail_outstanding_futures,
}
use smurf.Client.Slots.{
  AllOwned, AllOwned-find, AllOwned-append, AllOwned-erase-resolve, find-erase, find-insert_new,
  length-fail_all, get_elem?-resolve_ne, get_elem?-resolve_self, fail_all-found, fail_all-Unslotted,
  Unslotted-resolved, settle,
}

-- Every slot points to the pending work item of its session, and every pending work item has the
-- slot of its session.
pub record Linked (slots : List (ℕ × ℕ)) (works : List WorkItem) : Type 0 where
  pub owned : AllOwned slots works
  pub found :
      (t k : ℕ)
      → get_elem? works t ≡ some (record { session = k; pr = pending })
      → find k slots ≡ some t

abbrev pub IsLinked : {I O : Type 0} → Client I O → Type 0
IsLinked c = Linked c.rpc_slots c.works

module _ {I O : Type 0} (setup : Setup I O) (c : Client I O) where
  pub slots-fail_outstanding : (fail_outstanding_futures setup c).rpc_slots ≡ []
  unfolding fail_outstanding_futures
  slots-fail_outstanding = refl

  pub works-fail_outstanding :
      (fail_outstanding_futures setup c).works ≡ fail_all c.rpc_slots c.works
  unfolding fail_outstanding_futures
  works-fail_outstanding = ground arith

pub fail_all-settle :
    (slots : List (ℕ × ℕ)) (works : List WorkItem) (t k : ℕ) (pr : Promise)
    → Linked slots works
    → get_elem? works t ≡ some (record { session = k; pr = pr })
    → get_elem? (fail_all slots works) t ≡ some (record { session = k; pr = settle pr })
fail_all-settle slots works t k pending l at = fail_all-found slots works t k (l.found t k at) at
fail_all-settle slots works t k (resolved r) l at =
    fail_all-Unslotted slots works t (Unslotted-resolved slots works t k r l.owned at) ∙ at

module _ {I O : Type 0} (setup : Setup I O) where
  -- In a client whose slots are linked to its outstanding calls, `fail_outstanding_futures` ends
  -- exactly those, with the exception of a lost connection, leaves every call that has its result
  -- with that result, and empties the slots.
  pub fail_outstanding_exactly :
      (c : Client I O) (t : ℕ) (w : WorkItem)
      → IsLinked c
      → get_elem? c.works t ≡ some w
      → ((fail_outstanding_futures setup c).rpc_slots ≡ [])
        × (get_elem? (fail_outstanding_futures setup c).works t
            ≡ some (record { session = w.session; pr = settle w.pr }))
  fail_outstanding_exactly c t w l at = (
    slots-fail_outstanding setup c,
    rw (works-fail_outstanding setup c) (fail_all-settle c.rpc_slots c.works t w.session w.pr l at),
  )

settle-not_pending : (pr : Promise) → settle pr ≢ pending
settle-not_pending pending e = cc
settle-not_pending (resolved r) e = cc

fail_all-not_pending :
    (slots : List (ℕ × ℕ)) (works : List WorkItem) (t k : ℕ)
    → Linked slots works
    → get_elem? (fail_all slots works) t ≢ some (record { session = k; pr = pending })
fail_all-not_pending slots works t k l at =
    let small : t < length works =
      omega (arith, get_elem?-some_lt _ t _ at, length-fail_all slots works) in
    let (w, at') = get_elem?_of_lt works t small in
    settle-not_pending w.pr (ground (arith, at, fail_all-settle slots works t w.session w.pr l at'))

pub Linked-fail_all :
    (slots : List (ℕ × ℕ)) (works : List WorkItem)
    → Linked slots works
    → Linked [] (fail_all slots works)
Linked-fail_all slots works l = record {
  owned = tt;
  found = λ t k at. absurd (fail_all-not_pending slots works t k l at);
}

-- A work item is made for a session that is not taken.
pub Linked-insert :
    (slots : List (ℕ × ℕ)) (works : List WorkItem) (k : ℕ)
    → find k slots ≡ none
    → Linked slots works
    → Linked (insert k (length works) slots) (works ++ (record { session = k; pr = pending } ∷ []))
unfolding insert
Linked-insert slots works k new l = record {
  owned = rw (new, insert) (get_elem?_append_last works _, AllOwned-append slots works _ l.owned);
  found = λ t j at. elim (get_elem?_append_one works _ t _ at) [
    | inl old ↦ ground (arith, find-insert_new k j (length works) slots new, l.found t j old)
    | inr (last, mine) ↦ ground (arith, find-insert_new k j (length works) slots new)
  ];
}

-- The call of a session gets its reply.
pub Linked-resolve :
    (slots : List (ℕ × ℕ)) (works : List WorkItem) (k t : ℕ) (r : Future (Option RecvContext))
    → find k slots ≡ some t
    → Linked slots works
    → Linked (erase k slots) (resolve t r works)
Linked-resolve slots works k t r at l = record {
  owned =
      AllOwned-erase-resolve k t r slots works (AllOwned-find k t slots works l.owned at) l.owned;
  found = λ u j pend. elim (ℕ_discrete t u) [
    | yes same ↦ absurd (
        ground (
          arith,
          pend,
          get_elem?-resolve_self t r works _ (AllOwned-find k t slots works l.owned at),
        ))
    | no ne ↦
        let old = l.found u j (sym (get_elem?-resolve_ne t u r works ne) ∙ pend) in
        ground (arith, find-erase k j slots)
  ];
}
