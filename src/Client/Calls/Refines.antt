-- ===== src/Client/Calls/Refines.antt =====
-- src/core/rpc_client.cc, with its slots, its connection and its counters, does nothing to the calls
-- that the abstract machine of work items does not do.
use smurf.Prelude.{
  ℕ, ◌≡◌, ◌<◌, refl, sym, Option, none, some, List, [], ◌∷◌, map, arith, Bool, get_elem?, set,
  length, ◌∙◌, zero, suc, length-map, get_elem?-map, get_elem?-some_lt, get_elem?_of_lt,
}
use smurf.Future.{Future, ready}
use smurf.Rpc.Recv.{RecvContext, session}
use smurf.Client.State.{Setup, resolved, WorkItem, Client, new_client, find, resolve, fail_all}
use smurf.Client.Slots.{AllOwned-find, length-fail_all}
use smurf.Client.Linked.{
  Linked, IsLinked, Linked-fail_all, Linked-insert, Linked-resolve, fail_all-settle,
}
use smurf.Client.Calls.{Event, run}
use smurf.Client.Calls.Kept.{IsKept}
use smurf.Client.Calls.Outstanding.{free_added, AllNoReuse, run_keeps, new_client-IsLinked}
use smurf.Client.Calls.Spec.{
  waits, has, lose, called, answered, lost, Reaches, here, more, Reaches-stable, Reaches-OwnReplies,
}

-- Lists of one length with the same elements are equal.
list_ext :
    (xs ys : List WorkItem)
    → length xs ≡ length ys
    → ((t : ℕ) (w : WorkItem) → get_elem? ys t ≡ some w → get_elem? xs t ≡ some w)
    → xs ≡ ys
list_ext [] [] n same = refl
list_ext [] (y ∷ ys) n same = absurd (omega arith)
list_ext (x ∷ xs) [] n same = absurd (omega arith)
list_ext (x ∷ xs) (y ∷ ys) n same =
    let heads = same zero y refl in
    let tails = list_ext xs ys (omega arith) (λ t w. same (suc t) w) in cc

fail_all-map-lose :
    (slots : List (ℕ × ℕ)) (works : List WorkItem)
    → Linked slots works
    → fail_all slots works ≡ map lose works
fail_all-map-lose slots works l =
    list_ext (fail_all slots works) (map lose works)
      (length-fail_all slots works ∙ sym (length-map lose works))
      λ t w at.
        let small : t < length works =
          omega (arith, get_elem?-some_lt _ t _ at, length-map lose works) in
        let (v, old) = get_elem?_of_lt works t small in
        fail_all-settle slots works t v.session v.pr l old
        ∙ (sym (get_elem?-map lose works t v old) ∙ at)

resolve-set :
    (t k : ℕ) (r : Future (Option RecvContext)) (works : List WorkItem)
    → get_elem? works t ≡ some (waits k)
    → resolve t r works ≡ set works t (has k r)
unfolding resolve
resolve-set t k r works at = rw (at, resolve) refl

-- The slots are linked to the work items, and the abstract machine has got to these.
record Follows (start : List WorkItem) (slots : List (ℕ × ℕ)) (works : List WorkItem) : Type 0 where
  pub linked : Linked slots works
  pub reached : Reaches start works

Follows-kept : (start : List WorkItem) → IsKept (Follows start) (λ k slots. find k slots ≡ none)
Follows-kept start = record {
  ended = λ slots works f. record {
    linked = Linked-fail_all slots works f.linked;
    reached = rw (fail_all-map-lose slots works f.linked) (more f.reached (lost works));
  };
  added = λ slots works k new f. free_added (Follows start) slots works k new (record {
    linked = Linked-insert slots works k new f.linked;
    reached = more f.reached (called works k (λ t at. ground (arith, new, f.linked.found t k at)));
  });
  answered = λ slots works ctx t at f.
      let owner = AllOwned-find (session ctx) t slots works f.linked.owned at in
      record {
        linked = Linked-resolve slots works (session ctx) t (ready (some ctx)) at f.linked;
        reached =
            rw (resolve-set t (session ctx) (ready (some ctx)) works owner)
              (more f.reached (answered works t ctx owner));
      };
}

module _ {I O : Type 0} (setup : Setup I O) where
  -- Whatever a client with linked slots does over a schedule that never makes a call under a session
  -- still in use, its work items are ones that the abstract machine reaches from those before:
  -- calls are added, outstanding calls get replies of their own session, or all of them fail.
  pub run-Reaches :
      (c : Client I O) (es : List (Event I O))
      → IsLinked c
      → AllNoReuse setup c es
      → Reaches c.works (run setup c es).works
  run-Reaches c es l ok =
      (run_keeps setup (Follows-kept c.works) c es ok
        (record { linked = l; reached = here })).reached

  -- From the start of a client, over any schedule that never makes a call under a session still in
  -- use, a call that has a reply has one of its own session.
  pub reply_belongs :
      (creds : Bool) (es : List (Event I O)) (t k : ℕ) (ctx : RecvContext)
      → AllNoReuse setup (new_client creds) es
      → get_elem? (run setup (new_client creds) es).works t
        ≡ some (record { session = k; pr = resolved (ready (some ctx)) })
      → session ctx ≡ k
  reply_belongs creds es t k ctx ok at =
      Reaches-OwnReplies (run-Reaches (new_client creds) es (new_client-IsLinked setup creds) ok) t
        k ctx at

  -- A promise is kept: over any such schedule, a call that has its result, a reply or an exception,
  -- has the same one at the end.
  pub result_stays :
      (c : Client I O) (es : List (Event I O)) (t k : ℕ) (r : Future (Option RecvContext))
      → IsLinked c
      → AllNoReuse setup c es
      → get_elem? c.works t ≡ some (record { session = k; pr = resolved r })
      → get_elem? (run setup c es).works t ≡ some (record { session = k; pr = resolved r })
  result_stays c es t k r l ok at = Reaches-stable t k r (run-Reaches c es l ok) at
