-- ===== src/Client/Calls/Spec.antt =====
-- What the calls of src/include/smf/rpc_client.h promise, apart from slots and connections: an
-- abstract machine over the work items.
use smurf.Prelude.{
  ℕ, ◌≡◌, ◌≢◌, refl, sym, inl, inr, Option, some, List, [], ◌∷◌, ◌++◌, map, arith, get_elem?, set,
  ◌∙◌, ℕ_discrete, get_elem?_append_one, get_elem?_append_old, get_elem?-set_at, get_elem?-set_ne,
  zero, suc, get_elem?-map,
}
use smurf.Future.{Future, ready}
use smurf.Rpc.Recv.{RecvContext, session}
use smurf.Client.State.{Promise, pending, resolved, WorkItem}
use smurf.Client.Slots.{settle}

abbrev pub waits : ℕ → WorkItem
waits k = record { session = k; pr = pending }

abbrev pub has : ℕ → Future (Option RecvContext) → WorkItem
has k r = record { session = k; pr = resolved r }

-- A work item after the connection is lost.
abbrev pub lose : WorkItem → WorkItem
lose w = record w { pr = settle w.pr }

-- A call is made under a session that no outstanding call has, an outstanding call gets a reply of
-- its session, or every outstanding call fails.
pub data Serves : List WorkItem → List WorkItem → Type 0 where
  called :
      (works : List WorkItem) (k : ℕ)
      → ((t : ℕ) → get_elem? works t ≢ some (waits k))
      → Serves works (works ++ (waits k ∷ []))
  answered :
      (works : List WorkItem) (t : ℕ) (ctx : RecvContext)
      → get_elem? works t ≡ some (waits (session ctx))
      → Serves works (set works t (has (session ctx) (ready (some ctx))))
  lost : (works : List WorkItem) → Serves works (map lose works)

pub data Reaches (start : List WorkItem) : List WorkItem → Type 0 where
  here : Reaches start start
  more : {mid end : List WorkItem} → Reaches start mid → Serves mid end → Reaches start end

get_elem?-map-lose :
    (works : List WorkItem) (t : ℕ) (w : WorkItem)
    → get_elem? (map lose works) t ≡ some w
    → (v : WorkItem) × (get_elem? works t ≡ some v) × (w ≡ lose v)
get_elem?-map-lose [] t w at = cc
get_elem?-map-lose (x ∷ works) zero w at = (x, refl, cc)
get_elem?-map-lose (x ∷ works) (suc t) w at = get_elem?-map-lose works t w at

-- A result stays: no step changes a call that has one.
Serves-stable :
    {works next : List WorkItem} (t k : ℕ) (r : Future (Option RecvContext))
    → Serves works next
    → get_elem? works t ≡ some (has k r)
    → get_elem? next t ≡ some (has k r)
Serves-stable t k r (called works j free) at = get_elem?_append_old works _ t _ at
Serves-stable t k r (answered works u ctx mine) at = elim (ℕ_discrete u t) [
  | yes same ↦ ground (arith, same, at, mine)
  | no ne ↦ get_elem?-set_ne works u t _ ne ∙ at
]
Serves-stable t k r (lost works) at = get_elem?-map lose works t (has k r) at

pub Reaches-stable :
    {works next : List WorkItem} (t k : ℕ) (r : Future (Option RecvContext))
    → Reaches works next
    → get_elem? works t ≡ some (has k r)
    → get_elem? next t ≡ some (has k r)
Reaches-stable t k r here at = at
Reaches-stable t k r (more steps last) at = Serves-stable t k r last (Reaches-stable t k r steps at)

settle-reply :
    (pr : Promise) (o : Option RecvContext)
    → settle pr ≡ resolved (ready o)
    → pr ≡ resolved (ready o)
settle-reply pending o e = cc
settle-reply (resolved r) o e = e

-- Every reply in the work items is one of the session of its call.
abbrev OwnReplies : List WorkItem → Type 0
OwnReplies works =
    (t k : ℕ) (ctx : RecvContext)
    → get_elem? works t ≡ some (has k (ready (some ctx)))
    → session ctx ≡ k

Serves-OwnReplies :
    {works next : List WorkItem} → Serves works next → OwnReplies works → OwnReplies next
Serves-OwnReplies (called works j free) own t k ctx at =
    elim (get_elem?_append_one works _ t _ at) [ inl old ↦ own t k ctx old | inr (last, mine) ↦ cc ]
Serves-OwnReplies (answered works u reply mine) own t k ctx at = elim (ℕ_discrete u t) [
  | yes same ↦ ground (
    arith,
    same,
    at,
    mine,
    get_elem?-set_at works u _ (has (session reply) (ready (some reply))) mine,
  )
  | no ne ↦ own t k ctx (sym (get_elem?-set_ne works u t _ ne) ∙ at)
]
Serves-OwnReplies (lost works) own t k ctx at =
    let (v, old, e) = get_elem?-map-lose works t _ at in
    let same : settle v.pr ≡ resolved (ready (some ctx)) = cc in
    own t k ctx (cc (settle-reply v.pr (some ctx) same))

pub Reaches-OwnReplies : {works : List WorkItem} → Reaches [] works → OwnReplies works
Reaches-OwnReplies here t k ctx at = cc
Reaches-OwnReplies (more steps last) t k ctx at =
    Serves-OwnReplies last (Reaches-OwnReplies steps) t k ctx at
