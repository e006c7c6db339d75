-- ===== src/Client/Slots.antt =====
-- The map rpc_slots_ and the work items that it points to.
use smurf.Prelude.{
  ℕ, ◌≡◌, ◌≢◌, refl, inl, inr, Option, none, some, List, [], ◌∷◌, ◌++◌, ◌==◌, arith, get_elem?,
  length, length-set, get_elem?-set_at, get_elem?-set_ne, Option-cases, if◌then◌else◌, ◌∙◌, if_both,
  ℕ_discrete, get_elem?_append_old,
}
use smurf.Future.{Future, failed, remote_connection_error}
use smurf.Rpc.Recv.{RecvContext}
use smurf.Client.State.{
  Promise, pending, resolved, WorkItem, find, insert, erase, resolve, fail_all,
}

pub find-erase :
    (k j : ℕ) (m : List (ℕ × ℕ)) → find j (erase k m) ≡ (if k == j then none else find j m)
unfolding find erase
find-erase k j [] = ground arith
find-erase k j ((i, t) ∷ m) = ground (arith, find-erase k j m)

pub find-insert_new :
    (k j t : ℕ) (m : List (ℕ × ℕ))
    → find k m ≡ none
    → find j (insert k t m) ≡ (if k == j then some t else find j m)
unfolding find insert
find-insert_new k j t m new = rw (new, insert) refl

-- Every slot points to a work item of its session that is pending.
abbrev pub AllOwned : List (ℕ × ℕ) → List WorkItem → Type 0
AllOwned [] works = Unit {0}
AllOwned ((s, t) ∷ m) works =
    (get_elem? works t ≡ some (record { session = s; pr = pending })) × AllOwned m works

pub AllOwned-find :
    (k t : ℕ) (m : List (ℕ × ℕ)) (works : List WorkItem)
    → AllOwned m works
    → find k m ≡ some t
    → get_elem? works t ≡ some (record { session = k; pr = pending })
unfolding find
AllOwned-find k t [] works o e = cc
AllOwned-find k t ((j, u) ∷ m) works o e = ground (arith, AllOwned-find k t m works o.1)

-- What becomes of a work item when another one is resolved, and when it is.
pub get_elem?-resolve_ne :
    (t u : ℕ) (r : Future (Option RecvContext)) (works : List WorkItem)
    → t ≢ u
    → get_elem? (resolve t r works) u ≡ get_elem? works u
unfolding resolve
get_elem?-resolve_ne t u r works ne = elim (Option-cases (get_elem? works t)) [
  | inl missing ↦ rw (missing, resolve) refl
  | inr (w, at) ↦ rw (at, resolve) (get_elem?-set_ne works t u _ ne)
]

pub get_elem?-resolve_self :
    (t : ℕ) (r : Future (Option RecvContext)) (works : List WorkItem) (w : WorkItem)
    → get_elem? works t ≡ some w
    → get_elem? (resolve t r works) t ≡ some (record w { pr = resolved r })
unfolding resolve
get_elem?-resolve_self t r works w at =
    rw (at, resolve) (get_elem?-set_at works t w (record w { pr = resolved r }) at)

pub length-resolve :
    (t : ℕ) (r : Future (Option RecvContext)) (works : List WorkItem)
    → length (resolve t r works) ≡ length works
unfolding resolve
length-resolve t r works = elim (Option-cases (get_elem? works t)) [
  | inl missing ↦ rw (missing, resolve) refl
  | inr (w, at) ↦ rw (at, resolve) (length-set works t (record w { pr = resolved r }))
]

-- A work item of another session is resolved.
pub AllOwned-erase-resolve :
    (k t : ℕ) (r : Future (Option RecvContext)) (m : List (ℕ × ℕ)) (works : List WorkItem)
    → get_elem? works t ≡ some (record { session = k; pr = pending })
    → AllOwned m works
    → AllOwned (erase k m) (resolve t r works)
unfolding erase
AllOwned-erase-resolve k t r [] works at o = tt
AllOwned-erase-resolve k t r ((j, u) ∷ m) works at o =
    let ih = AllOwned-erase-resolve k t r m works at o.1 in
    if_both (λ l. AllOwned l (resolve t r works)) (j == k) _ _ (λ _. ih)
      λ other. (get_elem?-resolve_ne t u r works (λ e. ground (arith, o.0)) ∙ o.0, ih)

pub AllOwned-append :
    (m : List (ℕ × ℕ)) (works new : List WorkItem) → AllOwned m works → AllOwned m (works ++ new)
AllOwned-append [] works new o = tt
AllOwned-append ((j, u) ∷ m) works new o =
    (get_elem?_append_old works new u _ o.0, AllOwned-append m works new o.1)

-- The exception of fail_outstanding_futures.
abbrev pub lost_remote : Promise
lost_remote = resolved (failed remote_connection_error)

-- A promise after fail_outstanding_futures.
abbrev pub settle : Promise → Promise
settle pending = lost_remote
settle (resolved r) = resolved r

resolve-settled :
    (t u : ℕ) (works : List WorkItem) (k : ℕ)
    → get_elem? works t ≡ some (record { session = k; pr = lost_remote })
    → get_elem? (resolve u (failed remote_connection_error) works) t
      ≡ some (record { session = k; pr = lost_remote })
resolve-settled t u works k at = elim (ℕ_discrete u t) [
  | yes e ↦ rw e (get_elem?-resolve_self t _ works _ at)
  | no ne ↦ get_elem?-resolve_ne u t _ works ne ∙ at
]

fail_all-settled :
    (m : List (ℕ × ℕ)) (works : List WorkItem) (t k : ℕ)
    → get_elem? works t ≡ some (record { session = k; pr = lost_remote })
    → get_elem? (fail_all m works) t ≡ some (record { session = k; pr = lost_remote })
unfolding fail_all
fail_all-settled [] works t k at = at
fail_all-settled ((j, u) ∷ m) works t k at =
    fail_all-settled m _ t k (resolve-settled t u works k at)

-- A work item that a slot points to gets the exception.
pub fail_all-found :
    (m : List (ℕ × ℕ)) (works : List WorkItem) (t k : ℕ)
    → find k m ≡ some t
    → get_elem? works t ≡ some (record { session = k; pr = pending })
    → get_elem? (fail_all m works) t ≡ some (record { session = k; pr = lost_remote })
unfolding fail_all find
fail_all-found [] works t k e at = cc
fail_all-found ((j, u) ∷ m) works t k e at = elim (ℕ_discrete u t) [
  | yes same ↦ rw same (fail_all-settled m _ t k (get_elem?-resolve_self t _ works _ at))
  | no ne ↦ fail_all-found m _ t k (ground arith) (get_elem?-resolve_ne u t _ works ne ∙ at)
]

-- No slot points to that work item.
abbrev pub Unslotted : ℕ → List (ℕ × ℕ) → Type 0
Unslotted t [] = Unit {0}
Unslotted t ((j, u) ∷ m) = (u ≢ t) × Unslotted t m

pub fail_all-Unslotted :
    (m : List (ℕ × ℕ)) (works : List WorkItem) (t : ℕ)
    → Unslotted t m
    → get_elem? (fail_all m works) t ≡ get_elem? works t
unfolding fail_all
fail_all-Unslotted [] works t h = refl
fail_all-Unslotted ((j, u) ∷ m) works t h =
    fail_all-Unslotted m _ t h.1 ∙ get_elem?-resolve_ne u t _ works h.0

pub Unslotted-resolved :
    (m : List (ℕ × ℕ)) (works : List WorkItem) (t k : ℕ) (r : Future (Option RecvContext))
    → AllOwned m works
    → get_elem? works t ≡ some (record { session = k; pr = resolved r })
    → Unslotted t m
Unslotted-resolved [] works t k r o at = tt
Unslotted-resolved ((j, u) ∷ m) works t k r o at =
    (λ e. ground (arith, o.0), Unslotted-resolved m works t k r o.1 at)

pub length-fail_all :
    (m : List (ℕ × ℕ)) (works : List WorkItem) → length (fail_all m works) ≡ length works
unfolding fail_all
length-fail_all [] works = refl
length-fail_all ((j, u) ∷ m) works = length-fail_all m _ ∙ length-resolve u _ works
