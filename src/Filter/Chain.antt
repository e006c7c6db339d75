-- ===== src/Filter/Chain.antt =====
-- Chains of filters.
use smurf.Prelude.{◌≡◌, refl, List, [], ◌∷◌, ◌++◌}
use smurf.Future.{Future, ready, failed, ◌>>=◌}
use smurf.Filter.{rpc_filter_apply}

module _ {ℓ} {A : Type ℓ} where
  bind_step :
      (m : Future A) (fs gs : List (A → Future A))
      → ((a : A) → rpc_filter_apply (fs ++ gs) a ≡ (rpc_filter_apply fs a >>= rpc_filter_apply gs))
      → (m >>= rpc_filter_apply (fs ++ gs)) ≡ ((m >>= rpc_filter_apply fs) >>= rpc_filter_apply gs)
  bind_step (ready a) fs gs h = h a
  bind_step (failed e) fs gs h = refl

  -- Filters that are pushed at the back run on what the filters before them return, and do not run
  -- where one of those fails.
  pub rpc_filter_apply-append :
      (fs gs : List (A → Future A)) (a : A)
      → rpc_filter_apply (fs ++ gs) a ≡ (rpc_filter_apply fs a >>= rpc_filter_apply gs)
  unfolding rpc_filter_apply
  rpc_filter_apply-append [] gs a = refl
  rpc_filter_apply-append (f ∷ fs) gs a = bind_step (f a) fs gs (rpc_filter_apply-append fs gs)
