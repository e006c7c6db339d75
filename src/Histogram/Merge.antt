-- ===== src/Histogram/Merge.antt =====
-- Adding histograms up: operator+= of src/core/histogram.cc, copy_histogram of
-- src/core/rpc_server.cc and src/include/smf/unique_histogram_adder.h.
use smurf.Prelude.{ℕ, ◌+◌, ◌≡◌, refl, ◌∙◌, Option, none, some, List, [], ◌∷◌, arith, sum_by}
use smurf.Histogram.{Hdr, Histogram, new_histogram, default_histogram_max_value, merge, add_unique}

-- What the library says of hdr_add: every count is added if the ranges are the same.
pub record AddLaws {H It : Type 0} (hdr : Hdr H It) (total range : H → ℕ) : Type 0 where
  pub total_init : (max_value : ℕ) → total (hdr.init max_value) ≡ 0
  pub range_init : (max_value : ℕ) → range (hdr.init max_value) ≡ max_value
  pub total_add : (a b : H) → range a ≡ range b → total (hdr.add a b) ≡ total a + total b
  pub range_add : (a b : H) → range (hdr.add a b) ≡ range a

module _ {H It : Type 0} (hdr : Hdr H It) where
  -- The adder over a sequence of pointers
  abbrev pub add_all : List (Option (Histogram H)) → Histogram H → Histogram H
  add_all [] result = result
  add_all (o ∷ os) result = add_all os (add_unique hdr o result)

  abbrev pub total_of : (H → ℕ) → Option (Histogram H) → ℕ
  total_of total none = 0
  total_of total (some h) = total h.hist

  -- Every histogram was made with the default range.
  abbrev pub AllDefault : (H → ℕ) → List (Option (Histogram H)) → Type 0
  AllDefault range [] = Unit {0}
  AllDefault range (none ∷ os) = AllDefault range os
  AllDefault range (some h ∷ os) =
      (range h.hist ≡ default_histogram_max_value) × AllDefault range os

  module _ (total range : H → ℕ) (laws : AddLaws hdr total range) where
    add_from :
        (os : List (Option (Histogram H))) (result : Histogram H)
        → AllDefault range os
        → range result.hist ≡ default_histogram_max_value
        → (total (add_all os result).hist ≡ total result.hist + sum_by (total_of total) os)
          × ((add_all os result).sample_count ≡ result.sample_count)
          × ((add_all os result).sample_sum ≡ result.sample_sum)
    unfolding add_unique merge
    add_from [] result all same = (omega arith, refl, refl)
    add_from (none ∷ os) result all same =
        let (t, c, s) = add_from os result all same in (omega (arith, t), c, s)
    add_from (some h ∷ os) result (first, all) same =
        let next : Histogram H = record result { hist = hdr.add result.hist h.hist } in
        let (t, c, s) = add_from os next all (laws.range_add result.hist h.hist ∙ same) in
        (omega (arith, t, laws.total_add result.hist h.hist (omega (arith, first, same))), c, s)

    -- The sum of histograms of the default range, null pointers left out, has all of their counts, but
    -- its own `sample_count` and `sample_sum` are 0, whatever those of the histograms were.
    pub added_up :
        (os : List (Option (Histogram H)))
        → AllDefault range os
        → (let sum = add_all os (new_histogram hdr default_histogram_max_value) in
            (total sum.hist ≡ sum_by (total_of total) os)
            × (sum.sample_count ≡ 0)
            × (sum.sample_sum ≡ 0))
    unfolding new_histogram
    added_up os all =
        let result = new_histogram hdr default_histogram_max_value in
        let (t, c, s) = add_from os result all (laws.range_init default_histogram_max_value) in
        (omega (arith, t, laws.total_init default_histogram_max_value), c, s)
