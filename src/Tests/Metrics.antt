-- ===== src/Tests/Metrics.antt =====
-- Instances of the theorems on histograms.
use smurf.Prelude.{
  ℕ, zero, suc, ◌+◌, ◌≡◌, ◌≤◌, ◌<◌, refl, Bool, true, false, none, some, List, [], ◌∷◌, ◌++◌, arith,
  length, length-append, get_elem?,
}
use smurf.Histogram.{Hdr, Histogram, new_histogram, default_histogram_max_value}
use smurf.Histogram.Logform.{log_buckets, seastar_histogram_logform}
use smurf.Histogram.Logform.Shape.{logform_buckets, bucket_at}
use smurf.Histogram.Logform.Cumulative.{IterLaws, IsCumulative, logform-IsCumulative}
use smurf.Histogram.Samples.{Recording, once, times, corrected, record_all, record_all-totals}
use smurf.Histogram.Merge.{AddLaws, add_all, added_up}

-- A histogram as its range and its values, with an iterator that gives one more count at each step:
-- how many steps are left, the count and the value
abbrev Values : Type 0
Values = ℕ × List ℕ

abbrev Steps : Type 0
Steps = ℕ × ℕ × ℕ

abbrev next_step : ℕ → ℕ → ℕ → Bool × Steps
next_step zero c v = (false, (0, c, v))
next_step (suc n) c v = (true, (n, c + 1, v + 10))

abbrev toy_hdr : Hdr Values Steps
toy_hdr = record {
  init = λ m. (m, []);
  record_value = λ h v. (h.0, v ∷ h.1);
  record_values = λ h v n. (h.0, v ∷ h.1);
  record_corrected_value = λ h v i. (h.0, v ∷ h.1);
  add = λ a b. (a.0, a.1 ++ b.1);
  iter_log_init = λ h first base. (length h.1, 0, 0);
  iter_next = λ it. next_step it.0 it.1 it.2;
  cumulative_count = λ it. it.1;
  value_iterated_to = λ it. it.2;
}

next_step-laws :
    (n c v : ℕ)
    → (c ≤ (next_step n c v).1.1)
      × (v ≤ (next_step n c v).1.2)
      × ((next_step n c v).0 ≡ true → v < (next_step n c v).1.2)
next_step-laws zero c v = (omega arith, omega arith, λ e. cc)
next_step-laws (suc n) c v = (omega arith, omega arith, λ e. omega arith)

toy_hdr-iter : IterLaws toy_hdr
toy_hdr-iter = record {
  adds = λ it. (next_step-laws it.0 it.1 it.2).0;
  keeps = λ it. (next_step-laws it.0 it.1 it.2).1;
  grows = λ it e. (next_step-laws it.0 it.1 it.2).2 e;
}

toy_hdr-add : AddLaws toy_hdr (λ h. length h.1) (λ h. h.0)
toy_hdr-add = record {
  total_init = λ m. refl;
  range_init = λ m. refl;
  total_add = λ a b e. length-append a.1 b.1;
  range_add = λ a b. refl;
}

abbrev three : Histogram Values
three = record {
  hist = (default_histogram_max_value, 4 ∷ 5 ∷ 6 ∷ []);
  sample_count = 3;
  sample_sum = 15;
}

logform_buckets_example :
    (length (seastar_histogram_logform toy_hdr (λ n. n) three).buckets ≡ 26)
    × (get_elem? (seastar_histogram_logform toy_hdr (λ n. n) three).buckets 4
        ≡ some (
            let b = bucket_at toy_hdr 4 false (3, 0, 0) in
            record { count = b.count; upper_bound = b.upper_bound }))
logform_buckets_example = logform_buckets toy_hdr (λ n. n) three 4 (omega arith)

-- The fifth bucket: three counts, and the boundary 30 doubled twice
bucket_test : bucket_at toy_hdr 4 false (3, 0, 0) ≡ record { count = 3; upper_bound = 120 }
unfolding bucket_at
bucket_test = refl

logform-IsCumulative_example : IsCumulative 0 0 (log_buckets toy_hdr (7, 4 ∷ 5 ∷ []))
logform-IsCumulative_example = logform-IsCumulative toy_hdr toy_hdr-iter (7, 4 ∷ 5 ∷ [])

abbrev recordings : List Recording
recordings = once 5 ∷ times 7 3 ∷ corrected 2 1 ∷ []

record_all-totals_example :
    ((record_all toy_hdr recordings (new_histogram toy_hdr 9)).sample_count ≡ 5)
    × ((record_all toy_hdr recordings (new_histogram toy_hdr 9)).sample_sum ≡ 28)
record_all-totals_example = record_all-totals toy_hdr 9 recordings

added_up_example :
    (length
        (add_all toy_hdr
          (some three ∷ none ∷ some three ∷ [])
          (new_histogram toy_hdr default_histogram_max_value)).hist.1
      ≡ 6)
    × ((add_all toy_hdr
          (some three ∷ none ∷ some three ∷ [])
          (new_histogram toy_hdr default_histogram_max_value)).sample_count
        ≡ 0)
    × ((add_all toy_hdr
          (some three ∷ none ∷ some three ∷ [])
          (new_histogram toy_hdr default_histogram_max_value)).sample_sum
        ≡ 0)
added_up_example =
    added_up toy_hdr (λ h. length h.1) (λ h. h.0) toy_hdr-add (some three ∷ none ∷ some three ∷ [])
      (refl, (refl, tt))
