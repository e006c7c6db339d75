-- ===== src/Histogram/Logform.antt =====
-- seastar_histogram_logform of src/core/histogram.cc.
pub mod Shape
pub mod Cumulative
use smurf.Prelude.{
  ℕ, zero, suc, ◌+◌, ◌*◌, Bool, List, [], ◌∷◌, ◌++◌, map, ◌==◌, ltb, length, ◌-◌, if◌then◌else◌,
}
use smurf.Histogram.{Hdr, Histogram}

abbrev pub num_buckets : ℕ
num_buckets = 26

abbrev pub first_value : ℕ
first_value = 10

-- constexpr double log_base = 2.0, cast to int64_t
abbrev pub log_base : ℕ
log_base = 2

-- seastar::metrics::histogram_bucket, over the type of its bound
pub record Bucket {ℓ} (B : Type ℓ) : Type ℓ where
  pub count : ℕ
  pub upper_bound : B

-- seastar::metrics::histogram, over the doubles
pub record SeastarHistogram (D : Type 0) : Type 0 where
  pub sample_count : ℕ
  pub sample_sum : D
  pub buckets : List (Bucket D)

-- The last loop: `n` more buckets from a boundary that is multiplied each time.
unfoldable pub pad : ℕ → ℕ → ℕ → List (Bucket ℕ)
pad zero count value = []
pad (suc n) count value =
    record { count = count; upper_bound = value } ∷ pad n count (value * log_base)

module _ {H It : Type 0} (hdr : Hdr H It) where
  abbrev pub bucket_of : It → Bucket ℕ
  bucket_of iter = record {
    count = hdr.cumulative_count iter;
    upper_bound = hdr.value_iterated_to iter;
  }

  -- The first loop, with `n` buckets still to fill: what it fills, and the iterator after it. The
  -- iterator goes on before the number of buckets is tested.
  unfoldable pub fill : ℕ → It → List (Bucket ℕ) × It
  fill zero iter = ([], (hdr.iter_next iter).1)
  fill (suc n) iter =
      let (more, next) = hdr.iter_next iter in
      let rest = fill n next in if more then (bucket_of next ∷ rest.0, rest.1) else ([], next)

  -- The boundary that the padding starts from, after so many buckets.
  unfoldable pub next_bound : ℕ → It → ℕ
  next_bound idx iter =
      if idx == 0
      then first_value
      else if ltb idx num_buckets
      then hdr.value_iterated_to iter * log_base
      else hdr.value_iterated_to iter

  -- Both loops.
  unfoldable pub log_buckets : H → List (Bucket ℕ)
  log_buckets h =
      let (filled, iter) = fill num_buckets (hdr.iter_log_init h first_value log_base) in
      let idx = length filled in
      filled ++ pad (num_buckets - idx) (hdr.cumulative_count iter) (next_bound idx iter)

  unfoldable pub seastar_histogram_logform :
      {D : Type 0} → (ℕ → D) → Histogram H → SeastarHistogram D
  seastar_histogram_logform to_double h = record {
    sample_count = h.sample_count;
    sample_sum = to_double h.sample_sum;
    buckets =
        map (λ (b : Bucket ℕ). record { count = b.count; upper_bound = to_double b.upper_bound })
          (log_buckets h.hist);
  }
