-- ===== src/Histogram/Samples.antt =====
-- The samples that src/core/histogram.cc counts beside the library, and the measures that record
-- them.
use smurf.Prelude.{ℕ, ◌+◌, ◌-◌, ◌*◌, ◌%◌, ◌^◌, ◌≡◌, refl, true, List, [], ◌∷◌, arith, sum_by}
use smurf.Histogram.{
  Hdr, Histogram, new_histogram, record_value, record_multiple_times, record_corrected, Measure,
  move_measure, end_measure,
}

-- A call that records
pub data Recording : Type 0 where
  once : ℕ → Recording
  times : ℕ → ℕ → Recording
  corrected : ℕ → ℕ → Recording

abbrev pub count_of : Recording → ℕ
count_of (once v) = 1
count_of (times v n) = n
count_of (corrected v interval) = 1

abbrev pub sum_of : Recording → ℕ
sum_of (once v) = v
sum_of (times v n) = v * n
sum_of (corrected v interval) = v

module _ {H It : Type 0} (hdr : Hdr H It) where
  abbrev pub recorded : Recording → Histogram H → Histogram H
  recorded (once v) h = record_value hdr v h
  recorded (times v n) h = record_multiple_times hdr v n h
  recorded (corrected v interval) h = record_corrected hdr v interval h

  abbrev pub record_all : List Recording → Histogram H → Histogram H
  record_all [] h = h
  record_all (r ∷ rs) h = record_all rs (recorded r h)

  recorded-totals :
      (r : Recording) (h : Histogram H)
      → ((recorded r h).sample_count ≡ (h.sample_count + count_of r) % 2 ^ 64)
        × ((recorded r h).sample_sum ≡ (h.sample_sum + sum_of r) % 2 ^ 64)
  unfolding record_value record_multiple_times record_corrected
  recorded-totals (once v) h = (refl, refl)
  recorded-totals (times v n) h = (refl, omega arith)
  recorded-totals (corrected v interval) h = (refl, refl)

  record_from :
      (rs : List Recording) (h : Histogram H) (count sum : ℕ)
      → h.sample_count ≡ count % 2 ^ 64
      → h.sample_sum ≡ sum % 2 ^ 64
      → ((record_all rs h).sample_count ≡ (count + sum_by count_of rs) % 2 ^ 64)
        × ((record_all rs h).sample_sum ≡ (sum + sum_by sum_of rs) % 2 ^ 64)
  record_from [] h count sum p q = (omega arith, omega arith)
  record_from (r ∷ rs) h count sum p q =
      let (c, s) = recorded-totals r h in
      let (c', s') =
        record_from rs (recorded r h) (count + count_of r) (sum + sum_of r) (omega (arith, c))
          (omega (arith, s)) in
      (omega (arith, c'), omega (arith, s'))

  -- Whatever is recorded in a new histogram, `sample_count` is the number of the samples and
  -- `sample_sum` their sum, a value recorded several times counting as often, both modulo 2^64.
  pub record_all-totals :
      (max_value : ℕ) (rs : List Recording)
      → ((record_all rs (new_histogram hdr max_value)).sample_count ≡ sum_by count_of rs % 2 ^ 64)
        × ((record_all rs (new_histogram hdr max_value)).sample_sum ≡ sum_by sum_of rs % 2 ^ 64)
  unfolding new_histogram
  record_all-totals max_value rs =
      let (c, s) = record_from rs (new_histogram hdr max_value) 0 0 refl refl in
      (omega (arith, c), omega (arith, s))

  -- A traced measure that is moved is recorded once, when the new one ends, whichever of the two
  -- ends first.
  moved_measure_once :
      (m : Measure) (now later : ℕ) (h : Histogram H)
      → m.trace ≡ true
      → m.attached ≡ true
      → (end_measure hdr later (move_measure m).0 (end_measure hdr now (move_measure m).1 h)
          ≡ record_value hdr (later - m.begin_t) h)
        × (end_measure hdr later (move_measure m).1 (end_measure hdr now (move_measure m).0 h)
            ≡ record_value hdr (now - m.begin_t) h)
  unfolding end_measure move_measure
  moved_measure_once m now later h traced attached =
      (rw (attached, traced) refl, rw (attached, traced) refl)
