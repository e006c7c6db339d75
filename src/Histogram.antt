-- ===== src/Histogram.antt =====
-- src/core/histogram.cc, src/include/smf/histogram.h and src/include/smf/unique_histogram_adder.h,
-- over the library HdrHistogram_c, which is a parameter.
pub mod Samples
pub mod Merge
pub mod Logform
use smurf.Prelude.{
  ℕ, ◌+◌, ◌-◌, ◌*◌, ◌%◌, ◌^◌, Bool, true, false, ◌&&◌, Option, none, some, List, [], ◌∷◌,
  if◌then◌else◌,
}

-- What is called of the library: a histogram, and an iterator over it with the members that are
-- read. A value of int64_t is passed as its 64 bits.
pub record Hdr (H It : Type 0) : Type 0 where
  -- hdr_init(1, max_value, 3, …)
  pub init : ℕ → H
  pub record_value : H → ℕ → H
  pub record_values : H → ℕ → ℕ → H
  pub record_corrected_value : H → ℕ → ℕ → H
  pub add : H → H → H
  -- hdr_iter_log_init: the first value and the base
  pub iter_log_init : H → ℕ → ℕ → It
  pub iter_next : It → Bool × It
  pub cumulative_count : It → ℕ
  pub value_iterated_to : It → ℕ

-- kDefaultHistogramMaxValue
abbrev pub default_histogram_max_value : ℕ
default_histogram_max_value = 3600000000

-- hist_t, and the histogram that points to it
pub record Histogram (H : Type 0) : Type 0 where
  pub hist : H
  pub sample_count : ℕ
  pub sample_sum : ℕ

-- histogram_measure; `attached` says whether the pointer to the histogram is not null.
pub record Measure : Type 0 where
  pub trace : Bool
  pub attached : Bool
  pub begin_t : ℕ

-- histogram_measure(ptr)
pub start_measure : ℕ → Measure
start_measure now = record { trace = true; attached = true; begin_t = now }

-- histogram_measure(histogram_measure &&): the new measure, and what is left of the old one.
unfoldable pub move_measure : Measure → Measure × Measure
move_measure m = (m, record m { attached = false })

unfoldable pub set_trace : Bool → Measure → Measure
set_trace b m = record m { trace = b }

module _ {H It : Type 0} (hdr : Hdr H It) where
  -- histogram(max_value), which make_unique and make_lw_shared call
  unfoldable pub new_histogram : ℕ → Histogram H
  new_histogram max_value = record { hist = hdr.init max_value; sample_count = 0; sample_sum = 0 }

  -- operator+=
  unfoldable pub merge : Histogram H → Histogram H → Histogram H
  merge h o = record h { hist = hdr.add h.hist o.hist }

  -- record; the members and the argument are uint64_t.
  unfoldable pub record_value : ℕ → Histogram H → Histogram H
  record_value v h = record {
    sample_count = (h.sample_count + 1) % 2 ^ 64;
    sample_sum = (h.sample_sum + v) % 2 ^ 64;
    hist = hdr.record_value h.hist v;
  }

  unfoldable pub record_multiple_times : ℕ → ℕ → Histogram H → Histogram H
  record_multiple_times v times h = record {
    sample_count = (h.sample_count + times) % 2 ^ 64;
    sample_sum = (h.sample_sum + (v * times) % 2 ^ 64) % 2 ^ 64;
    hist = hdr.record_values h.hist v times;
  }

  unfoldable pub record_corrected : ℕ → ℕ → Histogram H → Histogram H
  record_corrected v interval h = record {
    sample_count = (h.sample_count + 1) % 2 ^ 64;
    sample_sum = (h.sample_sum + v) % 2 ^ 64;
    hist = hdr.record_corrected_value h.hist v interval;
  }

  -- rpc_server::copy_histogram
  unfoldable pub copy_histogram : Histogram H → Histogram H
  unfolding merge
  copy_histogram h = merge (new_histogram default_histogram_max_value) h

  -- unique_histogram_adder::operator(), of either pointer; `none` is a null one.
  unfoldable pub add_unique : Option (Histogram H) → Histogram H → Histogram H
  add_unique none result = result
  add_unique (some value) result = merge result value

  -- ~histogram_measure, at the time `now` in microseconds
  unfoldable pub end_measure : ℕ → Measure → Histogram H → Histogram H
  end_measure now m h = if m.attached && m.trace then record_value (now - m.begin_t) h else h
