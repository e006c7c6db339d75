-- ===== src/Histogram/Logform/Cumulative.antt =====
-- The buckets of seastar_histogram_logform of src/core/histogram.cc are those of a cumulative
-- histogram, which is what they are exported as.
use smurf.Prelude.{
  ℕ, zero, suc, ◌*◌, ◌≡◌, ◌≤◌, ◌<◌, inl, inr, true, false, List, [], ◌∷◌, arith, Bool-cases,
}
use smurf.Histogram.{Hdr}
use smurf.Histogram.Logform.{Bucket, pad, log_buckets, first_value, log_base}
use smurf.Histogram.Logform.Shape.{
  joined, joined-zero, joined-more, joined-stop, log_buckets-joined,
}

-- What the library says of its iterator: going on takes neither counts nor the value back, and a
-- step goes to a greater value. Where there is no step, counts may have been added.
pub record IterLaws {H It : Type 0} (hdr : Hdr H It) : Type 0 where
  pub adds : (iter : It) → hdr.cumulative_count iter ≤ hdr.cumulative_count (hdr.iter_next iter).1
  pub keeps :
      (iter : It) → hdr.value_iterated_to iter ≤ hdr.value_iterated_to (hdr.iter_next iter).1
  pub grows :
      (iter : It)
      → (hdr.iter_next iter).0 ≡ true
      → hdr.value_iterated_to iter < hdr.value_iterated_to (hdr.iter_next iter).1

-- From a count and a bound on, counts never fall and bounds rise.
abbrev pub IsCumulative : ℕ → ℕ → List (Bucket ℕ) → Type 0
IsCumulative count bound [] = Unit {0}
IsCumulative count bound (b ∷ bs) =
    (count ≤ b.count) × (bound < b.upper_bound) × IsCumulative b.count b.upper_bound bs

pad-IsCumulative :
    (n count bound value : ℕ) {before : ℕ}
    → before ≤ count
    → bound < value
    → IsCumulative before bound (pad n count value)
unfolding pad
pad-IsCumulative zero count bound value p q = tt
pad-IsCumulative (suc n) count bound value p q =
    (p, q, pad-IsCumulative n count value (value * 2) (omega arith) (omega arith))

module _ {H It : Type 0} (hdr : Hdr H It) (laws : IterLaws hdr) where
  joined-IsCumulative :
      (n : ℕ) (iter : It)
      → 0 < hdr.value_iterated_to iter
      → IsCumulative
          (hdr.cumulative_count iter)
          (hdr.value_iterated_to iter)
          (joined hdr n true iter)
  joined-IsCumulative zero iter positive =
      rw (joined-zero hdr true iter) (let done : Unit {0} = tt in done)
  joined-IsCumulative (suc n) iter positive = elim (Bool-cases (hdr.iter_next iter).0) [
    | inl more ↦
        let next = (hdr.iter_next iter).1 in
        let bigger = laws.grows iter more in
        rw (joined-more hdr n true iter more)
          (laws.adds iter, bigger, joined-IsCumulative n next (omega (arith, bigger)))
    | inr stop ↦
        let value = laws.keeps iter in
        rw (joined-stop hdr n true iter stop) (
          pad-IsCumulative (suc n) _ (hdr.value_iterated_to iter) _ (laws.adds iter)
            (omega (arith, value)))
  ]

  -- The counts of the 26 buckets never fall from one to the next and their bounds rise, from a first
  -- one above 0, for a library whose iterator never takes a count or its value back and makes each
  -- step to a greater value.
  pub logform-IsCumulative : (h : H) → IsCumulative 0 0 (log_buckets hdr h)
  logform-IsCumulative h =
      let it = hdr.iter_log_init h first_value log_base in
      rw (log_buckets-joined hdr h) (elim (Bool-cases (hdr.iter_next it).0) [
        | inl more ↦
            let next = (hdr.iter_next it).1 in
            let bigger = laws.grows it more in
            rw (joined-more hdr 25 false it more) (
              omega arith,
              omega (arith, bigger),
              joined-IsCumulative 25 next (omega (arith, bigger)),
            )
        | inr stop ↦
            rw (joined-stop hdr 25 false it stop)
              (pad-IsCumulative 26 _ 0 10 (omega arith) (omega arith))
      ])
