-- ===== src/Histogram/Logform/Shape.antt =====
-- What the two loops of seastar_histogram_logform of src/core/histogram.cc fill the buckets with.
use smurf.Prelude.{
  ℕ, zero, suc, ◌-◌, ◌*◌, ◌^◌, ◌≡◌, ◌≤◌, ◌<◌, refl, ap, ◌∙◌, inl, inr, Bool, true, false, not, ◌||◌,
  some, List, [], ◌∷◌, ◌++◌, arith, ◌==◌, ltb, length, length-append, length-map, get_elem?-map,
  get_elem?, Bool-cases, if◌then◌else◌,
}
use smurf.Histogram.{Hdr, Histogram}
use smurf.Histogram.Logform.{
  Bucket, pad, fill, next_bound, log_buckets, bucket_of, num_buckets, first_value, log_base,
  seastar_histogram_logform,
}

length-pad : (n count value : ℕ) → length (pad n count value) ≡ n
unfolding pad
length-pad zero count value = refl
length-pad (suc n) count value = omega (arith, length-pad n count (value * log_base))

double_pow : (v i : ℕ) → v * 2 * 2 ^ i ≡ v * 2 ^ (suc i)
double_pow v i = grind arith

get_elem?-pad :
    (n count value i : ℕ)
    → i < n
    → get_elem? (pad n count value) i ≡ some (record { count = count; upper_bound = value * 2 ^ i })
unfolding pad
get_elem?-pad zero count value i h = absurd (omega arith)
get_elem?-pad (suc n) count value zero h =
    ap (λ v. some (record { count = count; upper_bound = v })) (omega arith)
get_elem?-pad (suc n) count value (suc i) h =
    get_elem?-pad n count (value * 2) i (omega arith)
    ∙ ap (λ v. some (record { count = count; upper_bound = v })) (double_pow value i)

module _ {H It : Type 0} (hdr : Hdr H It) where
  -- Where the padding starts once the iterator is at its end
  abbrev pub pad_start : Bool → It → ℕ
  pad_start started iter = if started then hdr.value_iterated_to iter * log_base else first_value

  length-fill : (n : ℕ) (iter : It) → length (fill hdr n iter).0 ≤ n
  unfolding fill
  length-fill zero iter = omega arith
  length-fill (suc n) iter = ground (arith, length-fill n (hdr.iter_next iter).1)

  -- The bucket at a position, without the loops: the iterator's at that step if it gets so far, and
  -- otherwise one of its last count, with the boundary doubled once for each step that it lacks.
  -- `started` says whether it has made a step before.
  unfoldable pub bucket_at : ℕ → Bool → It → Bucket ℕ
  bucket_at zero started iter =
      let (more, next) = hdr.iter_next iter in
      if more
      then bucket_of hdr next
      else record { count = hdr.cumulative_count next; upper_bound = pad_start started next }
  bucket_at (suc i) started iter =
      let (more, next) = hdr.iter_next iter in
      let later = bucket_at i true next in
      if more then later else record {
        count = hdr.cumulative_count next;
        upper_bound = pad_start started next * 2 ^ (suc i);
      }

  -- The buckets that were filled, and the padding up to `n`
  glue : ℕ → Bool → List (Bucket ℕ) × It → List (Bucket ℕ)
  glue n started (filled, end) =
      filled
      ++ pad (n - length filled) (hdr.cumulative_count end)
          (pad_start (started || not (length filled == 0)) end)

  glue-more :
      (n : ℕ) (started : Bool) (b : Bucket ℕ) (bs : List (Bucket ℕ)) (end : It)
      → glue (suc n) started (b ∷ bs, end) ≡ b ∷ glue n true (bs, end)
  unfolding glue
  glue-more n started b bs end =
      let count : suc n - suc (length bs) ≡ n - length bs = omega arith in
      let same : (started || not (suc (length bs) == 0)) ≡ true = ground arith in
      rw (count, same) refl

  glue-stop :
      (n : ℕ) (started : Bool) (end : It)
      → glue n started ([], end) ≡ pad n (hdr.cumulative_count end) (pad_start started end)
  unfolding glue
  glue-stop n started end =
      let count : n - 0 ≡ n = omega arith in
      let same : (started || false) ≡ started = ground arith in rw (count, same) refl

  pub joined : ℕ → Bool → It → List (Bucket ℕ)
  joined n started iter = glue n started (fill hdr n iter)

  pub joined-zero : (started : Bool) (iter : It) → joined zero started iter ≡ []
  unfolding joined glue fill pad
  joined-zero started iter = refl

  fill-more :
      (n : ℕ) (iter : It)
      → (hdr.iter_next iter).0 ≡ true
      → fill hdr (suc n) iter ≡ (
        bucket_of hdr (hdr.iter_next iter).1 ∷ (fill hdr n (hdr.iter_next iter).1).0,
        (fill hdr n (hdr.iter_next iter).1).1,
      )
  unfolding fill
  fill-more n iter more = ground arith

  fill-stop :
      (n : ℕ) (iter : It)
      → (hdr.iter_next iter).0 ≡ false
      → fill hdr (suc n) iter ≡ ([], (hdr.iter_next iter).1)
  unfolding fill
  fill-stop n iter stop = ground arith

  pub joined-more :
      (n : ℕ) (started : Bool) (iter : It)
      → (hdr.iter_next iter).0 ≡ true
      → joined (suc n) started iter
        ≡ bucket_of hdr (hdr.iter_next iter).1 ∷ joined n true (hdr.iter_next iter).1
  unfolding joined
  joined-more n started iter more =
      ap (glue (suc n) started) (fill-more n iter more) ∙ glue-more n started _ _ _

  pub joined-stop :
      (n : ℕ) (started : Bool) (iter : It)
      → (hdr.iter_next iter).0 ≡ false
      → joined (suc n) started iter
        ≡ pad
            (suc n)
            (hdr.cumulative_count (hdr.iter_next iter).1)
            (pad_start started (hdr.iter_next iter).1)
  unfolding joined
  joined-stop n started iter stop =
      ap (glue (suc n) started) (fill-stop n iter stop) ∙ glue-stop (suc n) started _

  joined_at :
      (n i : ℕ) (started : Bool) (iter : It)
      → i < n
      → get_elem? (joined n started iter) i ≡ some (bucket_at i started iter)
  unfolding bucket_at
  joined_at zero i started iter h = absurd (omega arith)
  joined_at (suc n) zero started iter h = elim (Bool-cases (hdr.iter_next iter).0) [
    | inl more ↦ rw (joined-more n started iter more) (ground arith)
    | inr stop ↦
        rw (joined-stop n started iter stop) (get_elem?-pad (suc n) _ _ zero h ∙ ground arith)
  ]
  joined_at (suc n) (suc i) started iter h = elim (Bool-cases (hdr.iter_next iter).0) [
    | inl more ↦
        rw (joined-more n started iter more)
          (joined_at n i true (hdr.iter_next iter).1 (omega arith) ∙ ground arith)
    | inr stop ↦
        rw (joined-stop n started iter stop) (get_elem?-pad (suc n) _ _ (suc i) h ∙ ground arith)
  ]

  length-joined : (n : ℕ) (started : Bool) (iter : It) → length (joined n started iter) ≡ n
  unfolding joined glue
  length-joined n started iter =
      let (filled, end) = fill hdr n iter in
      length-append filled _
      ∙ omega (
        arith,
        length-fill n iter,
        length-pad (n - length filled) (hdr.cumulative_count end)
            (pad_start (started || not (length filled == 0)) end),
      )

  next_bound-small :
      (k : ℕ) (end : It)
      → ltb k num_buckets ≡ true
      → next_bound hdr k end ≡ pad_start (not (k == 0)) end
  unfolding next_bound
  next_bound-small k end small = ground arith

  -- Where the source's test of the number of buckets makes a difference, nothing is padded.
  pad_same :
      (k count : ℕ) (end : It)
      → pad (num_buckets - k) count (next_bound hdr k end)
        ≡ pad (num_buckets - k) count (pad_start (not (k == 0)) end)
  unfolding pad
  pad_same k count end = elim (Bool-cases (ltb k num_buckets)) [
    | inl small ↦ ap (pad (num_buckets - k) count) (next_bound-small k end small)
    | inr full ↦ let none_left : num_buckets - k ≡ 0 = ground arith in rw none_left refl
  ]

  pub log_buckets-joined :
      (h : H)
      → log_buckets hdr h ≡ joined num_buckets false (hdr.iter_log_init h first_value log_base)
  unfolding log_buckets joined glue
  log_buckets-joined h =
      let (filled, end) = fill hdr num_buckets (hdr.iter_log_init h first_value log_base) in
      ap (λ bs. filled ++ bs) (pad_same (length filled) (hdr.cumulative_count end) end)

  -- The buckets are always 26, and each is what the iterator says at its position: its count and
  -- boundary there if the iterator gets so far, and otherwise its last count and a boundary doubled
  -- from its last one, or from 10 if it made no step.
  pub logform_buckets :
      {D : Type 0} (to_double : ℕ → D) (h : Histogram H) (i : ℕ)
      → i < num_buckets
      → (length (seastar_histogram_logform hdr to_double h).buckets ≡ num_buckets)
        × (get_elem? (seastar_histogram_logform hdr to_double h).buckets i
            ≡ some (
                let b = bucket_at i false (hdr.iter_log_init h.hist first_value log_base) in
                record { count = b.count; upper_bound = to_double b.upper_bound }))
  unfolding seastar_histogram_logform
  logform_buckets {D} to_double h i small =
      let it = hdr.iter_log_init h.hist first_value log_base in
      let e = log_buckets-joined h.hist in
      let bucket : Bucket ℕ → Bucket D =
        λ b. record { count = b.count; upper_bound = to_double b.upper_bound } in
      (
        length-map bucket (log_buckets hdr h.hist)
            ∙ (ap length e ∙ length-joined num_buckets false it),
        get_elem?-map bucket (log_buckets hdr h.hist) i (bucket_at i false it)
            (ap (λ bs. get_elem? bs i) e ∙ joined_at num_buckets i false it small),
      )
