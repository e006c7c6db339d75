-- ===== src/LoadGenerator/Count.antt =====
-- What the events of a benchmark of src/include/smf/load_generator.h keep.
use smurf.Prelude.{
  ℕ, zero, suc, ◌+◌, ◌*◌, ◌%◌, ◌^◌, ◌≡◌, refl, sym, ap, ◌∙◌, subst, inl, inr, Bool, true, false,
  some, List, [], ◌∷◌, get_elem?, set, replicate, length, length-set, sum_by, sum_by-set, arith,
  Option-cases,
}
use smurf.LoadGenerator.{
  Channel, Shared, Benchmark, Event, launch, returned, step, step_found, step_at, run,
}

abbrev pub count : Bool → ℕ
count true = 1
count false = 0

abbrev pub left_of : Channel → ℕ
left_of c = c.left

abbrev pub ended_of : Channel → ℕ
ended_of c = count c.ended

abbrev pub failed_of : Channel → ℕ
failed_of c = count c.failed

-- The sum of the sizes of the calls
abbrev pub bytes_of : List ℕ → ℕ
bytes_of [] = 0
bytes_of (n ∷ ns) = n + bytes_of ns

-- A loop that has ended without an exception has no call left.
pub record IsDone (c : Channel) : Type 0 where
  pub done : c.ended ≡ true → c.failed ≡ false → c.left ≡ 0

abbrev pub AllDone : List Channel → Type 0
AllDone [] = Unit {0}
AllDone (c ∷ cs) = IsDone c × AllDone cs

step-counts :
    (e : Event) (c : Channel) (s : Shared)
    → (let r = step e c s in
        (length r.1.calls + r.0.left ≡ length s.calls + c.left)
        × (r.1.limit + count c.ended ≡ s.limit + count r.0.ended)
        × (r.1.duration.num_of_req ≡ s.duration.num_of_req))
unfolding step
step-counts (launch size) c s = ground arith
step-counts (returned ok) c s = ground arith

step-bytes :
    (e : Event) (c : Channel) (s : Shared)
    → s.duration.total_bytes ≡ bytes_of s.calls % 2 ^ 64
    → (step e c s).1.duration.total_bytes ≡ bytes_of (step e c s).1.calls % 2 ^ 64
unfolding step
step-bytes (launch size) c s h = ground arith
step-bytes (returned ok) c s h = ground arith

step-IsDone : (e : Event) (c : Channel) (s : Shared) → IsDone c → IsDone (step e c s).0
unfolding step
step-IsDone (launch size) c s p = let done = p.done in record { done = λ a b. ground arith }
step-IsDone (returned ok) c s p = let done = p.done in record { done = λ a b. ground arith }

set-AllDone :
    (cs : List Channel) (i : ℕ) (c : Channel) → AllDone cs → IsDone c → AllDone (set cs i c)
set-AllDone [] i c p q = tt
set-AllDone (x ∷ cs) zero c (p, ps) q = (q, ps)
set-AllDone (x ∷ cs) (suc i) c (p, ps) q = (p, set-AllDone cs i c ps q)

at-IsDone :
    (cs : List Channel) (i : ℕ) (c : Channel) → AllDone cs → get_elem? cs i ≡ some c → IsDone c
at-IsDone [] i c p e = cc
at-IsDone (x ∷ cs) zero c (p, ps) e = let same : x ≡ c = cc in subst IsDone same p
at-IsDone (x ∷ cs) (suc i) c (p, ps) e = at-IsDone cs i c ps e

-- The state of a benchmark of `n` channels with `reqs` calls each
pub record IsCounted (n reqs : ℕ) (b : Benchmark) : Type 0 where
  pub channels : length b.channels ≡ n
  pub calls : length b.shared.calls + sum_by left_of b.channels ≡ n * reqs
  pub units : b.shared.limit ≡ sum_by ended_of b.channels
  pub bytes : b.shared.duration.total_bytes ≡ bytes_of b.shared.calls % 2 ^ 64
  pub num_of_req : b.shared.duration.num_of_req ≡ reqs
  pub done : AllDone b.channels

step_found-IsCounted :
    (n reqs i : ℕ) (e : Event) (b : Benchmark) (c : Channel)
    → get_elem? b.channels i ≡ some c
    → IsCounted n reqs b
    → IsCounted n reqs (step_found i e b (some c))
unfolding step_found
step_found-IsCounted n reqs i e b c at p =
    let r = step e c b.shared in
    let (calls, units, same) = step-counts e c b.shared in
    record {
      channels = length-set b.channels i r.0 ∙ p.channels;
      calls = omega (arith, calls, p.calls, sum_by-set left_of b.channels i c r.0 at);
      units = omega (arith, units, p.units, sum_by-set ended_of b.channels i c r.0 at);
      bytes = step-bytes e c b.shared p.bytes;
      num_of_req = same ∙ p.num_of_req;
      done =
          set-AllDone b.channels i r.0 p.done
            (step-IsDone e c b.shared (at-IsDone b.channels i c p.done at));
    }

step_at-IsCounted :
    (n reqs i : ℕ) (e : Event) (b : Benchmark)
    → IsCounted n reqs b
    → IsCounted n reqs (step_at i e b)
unfolding step_at step_found
step_at-IsCounted n reqs i e b p = elim (Option-cases (get_elem? b.channels i)) [
  | inl missing ↦ subst (λ o. IsCounted n reqs (step_found i e b o)) (sym missing) p
  | inr (c, at) ↦
      subst (λ o. IsCounted n reqs (step_found i e b o)) (sym at)
        (step_found-IsCounted n reqs i e b c at p)
]

pub run-IsCounted :
    (n reqs : ℕ) (es : List (ℕ × Event)) (b : Benchmark)
    → IsCounted n reqs b
    → IsCounted n reqs (run es b)
unfolding run
run-IsCounted n reqs [] b p = p
run-IsCounted n reqs ((i, e) ∷ es) b p =
    run-IsCounted n reqs es (step_at i e b) (step_at-IsCounted n reqs i e b p)

pub replicate-left : (n : ℕ) (c : Channel) → sum_by left_of (replicate n c) ≡ n * c.left
replicate-left zero c = omega arith
replicate-left (suc n) c = ground (arith, replicate-left n c)

pub replicate-ended : (n : ℕ) (c : Channel) → c.ended ≡ false → sum_by ended_of (replicate n c) ≡ 0
replicate-ended zero c h = refl
replicate-ended (suc n) c h = ground (arith, replicate-ended n c h)

pub replicate-length : (n : ℕ) (c : Channel) → length (replicate n c) ≡ n
replicate-length zero c = refl
replicate-length (suc n) c = ap suc (replicate-length n c)

pub replicate-AllDone : (n : ℕ) (c : Channel) → c.ended ≡ false → AllDone (replicate n c)
replicate-AllDone zero c h = tt
replicate-AllDone (suc n) c h = (record { done = λ a. absurd (cc (a, h)) }, replicate-AllDone n c h)
