-- ===== src/LoadGenerator.antt =====
-- src/include/smf/load_generator.h, load_channel.h, load_generator_args.h and
-- load_generator_duration.h: the counting of requests. A call that a channel makes and its end are
-- events; the client of a channel, what it is called with and the clock are left to them.
pub mod Count
pub mod Calls
use smurf.Prelude.{
  ℕ, ◌+◌, ◌-◌, ◌/◌, ◌%◌, ◌^◌, Bool, true, false, not, ◌&&◌, ◌||◌, Option, none, some, ◌>>=◌, List,
  [], ◌∷◌, ltb, leb, ◌==◌, if◌then◌else◌, get_elem?, set, replicate,
}
use Prim.Native.Nat.{max}

-- load_generator_args, as far as the numbers go
pub record Args : Type 0 where
  pub num_of_req : ℕ
  pub concurrency : ℕ
  pub memory_per_core : ℕ

-- The constructor of load_generator_args; LOG_THROW_IF is none.
unfoldable pub new_args : ℕ → ℕ → ℕ → Option Args
new_args num_of_req concurrency memory_per_core =
    if ltb memory_per_core (2 ^ 24) && ltb 1 concurrency
    then none
    else some (record {
      num_of_req = num_of_req;
      concurrency = concurrency;
      memory_per_core = memory_per_core;
    })

-- load_generator_duration; the times are in nanoseconds.
pub record Duration : Type 0 where
  pub num_of_req : ℕ
  pub test_begin : ℕ
  pub test_end : ℕ
  pub total_bytes : ℕ

unfoldable pub duration_in_millis : Duration → ℕ
duration_in_millis d = (d.test_end - d.test_begin) / 1000000

-- The loop of load_channel::invoke: the calls that are left, whether one is under way, and how the
-- loop ended.
pub record Channel : Type 0 where
  pub left : ℕ
  pub waits : Bool
  pub ended : Bool
  pub failed : Bool

-- load_channel::invoke up to its loop; LOG_THROW_IF is none.
unfoldable pub invoke : ℕ → Option Channel
invoke reqs =
    if reqs == 0
    then none
    else some (record { left = reqs; waits = false; ended = false; failed = false })

-- What the channels of a benchmark share: the units of the semaphore, the duration, and the sizes of
-- the envelopes that were given to the client, the last one first.
pub record Shared : Type 0 where
  pub limit : ℕ
  pub duration : Duration
  pub calls : List ℕ

pub record Benchmark : Type 0 where
  pub channels : List Channel
  pub shared : Shared

-- std::ceil of a quotient of integers is that quotient; none for a division by zero, and for a
-- quotient that is no uint32_t.
unfoldable pub reqs_per_channel : Args → Option ℕ
reqs_per_channel args =
    if (args.concurrency == 0) || leb (2 ^ 32) (args.num_of_req / args.concurrency)
    then none
    else some (max 1 (args.num_of_req / args.concurrency))

-- A benchmark whose channels have all taken a unit of the semaphore; none has to wait for it.
unfoldable pub launched : ℕ → Args → ℕ → Channel → Benchmark
launched now args reqs c = record {
  channels = replicate args.concurrency c;
  shared = record {
    limit = args.concurrency - args.concurrency;
    duration = record { num_of_req = reqs; test_begin = now; test_end = 0; total_bytes = 0 };
    calls = [];
  };
}

-- benchmark, to the start of every loop
unfoldable pub benchmark : ℕ → Args → Option Benchmark
unfolding reqs_per_channel invoke launched
benchmark now args = do
  reqs ← reqs_per_channel args
  c ← invoke reqs
  some (launched now args reqs c)

-- A round of the loop gives the client an envelope of so many bytes, or its call returns, with a
-- value or an exception.
pub data Event : Type 0 where
  launch : ℕ → Event
  returned : Bool → Event

-- .finally([&limit] { limit.signal(1); })
abbrev finished : Bool → Channel → Shared → Channel × Shared
finished failed c s =
    (record c { waits = false; ended = true; failed = failed }, record s { limit = s.limit + 1 })

unfoldable pub step : Event → Channel → Shared → Channel × Shared
step (launch size) c s =
    if not c.ended && (not c.waits && ltb 0 c.left)
    then (
      record c { left = c.left - 1; waits = true },
      record s {
        duration = record s.duration { total_bytes = (s.duration.total_bytes + size) % 2 ^ 64 };
        calls = size ∷ s.calls;
      },
    )
    else (c, s)
step (returned ok) c s =
    if c.ended || not c.waits
    then (c, s)
    else if not ok
    then finished true c s
    else if c.left == 0
    then finished false c s
    else (record c { waits = false }, s)

step_found : ℕ → Event → Benchmark → Option Channel → Benchmark
unfolding step
step_found i e b none = b
step_found i e b (some c) =
    let (c', s') = step e c b.shared in record { channels = set b.channels i c'; shared = s' }

-- An event of the channel with an index
unfoldable pub step_at : ℕ → Event → Benchmark → Benchmark
unfolding step_found
step_at i e b = step_found i e b (get_elem? b.channels i)

unfoldable pub run : List (ℕ × Event) → Benchmark → Benchmark
run [] b = b
run ((i, e) ∷ es) b = run es (step_at i e b)

-- limit.wait(args.concurrency), and then what benchmark returns; none while it waits.
unfoldable pub result : ℕ → Args → Benchmark → Option Duration
result now args b =
    if leb args.concurrency b.shared.limit
    then some (record b.shared.duration { test_end = now })
    else none
