-- ===== src/Evaluation/Latency.antt =====
-- evaluation/run_latency_benchmark.py: the timing loop and its statistics. A time is a float of at least 0,
-- a natural number of the unit 2^-1074; the module statistics and the arithmetic on floats are parameters.
pub mod Percentiles
pub mod Examples
use privacy_gateway_llm_appl.Prelude.{
  ℕ, zero, suc, ◌-◌, Text, List, [], ◌∷◌, ◌++◌, ltb, leb, if◌then◌else◌, length,
}
use privacy_gateway_llm_appl.Errors.{Exception, index_error, Result, ok, raise, ◌>>=◌}

-- WARMUP
abbrev pub warmup : ℕ
warmup = 5

-- statistics.median, fmean and pstdev, round(x, 2), round(0.95 * k), and (t1 - t0) * 1000
pub record Arithmetic : Type 0 where
  pub median : List ℕ → Result ℕ
  pub fmean : List ℕ → Result ℕ
  pub pstdev : List ℕ → Result ℕ
  pub round2 : ℕ → ℕ
  pub round95 : ℕ → ℕ
  pub elapsed_ms : ℕ → ℕ → ℕ

-- sorted(..)
unfoldable pub insert_sample : ℕ → List ℕ → List ℕ
insert_sample x [] = x ∷ []
insert_sample x (y ∷ ys) = if leb x y then x ∷ y ∷ ys else y ∷ insert_sample x ys

unfoldable pub sorted_samples : List ℕ → List ℕ
sorted_samples [] = []
sorted_samples (x ∷ xs) = insert_sample x (sorted_samples xs)

abbrev pub min : ℕ → ℕ → ℕ
min a b = if leb a b then a else b

-- ordered[k], for k of at least 0
unfoldable pub sample_at : List ℕ → ℕ → Result ℕ
sample_at [] k = raise index_error
sample_at (x ∷ xs) zero = ok x
sample_at (x ∷ xs) (suc k) = sample_at xs k

pub record Stats : Type 0 where
  pub count : ℕ
  pub warmup_discarded : ℕ
  pub median_ms : ℕ
  pub mean_ms : ℕ
  pub p95_ms : ℕ
  pub min_ms : ℕ
  pub max_ms : ℕ
  pub stdev_ms : ℕ

-- _stats from the second line on, with the index ordered[-1] written as the last one. Without samples p95_index is -1, of which
-- the model has 0; median raises first.
unfoldable pub stats_of : Arithmetic → ℕ → List ℕ → Result Stats
stats_of py count ordered = do
  let last = length ordered - 1
  median ← py.median ordered
  mean ← py.fmean ordered
  p95 ← sample_at ordered (min last (py.round95 last))
  least ← sample_at ordered 0
  greatest ← sample_at ordered last
  deviation ← if ltb 1 (length ordered) then py.pstdev ordered else ok 0
  ok (record {
    count = count;
    warmup_discarded = warmup;
    median_ms = py.round2 median;
    mean_ms = py.round2 mean;
    p95_ms = py.round2 p95;
    min_ms = py.round2 least;
    max_ms = py.round2 greatest;
    stdev_ms = if ltb 1 (length ordered) then py.round2 deviation else 0;
  })

-- _stats
unfoldable pub stats : Arithmetic → List ℕ → Result Stats
stats py samples = stats_of py (length samples) (sorted_samples samples)

module _ {S : Type 0} (py : Arithmetic) (fn : S → Result S) (perf_counter : S → ℕ × S) where
  -- The first loop of _bench.
  unfoldable pub repeat_fn : ℕ → S → Result S
  repeat_fn zero s = ok s
  repeat_fn (suc n) s = fn s >>= λ s'. repeat_fn n s'

  abbrev pub sample_of : ℕ → ℕ × S → ℕ × S
  sample_of start (finish, s) = (py.elapsed_ms start finish, s)

  -- The second loop: the samples.
  unfoldable pub sample_loop : ℕ → S → List ℕ → Result (List ℕ × S)
  sample_loop zero s samples = ok (samples, s)
  sample_loop (suc n) s samples =
      let (start, s0) = perf_counter s in
      fn s0 >>= λ s1.
      let (sample, s2) = sample_of start (perf_counter s1) in
      sample_loop n s2 (samples ++ sample ∷ [])

  -- _bench
  unfoldable pub bench : ℕ → S → Result (Stats × S)
  bench iterations s = repeat_fn warmup s >>= λ s'.
      sample_loop iterations s' [] >>= λ (samples, s''). stats py samples >>= λ r. ok (r, s'')
