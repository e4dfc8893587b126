-- ===== src/Evaluation/Latency/Examples.antt =====
-- A benchmark of evaluation/run_latency_benchmark.py with three iterations, whose state counts the calls and
-- is the clock.
use privacy_gateway_llm_appl.Prelude.{ℕ, ◌+◌, ◌-◌, ◌*◌, List, [], ◌∷◌, ◌≡◌, refl}
use privacy_gateway_llm_appl.Errors.{Result, ok}
use privacy_gateway_llm_appl.Evaluation.Latency.{Arithmetic, Stats, bench, warmup}
use privacy_gateway_llm_appl.Evaluation.Latency.Percentiles.{
  IsStatistics, IsOrdered, IsCounted, bench-IsOrdered,
}

abbrev first_of : List ℕ → Result ℕ
first_of [] = ok 0
first_of (x ∷ xs) = ok x

abbrev coarse : Arithmetic
coarse = record {
  median = first_of;
  fmean = first_of;
  pstdev = first_of;
  round2 = λ x. x;
  round95 = λ k. k;
  elapsed_ms = λ start finish. (finish - start) * 1000;
}

coarse-IsStatistics : IsStatistics coarse
coarse-IsStatistics = record {
  median = λ y ys. (y, refl);
  fmean = λ y ys. (y, refl);
  pstdev = λ y ys. (y, refl);
  monotone = λ a b le. le;
}

abbrev tick : ℕ → Result ℕ
tick s = ok (1 + s)

abbrev look : ℕ → ℕ × ℕ
look s = (s, s)

ticks : IsCounted tick look (λ s. s)
ticks = record { returns = λ s. (1 + s, refl, refl); clock = λ s. refl }

bench-IsOrdered_example :
    (r : Stats) × (s' : ℕ) × (bench coarse tick look 3 0 ≡ ok (r, s'))
    × IsOrdered 3 r
    × (s' ≡ warmup + (3 + 0))
bench-IsOrdered_example = bench-IsOrdered coarse tick look (λ s. s) ticks 2 0 coarse-IsStatistics
