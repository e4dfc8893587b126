-- ===== src/Evaluation/Latency/Percentiles.antt =====
-- The statistics of evaluation/run_latency_benchmark.py lie between the least and the greatest sample, and
-- its loop takes the samples that it was asked for.
use privacy_gateway_llm_appl.Prelude.{
  ℕ, zero, suc, ◌+◌, ◌-◌, ◌≤◌, ◌<◌, List, [], ◌∷◌, ◌++◌, ◌≡◌, inl, inr, refl, sym, ap, ◌∙◌, All,
  length, ltb, leb, if◌then◌else◌, Bool-cases, arith, subst,
}
use privacy_gateway_llm_appl.Errors.{Result, ok, ok-injective}
use privacy_gateway_llm_appl.Audit.Recovery.{length-snoc}
use privacy_gateway_llm_appl.Evaluation.Latency.{
  warmup, Arithmetic, insert_sample, sorted_samples, min, sample_at, Stats, stats_of, stats,
  repeat_fn, sample_loop, bench,
}

-- The functions of statistics return for data that is not empty, and rounding keeps the order.
pub record IsStatistics (py : Arithmetic) : Type 0 where
  pub median : (y : ℕ) (ys : List ℕ) → (m : ℕ) × (py.median (y ∷ ys) ≡ ok m)
  pub fmean : (y : ℕ) (ys : List ℕ) → (m : ℕ) × (py.fmean (y ∷ ys) ≡ ok m)
  pub pstdev : (y : ℕ) (ys : List ℕ) → (m : ℕ) × (py.pstdev (y ∷ ys) ≡ ok m)
  pub monotone : (a b : ℕ) → a ≤ b → py.round2 a ≤ py.round2 b

abbrev IsSorted : List ℕ → Type 0
IsSorted [] = Unit
IsSorted (x ∷ xs) = All (λ y. x ≤ y) xs × IsSorted xs

insert_sample-above :
    (z x : ℕ) (ys : List ℕ) → z ≤ x → All (λ y. z ≤ y) ys → All (λ y. z ≤ y) (insert_sample x ys)
unfolding insert_sample
insert_sample-above z x [] le h = (le, tt)
insert_sample-above z x (y ∷ ys) le (h, hs) = elim (Bool-cases (leb x y)) [
  | inl first ↦ rw (insert_sample, first) (le, (h, hs))
  | inr later ↦ rw (insert_sample, later) (h, insert_sample-above z x ys le hs)
]

above_trans : (x y : ℕ) (ys : List ℕ) → x ≤ y → All (λ z. y ≤ z) ys → All (λ z. x ≤ z) ys
above_trans x y [] le h = tt
above_trans x y (z ∷ ys) le (h, hs) = (omega arith, above_trans x y ys le hs)

insert_sample-IsSorted : (x : ℕ) (ys : List ℕ) → IsSorted ys → IsSorted (insert_sample x ys)
unfolding insert_sample
insert_sample-IsSorted x [] h = (tt, tt)
insert_sample-IsSorted x (y ∷ ys) (above, h) = elim (Bool-cases (leb x y)) [
  | inl first ↦
      let le : x ≤ y = ground arith in
      rw (insert_sample, first) ((le, above_trans x y ys le above), (above, h))
  | inr later ↦
      let le : y ≤ x = ground arith in
      rw (insert_sample, later) (insert_sample-above y x ys le above, insert_sample-IsSorted x ys h)
]

sorted_samples-IsSorted : (xs : List ℕ) → IsSorted (sorted_samples xs)
unfolding sorted_samples
sorted_samples-IsSorted [] = tt
sorted_samples-IsSorted (x ∷ xs) =
    insert_sample-IsSorted x (sorted_samples xs) (sorted_samples-IsSorted xs)

length-insert_sample : (x : ℕ) (ys : List ℕ) → length (insert_sample x ys) ≡ 1 + length ys
unfolding insert_sample
length-insert_sample x [] = refl
length-insert_sample x (y ∷ ys) = let later = length-insert_sample x ys in ground (arith, later)

length-sorted_samples : (xs : List ℕ) → length (sorted_samples xs) ≡ length xs
unfolding sorted_samples
length-sorted_samples [] = refl
length-sorted_samples (x ∷ xs) =
    let first = length-insert_sample x (sorted_samples xs) in
    let rest = length-sorted_samples xs in omega arith

sample_at_lem :
    (z : ℕ) (xs : List ℕ) (k : ℕ)
    → All (λ y. z ≤ y) xs
    → k < length xs
    → (a : ℕ) × (sample_at xs k ≡ ok a) × (z ≤ a)
unfolding sample_at
sample_at_lem z [] k above lt = absurd (omega arith)
sample_at_lem z (x ∷ xs) zero (h, hs) lt = (x, refl, h)
sample_at_lem z (x ∷ xs) (suc k) (h, hs) lt = sample_at_lem z xs k hs (omega arith)

-- A later element of a sorted list is no less.
sample_at_mono :
    (xs : List ℕ) (i j : ℕ)
    → IsSorted xs
    → i ≤ j
    → j < length xs
    → (a : ℕ) × (b : ℕ) × (sample_at xs i ≡ ok a) × (sample_at xs j ≡ ok b) × (a ≤ b)
unfolding sample_at
sample_at_mono [] i j h le lt = absurd (omega arith)
sample_at_mono (x ∷ xs) zero zero h le lt = (x, x, refl, refl, omega arith)
sample_at_mono (x ∷ xs) zero (suc j) (above, h) le lt =
    let (b, e, q) = sample_at_lem x xs j above (omega arith) in (x, b, refl, e, q)
sample_at_mono (x ∷ xs) (suc i) zero h le lt = absurd (omega arith)
sample_at_mono (x ∷ xs) (suc i) (suc j) (above, h) le lt =
    sample_at_mono xs i j h (omega arith) (omega arith)

not_empty : (ys : List ℕ) (n : ℕ) → length ys ≡ suc n → (z : ℕ) × (zs : List ℕ) × (ys ≡ z ∷ zs)
not_empty [] n e = absurd (omega arith)
not_empty (z ∷ zs) n e = (z, zs, refl)

min-le : (a b : ℕ) → min a b ≤ a
min-le a b = ground arith

-- What is said of a result for `n` samples.
pub record IsOrdered (n : ℕ) (r : Stats) : Type 0 where
  pub count : r.count ≡ n
  pub above_least : r.min_ms ≤ r.p95_ms
  pub below_greatest : r.p95_ms ≤ r.max_ms

module _ (py : Arithmetic) (lib : IsStatistics py) where
  deviation :
      (z : ℕ) (zs : List ℕ)
      → (d : ℕ) × ((if ltb 1 (length (z ∷ zs)) then py.pstdev (z ∷ zs) else ok 0) ≡ ok d)
  deviation z zs = elim (Bool-cases (ltb 1 (length (z ∷ zs)))) [
    | inl several ↦ let (d, e) = lib.pstdev z zs in (d, rw several e)
    | inr single ↦ (0, rw single refl)
  ]

  stats_of-IsOrdered :
      (n z : ℕ) (zs : List ℕ)
      → IsSorted (z ∷ zs)
      → (r : Stats) × (stats_of py n (z ∷ zs) ≡ ok r) × IsOrdered n r
  unfolding stats_of
  stats_of-IsOrdered n z zs h =
      let last = length (z ∷ zs) - 1 in
      let k = min last (py.round95 last) in
      let within : k ≤ last = min-le last (py.round95 last) in
      let (a, p, at_least, at_p, low) = sample_at_mono (z ∷ zs) 0 k h (omega arith) (omega arith) in
      let (p', b, at_p', at_greatest, high) =
        sample_at_mono (z ∷ zs) k last h within (omega arith) in
      let p_p' : p ≡ p' = ok-injective (sym at_p ∙ at_p') in
      let (m, median) = lib.median z zs in
      let (mean, fmean) = lib.fmean z zs in
      let (d, spread) = deviation z zs in
      (
        record {
          count = n;
          warmup_discarded = warmup;
          median_ms = py.round2 m;
          mean_ms = py.round2 mean;
          p95_ms = py.round2 p;
          min_ms = py.round2 a;
          max_ms = py.round2 b;
          stdev_ms = if ltb 1 (length (z ∷ zs)) then py.round2 d else 0;
        },
        rw (median, fmean, at_p, at_least, at_greatest, spread) refl,
        record {
          count = refl;
          above_least = lib.monotone a p low;
          below_greatest = lib.monotone p b (rw (← p_p') at high);
        },
      )

  pub stats-IsOrdered :
      (x : ℕ) (xs : List ℕ)
      → (r : Stats) × (stats py (x ∷ xs) ≡ ok r) × IsOrdered (length (x ∷ xs)) r
  unfolding stats
  stats-IsOrdered x xs =
      let samples = x ∷ xs in
      let (z, zs, same) =
        not_empty (sorted_samples samples) (length xs) (length-sorted_samples samples) in
      subst
        (λ ys.
          (r : Stats) × (stats_of py (length samples) ys ≡ ok r) × IsOrdered (length samples) r)
        (sym same)
        (stats_of-IsOrdered (length samples) z zs
          (subst IsSorted same (sorted_samples-IsSorted samples)))

-- A function whose calls are counted in the state, that returns, and a clock that leaves the count alone.
pub record IsCounted {S : Type 0} (fn : S → Result S) (perf_counter : S → ℕ × S) (calls : S → ℕ)
    : Type 0 where
  pub returns : (s : S) → (s' : S) × (fn s ≡ ok s') × (calls s' ≡ 1 + calls s)
  pub clock : (s : S) → calls (perf_counter s).1 ≡ calls s

module _ {S : Type 0} (py : Arithmetic) (fn : S → Result S) (perf_counter : S → ℕ × S)
    (calls : S → ℕ) (counted : IsCounted fn perf_counter calls) where
  repeat_fn_lem :
      (n : ℕ) (s : S)
      → (s' : S) × (repeat_fn py fn perf_counter n s ≡ ok s') × (calls s' ≡ n + calls s)
  unfolding repeat_fn
  repeat_fn_lem zero s = (s, refl, omega arith)
  repeat_fn_lem (suc n) s =
      let (s1, e, one) = counted.returns s in
      let (s', f, more) = repeat_fn_lem n s1 in (s', rw (repeat_fn, e) f, omega arith)

  sample_loop_lem :
      (n : ℕ) (s : S) (samples : List ℕ)
      → (more : List ℕ) × (s' : S) × (sample_loop py fn perf_counter n s samples ≡ ok (more, s'))
        × (length more ≡ n + length samples)
        × (calls s' ≡ n + calls s)
  unfolding sample_loop
  sample_loop_lem zero s samples = (samples, s, refl, omega arith, omega arith)
  sample_loop_lem (suc n) s samples =
      let start = (perf_counter s).0 in
      let before = counted.clock s in
      let (s1, e, one) = counted.returns (perf_counter s).1 in
      let after = counted.clock s1 in
      let sample = py.elapsed_ms start (perf_counter s1).0 in
      let (more, s', f, count, made) =
        sample_loop_lem n (perf_counter s1).1 (samples ++ sample ∷ []) in
      let longer = length-snoc samples sample in
      (more, s', rw (sample_loop, e) f, omega arith, omega arith)

  -- The benchmark of a function that returns calls it for each iteration and five times before, and
  -- reports as many samples as iterations, of which there is at least one; the 95th percentile that it
  -- reports lies between the least and the greatest. The functions of statistics are taken to return
  -- for data that is not empty, and rounding to keep the order; 0.95 * k may be rounded anyhow.
  pub bench-IsOrdered :
      (n : ℕ) (s : S)
      → IsStatistics py
      → (r : Stats) × (s' : S) × (bench py fn perf_counter (suc n) s ≡ ok (r, s'))
        × IsOrdered (suc n) r
        × (calls s' ≡ warmup + (suc n + calls s))
  unfolding bench
  bench-IsOrdered n s lib =
      let (s1, warm, first) = repeat_fn_lem warmup s in
      let (samples, s2, taken, count, more) = sample_loop_lem (suc n) s1 [] in
      let total : length samples ≡ suc n = omega arith in
      let (z, zs, same) = not_empty samples n total in
      let (r, made, ordered) = stats-IsOrdered py lib z zs in
      (
        r,
        s2,
        rw (warm, taken, same, made) refl,
        subst (λ k. IsOrdered k r) (sym (ap length same) ∙ total) ordered,
        omega arith,
      )
