-- ===== src/Benchmark/Latency.antt =====
-- `LatencyStats` of bandwidth_optimizer/benchmark.py. `mean` is `statistics.mean`, and `trunc` is `int` of a
-- float.
pub mod Percentiles
use smart_bandwidth_optimize.Base.{
  ℕ, Bool, Option, none, some, List, [], ◌∷◌, if◌then◌else◌, length, get_elem?, last_from,
}
use smart_bandwidth_optimize.Base.Float.{Float, num, lit}

pub record LatencyStats (F : Type 0) : Type 0 where
  pub min_us : F
  pub mean_us : F
  pub p50_us : F
  pub p95_us : F
  pub p99_us : F
  pub max_us : F
  pub sample_count : ℕ

module _ {F : Type 0} ⦃d : Float F⦄ where
  open d use {le, times}

  unfoldable pub insert_sorted : F → List F → List F
  insert_sorted x [] = x ∷ []
  insert_sorted x (y ∷ ys) = if le x y then x ∷ y ∷ ys else y ∷ insert_sorted x ys

  unfoldable pub sorted : List F → List F
  sorted [] = []
  sorted (x ∷ xs) = insert_sorted x (sorted xs)

  -- `int(n * p)` for a literal of p hundredths.
  abbrev pub rank : (F → ℕ) → ℕ → ℕ → ℕ
  rank trunc n p = trunc (times (num n) (lit p 100))

  -- The statistics of samples in order; `none` is an `IndexError`.
  unfoldable pub of_sorted : (List F → F) → (F → ℕ) → F → List F → Option (LatencyStats F)
  of_sorted mean trunc x xs =
      let s = x ∷ xs in
      let n = length s in
      elim (get_elem? s (rank trunc n 50)) [
        | none ↦ none
        | some p50 ↦ elim (get_elem? s (rank trunc n 95)) [
          | none ↦ none
          | some p95 ↦ elim (get_elem? s (rank trunc n 99)) [
            | none ↦ none
            | some p99 ↦ some (record {
              min_us = x;
              mean_us = mean s;
              p50_us = p50;
              p95_us = p95;
              p99_us = p99;
              max_us = last_from x xs;
              sample_count = n;
            })
          ]
        ]
      ]

  unfoldable pub from_samples : (List F → F) → (F → ℕ) → List F → Option (LatencyStats F)
  from_samples mean trunc samples_us = elim (sorted samples_us) [
    | [] ↦ some (record {
      min_us = num 0;
      mean_us = num 0;
      p50_us = num 0;
      p95_us = num 0;
      p99_us = num 0;
      max_us = num 0;
      sample_count = 0;
    })
    | x ∷ xs ↦ of_sorted mean trunc x xs
  ]
