-- ===== src/Benchmark/Latency/Percentiles.antt =====
-- The percentiles of the benchmark are in order.
use smart_bandwidth_optimize.Base.{
  ℕ, ◌-◌, Perm, ◌≡◌, true, some, List, [], ◌∷◌, length, get_elem?, last_from, All,
}
use mathlib.Core.List.Perm
use smart_bandwidth_optimize.Base.Float.{Float, IsOrder}
use smart_bandwidth_optimize.Benchmark.Latency.{LatencyStats, sorted, rank}

module _ {F : Type 0} ⦃d : Float F⦄ (order : IsOrder d.le) where
  open d use {le}

  unfoldable pub IsSorted : List F → Type 0
  IsSorted [] = Unit
  IsSorted (x ∷ xs) = All (λ y. le x y ≡ true) xs × IsSorted xs

  -- The percentiles of a list are in order.
  abbrev pub InOrder : LatencyStats F → Type 0
  InOrder s =
      (le s.min_us s.p50_us ≡ true)
      × (le s.p50_us s.p95_us ≡ true)
      × (le s.p95_us s.p99_us ≡ true)
      × (le s.p99_us s.max_us ≡ true)

  -- What the statistics `s` of samples are: in their order `l`, the least sample comes first, the greatest
  -- last, and the percentiles stand at their ranks.
  pub record IsRanked (mean : List F → F) (trunc : F → ℕ) (samples l : List F) (s : LatencyStats F)
      : Type 0 where
    pub items : Perm l samples
    pub sorted : IsSorted l
    pub min : get_elem? l 0 ≡ some s.min_us
    pub p50 : get_elem? l (rank trunc (length samples) 50) ≡ some s.p50_us
    pub p95 : get_elem? l (rank trunc (length samples) 95) ≡ some s.p95_us
    pub p99 : get_elem? l (rank trunc (length samples) 99) ≡ some s.p99_us
    pub max : get_elem? l (length samples - 1) ≡ some s.max_us
    pub average : s.mean_us ≡ mean l
    pub count : s.sample_count ≡ length samples

  abbrev found : (List F → F) → F → List F → F → F → F → LatencyStats F
  found mean x xs a b c = record {
    min_us = x;
    mean_us = mean (x ∷ xs);
    p50_us = a;
    p95_us = b;
    p99_us = c;
    max_us = last_from x xs;
    sample_count = length (x ∷ xs);
  }
