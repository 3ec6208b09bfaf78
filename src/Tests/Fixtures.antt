-- ===== src/Tests/Fixtures.antt =====
-- The packets and the components that the tests share, over fixed-point numbers.
use smart_bandwidth_optimize.Base.{ℕ, none, some}
use smart_bandwidth_optimize.Base.Int.{pos}
use smart_bandwidth_optimize.Base.Text.{codes}
use smart_bandwidth_optimize.Base.Fixed.{Fixed, fixed_float}
use smart_bandwidth_optimize.Config.{high, local_server, OptimizerConfig}
use smart_bandwidth_optimize.Classifier.{Packet}
use smart_bandwidth_optimize.Scheduler.{Queue, init}

abbrev pub web : Packet Fixed
web = record {
  src_ip = codes "10.0.0.1";
  dst_ip = codes "10.0.0.2";
  src_port = 40_000;
  dst_port = 443;
  protocol = codes "TCP";
  payload = codes "GET /";
  size_bytes = pos 45;
  priority = some high;
  enqueued_at = none;
  value_coefficient = pos 1000;
}

abbrev pub settings : OptimizerConfig Fixed
settings = record {
  mode = local_server;
  total_bandwidth_bps = 1000;
  bandwidth_budget = λ p. some (pos 200);
  max_queue_size = 2;
  compression_threshold_bytes = 4;
  compression_level = 6;
  token_refill_rate = λ p. none;
  token_bucket_capacity_multiplier = pos 2000;
  red_min_threshold = pos 500;
  red_max_threshold = pos 900;
}

abbrev pub empty : Queue ℕ Fixed
empty = init 2
