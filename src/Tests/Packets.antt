-- ===== src/Tests/Packets.antt =====
-- Classification, the filter, compression and the flow tracker on concrete inputs.
use smart_bandwidth_optimize.Base.{
  ℕ, ◌≡◌, ◌≢◌, ◌++◌, ◌↔◌, refl, arith, Bool, true, false, Option, none, some, List, [], ◌∷◌,
  if◌then◌else◌,
}
use smart_bandwidth_optimize.Base.Int.{pos, ◌+ℤ◌}
use smart_bandwidth_optimize.Base.Text.{Text, Bytes, codes, text_eq, text_le}
use smart_bandwidth_optimize.Base.Float.{num}
use smart_bandwidth_optimize.Base.Fixed.{Fixed, fixed_float, Fixed-IsFloat, fixed_arithmetic}
use smart_bandwidth_optimize.Config.{high, medium}
use smart_bandwidth_optimize.Classifier.{classify}
use smart_bandwidth_optimize.Classifier.Rules.{default_classifier, default_rules}
use smart_bandwidth_optimize.Classifier.Matching.{Selects, classify-Selects}
use smart_bandwidth_optimize.Compressor.{compress, decompress, is_compressed, magic}
use smart_bandwidth_optimize.Compressor.Laws.{decompress-compress, decompress-compress_magic}
use smart_bandwidth_optimize.Scheduler.{priority_of}
use smart_bandwidth_optimize.Filter.{
  TokenBucket, PacketFilter, keep, drop, rate_limit, is_critical, refill, consume, red_check,
  should_drop,
}
use smart_bandwidth_optimize.Filter.Buckets.{IsFilled, consume_lem}
use smart_bandwidth_optimize.Filter.Decisions.{should_drop_lem}
use smart_bandwidth_optimize.Flow.{
  FlowKey, FlowTracker, FlowRecord, key_eq, from_packet, new_record, update_record, update, get,
}
use smart_bandwidth_optimize.Flow.Scores.{IsScored, update_record-IsScored}
use smart_bandwidth_optimize.Base.Dict.{lookup, IsDistinct}
use smart_bandwidth_optimize.Flow.Table.{IsTracked, update-IsTracked}
use smart_bandwidth_optimize.Tests.Fixtures.{web, settings}

-- A search that finds nothing.
abbrev never : Text → Text → Bool
never pattern text = false

classify-Selects_example :
    (Selects never medium web default_rules high
      ↔ ((classify never default_classifier web).1 ≡ high))
    × ((classify never default_classifier web).0.priority
        ≡ some (classify never default_classifier web).1)
classify-Selects_example = classify-Selects never default_classifier web high

-- A stand-in for the library that changes nothing, and its inverse.
abbrev pack : ℕ → Bytes → Bytes
pack level bytes = bytes

abbrev unpack : Bytes → Option Bytes
unpack bytes = some bytes

-- One that keeps the first byte only.
abbrev squeeze : ℕ → Bytes → Bytes
squeeze level [] = []
squeeze level (b ∷ bs) = b ∷ []

abbrev long : Bytes
long = codes "aaaaaaaaaa"

was_compressed : (compress squeeze settings long none none).was_compressed ≡ true
unfolding compress is_compressed text_eq
was_compressed = refl

is_plain : is_compressed web.payload ≡ false
unfolding is_compressed text_eq
is_plain = refl

decompress-compress_example :
    decompress unpack (compress pack settings web.payload none none).payload ≡ some web.payload
decompress-compress_example =
    decompress-compress pack unpack settings web.payload none none (λ l b. refl) is_plain

decompress-compress_magic_example :
    let sent = compress pack settings (magic ++ pack 6 web.payload) none none in
    (sent.payload ≡ magic ++ pack 6 web.payload)
    × (decompress unpack sent.payload ≡ some web.payload)
    × (decompress unpack sent.payload ≢ some (magic ++ pack 6 web.payload))
decompress-compress_magic_example =
    decompress-compress_magic pack unpack settings web.payload 6 none none (λ l b. refl) (λ e. cc)

abbrev bucket : TokenBucket Fixed
bucket = record {
  refill_rate = pos 100_000;
  capacity = pos 200_000;
  tokens = pos 50_000;
  last_refill = pos 0;
}

bucket-IsFilled : IsFilled bucket
unfolding fixed_arithmetic
bucket-IsFilled = record {
  rate_nonneg = refl;
  tokens_nonneg = refl;
  tokens_le = refl;
  capacity_nonneg = refl;
}

size_nonneg : fixed_float.le (num 0) (fixed_float.of_int (pos 45)) ≡ true
unfolding fixed_arithmetic
size_nonneg = refl

consume_lem_example :
    IsFilled (consume bucket (pos 10) (pos 45)).0
    × ((consume bucket (pos 10) (pos 45)).1
        ≡ fixed_float.le (fixed_float.of_int (pos 45)) (refill bucket (pos 10)).tokens)
    × ((consume bucket (pos 10) (pos 45)).0.tokens ≡ (
        if (consume bucket (pos 10) (pos 45)).1
        then fixed_float.minus (refill bucket (pos 10)).tokens (fixed_float.of_int (pos 45))
        else (refill bucket (pos 10)).tokens))
consume_lem_example =
    consume_lem Fixed-IsFloat bucket (pos 10) (pos 45) refl size_nonneg bucket-IsFilled

abbrev filter : PacketFilter Fixed
filter = record { config = settings; buckets = λ p. bucket; drop_counts = λ p. 0 }

should_drop_lem_example :
    let q = priority_of web in
    let (left, allowed) = consume (filter.buckets q) (pos 10) web.size_bytes in
    ((should_drop filter (some 1) (pos 10) (pos 500) web).1 ≡ (
      if is_critical q
      then keep
      else if allowed
      then red_check filter.config q (some 1) (pos 500)
      else drop (rate_limit q)))
    × ((should_drop filter (some 1) (pos 10) (pos 500) web).0.buckets q ≡ left)
should_drop_lem_example = should_drop_lem filter (some 1) (pos 10) (pos 500) web

abbrev flow : FlowRecord Fixed
flow = record (new_record (from_packet web) (pos 0) (pos 0)) {
  latency_score = pos 800;
  bandwidth_score = pos 900;
}

flow-IsScored : IsScored flow
unfolding fixed_arithmetic new_record
flow-IsScored = record {
  latency = (refl, refl);
  bandwidth = (refl, refl);
  burst = (refl, refl);
  rate = refl;
}

bytes_nonneg :
    fixed_float.le (num 0) (fixed_float.of_int (flow.byte_count +ℤ web.size_bytes)) ≡ true
unfolding fixed_arithmetic new_record
bytes_nonneg = refl

update_record-IsScored_example : IsScored (update_record flow (pos 20) web)
update_record-IsScored_example =
    update_record-IsScored Fixed-IsFloat flow (pos 20) web bytes_nonneg flow-IsScored

abbrev tracker : FlowTracker Fixed
tracker = record {
  ttl = pos 120_000;
  max_flows = 10;
  boost_threshold = pos 700;
  demote_threshold = pos 800;
  table = [];
}

update-IsTracked_example :
    IsTracked (update tracker (λ i. pos i) web).0
    × (get (update tracker (λ i. pos i) web).0 web ≡ some (update tracker (λ i. pos i) web).1)
update-IsTracked_example =
    update-IsTracked tracker (λ i. pos i) web (omega arith)
      (record { distinct = tt; bounded = omega arith })

abbrev ssh_key : FlowKey
ssh_key = record (from_packet web) { dst_port = 22; protocol = codes "ssh" }

abbrev flows : List (FlowKey × FlowRecord Fixed)
flows =
    (ssh_key, record flow { last_seen = pos 7 })
    ∷ (from_packet web, record flow { last_seen = pos 3 })
    ∷ []

flows-IsDistinct : IsDistinct key_eq flows
unfolding lookup key_eq text_eq text_le from_packet
flows-IsDistinct = (refl, (refl, tt))
