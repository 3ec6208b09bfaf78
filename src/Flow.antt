-- ===== src/Flow.antt =====
-- bandwidth_optimizer/flow_tracker.py: flows by their direction-independent key, their statistics and
-- scores, and the bounded table of flows. `clock i` is the reading number `i` of `time.monotonic()`
-- during a call.
pub mod Keys
pub mod Scores
pub mod Hints
pub mod Table
pub mod Oldest
use smart_bandwidth_optimize.Base.{
  ℕ, zero, suc, ◌+◌, ◌-◌, Bool, true, false, not, ◌&&◌, Option, none, some, List, [], ◌∷◌, leb, ltb,
  ◌==◌, if◌then◌else◌, length, get_elem?, or_else,
}
use smart_bandwidth_optimize.Base.Int.{ℤ, pos, ◌+ℤ◌}
use smart_bandwidth_optimize.Base.Text.{Text, text_eq, text_le, lower}
use smart_bandwidth_optimize.Base.Float.{Float, num, lit, lt, eq_by, max, min}
use smart_bandwidth_optimize.Base.Dict.{lookup, insert, remove, keep_entries}
use smart_bandwidth_optimize.Config.{TrafficPriority, value, priorities}
use smart_bandwidth_optimize.Classifier.{Packet}

pub record FlowKey : Type 0 where
  pub src_ip : Text
  pub dst_ip : Text
  pub src_port : ℕ
  pub dst_port : ℕ
  pub protocol : Text

-- `<=` on the tuples of an address and a port.
unfoldable pub endpoint_le : Text → ℕ → Text → ℕ → Bool
endpoint_le ip port ip' port' = if text_eq ip ip' then leb port port' else text_le ip ip'

unfoldable pub from_packet : {F : Type 0} → Packet F → FlowKey
unfolding endpoint_le
from_packet p =
    if endpoint_le p.src_ip p.src_port p.dst_ip p.dst_port
    then record {
      src_ip = p.src_ip;
      dst_ip = p.dst_ip;
      src_port = p.src_port;
      dst_port = p.dst_port;
      protocol = lower p.protocol;
    }
    else record {
      src_ip = p.dst_ip;
      dst_ip = p.src_ip;
      src_port = p.dst_port;
      dst_port = p.src_port;
      protocol = lower p.protocol;
    }

unfoldable pub key_eq : FlowKey → FlowKey → Bool
key_eq a b =
    text_eq a.src_ip b.src_ip
    && text_eq a.dst_ip b.dst_ip
    && (a.src_port == b.src_port)
    && (a.dst_port == b.dst_port)
    && text_eq a.protocol b.protocol

pub record FlowRecord (F : Type 0) : Type 0 where
  pub key : FlowKey
  pub first_seen : F
  pub last_seen : F
  pub packet_count : ℕ
  pub byte_count : ℤ
  pub ema_ipt : F
  pub last_pkt_time : F
  pub ema_pkt_size : F
  pub burst_window_start : F
  pub burst_window_pkts : ℕ
  pub max_burst_rate : F
  pub latency_score : F
  pub bandwidth_score : F
  pub burst_score : F
  pub value_coefficient : F

pub record FlowTracker (F : Type 0) : Type 0 where
  pub ttl : F
  pub max_flows : ℕ
  pub boost_threshold : F
  pub demote_threshold : F
  pub table : List (FlowKey × FlowRecord F)

module _ {F : Type 0} ⦃d : Float F⦄ where
  open d use {of_int, plus, minus, times, over, le}

  -- `FlowTracker()`
  unfoldable pub init_tracker : FlowTracker F
  init_tracker = record {
    ttl = num 120;
    max_flows = 65_536;
    boost_threshold = lit 7 10;
    demote_threshold = lit 4 5;
    table = [];
  }

  unfoldable pub new_record : FlowKey → F → F → FlowRecord F
  new_record key first last = record {
    key = key;
    first_seen = first;
    last_seen = last;
    packet_count = 0;
    byte_count = pos 0;
    ema_ipt = num 0;
    last_pkt_time = num 0;
    ema_pkt_size = num 0;
    burst_window_start = num 0;
    burst_window_pkts = 0;
    max_burst_rate = num 0;
    latency_score = num 0;
    bandwidth_score = num 0;
    burst_score = num 0;
    value_coefficient = num 1;
  }

  -- The moving average with weight 0.2, which starts at the first value.
  unfoldable pub ema : F → F → F
  ema old x =
      if eq_by le old (num 0)
      then x
      else plus (times (lit 1 5) x) (times (minus (num 1) (lit 1 5)) old)

  unfoldable pub ipt_factor : F → F
  ipt_factor ema_ipt =
      if lt (num 0) ema_ipt
      then min (num 1) (max (num 0) (minus (num 1) (over (minus ema_ipt (lit 1 100)) (lit 49 100))))
      else num 0

  unfoldable pub refresh_scores : FlowRecord F → FlowRecord F
  refresh_scores r =
      let size_factor = max (num 0) (minus (num 1) (over r.ema_pkt_size (num 1500))) in
      let duration = max (lit 1 1000) (minus r.last_seen r.first_seen) in
      let byte_rate = over (of_int r.byte_count) duration in
      record r {
        latency_score =
            min (num 1)
              (plus (times (lit 3 5) size_factor) (times (lit 2 5) (ipt_factor r.ema_ipt)));
        bandwidth_score = min (num 1) (over byte_rate (num 10_485_760));
        burst_score = min (num 1) (over r.max_burst_rate (num 1000));
      }

  -- The burst window of 0.1 seconds: a packet after its end closes it and opens the next.
  unfoldable pub note_burst : FlowRecord F → F → FlowRecord F
  note_burst r now =
      if lt (lit 1 10) (minus now r.burst_window_start)
      then record r {
        max_burst_rate = max r.max_burst_rate (over (num r.burst_window_pkts) (lit 1 10));
        burst_window_start = now;
        burst_window_pkts = 1;
      }
      else record r { burst_window_pkts = r.burst_window_pkts + 1 }

  unfoldable pub update_record : FlowRecord F → F → Packet F → FlowRecord F
  update_record r now p = refresh_scores (
      note_burst
        (record r {
          last_seen = now;
          packet_count = r.packet_count + 1;
          byte_count = r.byte_count +ℤ p.size_bytes;
          ema_ipt =
              if lt (num 0) r.last_pkt_time
              then ema r.ema_ipt (minus now r.last_pkt_time)
              else r.ema_ipt;
          last_pkt_time = now;
          ema_pkt_size = ema r.ema_pkt_size (of_int p.size_bytes);
        })
        now)

  -- A flow that was idle for more than the time to live.
  unfoldable pub is_live : F → F → FlowKey → FlowRecord F → Bool
  is_live ttl now k r = not (lt ttl (minus now r.last_seen))

  unfoldable pub evict_expired : FlowTracker F → F → FlowTracker F
  evict_expired t now = record t { table = keep_entries (is_live t.ttl now) t.table }

  -- `max` over the keys by idle time; each key reads the clock, from reading `i` on, and the first of
  -- the greatest stays.
  unfoldable pub oldest_from : (ℕ → F) → ℕ → FlowKey → F → List (FlowKey × FlowRecord F) → FlowKey
  oldest_from clock i best idle [] = best
  oldest_from clock i best idle ((k, r) ∷ m) =
      let idle' = minus (clock i) r.last_seen in
      oldest_from clock (i + 1) (if lt idle idle' then k else best)
        (if lt idle idle' then idle' else idle) m

  unfoldable pub evict_oldest :
      (ℕ → F) → List (FlowKey × FlowRecord F) → List (FlowKey × FlowRecord F)
  evict_oldest clock [] = []
  evict_oldest clock ((k, r) ∷ m) =
      remove key_eq (oldest_from clock 1 k (minus (clock 0) r.last_seen) m) ((k, r) ∷ m)

  -- A place for a new flow: the table, and how many times the clock was read.
  unfoldable pub make_room :
      (ℕ → F) → ℕ → List (FlowKey × FlowRecord F) → List (FlowKey × FlowRecord F) × ℕ
  make_room clock max_flows m =
      if leb max_flows (length m) then (evict_oldest clock m, length m) else (m, 0)

  -- `FlowTracker.update`: the tracker, and the flow's record with the packet counted.
  unfoldable pub update : FlowTracker F → (ℕ → F) → Packet F → FlowTracker F × FlowRecord F
  update t clock p =
      let key = from_packet p in
      let live = (evict_expired t (clock 0)).table in
      elim (lookup key_eq key live) [
        | some r ↦
            let r' = update_record r (clock 1) p in
            (record t { table = insert key_eq key r' live }, r')
        | none ↦
            let (room, read) = make_room (λ i. clock (i + 1)) t.max_flows live in
            let r' =
              update_record (new_record key (clock (read + 1)) (clock (read + 2)))
                (clock (read + 3)) p in
            (record t { table = insert key_eq key r' room }, r')
      ]

  unfoldable pub get : FlowTracker F → Packet F → Option (FlowRecord F)
  get t p = lookup key_eq (from_packet p) t.table

  unfoldable pub priority_hint : FlowTracker F → TrafficPriority → FlowRecord F → TrafficPriority
  priority_hint t base r =
      let idx = value base - 1 in
      if le t.boost_threshold r.latency_score && ltb 0 idx
      then or_else (get_elem? priorities (idx - 1)) base
      else if le t.demote_threshold r.bandwidth_score && ltb idx 4
      then or_else (get_elem? priorities (idx + 1)) base
      else base

  unfoldable pub flow_count : FlowTracker F → ℕ
  flow_count t = length t.table

  -- `evict_expired`, with the number of flows that it removed.
  unfoldable pub evict_expired_count : FlowTracker F → F → FlowTracker F × ℕ
  evict_expired_count t now = let t' = evict_expired t now in (t', length t.table - length t'.table)
