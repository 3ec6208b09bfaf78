-- ===== src/Lib.antt =====
-- Smart Bandwidth Optimizer: the packet pipeline of bandwidth_optimizer/ and the parts around it.
--
-- A packet comes in through `SafetyGuard.process` (safety.py) or `SLAMonitor.process` (sla.py), which
-- call `BandwidthOptimizer.process` (optimizer.py). That runs the flow tracker (flow_tracker.py), the
-- classifier (classifier.py), the value policy (value.py), the packet filter (packet_filter.py) and
-- the compressor (compressor.py), in this order, and puts the packet into the bounded priority queue
-- (scheduler.py, or the queue by value of value.py). Packets leave by `dequeue` or `drain`, through
-- the monitor if there is one. The backpressure monitor reads the queue's size. Agents of other nodes
-- report their statistics to the coordinator (coordinator.py), signed as trust.py says: the heartbeat of
-- agent.py. Packets come from a capture backend (capture/), the rules from a YAML policy (policy.py), and
-- the paid features from a licence key (license.py).
--
-- The files, and the code that they model:
--   Base            what the parts share: lists (Base/Lists), integers (Base/Int) on the native
--                   numbers, text (Base/Text), dictionaries (Base/Dict), `float` (Base/Float) and an
--                   instance of it that runs (Base/Fixed), and the values that a parser of YAML or
--                   JSON returns (Base/Dynamic)
--   Heapq           the functions of Python's heapq that the schedulers call: heappush, heappop,
--                   heapify, with `_siftdown` and `_siftup`; Heapq/Laws has what they keep
--   Config          bandwidth_optimizer/config.py
--   Classifier      bandwidth_optimizer/classifier.py, the built-in table in Classifier/Rules
--   Scheduler       bandwidth_optimizer/scheduler.py, generic in the key of an entry, which is the
--                   priority in scheduler.py (Scheduler/Priority) and the negated effective value in
--                   value.py (Value/Key, with the scheduler of values in Value/ValueScheduler);
--                   Scheduler/Reference is the abstract scheduler, a sorted list
--   Filter          bandwidth_optimizer/packet_filter.py
--   Compressor      bandwidth_optimizer/compressor.py
--   Flow            bandwidth_optimizer/flow_tracker.py
--   Policy          bandwidth_optimizer/policy.py: the rules; Policy/Loader has `PolicyLoader`, with
--                   what it checks (Checks) and reads back (RoundTrip), and Mistakes
--   License         bandwidth_optimizer/license.py: License/Keys has the form of a key, and
--                   License/RoundTrip the keys that `generate_trial` makes
--   Value           bandwidth_optimizer/value.py: policy and presets, the losses (Value/Losses), the
--                   tuner (Value/Tuner)
--   Queueing        the optimizer's queue in both modes, with the value tracker
--   Optimizer       bandwidth_optimizer/optimizer.py; Outcome has its results
--   Safety          bandwidth_optimizer/safety.py; Safety/Threads has the threads inside `process`
--   Sla             bandwidth_optimizer/sla.py; Sla/Pressure has the backpressure monitor, and
--                   Sla/Wrapped the monitor around the optimizer
--   Coordinator     bandwidth_optimizer/coordinator.py and bandwidth_optimizer/trust.py
--   Agent           bandwidth_optimizer/agent.py: Agent/Stopping, Agent/Starting, Agent/Restarting
--                   and Agent/Crashing have the threads, Agent/Heartbeat what the coordinator makes of a heartbeat
--   Capture         bandwidth_optimizer/capture/: base.py, with the backends in Capture/Simulated,
--                   Capture/Pcap and Capture/Nfqueue, and `_parse_ip_packet` in Capture/Datagrams
--   Benchmark       bandwidth_optimizer/benchmark.py: the timed pipeline (Benchmark/Timing), the statistics of
--                   latencies (Benchmark/Latency) and the result (Benchmark/Report)
--   Tests           runs on concrete packets, queues and guards
--
-- State is a record, passed from call to call; an operation returns the new state first. A packet
-- that the code changes in place is returned. Where the code raises an exception the model returns
-- none, an `Outcome`, or a `Result` that tells the module's own exception from the others. A call
-- that reads the clock or a random number has the value as an argument; one that reads the clock
-- several times has a function from the number of the reading.
--
-- Parameters: `zlib.compress` and `zlib.decompress` (deflate, inflate), `re.search` (search),
-- HMAC, the clock, `random.random`, the optimizer that a guard wraps, `yaml.safe_load`, `json` and
-- `base64`, the conversions between numbers and text (`Conversions`), scapy's layers and
-- netfilter's frames. What a theorem relies on is a hypothesis of it, such as that `zlib` inflates
-- what it deflates. `float` is the interface `Float`; laws of its order and arithmetic, as they
-- hold for doubles that are finite and divisors that are not zero, are hypotheses (`IsOrder`,
-- `IsFloat`), and Base/Fixed meets them. Integers have no bound in Python, nor here.
--
-- Fuel: `drain` has the length of the queue, and the monitor's `dequeue` one round more than
-- packets wait, since each round takes one out; the sifting of the heap has the position or the
-- length. The capture of a callable has one step for each packet and one more, and the live
-- capture as many as `_running` is read before it stays false.
--
-- Not modelled: stress.py, main.py, api/ and demos/, which are input and output or are left for
-- later; the reading of a policy's file and the opening of capture devices; the locks, since each
-- section under one is a single step; and the methods `to_dict` but that of a licence, which
-- format what the state has. `re.error`, `zlib.error` for a bad compression level and
-- `OverflowError` for an integer beyond the range of `float` are not modelled: the functions that
-- raise them are parameters that return. Letters change case as in ASCII. A pattern of a policy
-- that is no text is refused when it is loaded, with the `TypeError` that `re.search` raises for
-- it later.
pub mod Agent
pub mod Base
pub mod Benchmark
pub mod Capture
pub mod Heapq
pub mod Config
pub mod Classifier
pub mod Scheduler
pub mod Filter
pub mod Compressor
pub mod Outcome
pub mod Safety
pub mod Flow
pub mod License
pub mod Policy
pub mod Value
pub mod Queueing
pub mod Optimizer
pub mod Sla
pub mod Coordinator
pub mod Tests
