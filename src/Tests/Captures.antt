-- ===== src/Tests/Captures.antt =====
-- The capture backends on concrete inputs.
use smart_bandwidth_optimize.Base.{
  ℕ, ◌+◌, ◌*◌, ◌/◌, ◌%◌, ◌≤◌, ◌≡◌, refl, arith, Bool, some, List, [], ◌∷◌, length, ltb,
}
use smart_bandwidth_optimize.Base.Text.{Bytes, codes}
use smart_bandwidth_optimize.Base.Int.{pos}
use smart_bandwidth_optimize.Base.Fixed.{Fixed, fixed_float}
use smart_bandwidth_optimize.Capture.{CapturedPacket, CaptureStats, no_stats}
use smart_bandwidth_optimize.Capture.Datagrams.{Parsed, parsed, index_error, byte, parse_ip_packet}
use smart_bandwidth_optimize.Capture.Datagrams.Layout.{Header, Segment, tcp, datagram, proto_of}
use smart_bandwidth_optimize.Capture.Datagrams.RoundTrip.{
  source_port, destination_port, payload_of, packet_with, parse_ip_packet-datagram,
}
use smart_bandwidth_optimize.Capture.Datagrams.Lengths.{parse_ip_packet-index_error}
use smart_bandwidth_optimize.Capture.Pcap.{ScapyPacket, live_sniff}
use smart_bandwidth_optimize.Capture.Pcap.Frames.{live_sniff-ends}
use smart_bandwidth_optimize.Capture.Nfqueue.{NfQueueCapture, Frame, callbacks}
use smart_bandwidth_optimize.Capture.Nfqueue as Nfqueue
use smart_bandwidth_optimize.Capture.Nfqueue.Frames.{IsHandled, callbacks_lem}

abbrev header : Header
header = record {
  tos = 0;
  length_high = 0;
  length_low = 44;
  id_high = 0;
  id_low = 1;
  flags_high = 64;
  flags_low = 0;
  ttl = 64;
  sum_high = 0;
  sum_low = 0;
  src = (10, 0, 0, 1);
  dst = (10, 0, 0, 2);
}

-- A request from port 40000 to port 443, with four bytes of options in the TCP header.
abbrev request : Segment
request =
    tcp 40_000 443 (0 ∷ 0 ∷ 0 ∷ 1 ∷ 0 ∷ 0 ∷ 0 ∷ 0 ∷ []) 1 0 (24 ∷ 4 ∷ 0 ∷ 0 ∷ 0 ∷ 0 ∷ 0 ∷ [])
      (2 ∷ 4 ∷ 5 ∷ 180 ∷ []) (codes "GET /")

parse_ip_packet-datagram_example :
    let raw = datagram header 0 [] request in
    ◌≡◌ {A = Parsed Fixed} (parse_ip_packet raw) (
      parsed (
        packet_with header
          (proto_of request)
          (length raw)
          (source_port request)
          (destination_port request)
          (payload_of request)))
parse_ip_packet-datagram_example =
    parse_ip_packet-datagram header 0 [] request (omega arith) refl
      (refl, omega arith, omega arith, refl, refl)

-- A fragment with the first eight bytes of a TCP header.
abbrev truncated : Bytes
truncated =
    69 ∷ 0 ∷ 0 ∷ 28 ∷ 0 ∷ 1 ∷ 32 ∷ 0 ∷ 64 ∷ 6 ∷ 0 ∷ 0 ∷ 10 ∷ 0 ∷ 0 ∷ 1 ∷ 10 ∷ 0 ∷ 0 ∷ 2 ∷ 156 ∷ 64
    ∷ 1 ∷ 187 ∷ 0 ∷ 0 ∷ 0 ∷ 1 ∷ []

parse_ip_packet-index_error_example :
    let ihl = byte truncated 0 % 16 * 4 in
    (◌≡◌ {A = Parsed Fixed} (parse_ip_packet truncated) index_error
      → (20 ≤ length truncated)
        × (byte truncated 0 / 16 % 16 ≡ 4)
        × (byte truncated 9 ≡ 6)
        × (ihl + 8 ≤ length truncated)
        × (length truncated ≤ ihl + 12))
    × (20 ≤ length truncated
        → byte truncated 0 / 16 % 16 ≡ 4
        → byte truncated 9 ≡ 6
        → ihl + 8 ≤ length truncated
        → length truncated ≤ ihl + 12
        → ◌≡◌ {A = Parsed Fixed} (parse_ip_packet truncated) index_error)
parse_ip_packet-index_error_example = parse_ip_packet-index_error truncated

abbrev runs_thrice : ℕ → Bool
runs_thrice j = ltb j 3

abbrev clock : ℕ → Fixed
clock i = pos i

abbrev no_frames : ℕ → List ScapyPacket × ℕ
no_frames s = ([], s + 1)

live_sniff-ends_example :
    (r : List (CapturedPacket ℕ Fixed) × CaptureStats) × (live_sniff
        (codes "eth0")
        runs_thrice
        clock
        no_frames
        4
        0
        0
        no_stats
      ≡ some r)
    × (r.1.packets_captured ≡ 0 + length r.0)
live_sniff-ends_example =
    live_sniff-ends ℕ (codes "eth0") runs_thrice clock no_frames 3 (λ j h. ground arith) 4 0 0
      no_stats (omega arith) (omega arith)

abbrev queue : NfQueueCapture ℕ Fixed
queue = Nfqueue.start (Nfqueue.init (codes "nfqueue"))

abbrev frames : List (Frame ℕ Fixed)
frames = (1, datagram header 0 [] request, pos 5) ∷ (2, [], pos 6) ∷ (3, truncated, pos 7) ∷ []

callbacks_lem_example : IsHandled queue frames (callbacks queue frames).0 (callbacks queue frames).1
callbacks_lem_example = callbacks_lem queue frames
