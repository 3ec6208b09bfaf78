-- ===== src/Capture/Pcap.antt =====
-- bandwidth_optimizer/capture/pcap_capture.py: frames that scapy read, from a file or sniffed. A frame is
-- what the source asks of scapy: the layers that it finds, their fields, the length and the bytes.
pub mod Frames
use smart_bandwidth_optimize.Base.{
  ℕ, zero, suc, ◌+◌, Bool, true, false, Option, none, some, List, [], ◌∷◌, ◌++◌, if◌then◌else◌,
  length,
}
use smart_bandwidth_optimize.Base.Int.{pos}
use smart_bandwidth_optimize.Base.Text.{Text, Bytes, codes}
use smart_bandwidth_optimize.Base.Float.{Float, num}
use smart_bandwidth_optimize.Classifier.{Packet, post_init}
use smart_bandwidth_optimize.Capture.{CapturedPacket, CaptureStats, record_captured, record_dropped}

-- A TCP or UDP layer.
pub record PortLayer : Type 0 where
  pub sport : ℕ
  pub dport : ℕ
  pub payload : Bytes

-- The addresses of the layers IP and IPv6, and the layers above.
pub record ScapyPacket : Type 0 where
  pub ip : Option (Text × Text)
  pub ipv6 : Option (Text × Text)
  pub tcp : Option PortLayer
  pub udp : Option PortLayer
  pub icmp : Option Bytes
  pub frame : Bytes

-- The layer of the addresses: IP before IPv6.
abbrev pub address_layer : ScapyPacket → Option (Text × Text)
address_layer sp = elim sp.ip [ some l ↦ some l | none ↦ sp.ipv6 ]

-- The protocol, the ports and the payload: TCP before UDP before ICMP.
unfoldable pub transport_layer : ScapyPacket → Text × ℕ × ℕ × Bytes
transport_layer sp = elim sp.tcp [
  | some l ↦ (codes "tcp", l.sport, l.dport, l.payload)
  | none ↦ elim sp.udp [
    | some l ↦ (codes "udp", l.sport, l.dport, l.payload)
    | none ↦ elim sp.icmp [
      | some payload ↦ (codes "icmp", 0, 0, payload)
      | none ↦ (codes "unknown", 0, 0, [])
    ]
  ]
]

module _ {F : Type 0} ⦃d : Float F⦄ where
  unfoldable pub scapy_pkt_to_packet : ScapyPacket → Option (Packet F)
  scapy_pkt_to_packet sp = elim (address_layer sp) [
    | none ↦ none
    | some addresses ↦
        let (protocol, src_port, dst_port, payload) = transport_layer sp in
        some (
          post_init (record {
            src_ip = addresses.0;
            dst_ip = addresses.1;
            src_port = src_port;
            dst_port = dst_port;
            protocol = protocol;
            payload = payload;
            size_bytes = pos (length sp.frame);
            priority = none;
            enqueued_at = none;
            value_coefficient = num 1;
          }))
  ]

-- What the loop over frames leaves: what it yielded, the counters, the number of the next reading, and
-- whether it met the end of the frames.
pub record Pass (H F : Type 0) : Type 0 where
  pub yielded : List (CapturedPacket H F)
  pub stats : CaptureStats
  pub readings : ℕ
  pub finished : Bool

module _ {H F : Type 0} ⦃d : Float F⦄ (interface : Text) (running : ℕ → Bool) (clock : ℕ → F) where
  abbrev pub captured : ℕ → Packet F → ScapyPacket → CapturedPacket H F
  captured i p sp = record {
    packet = p;
    timestamp = clock i;
    interface = interface;
    raw_frame = some sp.frame;
    nfqueue_handle = none;
  }

  abbrev pub yielding : CapturedPacket H F → Pass H F → Pass H F
  yielding c pass = record pass { yielded = c ∷ pass.yielded }

  -- `for sp in pkts`
  unfoldable pub frames_from : ℕ → List ScapyPacket → CaptureStats → Pass H F
  frames_from i [] stats = record { yielded = []; stats = stats; readings = i; finished = true }
  frames_from i (sp ∷ sps) stats =
      let after_drop = frames_from (i + 1) sps (record_dropped stats) in
      let after_yield = λ (p : Packet F). frames_from (i + 1) sps (record_captured p stats) in
      if running i
      then elim (scapy_pkt_to_packet sp) [
        | none ↦ after_drop
        | some p ↦ yielding (captured i p sp) (after_yield p)
      ]
      else record { yielded = []; stats = stats; readings = i + 1; finished = false }

  abbrev pub replay_pcap :
      List ScapyPacket → CaptureStats → List (CapturedPacket H F) × CaptureStats
  replay_pcap pkts stats = let pass = frames_from 0 pkts stats in (pass.yielded, pass.stats)

  -- `sniff` gives the frames of one call. `none` is that the fuel ran out.
  module _ {S : Type 0} (sniff : S → List ScapyPacket × S) where
    unfoldable pub live_sniff :
        ℕ → ℕ → S → CaptureStats → Option (List (CapturedPacket H F) × CaptureStats)
    live_sniff zero i s stats = none
    live_sniff (suc fuel) i s stats =
        let (pkts, s') = sniff s in
        let pass = frames_from (i + 1) pkts stats in
        let rest = live_sniff fuel pass.readings s' pass.stats in
        if running i
        then if pass.finished
          then elim rest [ none ↦ none | some r ↦ some (pass.yielded ++ r.0, r.1) ]
          else some (pass.yielded, pass.stats)
        else some ([], stats)
