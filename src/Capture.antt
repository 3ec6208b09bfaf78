-- ===== src/Capture.antt =====
-- bandwidth_optimizer/capture: what the capture backends share (base.py). The children are the backends.
-- A reading of `_running`, which another thread may change between two packets, is `running i` for the
-- `i`-th time that a loop reads it, and `clock i` is the time then.
pub mod Simulated
pub mod Pcap
pub mod Datagrams
pub mod Nfqueue
use smart_bandwidth_optimize.Base.{ℕ, ◌+◌, Bool, true, false, Option, List, if◌then◌else◌, ◌==◌}
use smart_bandwidth_optimize.Base.Int.{ℤ, ◌+ℤ◌, pos}
use smart_bandwidth_optimize.Base.Text.{Text, Bytes}
use smart_bandwidth_optimize.Base.Float.{Float, num}
use smart_bandwidth_optimize.Classifier.{Packet}

-- `H` is the type of the handles that NFQUEUE gives.
pub record CapturedPacket (H F : Type 0) : Type 0 where
  pub packet : Packet F
  pub timestamp : F
  pub interface : Text
  pub raw_frame : Option Bytes
  pub nfqueue_handle : Option H

pub record CaptureStats : Type 0 where
  pub packets_captured : ℕ
  pub packets_dropped : ℕ
  pub bytes_captured : ℤ

pub record BaseCapture : Type 0 where
  pub interface : Text
  pub stats : CaptureStats
  pub running : Bool

abbrev pub no_stats : CaptureStats
no_stats = record { packets_captured = 0; packets_dropped = 0; bytes_captured = pos 0 }

unfoldable pub init : Text → BaseCapture
init interface = record { interface = interface; stats = no_stats; running = false }

unfoldable pub start : BaseCapture → BaseCapture
start b = record b { running = true }

unfoldable pub stop : BaseCapture → BaseCapture
stop b = record b { running = false }

unfoldable pub record_captured : {F : Type 0} → Packet F → CaptureStats → CaptureStats
record_captured p s = record s {
  packets_captured = s.packets_captured + 1;
  bytes_captured = s.bytes_captured +ℤ p.size_bytes;
}

unfoldable pub record_dropped : CaptureStats → CaptureStats
record_dropped s = record s { packets_dropped = s.packets_dropped + 1 }

unfoldable pub drop_rate : {F : Type 0} ⦃d : Float F⦄ → CaptureStats → F
drop_rate ⦃d⦄ s =
    let total = s.packets_captured + s.packets_dropped in
    if total == 0 then num 0 else d.over (num s.packets_dropped) (num total)
