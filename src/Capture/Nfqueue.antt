-- ===== src/Capture/Nfqueue.antt =====
-- bandwidth_optimizer/capture/nfqueue_capture.py: packets that netfilter intercepts. `H` is the type of
-- netfilter's packet objects; those that `_callback` accepts are kept in `accepted`. A frame is such an
-- object, its bytes and the time.
pub mod Frames
use smart_bandwidth_optimize.Base.{
  ℕ, ◌+◌, Bool, true, false, not, Option, none, some, List, [], ◌∷◌, ◌++◌, if◌then◌else◌,
}
use smart_bandwidth_optimize.Base.Text.{Text, Bytes}
use smart_bandwidth_optimize.Base.Float.{Float}
use smart_bandwidth_optimize.Classifier.{Packet}
use smart_bandwidth_optimize.Capture.{
  CapturedPacket, CaptureStats, BaseCapture, record_captured, record_dropped,
}
use smart_bandwidth_optimize.Capture.Datagrams.{
  Parsed, parsed, malformed, index_error, parse_ip_packet,
}

-- `is_bound` is that `_nfqueue` is not `None`.
pub record NfQueueCapture (H F : Type 0) : Type 0 where
  pub capture : BaseCapture
  pub is_bound : Bool
  pub pending : List (CapturedPacket H F)
  pub accepted : List H

abbrev pub Frame : Type 0 → Type 0 → Type 0
Frame H F = H × Bytes × F

-- How `packets` leaves off: with `RuntimeError` or the `IndexError` of the parser, since `_running` was
-- false, or waiting for netfilter.
pub data PacketsEnd : Type 0 where
  runtime_error parser_error stopped waiting : PacketsEnd

module _ {H F : Type 0} where
  unfoldable pub init : Text → NfQueueCapture H F
  init interface = record {
    capture = smart_bandwidth_optimize.Capture.init interface;
    is_bound = false;
    pending = [];
    accepted = [];
  }

  unfoldable pub start : NfQueueCapture H F → NfQueueCapture H F
  start q = record q { capture = smart_bandwidth_optimize.Capture.start q.capture; is_bound = true }

  unfoldable pub stop : NfQueueCapture H F → NfQueueCapture H F
  stop q = record q { capture = smart_bandwidth_optimize.Capture.stop q.capture; is_bound = false }

  abbrev pub captured : Text → Packet F → Frame H F → CapturedPacket H F
  captured interface p frame = record {
    packet = p;
    timestamp = frame.2;
    interface = interface;
    raw_frame = some frame.1;
    nfqueue_handle = some frame.0;
  }

module _ {H F : Type 0} ⦃d : Float F⦄ where
  -- `none` is the `IndexError` of the parser.
  unfoldable pub callback : NfQueueCapture H F → Frame H F → Option (NfQueueCapture H F)
  callback q frame = elim (parse_ip_packet frame.1) [
    | malformed ↦ some (record q {
      capture = record q.capture { stats = record_dropped q.capture.stats };
      accepted = q.accepted ++ (frame.0 ∷ []);
    })
    | parsed p ↦ some (record q {
      capture = record q.capture { stats = record_captured p q.capture.stats };
      pending = q.pending ++ (captured q.capture.interface p frame ∷ []);
    })
    | index_error ↦ none
  ]

  -- The calls of one `run_socket`, with the state that an exception leaves.
  unfoldable pub callbacks : NfQueueCapture H F → List (Frame H F) → NfQueueCapture H F × Bool
  callbacks q [] = (q, true)
  callbacks q (frame ∷ frames) = elim (callback q frame) [
    | none ↦ (q, false)
    | some q' ↦ callbacks q' frames
  ]

  -- The loop of `packets`: `running i` is its `i`-th reading of `_running`, and each list of frames is what
  -- one wait brings.
  unfoldable pub packets_from :
      (ℕ → Bool)
      → ℕ
      → NfQueueCapture H F
      → List (List (Frame H F))
      → List (CapturedPacket H F) × NfQueueCapture H F × PacketsEnd
  packets_from running i q [] = ([], q, if running i then waiting else stopped)
  packets_from running i q (frames ∷ batches) =
      let (q', fine) = callbacks q frames in
      let (yielded, final, leaving) =
        packets_from running (i + 1) (record q' { pending = [] }) batches in
      if running i
      then if fine then (q'.pending ++ yielded, final, leaving) else ([], q', parser_error)
      else ([], q, stopped)

  abbrev pub packets :
      (ℕ → Bool)
      → NfQueueCapture H F
      → List (List (Frame H F))
      → List (CapturedPacket H F) × NfQueueCapture H F × PacketsEnd
  packets running q batches =
      if q.is_bound then packets_from running 0 q batches else ([], q, runtime_error)
