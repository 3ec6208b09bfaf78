-- ===== src/Capture/Nfqueue/Frames.antt =====
-- What becomes of the frames that netfilter hands over.
use smart_bandwidth_optimize.Base.{
  ◌+◌, ◌≡◌, ◌≢◌, All, refl, ap, sym, ◌∙◌, Bool, true, false, List, [], ◌∷◌, ◌++◌, length, arith,
  ◌⊎◌, inl, inr,
}
use mathlib.Core.List.{append-nil, append_assoc}
use smart_bandwidth_optimize.Base.Text.{Text}
use smart_bandwidth_optimize.Base.Float.{Float}
use smart_bandwidth_optimize.Classifier.{Packet}
use smart_bandwidth_optimize.Capture.{CapturedPacket, record_captured, record_dropped}
use smart_bandwidth_optimize.Capture.Datagrams.{
  Parsed, parsed, malformed, index_error, parse_ip_packet,
}
use smart_bandwidth_optimize.Capture.Nfqueue.{NfQueueCapture, Frame, captured, callback, callbacks}

Parsed-cases :
    {F : Type 0} (r : Parsed F)
    → ((p : Packet F) × (r ≡ parsed p)) ⊎ ((r ≡ malformed) ⊎ (r ≡ index_error))
Parsed-cases (parsed p) = inl (p, refl)
Parsed-cases malformed = inr (inl refl)
Parsed-cases index_error = inr (inr refl)

module _ {H F : Type 0} ⦃d : Float F⦄ where
  -- The packets and the handles that a list of frames comes to.
  unfoldable pub captured_all : Text → List (Frame H F) → List (CapturedPacket H F)
  captured_all interface [] = []
  captured_all interface (frame ∷ frames) = elim (parse_ip_packet frame.1) [
    | parsed p ↦ captured interface p frame ∷ captured_all interface frames
    | malformed ↦ captured_all interface frames
    | index_error ↦ captured_all interface frames
  ]

  unfoldable pub accepted_all : List (Frame H F) → List H
  accepted_all [] = []
  accepted_all (frame ∷ frames) = elim (parse_ip_packet {F = F} frame.1) [
    | malformed ↦ frame.0 ∷ accepted_all frames
    | parsed p ↦ accepted_all frames
    | index_error ↦ accepted_all frames
  ]

  captured_all_malformed :
      (interface : Text) (frame : Frame H F) (frames : List (Frame H F))
      → ◌≡◌ {A = Parsed F} (parse_ip_packet frame.1) malformed
      → (captured_all interface (frame ∷ frames) ≡ captured_all interface frames)
        × (accepted_all (frame ∷ frames) ≡ frame.0 ∷ accepted_all frames)
  unfolding captured_all accepted_all
  captured_all_malformed interface frame frames e =
      (rw (captured_all, e) refl, rw (accepted_all, e) refl)

  captured_all_parsed :
      (interface : Text) (p : Packet F) (frame : Frame H F) (frames : List (Frame H F))
      → parse_ip_packet frame.1 ≡ parsed p
      → (captured_all interface (frame ∷ frames)
          ≡ captured interface p frame ∷ captured_all interface frames)
        × (accepted_all (frame ∷ frames) ≡ accepted_all frames)
  unfolding captured_all accepted_all
  captured_all_parsed interface p frame frames e =
      (rw (captured_all, e) refl, rw (accepted_all, e) refl)

  -- What a run of `_callback` did: the frames that it handled, in order, none of which makes the parser
  -- raise, each either pending and counted as captured or accepted and counted as dropped, and what
  -- stopped it.
  pub record IsHandled (q : NfQueueCapture H F) (frames : List (Frame H F))
      (q' : NfQueueCapture H F) (fine : Bool) : Type 0 where
    pub handled : List (Frame H F)
    pub rest : List (Frame H F)
    pub split : frames ≡ handled ++ rest
    pub readable : All (λ f. ◌≢◌ {A = Parsed F} (parse_ip_packet f.1) index_error) handled
    pub same : q'.capture.interface ≡ q.capture.interface
    pub pending : q'.pending ≡ q.pending ++ captured_all q.capture.interface handled
    pub accepted : q'.accepted ≡ q.accepted ++ accepted_all handled
    pub captured :
        q'.capture.stats.packets_captured
        ≡ q.capture.stats.packets_captured + length (captured_all q.capture.interface handled)
    pub dropped :
        q'.capture.stats.packets_dropped
        ≡ q.capture.stats.packets_dropped + length (accepted_all handled)
    pub leaving :
        ((fine ≡ true) × (rest ≡ []))
        ⊎ ((fine ≡ false)
            × (frame : Frame H F) × (tail : List (Frame H F)) × (rest ≡ frame ∷ tail)
            × ◌≡◌ {A = Parsed F} (parse_ip_packet frame.1) index_error)

  with_drop : NfQueueCapture H F → Frame H F → NfQueueCapture H F
  with_drop q frame = record q {
    capture = record q.capture { stats = record_dropped q.capture.stats };
    accepted = q.accepted ++ (frame.0 ∷ []);
  }

  with_packet : NfQueueCapture H F → Packet F → Frame H F → NfQueueCapture H F
  with_packet q p frame = record q {
    capture = record q.capture { stats = record_captured p q.capture.stats };
    pending = q.pending ++ (captured q.capture.interface p frame ∷ []);
  }

  -- One frame more in front.
  after_drop :
      {q q' : NfQueueCapture H F} {fine : Bool} (frame : Frame H F) {frames : List (Frame H F)}
      → ◌≡◌ {A = Parsed F} (parse_ip_packet frame.1) malformed
      → IsHandled (with_drop q frame) frames q' fine
      → IsHandled q (frame ∷ frames) q' fine
  unfolding record_dropped with_drop
  after_drop {q} frame e h =
      let (more, less) = captured_all_malformed q.capture.interface frame h.handled e in
      record {
        handled = frame ∷ h.handled;
        rest = h.rest;
        split = ap (◌∷◌ frame) h.split;
        readable = (λ bad. cc, h.readable);
        same = h.same;
        pending = rw more h.pending;
        accepted =
            rw less (h.accepted ∙ append_assoc q.accepted (frame.0 ∷ []) (accepted_all h.handled));
        captured = rw more h.captured;
        dropped = rw less (omega (arith, h.dropped));
        leaving = h.leaving;
      }

  after_packet :
      {q q' : NfQueueCapture H F} {fine : Bool} (p : Packet F) (frame : Frame H F)
      {frames : List (Frame H F)}
      → parse_ip_packet frame.1 ≡ parsed p
      → IsHandled (with_packet q p frame) frames q' fine
      → IsHandled q (frame ∷ frames) q' fine
  unfolding record_captured with_packet
  after_packet {q} p frame e h =
      let (more, less) = captured_all_parsed q.capture.interface p frame h.handled e in
      let c = captured q.capture.interface p frame in
      record {
        handled = frame ∷ h.handled;
        rest = h.rest;
        split = ap (◌∷◌ frame) h.split;
        readable = (λ bad. cc, h.readable);
        same = h.same;
        pending = rw more (
            h.pending
            ∙ append_assoc q.pending (c ∷ []) (captured_all q.capture.interface h.handled));
        accepted = rw less h.accepted;
        captured = rw more (omega (arith, h.captured));
        dropped = rw less h.dropped;
        leaving = h.leaving;
      }

  callbacks_parsed :
      (q : NfQueueCapture H F) (p : Packet F) (frame : Frame H F) (frames : List (Frame H F))
      → parse_ip_packet frame.1 ≡ parsed p
      → callbacks q (frame ∷ frames) ≡ callbacks (with_packet q p frame) frames
  unfolding callbacks callback with_packet
  callbacks_parsed q p frame frames e = rw (callbacks, callback, e) refl

  callbacks_malformed :
      (q : NfQueueCapture H F) (frame : Frame H F) (frames : List (Frame H F))
      → ◌≡◌ {A = Parsed F} (parse_ip_packet frame.1) malformed
      → callbacks q (frame ∷ frames) ≡ callbacks (with_drop q frame) frames
  unfolding callbacks callback with_drop
  callbacks_malformed q frame frames e = rw (callbacks, callback, e) refl

  callbacks-index_error :
      (q : NfQueueCapture H F) (frame : Frame H F) (frames : List (Frame H F))
      → ◌≡◌ {A = Parsed F} (parse_ip_packet frame.1) index_error
      → callbacks q (frame ∷ frames) ≡ (q, false)
  unfolding callbacks callback
  callbacks-index_error q frame frames e = rw (callbacks, callback, e) refl

  -- The frames that netfilter hands over are handled in order, each once: one that parses is pending with
  -- its packet and counted as captured, one that does not is accepted and counted as dropped. The first frame
  -- on which the parser raises an `IndexError` ends the run, and it and those after it are neither;
  -- nothing else ends it.
  pub callbacks_lem :
      (q : NfQueueCapture H F) (frames : List (Frame H F))
      → IsHandled q frames (callbacks q frames).0 (callbacks q frames).1
  unfolding captured_all accepted_all callbacks
  callbacks_lem q [] = record {
    handled = [];
    rest = [];
    split = refl;
    readable = tt;
    same = refl;
    pending = sym (append-nil q.pending);
    accepted = sym (append-nil q.accepted);
    captured = omega arith;
    dropped = omega arith;
    leaving = inl (refl, refl);
  }
  callbacks_lem q (frame ∷ frames) = elim (Parsed-cases (parse_ip_packet {F = F} frame.1)) [
    | inl (p, e) ↦
        rw (callbacks_parsed q p frame frames e)
          (after_packet p frame e (callbacks_lem (with_packet q p frame) frames))
    | inr (inl e) ↦
        rw (callbacks_malformed q frame frames e)
          (after_drop frame e (callbacks_lem (with_drop q frame) frames))
    | inr (inr e) ↦ rw (callbacks-index_error q frame frames e) (record {
      handled = [];
      rest = frame ∷ frames;
      split = refl;
      readable = tt;
      same = refl;
      pending = sym (append-nil q.pending);
      accepted = sym (append-nil q.accepted);
      captured = omega arith;
      dropped = omega arith;
      leaving = inr (refl, frame, frames, refl, e);
    })
  ]
