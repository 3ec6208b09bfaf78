-- ===== src/Capture/Pcap/Frames.antt =====
-- What the capture of scapy's frames yields and counts, and that the live capture ends.
use smart_bandwidth_optimize.Base.{
  ℕ, zero, suc, ◌+◌, ◌≤◌, ◌<◌, ◌≡◌, refl, ap, Bool, true, false, none, some, List, [], ◌∷◌, ◌++◌,
  map, take, length, length-append, arith, Bool-cases, Option-cases, inl, inr,
}
use smart_bandwidth_optimize.Base.Text.{Text}
use smart_bandwidth_optimize.Base.Float.{Float}
use smart_bandwidth_optimize.Classifier.{Packet}
use smart_bandwidth_optimize.Capture.{CapturedPacket, CaptureStats, record_captured, record_dropped}
use smart_bandwidth_optimize.Capture.Simulated.Yields.{
  live_readings, live_readings_on, live_readings_off, live_readings_nil,
}
use smart_bandwidth_optimize.Capture.Pcap.{
  ScapyPacket, scapy_pkt_to_packet, frames_from, live_sniff, captured, yielding,
}

-- The packets of the frames that have one.
unfoldable pub packets_of : {F : Type 0} ⦃d : Float F⦄ → List ScapyPacket → List (Packet F)
packets_of [] = []
packets_of (sp ∷ sps) = elim (scapy_pkt_to_packet sp) [
  | none ↦ packets_of sps
  | some p ↦ p ∷ packets_of sps
]

module _ {F : Type 0} ⦃d : Float F⦄ where
  packets_of_nil : ◌≡◌ {A = List (Packet F)} [] (packets_of [])
  unfolding packets_of
  packets_of_nil = refl

  packets_of-none :
      (sp : ScapyPacket) (sps : List ScapyPacket)
      → scapy_pkt_to_packet {F = F} sp ≡ none
      → packets_of {F = F} (sp ∷ sps) ≡ packets_of sps
  unfolding packets_of
  packets_of-none sp sps bare = rw (packets_of, bare) refl

  packets_of-some :
      (sp : ScapyPacket) (sps : List ScapyPacket) (p : Packet F)
      → scapy_pkt_to_packet sp ≡ some p
      → packets_of (sp ∷ sps) ≡ p ∷ packets_of sps
  unfolding packets_of
  packets_of-some sp sps p found = rw (packets_of, found) refl

module _ (H : Type 0) {F : Type 0} ⦃d : Float F⦄ (interface : Text) (running : ℕ → Bool)
    (clock : ℕ → F) where
  frames_from_nil :
      (i : ℕ) (stats : CaptureStats)
      → frames_from {H = H} interface running clock i [] stats
        ≡ record { yielded = []; stats = stats; readings = i; finished = true }
  unfolding frames_from
  frames_from_nil i stats = refl

  frames_from_stopped :
      (i : ℕ) (sp : ScapyPacket) (sps : List ScapyPacket) (stats : CaptureStats)
      → running i ≡ false
      → frames_from {H = H} interface running clock i (sp ∷ sps) stats
        ≡ record { yielded = []; stats = stats; readings = i + 1; finished = false }
  unfolding frames_from
  frames_from_stopped i sp sps stats off = rw off refl

  frames_from-record_dropped :
      (i : ℕ) (sp : ScapyPacket) (sps : List ScapyPacket) (stats : CaptureStats)
      → running i ≡ true
      → scapy_pkt_to_packet {F = F} sp ≡ none
      → frames_from {H = H} interface running clock i (sp ∷ sps) stats
        ≡ frames_from interface running clock (i + 1) sps (record_dropped stats)
  unfolding frames_from
  frames_from-record_dropped i sp sps stats on bare = rw (on, bare) refl

  frames_from-record_captured :
      (i : ℕ) (sp : ScapyPacket) (sps : List ScapyPacket) (stats : CaptureStats) (p : Packet F)
      → running i ≡ true
      → scapy_pkt_to_packet sp ≡ some p
      → frames_from {H = H} interface running clock i (sp ∷ sps) stats
        ≡ yielding interface running clock
            (captured interface running clock i p sp)
            (frames_from interface running clock (i + 1) sps (record_captured p stats))
  unfolding frames_from
  frames_from-record_captured i sp sps stats p on found = rw (on, found) refl

  -- The loop over frames handles them in order up to the first reading of `_running` that is false: it
  -- yields the packets of those that have an IP layer, and counts each handled frame once, as captured if
  -- it yields its packet and as dropped if not.
  frames_from_lem :
      (i : ℕ) (sps : List ScapyPacket) (stats : CaptureStats)
      → let pass = frames_from {H = H} interface running clock i sps stats in
        let n = live_readings running i (length sps) in
        (map (λ c. c.packet) pass.yielded ≡ packets_of (take n sps))
        × (pass.stats.packets_captured ≡ stats.packets_captured + length pass.yielded)
        × (pass.stats.packets_captured + pass.stats.packets_dropped
            ≡ stats.packets_captured + stats.packets_dropped + n)
        × (i ≤ pass.readings)
  unfolding record_captured record_dropped
  frames_from_lem i [] stats =
      rw (frames_from_nil i stats, live_readings_nil running i)
        (packets_of_nil, omega arith, omega arith, omega arith)
  frames_from_lem i (sp ∷ sps) stats = elim (Bool-cases (running i)) [
    | inr off ↦
        rw
          (
            frames_from_stopped i sp sps stats off,
            live_readings_off running i (suc (length sps)) off,
          )
          (packets_of_nil, omega arith, omega arith, omega arith)
    | inl on ↦ elim (Option-cases (scapy_pkt_to_packet {F = F} sp)) [
      | inl bare ↦
          let (packets, count, all, later) = frames_from_lem (i + 1) sps (record_dropped stats) in
          rw
            (
              frames_from-record_dropped i sp sps stats on bare,
              live_readings_on running i (length sps) on,
              packets_of-none sp (take (live_readings running (i + 1) (length sps)) sps) bare,
            )
            (packets, count, omega (arith, all), omega (arith, later))
      | inr (p, found) ↦
          let (packets, count, all, later) =
            frames_from_lem (i + 1) sps (record_captured p stats) in
          rw
            (
              frames_from-record_captured i sp sps stats p on found,
              live_readings_on running i (length sps) on,
              packets_of-some sp (take (live_readings running (i + 1) (length sps)) sps) p found,
            )
            (ap (◌∷◌ p) packets, omega (arith, count), omega (arith, all), omega (arith, later))
    ]
  ]

  module _ {S : Type 0} (sniff : S → List ScapyPacket × S) where
    live_sniff_off :
        (fuel i : ℕ) (s : S) (stats : CaptureStats)
        → running i ≡ false
        → live_sniff {H = H} interface running clock sniff (suc fuel) i s stats ≡ some ([], stats)
    unfolding live_sniff
    live_sniff_off fuel i s stats off = rw off refl

    live_sniff_cut :
        (fuel i : ℕ) (s : S) (stats : CaptureStats)
        → let pass = frames_from {H = H} interface running clock (i + 1) (sniff s).0 stats in
          running i ≡ true
          → pass.finished ≡ false
          → live_sniff interface running clock sniff (suc fuel) i s stats
            ≡ some (pass.yielded, pass.stats)
    unfolding live_sniff
    live_sniff_cut fuel i s stats on cut = rw on (rw cut refl)

    live_sniff_again :
        (fuel i : ℕ) (s : S) (stats : CaptureStats) (r : List (CapturedPacket H F) × CaptureStats)
        → let pass = frames_from {H = H} interface running clock (i + 1) (sniff s).0 stats in
          running i ≡ true
          → pass.finished ≡ true
          → live_sniff interface running clock sniff fuel pass.readings (sniff s).1 pass.stats
            ≡ some r
          → live_sniff interface running clock sniff (suc fuel) i s stats
            ≡ some (pass.yielded ++ r.0, r.1)
    unfolding live_sniff
    live_sniff_again fuel i s stats r on whole rest = ground (arith, on, whole, rest)

    -- Once `_running` stays false from a reading on, the live capture ends, after at most as many calls of
    -- `sniff` as there are readings before; it counts as captured exactly the packets that it yields.
    pub live_sniff-ends :
        (last : ℕ)
        → ((j : ℕ) → last ≤ j → running j ≡ false)
        → (fuel i : ℕ) (s : S) (stats : CaptureStats) → 0 < fuel
        → last < i + fuel
        → (r : List (CapturedPacket H F) × CaptureStats) × (live_sniff interface running clock sniff
              fuel i s stats
            ≡ some r)
          × (r.1.packets_captured ≡ stats.packets_captured + length r.0)
    live_sniff-ends last stopped zero i s stats some_fuel h = absurd (omega arith)
    live_sniff-ends last stopped (suc fuel) i s stats some_fuel h = elim (Bool-cases (running i)) [
      | inr off ↦ (([], stats), live_sniff_off fuel i s stats off, omega arith)
      | inl on ↦
          let pass = frames_from {H = H} interface running clock (i + 1) (sniff s).0 stats in
          let (packets, count, all, later) = frames_from_lem (i + 1) (sniff s).0 stats in
          elim (Bool-cases pass.finished) [
            | inr cut ↦ ((pass.yielded, pass.stats), live_sniff_cut fuel i s stats on cut, count)
            | inl whole ↦
                let early : i < last = ground (arith, stopped i, on) in
                let (r, rest, total) =
                  live_sniff-ends last stopped fuel pass.readings (sniff s).1 pass.stats
                    (omega arith) (omega (arith, later)) in
                (
                  (pass.yielded ++ r.0, r.1),
                  live_sniff_again fuel i s stats r on whole rest,
                  omega (arith, total, count, length-append pass.yielded r.0),
                )
          ]
    ]
