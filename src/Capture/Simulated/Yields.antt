-- ===== src/Capture/Simulated/Yields.antt =====
-- What the simulated capture yields and counts.
use smart_bandwidth_optimize.Base.{
  ℕ, zero, suc, ◌+◌, ◌<◌, ◌≡◌, refl, ap, Bool, true, false, Option, none, some, List, [], ◌∷◌, map,
  take, length, if◌then◌else◌, arith, Bool-cases, inl, inr,
}
use smart_bandwidth_optimize.Base.Text.{Text}
use smart_bandwidth_optimize.Classifier.{Packet}
use smart_bandwidth_optimize.Capture.{CaptureStats, record_captured}
use smart_bandwidth_optimize.Capture.Simulated.{from_iterable, from_callable}

-- For how many of `n` readings in a row the capture runs.
unfoldable pub live_readings : (ℕ → Bool) → ℕ → ℕ → ℕ
live_readings running i zero = 0
live_readings running i (suc n) = if running i then suc (live_readings running (i + 1) n) else 0

pub live_readings_nil : (running : ℕ → Bool) (i : ℕ) → live_readings running i 0 ≡ 0
unfolding live_readings
live_readings_nil running i = refl

pub live_readings_on :
    (running : ℕ → Bool) (i n : ℕ)
    → running i ≡ true
    → live_readings running i (suc n) ≡ suc (live_readings running (i + 1) n)
unfolding live_readings
live_readings_on running i n on = rw on refl

pub live_readings_off :
    (running : ℕ → Bool) (i n : ℕ) → running i ≡ false → live_readings running i n ≡ 0
unfolding live_readings
live_readings_off running i zero off = refl
live_readings_off running i (suc n) off = rw off refl

-- The counters once some packets are captured.
unfoldable pub record_all : {F : Type 0} → List (Packet F) → CaptureStats → CaptureStats
record_all [] stats = stats
record_all (p ∷ ps) stats = record_all ps (record_captured p stats)

module _ {S F : Type 0} (source : S → Option (Packet F) × S) where
  -- The packets that a source gives from a state on, before it gives `None`.
  pub data Produces : S → List (Packet F) → Type 0 where
    over : (s s' : S) → source s ≡ (none, s') → Produces s []
    one_more :
        (s s' : S) (p : Packet F) (ps : List (Packet F))
        → source s ≡ (some p, s')
        → Produces s' ps
        → Produces s (p ∷ ps)

module _ (H : Type 0) {F : Type 0} (interface : Text) (running : ℕ → Bool) (clock : ℕ → F) where
  -- The capture of an iterable yields its packets in order, up to the first reading of `_running` that is
  -- false, and counts exactly those that it yields.
  from_iterable_lem :
      (i : ℕ) (ps : List (Packet F)) (stats : CaptureStats)
      → let (yielded, final) = from_iterable {H = H} interface running clock i ps stats in
        let seen = take (live_readings running i (length ps)) ps in
        (map (λ c. c.packet) yielded ≡ seen)
        × (final ≡ record_all seen stats)
        × (final.packets_captured ≡ stats.packets_captured + length yielded)
        × (final.packets_dropped ≡ stats.packets_dropped)
  unfolding from_iterable live_readings record_all record_captured
  from_iterable_lem i [] stats = (refl, refl, omega arith, refl)
  from_iterable_lem i (p ∷ ps) stats = elim (Bool-cases (running i)) [
    | inr stopped ↦ rw stopped (refl, refl, omega arith, refl)
    | inl on ↦
        let (packets, all, count, dropped) =
          from_iterable_lem (i + 1) ps (record_captured p stats) in
        rw on (ap (◌∷◌ p) packets, all, omega (arith, count), dropped)
  ]

  module _ {S : Type 0} (source : S → Option (Packet F) × S) where
    -- The capture of a callable that gives some packets and then `None` is the capture of those packets as
    -- an iterable; it ends after at most one step for each packet and one more.
    from_callable-from_iterable :
        (s : S) {ps : List (Packet F)}
        → Produces source s ps
        → (fuel i : ℕ) (stats : CaptureStats) → length ps < fuel
        → from_callable {H = H} interface running clock source fuel i s stats
          ≡ some (from_iterable interface running clock i ps stats)
    unfolding from_callable from_iterable
    from_callable-from_iterable s given zero i stats h = absurd (omega arith)
    from_callable-from_iterable _ (over s s' e) (suc fuel) i stats h = ground (arith, e)
    from_callable-from_iterable _ (one_more s s' p ps e given) (suc fuel) i stats h =
        let rest =
          from_callable-from_iterable s' given fuel (i + 1) (record_captured p stats)
            (omega arith) in
        elim (Bool-cases (running i)) [
          | inl on ↦ ground (arith, on, e, rest)
          | inr stopped ↦ rw stopped refl
        ]
