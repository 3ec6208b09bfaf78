-- ===== src/Classifier/Matching.antt =====
-- What `classify` chooses: the first rule of the table that matches.
use smart_bandwidth_optimize.Base.{
  ℕ, ◌≡◌, refl, ap, sym, subst, ◌↔◌, ◌⊎◌, inl, inr, Bool, true, none, some, Option, List, [], ◌∷◌,
  take, arith, Bool-cases,
}
use mathlib.Core.List.{Memᴰ}
use smart_bandwidth_optimize.Base.Int.{ℤ, pos, negsuc}
use smart_bandwidth_optimize.Base.Text.{Text, lower, text_eq, text_eq_sound, text_eq_refl}
use smart_bandwidth_optimize.Config.{TrafficPriority}
use smart_bandwidth_optimize.Classifier.{
  Packet, ClassificationRule, TrafficClassifier, is_port, has_port, has_text, ports_match,
  protocols_match, pattern_match, matches, first_match, classify,
}

-- What a rule asks of a packet: one of its ports, if it names any, its protocol in small letters, if
-- it names any, and its pattern, if it has one, within the first 64 bytes.
pub record IsMatch {F : Type 0} (search : Text → Text → Bool) (p : Packet F)
    (r : ClassificationRule) : Type 0 where
  pub ports : (r.ports ≡ []) ⊎ (Memᴰ (pos p.src_port) r.ports ⊎ Memᴰ (pos p.dst_port) r.ports)
  pub protocols : (r.protocols ≡ []) ⊎ Memᴰ (lower p.protocol) r.protocols
  pub pattern : (s : Text) → r.payload_pattern ≡ some s → search s (take 64 p.payload) ≡ true

-- The rule table selects a priority: its first matching rule's, or the default if none matches.
pub data Selects {F : Type 0} (search : Text → Text → Bool) (default : TrafficPriority)
    (p : Packet F) : List ClassificationRule → TrafficPriority → Type 0 where
  unmatched : Selects search default p [] default
  matched :
      {r : ClassificationRule} {rs : List ClassificationRule}
      → IsMatch search p r
      → Selects search default p (r ∷ rs) r.priority
  passed :
      {r : ClassificationRule} {rs : List ClassificationRule} {q : TrafficPriority}
      → ¬ IsMatch search p r
      → Selects search default p rs q
      → Selects search default p (r ∷ rs) q

is_port_sound : (x : ℤ) (n : ℕ) → is_port x n ≡ true → pos n ≡ x
is_port_sound (pos k) n h = ap pos (ground (arith, h))
is_port_sound (negsuc k) n h = absurd (ground (arith, h))

has_port_sound : (xs : List ℤ) (n : ℕ) → has_port xs n ≡ true → Memᴰ (pos n) xs
unfolding has_port
has_port_sound [] n h = absurd (ground (arith, h))
has_port_sound (x ∷ xs) n h = elim (Bool-cases (is_port x n)) [
  | inl hit ↦ Memᴰ.head (is_port_sound x n hit)
  | inr miss ↦ Memᴰ.tail (has_port_sound xs n (ground (arith, h, miss)))
]

has_port_complete : (xs : List ℤ) (n : ℕ) → Memᴰ (pos n) xs → has_port xs n ≡ true
unfolding has_port
has_port_complete [] n m = elim m [ ]
has_port_complete (x ∷ xs) n (Memᴰ.head e) =
    let same : is_port (pos n) n ≡ true = ground arith in
    let hit : is_port x n ≡ true = subst (λ y. is_port y n ≡ true) e same in ground (arith, hit)
has_port_complete (x ∷ xs) n (Memᴰ.tail t) =
    let rest = has_port_complete xs n t in ground (arith, rest)

has_text_sound : (xs : List Text) (s : Text) → has_text xs s ≡ true → Memᴰ s xs
unfolding has_text
has_text_sound [] s h = absurd (ground (arith, h))
has_text_sound (x ∷ xs) s h = elim (Bool-cases (text_eq x s)) [
  | inl hit ↦ Memᴰ.head (sym (text_eq_sound x s hit))
  | inr miss ↦ Memᴰ.tail (has_text_sound xs s (ground (arith, h, miss)))
]

has_text_complete : (xs : List Text) (s : Text) → Memᴰ s xs → has_text xs s ≡ true
unfolding has_text
has_text_complete [] s m = elim m [ ]
has_text_complete (x ∷ xs) s (Memᴰ.head e) =
    let hit : text_eq x s ≡ true = subst (λ y. text_eq y s ≡ true) e (text_eq_refl s) in
    ground (arith, hit)
has_text_complete (x ∷ xs) s (Memᴰ.tail t) =
    let rest = has_text_complete xs s t in ground (arith, rest)

module _ {F : Type 0} (p : Packet F) where
  ports_match_sound :
      (ports : List ℤ)
      → ports_match ports p ≡ true
      → (ports ≡ []) ⊎ (Memᴰ (pos p.src_port) ports ⊎ Memᴰ (pos p.dst_port) ports)
  unfolding ports_match
  ports_match_sound [] h = inl refl
  ports_match_sound (x ∷ xs) h = elim (Bool-cases (has_port (x ∷ xs) p.src_port)) [
    | inl src ↦ inr (inl (has_port_sound (x ∷ xs) p.src_port src))
    | inr other ↦ inr (inr (has_port_sound (x ∷ xs) p.dst_port (ground (arith, h, other))))
  ]

  ports_match_complete :
      (ports : List ℤ)
      → (ports ≡ []) ⊎ (Memᴰ (pos p.src_port) ports ⊎ Memᴰ (pos p.dst_port) ports)
      → ports_match ports p ≡ true
  unfolding ports_match
  ports_match_complete [] h = refl
  ports_match_complete (x ∷ xs) (inl e) = cc
  ports_match_complete (x ∷ xs) (inr (inl m)) =
      let found = has_port_complete (x ∷ xs) p.src_port m in ground (arith, found)
  ports_match_complete (x ∷ xs) (inr (inr m)) =
      let found = has_port_complete (x ∷ xs) p.dst_port m in ground (arith, found)

  protocols_match_sound :
      (protocols : List Text)
      → protocols_match protocols p ≡ true
      → (protocols ≡ []) ⊎ Memᴰ (lower p.protocol) protocols
  unfolding protocols_match
  protocols_match_sound [] h = inl refl
  protocols_match_sound (x ∷ xs) h = inr (has_text_sound (x ∷ xs) (lower p.protocol) h)

  protocols_match_complete :
      (protocols : List Text)
      → (protocols ≡ []) ⊎ Memᴰ (lower p.protocol) protocols
      → protocols_match protocols p ≡ true
  unfolding protocols_match
  protocols_match_complete [] h = refl
  protocols_match_complete (x ∷ xs) (inl e) = cc
  protocols_match_complete (x ∷ xs) (inr m) = has_text_complete (x ∷ xs) (lower p.protocol) m

module _ {F : Type 0} (search : Text → Text → Bool) (p : Packet F) where
  pattern_match_complete :
      (pattern : Option Text)
      → ((s : Text) → pattern ≡ some s → search s (take 64 p.payload) ≡ true)
      → pattern_match search pattern p ≡ true
  unfolding pattern_match
  pattern_match_complete none h = refl
  pattern_match_complete (some s) h = h s refl

  pattern_match_sound :
      (pattern : Option Text)
      → pattern_match search pattern p ≡ true
      → (s : Text) → pattern ≡ some s
      → search s (take 64 p.payload) ≡ true
  unfolding pattern_match
  pattern_match_sound none h s e = cc
  pattern_match_sound (some t) h s e = ground (arith, h, e)

  matches-IsMatch : (r : ClassificationRule) → matches search r p ≡ true → IsMatch search p r
  unfolding matches
  matches-IsMatch r h = record {
    ports = ports_match_sound p r.ports (ground (arith, h));
    protocols = protocols_match_sound p r.protocols (ground (arith, h));
    pattern = pattern_match_sound r.payload_pattern (ground (arith, h));
  }

  IsMatch-matches : (r : ClassificationRule) → IsMatch search p r → matches search r p ≡ true
  unfolding matches
  IsMatch-matches r m =
      let ports = ports_match_complete p r.ports m.ports in
      let protocols = protocols_match_complete p r.protocols m.protocols in
      let pattern = pattern_match_complete r.payload_pattern m.pattern in
      ground (arith, ports, protocols, pattern)

module _ {F : Type 0} (search : Text → Text → Bool) (default : TrafficPriority) (p : Packet F) where
  first_match-Selects :
      (rs : List ClassificationRule) → Selects search default p rs (first_match search rs default p)
  unfolding first_match
  first_match-Selects [] = unmatched
  first_match-Selects (r ∷ rs) = elim (Bool-cases (matches search r p)) [
    | inl hit ↦ rw hit (matched (matches-IsMatch search p r hit))
    | inr miss ↦
        rw miss (
          passed (λ m. ground (arith, miss, IsMatch-matches search p r m)) (first_match-Selects rs))
  ]

  Selects-first_match :
      {rs : List ClassificationRule} {q : TrafficPriority}
      → Selects search default p rs q
      → first_match search rs default p ≡ q
  unfolding first_match
  Selects-first_match unmatched = refl
  Selects-first_match (matched {r = r} m) = rw (IsMatch-matches search p r m)
  Selects-first_match (passed {r = r} other s) = elim (Bool-cases (matches search r p)) [
    | inl hit ↦ absurd (other (matches-IsMatch search p r hit))
    | inr miss ↦ rw miss (Selects-first_match s)
  ]

-- `classify` chooses a priority exactly when the rule table selects it: it is that of the first rule
-- that asks of the packet what the packet has (`IsMatch`: a port, the protocol and the pattern), or the
-- default if there is none. It stores that priority in the packet.
pub classify-Selects :
    {F : Type 0} (search : Text → Text → Bool) (c : TrafficClassifier) (p : Packet F)
    (q : TrafficPriority)
    → (Selects search c.default_priority p c.rules q ↔ ((classify search c p).1 ≡ q))
      × ((classify search c p).0.priority ≡ some (classify search c p).1)
unfolding classify
classify-Selects search c p q = (
  (
    Selects-first_match search c.default_priority p,
    λ e.
        subst (Selects search c.default_priority p c.rules) e
          (first_match-Selects search c.default_priority p c.rules),
  ),
  refl,
)
