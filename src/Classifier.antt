-- ===== src/Classifier.antt =====
-- bandwidth_optimizer/classifier.py: packets, classification rules and the ordered rule table.
-- `re.search` is the argument `search`: the pattern and the text that it is matched against.
pub mod Rules
pub mod Matching
pub mod Table
use smart_bandwidth_optimize.Base.{
  ℕ, ◌+◌, ◌-◌, ◌≡◌, Bool, true, false, not, ◌&&◌, ◌||◌, Option, none, some, List, [], ◌∷◌, ◌++◌,
  map, arith, ◌==◌, ltb, leb, if◌then◌else◌, length, take, drop, get_elem?,
}
use smart_bandwidth_optimize.Base.Int.{ℤ, pos, negsuc}
use smart_bandwidth_optimize.Base.Text.{Text, Bytes, text_eq, lower}
use smart_bandwidth_optimize.Base.Float.{Float, num}
use smart_bandwidth_optimize.Config.{TrafficPriority}

pub record Packet (F : Type 0) : Type 0 where
  pub src_ip : Text
  pub dst_ip : Text
  pub src_port : ℕ
  pub dst_port : ℕ
  pub protocol : Text
  pub payload : Bytes
  pub size_bytes : ℤ
  pub priority : Option TrafficPriority
  pub enqueued_at : Option F
  pub value_coefficient : F

unfoldable pub is_zero : ℤ → Bool
is_zero (pos n) = n == 0
is_zero (negsuc n) = false

-- A size of zero means the length of the payload.
unfoldable pub post_init : {F : Type 0} → Packet F → Packet F
unfolding is_zero
post_init p = if is_zero p.size_bytes then record p { size_bytes = pos (length p.payload) } else p

pub record ClassificationRule : Type 0 where
  pub priority : TrafficPriority
  pub ports : List ℤ
  pub protocols : List Text
  pub payload_pattern : Option Text

abbrev pub is_empty {ℓ} : {A : Type ℓ} → List A → Bool
is_empty [] = true
is_empty (x ∷ xs) = false

-- A port of a rule is any integer; a negative one is no packet's.
abbrev pub is_port : ℤ → ℕ → Bool
is_port (pos k) n = k == n
is_port (negsuc k) n = false

-- `n in ports` and `s in protocols`
unfoldable pub has_port : List ℤ → ℕ → Bool
has_port [] n = false
has_port (x ∷ xs) n = is_port x n || has_port xs n

unfoldable pub has_text : List Text → Text → Bool
has_text [] s = false
has_text (x ∷ xs) s = text_eq x s || has_text xs s

module _ {F : Type 0} where
  unfoldable pub ports_match : List ℤ → Packet F → Bool
  ports_match ports p = is_empty ports || (has_port ports p.src_port || has_port ports p.dst_port)

  unfoldable pub protocols_match : List Text → Packet F → Bool
  protocols_match protocols p = is_empty protocols || has_text protocols (lower p.protocol)

  module _ (search : Text → Text → Bool) where
    pub pattern_match : Option Text → Packet F → Bool
    pattern_match none p = true
    pattern_match (some pattern) p = search pattern (take 64 p.payload)

    unfoldable pub matches : ClassificationRule → Packet F → Bool
    unfolding pattern_match
    matches r p =
        if ports_match r.ports p
        then (if protocols_match r.protocols p then pattern_match r.payload_pattern p else false)
        else false

pub record TrafficClassifier : Type 0 where
  pub rules : List ClassificationRule
  pub default_priority : TrafficPriority

module _ {F : Type 0} (search : Text → Text → Bool) where
  -- The loop of `classify` over the rules.
  unfoldable pub first_match :
      List ClassificationRule → TrafficPriority → Packet F → TrafficPriority
  first_match [] default p = default
  first_match (r ∷ rs) default p =
      if matches search r p then r.priority else first_match rs default p

  -- The packet with its priority set, and the priority.
  unfoldable pub classify : TrafficClassifier → Packet F → Packet F × TrafficPriority
  classify c p =
      let found = first_match c.rules c.default_priority p in
      (record p { priority = some found }, found)

  unfoldable pub classify_batch :
      TrafficClassifier → List (Packet F) → List (Packet F × TrafficPriority)
  classify_batch c = map (classify c)

-- Where `list.insert` puts an element: a negative index counts from the end, and what is out of range
-- is clipped.
insert_position : ℕ → ℤ → ℕ
insert_position size (pos i) = if leb i size then i else size
insert_position size (negsuc i) = size - (i + 1)

unfoldable pub add_rule : TrafficClassifier → ClassificationRule → ℤ → TrafficClassifier
unfolding insert_position
add_rule c r index =
    let at = insert_position (length c.rules) index in
    record c { rules = take at c.rules ++ (r ∷ drop at c.rules) }

-- Where `list.pop` takes an element from; out of range is the exception `IndexError`.
pop_position : ℕ → ℤ → Option ℕ
pop_position size (pos i) = if ltb i size then some i else none
pop_position size (negsuc i) = if ltb i size then some (size - (i + 1)) else none

-- `none` is `IndexError`.
unfoldable pub remove_rule : TrafficClassifier → ℤ → Option (TrafficClassifier × ClassificationRule)
unfolding pop_position
remove_rule c index = elim (pop_position (length c.rules) index) [
  | none ↦ none
  | some i ↦ elim (get_elem? c.rules i) [
    | none ↦ none
    | some r ↦ some (record c { rules = take i c.rules ++ drop (i + 1) c.rules }, r)
  ]
]
