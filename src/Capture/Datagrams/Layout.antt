-- ===== src/Capture/Datagrams/Layout.antt =====
-- IPv4 datagrams as they are laid out, and where their parts stand.
use smart_bandwidth_optimize.Base.{
  ℕ, suc, ◌+◌, ◌*◌, ◌/◌, ◌%◌, ◌≤◌, ◌<◌, ◌≡◌, ◌≢◌, ◌∙◌, ap, subst, refl, [], ◌∷◌, ◌++◌, length, drop,
  get_elem?, or_else, arith, length-append,
}
use smart_bandwidth_optimize.Base.Text.{Bytes}
use smart_bandwidth_optimize.Capture.Datagrams.{byte, word, high_half}

-- The bytes of an IPv4 header (RFC 791) that are not its version, length, protocol or options.
pub record Header : Type 0 where
  pub tos : ℕ
  pub length_high : ℕ
  pub length_low : ℕ
  pub id_high : ℕ
  pub id_low : ℕ
  pub flags_high : ℕ
  pub flags_low : ℕ
  pub ttl : ℕ
  pub sum_high : ℕ
  pub sum_low : ℕ
  pub src : ℕ × ℕ × ℕ × ℕ
  pub dst : ℕ × ℕ × ℕ × ℕ

-- What a datagram carries: a TCP segment (RFC 9293) with the bytes of its numbers, the low half of the
-- offset's byte, the bytes of its flags, window, checksum and urgent pointer, and its options in words; a
-- UDP datagram (RFC 768) with the bytes of its length and checksum; or another protocol.
pub data Segment : Type 0 where
  tcp :
      (src_port dst_port : ℕ) (numbers : Bytes) (words low : ℕ) (window options payload : Bytes)
      → Segment
  udp : (src_port dst_port len_high len_low sum_high sum_low : ℕ) (payload : Bytes) → Segment
  other : (proto_num : ℕ) (payload : Bytes) → Segment

abbrev pub ports : ℕ → ℕ → Bytes → Bytes
ports s t rest = s / 256 ∷ s % 256 ∷ t / 256 ∷ t % 256 ∷ rest

abbrev pub body : Segment → Bytes
body (tcp s t numbers words low window options payload) =
    ports s t (numbers ++ ((16 * (5 + words) + low) ∷ (window ++ (options ++ payload))))
body (udp s t len_high len_low sum_high sum_low payload) =
    ports s t (len_high ∷ len_low ∷ sum_high ∷ sum_low ∷ payload)
body (other proto_num payload) = payload

abbrev pub proto_of : Segment → ℕ
proto_of (tcp s t numbers words low window options payload) = 6
proto_of (udp s t len_high len_low sum_high sum_low payload) = 17
proto_of (other proto_num payload) = proto_num

-- A datagram whose IPv4 options are `options`, in `words` words.
abbrev pub datagram : Header → ℕ → Bytes → Segment → Bytes
datagram h words options seg =
    (64 + (5 + words))
    ∷ h.tos
    ∷ h.length_high
    ∷ h.length_low
    ∷ h.id_high
    ∷ h.id_low
    ∷ h.flags_high
    ∷ h.flags_low
    ∷ h.ttl
    ∷ proto_of seg
    ∷ h.sum_high
    ∷ h.sum_low
    ∷ h.src.0
    ∷ h.src.1
    ∷ h.src.2
    ∷ h.src.3
    ∷ h.dst.0
    ∷ h.dst.1
    ∷ h.dst.2
    ∷ h.dst.3
    ∷ (options ++ body seg)

abbrev pub IsSegment : Segment → Type 0
IsSegment (tcp s t numbers words low window options payload) =
    (length numbers ≡ 8)
    × (words ≤ 10)
    × (low < 16)
    × (length window ≡ 7)
    × (length options ≡ 4 * words)
IsSegment (udp s t len_high len_low sum_high sum_low payload) = Unit
IsSegment (other proto_num payload) = (proto_num ≢ 6) × (proto_num ≢ 17)

zero_plus : (i : ℕ) → 0 + i ≡ i
zero_plus i = omega arith

pub plus_zero : (i : ℕ) → i + 0 ≡ i
plus_zero i = omega arith

suc_plus : (n i : ℕ) → suc n + i ≡ suc (n + i)
suc_plus n i = omega arith

pub get_elem?-append :
    (xs ys : Bytes) (i : ℕ) → get_elem? (xs ++ ys) (length xs + i) ≡ get_elem? ys i
get_elem?-append [] ys i = ap (get_elem? ys) (zero_plus i)
get_elem?-append (x ∷ xs) ys i =
    ap (get_elem? (x ∷ (xs ++ ys))) (suc_plus (length xs) i) ∙ get_elem?-append xs ys i

pub drop-append : (xs ys : Bytes) (i : ℕ) → drop (length xs + i) (xs ++ ys) ≡ drop i ys
drop-append [] ys i = ap (λ n. drop n ys) (zero_plus i)
drop-append (x ∷ xs) ys i =
    ap (λ n. drop n (x ∷ (xs ++ ys))) (suc_plus (length xs) i) ∙ drop-append xs ys i

pub offset :
    (words low : ℕ) → words ≤ 10 → low < 16 → high_half (16 * (5 + words) + low) ≡ 5 + words
offset words low h k = omega arith

pub joined : (s : ℕ) → s / 256 * 256 + s % 256 ≡ s
joined s = omega arith

module _ (h : Header) (words : ℕ) (options : Bytes) (seg : Segment) where
  abbrev front : Bytes
  front =
      (64 + (5 + words))
      ∷ h.tos
      ∷ h.length_high
      ∷ h.length_low
      ∷ h.id_high
      ∷ h.id_low
      ∷ h.flags_high
      ∷ h.flags_low
      ∷ h.ttl
      ∷ proto_of seg
      ∷ h.sum_high
      ∷ h.sum_low
      ∷ h.src.0
      ∷ h.src.1
      ∷ h.src.2
      ∷ h.src.3
      ∷ h.dst.0
      ∷ h.dst.1
      ∷ h.dst.2
      ∷ h.dst.3
      ∷ options

  length-front : length front ≡ 20 + length options
  length-front = omega arith

  pub length-datagram :
      length (datagram h words options seg) ≡ 20 + length options + length (body seg)
  length-datagram = omega (arith, length-append front (body seg))

  pub get_elem?-datagram :
      (i : ℕ)
      → get_elem? (datagram h words options seg) (20 + length options + i) ≡ get_elem? (body seg) i
  get_elem?-datagram i =
      subst (λ n. get_elem? (datagram h words options seg) (n + i) ≡ get_elem? (body seg) i)
        length-front (get_elem?-append front (body seg) i)

  byte-datagram :
      (i j : ℕ)
      → 20 + length options + i ≡ j
      → byte (datagram h words options seg) j ≡ byte (body seg) i
  byte-datagram i j e =
      subst (λ n. byte (datagram h words options seg) n ≡ byte (body seg) i) e
        (ap (λ b. or_else b 0) (get_elem?-datagram i))

  pub word-datagram :
      (i j : ℕ)
      → 20 + length options + i ≡ j
      → word (datagram h words options seg) j ≡ word (body seg) i
  word-datagram i j e =
      let first = byte-datagram i j e in
      let second = byte-datagram (i + 1) (j + 1) (omega (arith, e)) in rw (first, second) refl

  pub drop-datagram :
      (i : ℕ) → drop (20 + length options + i) (datagram h words options seg) ≡ drop i (body seg)
  drop-datagram i =
      subst (λ n. drop (n + i) (datagram h words options seg) ≡ drop i (body seg)) length-front
        (drop-append front (body seg) i)
