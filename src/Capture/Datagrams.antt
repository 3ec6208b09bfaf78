-- ===== src/Capture/Datagrams.antt =====
-- `_parse_ip_packet` of bandwidth_optimizer/capture/nfqueue_capture.py: a raw IPv4 datagram as a packet.
pub mod Layout
pub mod RoundTrip
pub mod Lengths
use smart_bandwidth_optimize.Base.{
  ℕ, ◌+◌, ◌*◌, ◌/◌, ◌%◌, Bool, true, false, not, ◌||◌, none, some, List, [], ◌∷◌, ◌++◌,
  if◌then◌else◌, ◌==◌, ltb, length, drop, get_elem?, or_else,
}
use smart_bandwidth_optimize.Base.Int.{pos}
use smart_bandwidth_optimize.Base.Text.{Text, Bytes, codes}
use smart_bandwidth_optimize.Base.Float.{Float, num}
use smart_bandwidth_optimize.Classifier.{Packet, post_init}

-- A packet, `None`, or the `IndexError` of `raw[...]`.
pub data Parsed (F : Type 0) : Type 0 where
  parsed : Packet F → Parsed F
  malformed index_error : Parsed F

-- `raw[i]` where the length of the datagram allows it.
abbrev pub byte : Bytes → ℕ → ℕ
byte raw i = or_else (get_elem? raw i) 0

abbrev digit : ℕ → ℕ
digit d = b'0' + d

-- `str(n)` of a byte.
unfoldable pub byte_text : ℕ → Text
byte_text n =
    if ltb n 10
    then digit n ∷ []
    else if ltb n 100
    then digit (n / 10) ∷ digit (n % 10) ∷ []
    else digit (n / 100) ∷ digit (n / 10 % 10) ∷ digit (n % 10) ∷ []

-- `str(IPv4Address(...))` of four bytes.
unfoldable pub dotted : ℕ → ℕ → ℕ → ℕ → Text
dotted a b c d =
    byte_text a ++ (b'.' ∷ (byte_text b ++ (b'.' ∷ (byte_text c ++ (b'.' ∷ byte_text d)))))

-- `_PROTO_MAP.get(n, str(n))`
unfoldable pub proto_name : ℕ → Text
proto_name n =
    if n == 1
    then codes "icmp"
    else if n == 6
    then codes "tcp"
    else if n == 17
    then codes "udp"
    else if n == 58
    then codes "icmpv6"
    else byte_text n

-- `(b >> 4) & 0xF`
abbrev pub high_half : ℕ → ℕ
high_half b = b / 16 % 16

-- The big-endian number of two bytes at an offset.
abbrev pub word : Bytes → ℕ → ℕ
word raw i = byte raw i * 256 + byte raw (i + 1)

module _ {F : Type 0} ⦃d : Float F⦄ where
  unfoldable pub packet_of : Bytes → ℕ → ℕ → ℕ → Packet F
  packet_of raw src_port dst_port payload_start = post_init (record {
    src_ip = dotted (byte raw 12) (byte raw 13) (byte raw 14) (byte raw 15);
    dst_ip = dotted (byte raw 16) (byte raw 17) (byte raw 18) (byte raw 19);
    src_port = src_port;
    dst_port = dst_port;
    protocol = proto_name (byte raw 9);
    payload = drop payload_start raw;
    size_bytes = pos (length raw);
    priority = none;
    enqueued_at = none;
    value_coefficient = num 1;
  })

  -- The transport header at the offset `ihl`.
  unfoldable pub parse_transport : Bytes → ℕ → ℕ → Parsed F
  parse_transport raw ihl proto_num =
      if ltb (length raw) (ihl + 8)
      then malformed
      else if proto_num == 6
      then elim (get_elem? raw (ihl + 12)) [
        | none ↦ index_error
        | some b ↦
            parsed (packet_of raw (word raw ihl) (word raw (ihl + 2)) (ihl + high_half b * 4))
      ]
      else parsed (packet_of raw (word raw ihl) (word raw (ihl + 2)) (ihl + 8))

  unfoldable pub parse_ip_packet : Bytes → Parsed F
  parse_ip_packet raw =
      let ihl = byte raw 0 % 16 * 4 in
      let proto_num = byte raw 9 in
      if ltb (length raw) 20
      then malformed
      else if not (high_half (byte raw 0) == 4)
      then malformed
      else if proto_num == 6 || proto_num == 17
      then parse_transport raw ihl proto_num
      else parsed (packet_of raw 0 0 ihl)
