-- ===== src/Capture/Datagrams/RoundTrip.antt =====
-- Datagrams as `_parse_ip_packet` reads them.
use smart_bandwidth_optimize.Base.{
  ℕ, suc, ◌+◌, ◌*◌, ◌%◌, ◌≤◌, ◌≡◌, ◌∙◌, ap, subst, refl, true, false, ◌||◌, none, some, ◌∷◌, ◌++◌,
  ◌==◌, ltb, length, drop, get_elem?, arith, length-append,
}
use smart_bandwidth_optimize.Base.Int.{pos}
use smart_bandwidth_optimize.Base.Text.{Bytes}
use smart_bandwidth_optimize.Base.Float.{Float, num}
use smart_bandwidth_optimize.Classifier.{Packet, post_init}
use smart_bandwidth_optimize.Capture.Datagrams.{
  Parsed, parsed, byte, word, high_half, dotted, proto_name, packet_of, parse_transport,
  parse_ip_packet,
}
use smart_bandwidth_optimize.Capture.Datagrams.Layout.{
  Header, Segment, tcp, udp, other, ports, proto_of, datagram, IsSegment, get_elem?-append,
  drop-append, plus_zero, offset, joined, length-datagram, get_elem?-datagram, word-datagram,
  drop-datagram,
}

module _ {F : Type 0} ⦃d : Float F⦄ where
  -- The packet of a datagram, with its ports and payload.
  abbrev pub packet_with : Header → ℕ → ℕ → ℕ → ℕ → Bytes → Packet F
  packet_with h proto_num size src_port dst_port payload = record {
    src_ip = dotted h.src.0 h.src.1 h.src.2 h.src.3;
    dst_ip = dotted h.dst.0 h.dst.1 h.dst.2 h.dst.3;
    src_port = src_port;
    dst_port = dst_port;
    protocol = proto_name proto_num;
    payload = payload;
    size_bytes = pos size;
    priority = none;
    enqueued_at = none;
    value_coefficient = num 1;
  }

  packet_of-datagram :
      (h : Header) (words : ℕ) (options : Bytes) (seg : Segment) (s t start : ℕ)
      → let raw = datagram h words options seg in
        packet_of raw s t start ≡ packet_with h (proto_of seg) (length raw) s t (drop start raw)
  unfolding packet_of post_init
  packet_of-datagram h words options seg s t start = ground arith

  parse_ip_packet-at :
      (raw : Bytes) (ihl : ℕ)
      → ltb (length raw) 20 ≡ false
      → (high_half (byte raw 0) == 4) ≡ true
      → (byte raw 9 == 6 || byte raw 9 == 17) ≡ true
      → byte raw 0 % 16 * 4 ≡ ihl
      → ◌≡◌ {A = Parsed F} (parse_ip_packet raw) (parse_transport raw ihl (byte raw 9))
  unfolding parse_ip_packet
  parse_ip_packet-at raw ihl long version has_ports offset =
      rw (long, version, has_ports, offset) refl

  parse_ip_packet-other :
      (raw : Bytes) (ihl : ℕ)
      → ltb (length raw) 20 ≡ false
      → (high_half (byte raw 0) == 4) ≡ true
      → (byte raw 9 == 6 || byte raw 9 == 17) ≡ false
      → byte raw 0 % 16 * 4 ≡ ihl
      → ◌≡◌ {A = Parsed F} (parse_ip_packet raw) (parsed (packet_of raw 0 0 ihl))
  unfolding parse_ip_packet
  parse_ip_packet-other raw ihl long version no_ports offset =
      rw (long, version, no_ports, offset) refl

  parse_ip_packet-transport :
      (h : Header) (words : ℕ) (options : Bytes) (seg : Segment)
      → words ≤ 10
      → length options ≡ 4 * words
      → (proto_of seg == 6 || proto_of seg == 17) ≡ true
      → ◌≡◌ {A = Parsed F}
          (parse_ip_packet (datagram h words options seg))
          (parse_transport (datagram h words options seg) (20 + length options) (proto_of seg))
  parse_ip_packet-transport h words options seg few count has_ports =
      let raw = datagram h words options seg in
      let long : ltb (length raw) 20 ≡ false = ground arith in
      let version : (high_half (64 + (5 + words)) == 4) ≡ true = ground arith in
      let ihl : (64 + (5 + words)) % 16 * 4 ≡ 20 + length options = omega (arith, count) in
      parse_ip_packet-at raw (20 + length options) long version has_ports ihl

abbrev pub source_port : Segment → ℕ
source_port (tcp s t numbers words low window options payload) = s
source_port (udp s t len_high len_low sum_high sum_low payload) = s
source_port (other proto_num payload) = 0

abbrev pub destination_port : Segment → ℕ
destination_port (tcp s t numbers words low window options payload) = t
destination_port (udp s t len_high len_low sum_high sum_low payload) = t
destination_port (other proto_num payload) = 0

abbrev pub payload_of : Segment → Bytes
payload_of (tcp s t numbers words low window options payload) = payload
payload_of (udp s t len_high len_low sum_high sum_low payload) = payload
payload_of (other proto_num payload) = payload

tcp_offset :
    (s t : ℕ) (numbers : Bytes) (b : ℕ) (rest : Bytes)
    → length numbers ≡ 8
    → get_elem? (ports s t (numbers ++ (b ∷ rest))) 12 ≡ some b
tcp_offset s t numbers b rest eight =
    let at : length numbers + 0 ≡ 8 = omega (arith, eight) in
    subst (λ n. get_elem? (numbers ++ (b ∷ rest)) n ≡ some b) at
      (get_elem?-append numbers (b ∷ rest) 0)

tcp_payload :
    (s t : ℕ) (numbers : Bytes) (b : ℕ) (window options payload : Bytes)
    → length numbers ≡ 8
    → length window ≡ 7
    → drop (20 + length options) (ports s t (numbers ++ (b ∷ (window ++ (options ++ payload)))))
      ≡ payload
tcp_payload s t numbers b window options payload eight seven =
    let rest = options ++ payload in
    let after : 20 + length options
        ≡ suc (suc (suc (suc (length numbers + suc (length window + (length options + 0)))))) =
      omega (arith, eight, seven) in
    ap (λ n. drop n (ports s t (numbers ++ (b ∷ (window ++ rest))))) after
    ∙ drop-append numbers (b ∷ (window ++ rest)) (suc (length window + (length options + 0)))
    ∙ drop-append window rest (length options + 0)
    ∙ drop-append options payload 0

module _ {F : Type 0} ⦃d : Float F⦄ where
  transport_udp :
      (raw : Bytes) (ihl s t : ℕ)
      → ltb (length raw) (ihl + 8) ≡ false
      → word raw ihl ≡ s
      → word raw (ihl + 2) ≡ t
      → ◌≡◌ {A = Parsed F} (parse_transport raw ihl 17) (parsed (packet_of raw s t (ihl + 8)))
  unfolding parse_transport
  transport_udp raw ihl s t long src dst = rw (long, src, dst) refl

  transport_tcp :
      (raw : Bytes) (ihl s t b k : ℕ)
      → ltb (length raw) (ihl + 8) ≡ false
      → word raw ihl ≡ s
      → word raw (ihl + 2) ≡ t
      → get_elem? raw (ihl + 12) ≡ some b
      → high_half b ≡ k
      → ◌≡◌ {A = Parsed F} (parse_transport raw ihl 6) (parsed (packet_of raw s t (ihl + k * 4)))
  unfolding parse_transport
  transport_tcp raw ihl s t b k long src dst got half = rw (long, got, src, dst, half) refl

  -- `_parse_ip_packet` reads an IPv4 datagram as it was laid out: its addresses, its protocol, the ports
  -- of TCP and UDP, and the payload after the options of both headers. The lengths in the headers are
  -- those of the options, which have whole words, at most ten.
  pub parse_ip_packet-datagram :
      (h : Header) (words : ℕ) (options : Bytes) (seg : Segment)
      → words ≤ 10
      → length options ≡ 4 * words
      → IsSegment seg
      → let raw = datagram h words options seg in
        ◌≡◌ {A = Parsed F} (parse_ip_packet raw) (
          parsed (
            packet_with h
              (proto_of seg)
              (length raw)
              (source_port seg)
              (destination_port seg)
              (payload_of seg)))
  unfolding parse_ip_packet
  parse_ip_packet-datagram h words options (tcp s t numbers n low window topts payload) few count
        (eight, m, l, seven, tcount) =
      let seg = tcp s t numbers n low window topts payload in
      let raw = datagram h words options seg in
      let ihl = 20 + length options in
      let size = length-datagram h words options seg in
      let b = 16 * (5 + n) + low in
      let inner = length-append numbers (b ∷ (window ++ (topts ++ payload))) in
      let long : ltb (length raw) (ihl + 8) ≡ false = ground (arith, size, inner) in
      let src = word-datagram h words options seg 0 ihl (omega arith) ∙ joined s in
      let dst = word-datagram h words options seg 2 (ihl + 2) refl ∙ joined t in
      let got =
        get_elem?-datagram h words options seg 12
        ∙ tcp_offset s t numbers b (window ++ (topts ++ payload)) eight in
      let after : (5 + n) * 4 ≡ 20 + length topts = omega (arith, tcount) in
      parse_ip_packet-transport h words options seg few count refl
      ∙ transport_tcp raw ihl s t b (5 + n) long src dst got (offset n low m l)
      ∙ ap parsed (
          packet_of-datagram h words options seg s t (ihl + (5 + n) * 4)
          ∙ ap (packet_with h 6 (length raw) s t) (
              ap (λ k. drop (ihl + k) raw) after
              ∙ drop-datagram h words options seg (20 + length topts)
              ∙ tcp_payload s t numbers b window topts payload eight seven))
  parse_ip_packet-datagram h words options (udp s t p q v w payload) few count plain =
      let seg = udp s t p q v w payload in
      let raw = datagram h words options seg in
      let ihl = 20 + length options in
      let size = length-datagram h words options seg in
      let long : ltb (length raw) (ihl + 8) ≡ false = ground (arith, size) in
      let src = word-datagram h words options seg 0 ihl (omega arith) ∙ joined s in
      let dst = word-datagram h words options seg 2 (ihl + 2) refl ∙ joined t in
      parse_ip_packet-transport h words options seg few count refl
      ∙ transport_udp raw ihl s t long src dst
      ∙ ap parsed (
          packet_of-datagram h words options seg s t (ihl + 8)
          ∙ ap (packet_with h 17 (length raw) s t) (drop-datagram h words options seg 8))
  parse_ip_packet-datagram h words options (other proto_num payload) few count (no_tcp, no_udp) =
      let seg = other proto_num payload in
      let raw = datagram h words options seg in
      let ihl = 20 + length options in
      let no_ports : (proto_num == 6 || proto_num == 17) ≡ false = ground (arith, no_tcp, no_udp) in
      let long : ltb (length raw) 20 ≡ false = ground arith in
      let version : (high_half (64 + (5 + words)) == 4) ≡ true = ground arith in
      parse_ip_packet-other raw ihl long version no_ports (omega (arith, count))
      ∙ ap parsed (
          packet_of-datagram h words options seg 0 0 ihl
          ∙ ap (packet_with h proto_num (length raw) 0 0) (
              subst (λ k. drop k raw ≡ payload) (plus_zero ihl)
                (drop-datagram h words options seg 0)))
