-- ===== src/Capture/Datagrams/Lengths.antt =====
-- Which datagrams `_parse_ip_packet` accepts, and the bounds of what it reads.
use smart_bandwidth_optimize.Base.{
  ℕ, zero, suc, ◌+◌, ◌*◌, ◌/◌, ◌%◌, ◌≤◌, ◌<◌, ◌≡◌, ◌⊎◌, inl, inr, refl, subst, sym, ◌||◌, none, [],
  ◌∷◌, ◌==◌, length, drop, All, get_elem?, arith, Bool-cases, Option-cases,
}
use smart_bandwidth_optimize.Base.Int.{pos}
use smart_bandwidth_optimize.Base.Text.{Bytes}
use smart_bandwidth_optimize.Base.Float.{Float}
use smart_bandwidth_optimize.Classifier.{Packet, post_init}
use smart_bandwidth_optimize.Capture.Datagrams.{
  Parsed, parsed, index_error, byte, word, packet_of, high_half, parse_transport, parse_ip_packet,
}

get_elem?-none : (xs : Bytes) (i : ℕ) → length xs ≤ i → get_elem? xs i ≡ none
get_elem?-none [] i h = refl
get_elem?-none (x ∷ xs) zero h = absurd (ground arith)
get_elem?-none (x ∷ xs) (suc i) h = get_elem?-none xs i (omega arith)

none-length : (xs : Bytes) (i : ℕ) → get_elem? xs i ≡ none → length xs ≤ i
none-length [] i h = omega arith
none-length (x ∷ xs) zero h = cc
none-length (x ∷ xs) (suc i) h = omega (arith, none-length xs i h)

byte_bound : (raw : Bytes) → All (λ b. b < 256) raw → (i : ℕ) → byte raw i < 256
byte_bound [] h i = omega arith
byte_bound (b ∷ raw) h zero = h.0
byte_bound (b ∷ raw) h (suc i) = byte_bound raw h.1 i

drop_bound : (n : ℕ) (xs : Bytes) → length (drop n xs) ≤ length xs
drop_bound zero xs = omega arith
drop_bound (suc n) [] = omega arith
drop_bound (suc n) (x ∷ xs) = omega (arith, drop_bound n xs)

module _ {F : Type 0} ⦃d : Float F⦄ where
  -- `_parse_ip_packet` raises an `IndexError` exactly for datagrams of at least 20 bytes, of version 4
  -- and of TCP, that have the first eight bytes of the TCP header and not the thirteenth.
  pub parse_ip_packet-index_error :
      (raw : Bytes)
      → let ihl = byte raw 0 % 16 * 4 in
        (◌≡◌ {A = Parsed F} (parse_ip_packet raw) index_error
          → (20 ≤ length raw)
            × (byte raw 0 / 16 % 16 ≡ 4)
            × (byte raw 9 ≡ 6)
            × (ihl + 8 ≤ length raw)
            × (length raw ≤ ihl + 12))
        × (20 ≤ length raw
            → byte raw 0 / 16 % 16 ≡ 4
            → byte raw 9 ≡ 6
            → ihl + 8 ≤ length raw
            → length raw ≤ ihl + 12
            → ◌≡◌ {A = Parsed F} (parse_ip_packet raw) index_error)
  unfolding parse_ip_packet parse_transport
  parse_ip_packet-index_error raw =
      let ihl = byte raw 0 % 16 * 4 in
      (
        λ h. ground (arith, none-length raw (ihl + 12)),
        λ long version tcp enough short. ground (arith, get_elem?-none raw (ihl + 12)),
      )

  packet_of_lem :
      (raw : Bytes) (src_port dst_port start : ℕ) (p : Packet F)
      → 20 ≤ length raw
      → p ≡ packet_of raw src_port dst_port start
      → (p.src_port ≡ src_port)
        × (p.dst_port ≡ dst_port)
        × (p.size_bytes ≡ pos (length raw))
        × (p.payload ≡ drop start raw)
  unfolding packet_of post_init
  packet_of_lem raw src_port dst_port start p long same =
      let q : Packet F = packet_of raw src_port dst_port start in
      let facts : (q.src_port ≡ src_port)
          × (q.dst_port ≡ dst_port)
          × (q.size_bytes ≡ pos (length raw))
          × (q.payload ≡ drop start raw) =
        ground arith in
      rw same facts

  parse_transport-packet_of :
      (raw : Bytes) (ihl proto_num : ℕ) {p : Packet F}
      → parse_transport raw ihl proto_num ≡ parsed p
      → (start : ℕ) × (p ≡ packet_of raw (word raw ihl) (word raw (ihl + 2)) start)
  unfolding parse_transport
  parse_transport-packet_of raw ihl proto_num h = elim (Bool-cases (proto_num == 6)) [
    | inr other ↦ (ihl + 8, ground (arith, h, other))
    | inl tcp ↦ elim (Option-cases (get_elem? raw (ihl + 12))) [
      | inl short ↦ absurd (ground (arith, h, tcp, short))
      | inr (b, got) ↦ (ihl + high_half b * 4, ground (arith, h, tcp, got))
    ]
  ]

  parse_ip_packet-packet_of :
      (raw : Bytes) {p : Packet F}
      → parse_ip_packet raw ≡ parsed p
      → (20 ≤ length raw)
        × (start : ℕ) × ((p ≡ packet_of raw 0 0 start)
            ⊎ ((i : ℕ) × (p ≡ packet_of raw (word raw i) (word raw (i + 2)) start)))
  unfolding parse_ip_packet
  parse_ip_packet-packet_of raw {p} h = elim (Bool-cases (byte raw 9 == 6 || byte raw 9 == 17)) [
    | inr other ↦ (ground arith, byte raw 0 % 16 * 4, inl (ground (arith, h, other)))
    | inl ports ↦
        let ihl = byte raw 0 % 16 * 4 in
        let inside : parse_transport raw ihl (byte raw 9) ≡ parsed p = ground (arith, h, ports) in
        let (start, same) = parse_transport-packet_of raw ihl (byte raw 9) inside in
        (ground arith, start, inr (ihl, same))
  ]

  -- What `_parse_ip_packet` returns for bytes: ports of 16 bits, the length of the datagram as the size,
  -- and a payload that is an end of the datagram.
  parse_ip_packet-bounds :
      (raw : Bytes) {p : Packet F}
      → All (λ b. b < 256) raw
      → parse_ip_packet raw ≡ parsed p
      → (p.src_port < 65536)
        × (p.dst_port < 65536)
        × (p.size_bytes ≡ pos (length raw))
        × ((start : ℕ) × (p.payload ≡ drop start raw))
        × (length p.payload ≤ length raw)
  parse_ip_packet-bounds raw {p} bytes h =
      let (long, start, which) = parse_ip_packet-packet_of raw h in
      elim which [
        | inl same ↦
            let (src, dst, size, rest) = packet_of_lem raw 0 0 start p long same in
            (
              omega (arith, src),
              omega (arith, dst),
              size,
              (start, rest),
              subst (λ l. length l ≤ length raw) (sym rest) (drop_bound start raw),
            )
        | inr (i, same) ↦
            let (src, dst, size, rest) =
              packet_of_lem raw (word raw i) (word raw (i + 2)) start p long same in
            (
              omega (arith, src, byte_bound raw bytes i, byte_bound raw bytes (i + 1)),
              omega (arith, dst, byte_bound raw bytes (i + 2), byte_bound raw bytes (i + 2 + 1)),
              size,
              (start, rest),
              subst (λ l. length l ≤ length raw) (sym rest) (drop_bound start raw),
            )
      ]
