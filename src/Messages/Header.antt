-- ===== src/Messages/Header.antt =====
-- What stands in the packet that `msg_send` makes (libmcapi/mcapi/msg_snd.c).
use openmcapi_deprecated.Base.{ℕ, ◌+◌, ◌%◌, ◌^◌, ◌≤◌, ◌<◌, ◌≡◌, refl, ◌∙◌, inl, List, arith, length}
use openmcapi_deprecated.Wire.{Buffer, get16, put16}
use openmcapi_deprecated.Wire.Bytes.{write_bytes, length-write_bytes}
use openmcapi_deprecated.Wire.RoundTrip.{get16-put16, get16-put16_ne, length-put16}
use openmcapi_deprecated.Packet
use openmcapi_deprecated.Packet.{take, drop, header_len, size_bits, data_size, payload}
use openmcapi_deprecated.Packet.Layout.{
  drop-take-write_bytes, length-take, take_all, get16-take, get16-write_bytes,
}
use openmcapi_deprecated.Endpoints.{Endpoint}
use openmcapi_deprecated.Messages.{put_header, make_packet}

-- The buffer after each of the six fields.
module _ (b : Buffer) (n p m q pr : ℕ) where
  abbrev b₁ : Buffer
  b₁ = put16 b Packet.src_node n

  abbrev b₂ : Buffer
  b₂ = put16 b₁ Packet.src_port p

  abbrev b₃ : Buffer
  b₃ = put16 b₂ Packet.dest_node m

  abbrev b₄ : Buffer
  b₄ = put16 b₃ Packet.dest_port q

  abbrev b₅ : Buffer
  b₅ = put16 b₄ Packet.prio pr

  length-b₂ : length b₂ ≡ length b
  length-b₂ = length-put16 b₁ 2 p ∙ length-put16 b 0 n

  length-b₃ : length b₃ ≡ length b
  length-b₃ = length-put16 b₂ 4 m ∙ length-b₂

  length-b₄ : length b₄ ≡ length b
  length-b₄ = length-put16 b₃ 6 q ∙ length-b₃

  length-put_header : length (put_header b n p m q pr) ≡ length b
  unfolding put_header
  length-put_header = length-put16 b₅ 10 0 ∙ length-put16 b₄ 8 pr ∙ length-b₄

  -- What was written before the priority.
  before_prio : (at : ℕ) → at + 2 ≤ 8 → get16 (put_header b n p m q pr) at ≡ get16 b₄ at
  unfolding put_header
  before_prio at h =
      get16-put16_ne b₅ 10 0 at (inl (omega arith)) ∙ get16-put16_ne b₄ 8 pr at (inl (omega arith))

  module _ (room : header_len ≤ length b) where
    get16-dest_node : get16 (put_header b n p m q pr) Packet.dest_node ≡ m % 2 ^ 16
    get16-dest_node =
        before_prio 4 (omega arith)
        ∙ get16-put16_ne b₃ 6 q 4 (inl (omega arith))
        ∙ get16-put16 b₂ 4 m (omega (arith, length-b₂))

    get16-dest_port : get16 (put_header b n p m q pr) Packet.dest_port ≡ q % 2 ^ 16
    get16-dest_port = before_prio 6 (omega arith) ∙ get16-put16 b₃ 6 q (omega (arith, length-b₃))

    get16-src_node : get16 (put_header b n p m q pr) Packet.src_node ≡ n % 2 ^ 16
    get16-src_node =
        before_prio 0 (omega arith)
        ∙ get16-put16_ne b₃ 6 q 0 (inl (omega arith))
        ∙ get16-put16_ne b₂ 4 m 0 (inl (omega arith))
        ∙ get16-put16_ne b₁ 2 p 0 (inl (omega arith))
        ∙ get16-put16 b 0 n (omega arith)

    get16-src_port : get16 (put_header b n p m q pr) Packet.src_port ≡ p % 2 ^ 16
    get16-src_port =
        before_prio 2 (omega arith)
        ∙ get16-put16_ne b₃ 6 q 2 (inl (omega arith))
        ∙ get16-put16_ne b₂ 4 m 2 (inl (omega arith))
        ∙ get16-put16 b₁ 2 p (omega (arith, length-put16 b 0 n))

-- A packet that carries data to a node and a port, from an endpoint.
pub record Carries (packet : Buffer) (endp : Endpoint) (node port : ℕ) (bytes : List ℕ)
    : Type 0 where
  pub from_node : get16 packet Packet.src_node ≡ endp.node_id % 2 ^ 16
  pub from_port : get16 packet Packet.src_port ≡ endp.port_id % 2 ^ 16
  pub to_node : get16 packet Packet.dest_node ≡ node % 2 ^ 16
  pub to_port : get16 packet Packet.dest_port ≡ port % 2 ^ 16
  pub data_len : data_size packet ≡ length bytes
  pub carried : payload packet ≡ bytes

module _ (b : Buffer) (endp : Endpoint) (node port : ℕ) (bytes : List ℕ)
    (room : length bytes + header_len ≤ length b)
    (fits : length bytes + header_len < 2 ^ size_bits) where
  abbrev headed : Buffer
  headed = put_header b endp.node_id endp.port_id node port endp.priority

  length-headed : length headed ≡ length b
  length-headed = length-put_header b endp.node_id endp.port_id node port endp.priority

  packet-eq :
      make_packet b endp node port bytes (length bytes)
      ≡ take (length bytes + header_len) (write_bytes headed header_len bytes)
  unfolding make_packet
  packet-eq =
      let small : (length bytes + header_len) % 2 ^ size_bits ≡ length bytes + header_len =
        omega arith in
      rw (small, take_all bytes) refl

  length-packet :
      length (take (length bytes + header_len) (write_bytes headed header_len bytes))
      ≡ length bytes + header_len
  length-packet =
      length-take (length bytes + header_len) (write_bytes headed header_len bytes)
        (omega (arith, length-write_bytes headed header_len bytes, length-headed))

  packet-field :
      (at : ℕ)
      → at + 2 ≤ header_len
      → get16 (take (length bytes + header_len) (write_bytes headed header_len bytes)) at
        ≡ get16 headed at
  packet-field at h =
      get16-take (length bytes + header_len) (write_bytes headed header_len bytes) at (omega arith)
      ∙ get16-write_bytes headed header_len bytes at h

  pub make_packet-Carries :
      Carries (make_packet b endp node port bytes (length bytes)) endp node port bytes
  make_packet-Carries =
      let n = endp.node_id in
      let p = endp.port_id in
      let pr = endp.priority in
      rw packet-eq record {
        from_node = packet-field 0 (omega arith) ∙ get16-src_node b n p node port pr (omega arith);
        from_port = packet-field 2 (omega arith) ∙ get16-src_port b n p node port pr (omega arith);
        to_node = packet-field 4 (omega arith) ∙ get16-dest_node b n p node port pr (omega arith);
        to_port = packet-field 6 (omega arith) ∙ get16-dest_port b n p node port pr (omega arith);
        data_len = omega (arith, length-packet);
        carried = drop-take-write_bytes header_len headed bytes (omega (arith, length-headed));
      }
