-- ===== src/Handle.antt =====
-- libmcapi/mcapi/handle.c and the codec of libmcapi/mcapi/endpoint.c: a 32-bit endpoint handle has
-- the node in its high half and the port in its low half. Node and port are unsigned ints, so `<<=`
-- drops what leaves the 32 bits.
pub mod Codec
mod Tests
use openmcapi_deprecated.Base.{ℕ, ◌*◌, ◌/◌, ◌%◌, ◌^◌, bit_and, bit_or}

-- `mcapi_encode_endpoint`
unfoldable pub encode_endpoint : ℕ → ℕ → ℕ
encode_endpoint node_id port_id = bit_or (node_id * 2 ^ 16 % 2 ^ 32) port_id

-- `mcapi_decode_endpoint`: the node and the port
unfoldable pub decode_endpoint : ℕ → ℕ × ℕ
decode_endpoint handle = (bit_and handle 0xffff0000 / 2 ^ 16, bit_and handle 0x0000ffff)

-- `mcapi_encode_handle`: its arguments are 16-bit numbers, so a caller's are cut.
pub encode_handle : ℕ → ℕ → ℕ
encode_handle node_idx endp_idx = bit_or (node_idx % 2 ^ 16 * 2 ^ 16 % 2 ^ 32) (endp_idx % 2 ^ 16)

-- `mcapi_decode_handle`: the two indices
pub decode_handle : ℕ → ℕ × ℕ
decode_handle handle = (bit_and handle 0xffff0000 / 2 ^ 16, bit_and handle 0x0000ffff)
