-- ===== src/Packet.antt =====
-- The layout of a packet: the offsets of libmcapi/include/openmcapi.h, and the data behind the header as
-- `msg_recv_copy_data` of libmcapi/mcapi/msg_rcv.c copies it. A buffer holds `buf_size` bytes, a size_t of
-- `size_bits` bits; its contents are the list of these bytes.
pub mod Layout
use openmcapi_deprecated.Base.{ℕ, zero, suc, ◌+◌, ◌-◌, ◌%◌, ◌^◌, List, [], ◌∷◌, length}
use openmcapi_deprecated.Wire.{Buffer}

abbrev pub src_node : ℕ
src_node = 0

abbrev pub src_port : ℕ
src_port = 2

abbrev pub dest_node : ℕ
dest_node = 4

abbrev pub dest_port : ℕ
dest_port = 6

abbrev pub prio : ℕ
prio = 8

abbrev pub unused : ℕ
unused = 10

abbrev pub header_len : ℕ
header_len = 12

abbrev pub size_bits : ℕ
size_bits = 32

-- What stands in a list behind its first n entries.
abbrev pub drop {ℓ} : {A : Type ℓ} → ℕ → List A → List A
drop zero xs = xs
drop (suc n) [] = []
drop (suc n) (x ∷ xs) = drop n xs

-- The first n entries of a list.
abbrev pub take {ℓ} : {A : Type ℓ} → ℕ → List A → List A
take zero xs = []
take (suc n) [] = []
take (suc n) (x ∷ xs) = x ∷ take n xs

-- `buf_size - MCAPI_HEADER_LEN`, which wraps round.
abbrev pub data_size : Buffer → ℕ
data_size packet = (length packet + (2 ^ size_bits - header_len)) % 2 ^ size_bits

-- The bytes that `msg_recv_copy_data` copies.
abbrev pub payload : Buffer → List ℕ
payload packet = drop header_len packet
