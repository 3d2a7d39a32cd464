-- ===== src/Handle/Codec.antt =====
-- Encoding and decoding of handles (libmcapi/mcapi/endpoint.c, handle.c).
use openmcapi_deprecated.Base.{
  ℕ, ◌+◌, ◌*◌, ◌/◌, ◌%◌, ◌^◌, ◌<◌, ◌≡◌, refl, ap, ◌∙◌, arith, bit_and, bit_or,
}
use openmcapi_deprecated.Base.Bits.Fields.{bit_or-pack, bit_and-low, bit_and-high}
use openmcapi_deprecated.Handle.{encode_endpoint, decode_endpoint, encode_handle, decode_handle}

-- The fields of a word, by its quotient and remainder.
high_field : (q r : ℕ) → q < 2 ^ 16 → r < 2 ^ 16 → bit_and (q * 2 ^ 16 + r) 0xffff0000 ≡ q * 2 ^ 16
high_field q r hq hr =
    let same : 0 * 2 ^ 16 + q ≡ q = omega arith in
    let whole = bit_and-low 16 0 q 0xffff hq refl in
    omega (arith, bit_and-high 16 q r 0xffff hr, whole, ap (λ t. bit_and t 0xffff) same)

low_field : (q r : ℕ) → r < 2 ^ 16 → bit_and (q * 2 ^ 16 + r) 0x0000ffff ≡ r
low_field q r hr = bit_and-low 16 q r 0xffff hr refl

pub encode_endpoint-eq : (n p : ℕ) → n < 2 ^ 16 → p < 2 ^ 16 → encode_endpoint n p ≡ n * 2 ^ 16 + p
unfolding encode_endpoint
encode_endpoint-eq n p hn hp =
    let fits : n * 2 ^ 16 % 2 ^ 32 ≡ n * 2 ^ 16 = omega arith in
    ap (λ t. bit_or t p) fits ∙ bit_or-pack 16 n p hp

-- A handle made from a 16-bit node and a 16-bit port decodes to that node and that port.
pub decode_endpoint-encode_endpoint :
    (n p : ℕ) → n < 2 ^ 16 → p < 2 ^ 16 → decode_endpoint (encode_endpoint n p) ≡ (n, p)
unfolding decode_endpoint
decode_endpoint-encode_endpoint n p hn hp =
    rw (encode_endpoint-eq n p hn hp) (ground (arith, high_field n p hn hp, low_field n p hp))

pub decode_endpoint-eq : (h : ℕ) → h < 2 ^ 32 → decode_endpoint h ≡ (h / 2 ^ 16, h % 2 ^ 16)
unfolding decode_endpoint
decode_endpoint-eq h small =
    let q = h / 2 ^ 16 in
    let r = h % 2 ^ 16 in
    let split : q * 2 ^ 16 + r ≡ h = omega arith in
    let high : bit_and h 0xffff0000 / 2 ^ 16 ≡ q =
      omega
        (arith, high_field q r (omega arith) (omega arith), ap (λ t. bit_and t 0xffff0000) split) in
    let low : bit_and h 0x0000ffff ≡ r =
      omega (arith, low_field q r (omega arith), ap (λ t. bit_and t 0x0000ffff) split) in
    rw (high, low) refl

-- Every 32-bit handle is the handle of the node and the port that it decodes to.
pub encode_endpoint-decode_endpoint :
    (h : ℕ) → h < 2 ^ 32 → encode_endpoint (decode_endpoint h).0 (decode_endpoint h).1 ≡ h
encode_endpoint-decode_endpoint h small =
    let q = h / 2 ^ 16 in
    let r = h % 2 ^ 16 in
    let split : q * 2 ^ 16 + r ≡ h = omega arith in
    rw (decode_endpoint-eq h small) (encode_endpoint-eq q r (omega arith) (omega arith) ∙ split)

-- Two endpoints whose nodes and ports are 16-bit numbers have the same handle only if they have the
-- same node and the same port.
pub encode_endpoint-injective :
    (n p m q : ℕ)
    → n < 2 ^ 16
    → p < 2 ^ 16
    → m < 2 ^ 16
    → q < 2 ^ 16
    → encode_endpoint n p ≡ encode_endpoint m q
    → (n ≡ m) × (p ≡ q)
encode_endpoint-injective n p m q hn hp hm hq e =
    omega (arith, encode_endpoint-eq n p hn hp, encode_endpoint-eq m q hm hq)

-- `mcapi_encode_handle` cuts its arguments to 16 bits, and `mcapi_decode_handle` returns exactly
-- what is left of them.
pub decode_handle-encode_handle :
    (a b : ℕ) → decode_handle (encode_handle a b) ≡ (a % 2 ^ 16, b % 2 ^ 16)
unfolding decode_handle encode_handle
decode_handle-encode_handle a b =
    let n = a % 2 ^ 16 in
    let p = b % 2 ^ 16 in
    let fits : n * 2 ^ 16 % 2 ^ 32 ≡ n * 2 ^ 16 = omega arith in
    rw (fits, bit_or-pack 16 n p (omega arith))
      (ground (arith, high_field n p (omega arith) (omega arith), low_field n p (omega arith)))
