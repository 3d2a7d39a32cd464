-- ===== src/Wire/Tests.antt =====
-- The theorem on libmcapi/mcapi/mcapi_tls.c at the last field of a buffer of 20 bytes.
use openmcapi_deprecated.Base.{◌%◌, ◌^◌, ◌≡◌, arith, replicate}
use openmcapi_deprecated.Wire.{Buffer, get32, put32}
use openmcapi_deprecated.Wire.RoundTrip.{w32, get_field-put_field}

abbrev packet : Buffer
packet = replicate 20 0xff

get_field-put_field_example :
    get32 (put32 packet 16 0x123456789abcdef0) 16 ≡ 0x123456789abcdef0 % 2 ^ 32
get_field-put_field_example = get_field-put_field w32 packet 16 0x123456789abcdef0 (omega arith)
