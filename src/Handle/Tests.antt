-- ===== src/Handle/Tests.antt =====
-- The theorems on libmcapi/mcapi/endpoint.c and handle.c at some handles.
use openmcapi_deprecated.Base.{◌≡◌, arith}
use openmcapi_deprecated.Handle.{encode_endpoint, decode_endpoint}
use openmcapi_deprecated.Handle.Codec.{encode_endpoint-decode_endpoint}

encode_endpoint-decode_endpoint_example :
    encode_endpoint (decode_endpoint 0x00012710).0 (decode_endpoint 0x00012710).1 ≡ 0x00012710
encode_endpoint-decode_endpoint_example = encode_endpoint-decode_endpoint 0x00012710 (omega arith)
