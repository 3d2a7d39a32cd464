-- ===== src/Wire.antt =====
-- libmcapi/mcapi/mcapi_tls.c: big-endian fields of a byte buffer. A buffer is the list of its bytes;
-- `(unsigned char)(v >> k)` is `v / 2 ^ k % 256`. The sums of shifted bytes are reduced to the width
-- of the result.
pub mod Bytes
pub mod RoundTrip
mod Tests
use openmcapi_deprecated.Base.{ℕ, ◌+◌, ◌*◌, ◌/◌, ◌%◌, ◌^◌, List, get_or, set}

abbrev pub Buffer : Type 0
Buffer = List ℕ

abbrev pub byte : Buffer → ℕ → ℕ
byte b i = get_or b i 0

unfoldable pub get16 : Buffer → ℕ → ℕ
get16 b off = (byte b off * 2 ^ 8 + byte b (off + 1)) % 2 ^ 16

unfoldable pub put16 : Buffer → ℕ → ℕ → Buffer
put16 b off v = set (set b off (v / 2 ^ 8 % 256)) (off + 1) (v % 256)

unfoldable pub get32 : Buffer → ℕ → ℕ
get32 b off =
    (byte b off * 2 ^ 24 + byte b (off + 1) * 2 ^ 16 + byte b (off + 2) * 2 ^ 8 + byte b (off + 3))
    % 2 ^ 32

unfoldable pub put32 : Buffer → ℕ → ℕ → Buffer
put32 b off v =
    let b₁ = set b off (v / 2 ^ 24 % 256) in
    let b₂ = set b₁ (off + 1) (v / 2 ^ 16 % 256) in
    let b₃ = set b₂ (off + 2) (v / 2 ^ 8 % 256) in set b₃ (off + 3) (v % 256)

pub get64 : Buffer → ℕ → ℕ
get64 b off =
    (byte b off * 2 ^ 56
      + byte b (off + 1) * 2 ^ 48
      + byte b (off + 2) * 2 ^ 40
      + byte b (off + 3) * 2 ^ 32
      + byte b (off + 4) * 2 ^ 24
      + byte b (off + 5) * 2 ^ 16
      + byte b (off + 6) * 2 ^ 8
      + byte b (off + 7))
    % 2 ^ 64

pub put64 : Buffer → ℕ → ℕ → Buffer
put64 b off v =
    let b₁ = set b off (v / 2 ^ 56 % 256) in
    let b₂ = set b₁ (off + 1) (v / 2 ^ 48 % 256) in
    let b₃ = set b₂ (off + 2) (v / 2 ^ 40 % 256) in
    let b₄ = set b₃ (off + 3) (v / 2 ^ 32 % 256) in
    let b₅ = set b₄ (off + 4) (v / 2 ^ 24 % 256) in
    let b₆ = set b₅ (off + 5) (v / 2 ^ 16 % 256) in
    let b₇ = set b₆ (off + 6) (v / 2 ^ 8 % 256) in set b₇ (off + 7) (v % 256)
