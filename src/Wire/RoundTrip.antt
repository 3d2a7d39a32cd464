-- ===== src/Wire/RoundTrip.antt =====
-- Reading a field back after it is written (libmcapi/mcapi/mcapi_tls.c), and what a write leaves
-- alone.
use openmcapi_deprecated.Base.{
  ℕ, ◌+◌, ◌*◌, ◌/◌, ◌%◌, ◌^◌, ◌≤◌, ◌<◌, ◌≡◌, refl, ap, ◌⊎◌, [], ◌∷◌, arith, length,
}
use openmcapi_deprecated.Wire.{Buffer, byte, get16, put16, get32, put32, get64, put64}
use openmcapi_deprecated.Wire.Bytes.{
  write_bytes, length-write_bytes, write_bytes-ne, write_bytes_self,
}

module _ (b : Buffer) (off v : ℕ) where
  put16-bytes : put16 b off v ≡ write_bytes b off (v / 2 ^ 8 % 256 ∷ v % 256 ∷ [])
  unfolding put16 write_bytes
  put16-bytes = refl

  put32-bytes :
      put32 b off v
      ≡ write_bytes b off (v / 2 ^ 24 % 256 ∷ v / 2 ^ 16 % 256 ∷ v / 2 ^ 8 % 256 ∷ v % 256 ∷ [])
  unfolding put32 write_bytes
  put32-bytes = ground arith

  pub length-put16 : length (put16 b off v) ≡ length b
  length-put16 =
      omega
        (arith, ap length put16-bytes, length-write_bytes b off (v / 2 ^ 8 % 256 ∷ v % 256 ∷ []))

  -- A 16-bit field reads back as the value that was written, cut to 16 bits.
  pub get16-put16 : off + 2 ≤ length b → get16 (put16 b off v) off ≡ v % 2 ^ 16
  unfolding get16
  get16-put16 h =
      let vs = v / 2 ^ 8 % 256 ∷ v % 256 ∷ [] in
      rw put16-bytes (ground (arith, write_bytes_self b off 0 vs, write_bytes_self b off 1 vs))

  -- A 32-bit field reads back as the value that was written, cut to 32 bits.
  pub get32-put32 : off + 4 ≤ length b → get32 (put32 b off v) off ≡ v % 2 ^ 32
  unfolding get32
  get32-put32 h =
      let vs = v / 2 ^ 24 % 256 ∷ v / 2 ^ 16 % 256 ∷ v / 2 ^ 8 % 256 ∷ v % 256 ∷ [] in
      rw put32-bytes (
        ground (
          arith,
          write_bytes_self b off 0 vs,
          write_bytes_self b off 1 vs,
          write_bytes_self b off 2 vs,
          write_bytes_self b off 3 vs,
        ))

  put64-bytes :
      put64 b off v
      ≡ write_bytes b off (
          v / 2 ^ 56 % 256
          ∷ v / 2 ^ 48 % 256
          ∷ v / 2 ^ 40 % 256
          ∷ v / 2 ^ 32 % 256
          ∷ v / 2 ^ 24 % 256
          ∷ v / 2 ^ 16 % 256
          ∷ v / 2 ^ 8 % 256
          ∷ v % 256
          ∷ [])
  unfolding put64 write_bytes
  put64-bytes = ground arith

  -- A 64-bit field reads back as the value that was written, cut to 64 bits.
  pub get64-put64 : off + 8 ≤ length b → get64 (put64 b off v) off ≡ v % 2 ^ 64
  unfolding get64
  get64-put64 h =
      let vs =
        v / 2 ^ 56 % 256
        ∷ v / 2 ^ 48 % 256
        ∷ v / 2 ^ 40 % 256
        ∷ v / 2 ^ 32 % 256
        ∷ v / 2 ^ 24 % 256
        ∷ v / 2 ^ 16 % 256
        ∷ v / 2 ^ 8 % 256
        ∷ v % 256
        ∷ [] in
      rw put64-bytes (
        ground (
          arith,
          write_bytes_self b off 0 vs,
          write_bytes_self b off 1 vs,
          write_bytes_self b off 2 vs,
          write_bytes_self b off 3 vs,
          write_bytes_self b off 4 vs,
          write_bytes_self b off 5 vs,
          write_bytes_self b off 6 vs,
          write_bytes_self b off 7 vs,
        ))

  pub length-put32 : length (put32 b off v) ≡ length b
  length-put32 =
      let vs = v / 2 ^ 24 % 256 ∷ v / 2 ^ 16 % 256 ∷ v / 2 ^ 8 % 256 ∷ v % 256 ∷ [] in
      omega (arith, ap length put32-bytes, length-write_bytes b off vs)

  pub byte-put16_ne : (j : ℕ) → (j < off) ⊎ (off + 2 ≤ j) → byte (put16 b off v) j ≡ byte b j
  byte-put16_ne j h =
      let vs = v / 2 ^ 8 % 256 ∷ v % 256 ∷ [] in rw put16-bytes (write_bytes-ne b off j vs h)

  pub byte-put32_ne : (j : ℕ) → (j < off) ⊎ (off + 4 ≤ j) → byte (put32 b off v) j ≡ byte b j
  byte-put32_ne j h =
      let vs = v / 2 ^ 24 % 256 ∷ v / 2 ^ 16 % 256 ∷ v / 2 ^ 8 % 256 ∷ v % 256 ∷ [] in
      rw put32-bytes (write_bytes-ne b off j vs h)

-- Fields that do not overlap are independent.
module _ (b : Buffer) (off v at : ℕ) where
  pub get16-put16_ne : (at + 2 ≤ off) ⊎ (off + 2 ≤ at) → get16 (put16 b off v) at ≡ get16 b at
  unfolding get16
  get16-put16_ne h = ground (arith, byte-put16_ne b off v at, byte-put16_ne b off v (at + 1))

  pub get16-put32_ne : (at + 2 ≤ off) ⊎ (off + 4 ≤ at) → get16 (put32 b off v) at ≡ get16 b at
  unfolding get16
  get16-put32_ne h = ground (arith, byte-put32_ne b off v at, byte-put32_ne b off v (at + 1))

  pub get32-put16_ne : (at + 4 ≤ off) ⊎ (off + 2 ≤ at) → get32 (put16 b off v) at ≡ get32 b at
  unfolding get32
  get32-put16_ne h = ground (
    arith,
    byte-put16_ne b off v at,
    byte-put16_ne b off v (at + 1),
    byte-put16_ne b off v (at + 2),
    byte-put16_ne b off v (at + 3),
  )

-- The widths of fields, and how many bytes a field has.
pub data Width : Type 0 where
  w16 : Width
  w32 : Width
  w64 : Width

abbrev pub field_bytes : Width → ℕ
field_bytes w16 = 2
field_bytes w32 = 4
field_bytes w64 = 8

abbrev pub get_field : Width → Buffer → ℕ → ℕ
get_field w16 = get16
get_field w32 = get32
get_field w64 = get64

abbrev pub put_field : Width → Buffer → ℕ → ℕ → Buffer
put_field w16 = put16
put_field w32 = put32
put_field w64 = put64

-- A field of 16, 32 or 64 bits whose bytes lie inside the buffer reads back as the value that was written, cut
-- to its width.
pub get_field-put_field :
    (w : Width) (b : Buffer) (off v : ℕ)
    → off + field_bytes w ≤ length b
    → get_field w (put_field w b off v) off ≡ v % 2 ^ (8 * field_bytes w)
get_field-put_field w16 b off v h = get16-put16 b off v h
get_field-put_field w32 b off v h = get32-put32 b off v h
get_field-put_field w64 b off v h = get64-put64 b off v h
