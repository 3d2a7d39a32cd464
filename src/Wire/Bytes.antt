-- ===== src/Wire/Bytes.antt =====
-- Runs of bytes written into a buffer: the common shape of the `put` functions of
-- libmcapi/mcapi/mcapi_tls.c.
use openmcapi_deprecated.Base.{
  ℕ, zero, suc, ◌+◌, ◌≤◌, ◌<◌, ◌≡◌, refl, ◌⊎◌, List, [], ◌∷◌, arith, length, get_or, set,
  length-set, get_or-set_self, get_or-set_ne,
}
use openmcapi_deprecated.Wire.{Buffer, byte}

-- Consecutive bytes written from `off` on, as every `put` does.
unfoldable pub write_bytes : Buffer → ℕ → List ℕ → Buffer
write_bytes b off [] = b
write_bytes b off (v ∷ vs) = write_bytes (set b off v) (off + 1) vs

pub length-write_bytes :
    (b : Buffer) (off : ℕ) (vs : List ℕ) → length (write_bytes b off vs) ≡ length b
unfolding write_bytes
length-write_bytes b off [] = refl
length-write_bytes b off (v ∷ vs) =
    omega (arith, length-write_bytes (set b off v) (off + 1) vs, length-set b off v)

pub write_bytes-ne :
    (b : Buffer) (off j : ℕ) (vs : List ℕ)
    → (j < off) ⊎ (off + length vs ≤ j)
    → byte (write_bytes b off vs) j ≡ byte b j
unfolding write_bytes
write_bytes-ne b off j [] h = refl
write_bytes-ne b off j (v ∷ vs) h =
    ground (arith, write_bytes-ne (set b off v) (off + 1) j vs, get_or-set_ne b off j v 0)

pub write_bytes_self :
    (b : Buffer) (off i : ℕ) (vs : List ℕ)
    → i < length vs
    → off + length vs ≤ length b
    → byte (write_bytes b off vs) (off + i) ≡ get_or vs i 0
unfolding write_bytes
write_bytes_self b off i [] h f = absurd (omega arith)
write_bytes_self b off zero (v ∷ vs) h f =
    ground (arith, write_bytes-ne (set b off v) (off + 1) (off + 0) vs, get_or-set_self b off v 0)
write_bytes_self b off (suc i) (v ∷ vs) h f =
    ground (arith, write_bytes_self (set b off v) (off + 1) i vs, length-set b off v)
