-- ===== src/Packet/Layout.antt =====
-- Data written behind a header into a buffer and read back: the lists behind `memcpy` in `msg_send` and
-- `msg_recv_copy_data` (libmcapi/mcapi/msg_snd.c and msg_rcv.c).
use openmcapi_deprecated.Base.{
  ℕ, zero, suc, ◌+◌, ◌≤◌, ◌<◌, ◌≡◌, refl, ap, List, [], ◌∷◌, arith, length, set,
}
use openmcapi_deprecated.Wire.{Buffer, byte, get16}
use openmcapi_deprecated.Wire.Bytes.{write_bytes, write_bytes-ne}
use openmcapi_deprecated.Packet.{drop, take}

write_bytes-suc :
    (x : ℕ) (xs : Buffer) (off : ℕ) (vs : List ℕ)
    → write_bytes (x ∷ xs) (suc off) vs ≡ x ∷ write_bytes xs off vs
unfolding write_bytes
write_bytes-suc x xs off [] = refl
write_bytes-suc x xs off (v ∷ vs) =
    let next : suc off + 1 ≡ suc (off + 1) = omega arith in
    rw next (write_bytes-suc x (set xs off v) (off + 1) vs)

take-write_bytes :
    (b : Buffer) (vs : List ℕ) → length vs ≤ length b → take (length vs) (write_bytes b 0 vs) ≡ vs
unfolding write_bytes
take-write_bytes b [] h = refl
take-write_bytes [] (v ∷ vs) h = absurd (omega arith)
take-write_bytes (x ∷ xs) (v ∷ vs) h =
    rw (write_bytes-suc v xs 0 vs) (ap (λ t. v ∷ t) (take-write_bytes xs vs (omega arith)))

-- What is written from k on stands behind the first k bytes.
pub drop-take-write_bytes :
    (k : ℕ) (b : Buffer) (vs : List ℕ)
    → k + length vs ≤ length b
    → drop k (take (length vs + k) (write_bytes b k vs)) ≡ vs
drop-take-write_bytes zero b vs h =
    let none_before : length vs + 0 ≡ length vs = omega arith in
    rw none_before (take-write_bytes b vs (omega arith))
drop-take-write_bytes (suc k) [] vs h = absurd (omega arith)
drop-take-write_bytes (suc k) (x ∷ xs) vs h =
    let one_more : length vs + suc k ≡ suc (length vs + k) = omega arith in
    rw (one_more, write_bytes-suc x xs k vs) (drop-take-write_bytes k xs vs (omega arith))

pub length-take : (n : ℕ) (xs : List ℕ) → n ≤ length xs → length (take n xs) ≡ n
length-take zero xs h = refl
length-take (suc n) [] h = absurd (omega arith)
length-take (suc n) (x ∷ xs) h = ap suc (length-take n xs (omega arith))

pub take_all : (xs : List ℕ) → take (length xs) xs ≡ xs
take_all [] = refl
take_all (x ∷ xs) = ap (λ t. x ∷ t) (take_all xs)

byte-take : (n : ℕ) (xs : List ℕ) (i : ℕ) → i < n → byte (take n xs) i ≡ byte xs i
byte-take zero xs i h = absurd (omega arith)
byte-take (suc n) [] i h = refl
byte-take (suc n) (x ∷ xs) zero h = refl
byte-take (suc n) (x ∷ xs) (suc i) h = byte-take n xs i (omega arith)

pub get16-take : (n : ℕ) (xs : List ℕ) (at : ℕ) → at + 2 ≤ n → get16 (take n xs) at ≡ get16 xs at
unfolding get16
get16-take n xs at h = ground (arith, byte-take n xs at, byte-take n xs (at + 1))

pub get16-write_bytes :
    (b : Buffer) (off : ℕ) (vs : List ℕ) (at : ℕ)
    → at + 2 ≤ off
    → get16 (write_bytes b off vs) at ≡ get16 b at
unfolding get16
get16-write_bytes b off vs at h =
    ground (arith, write_bytes-ne b off at vs, write_bytes-ne b off (at + 1) vs)
