-- ===== src/Abi/Words.antt =====
-- evm/abi.rs: `roundup`, `set_size` and `get_size`. Bytes are numbers below 256.
use ityfuzz_rl_src.Prelude.{
  ℕ, zero, suc, ◌+◌, ◌-◌, ◌*◌, ◌/◌, ◌%◌, ◌<◌, ◌≡◌, refl, ◌∙◌, List, [], ◌∷◌, ◌++◌, Option, none,
  some, arith, u64_mod, length,
}

unfoldable pub roundup : ℕ → ℕ → ℕ
roundup x multiplier = (x + multiplier - 1) / multiplier * multiplier

-- `n` rounds of the loop, from the last byte to the first, in front of the bytes written so far.
unfoldable pub size_bytes : ℕ → ℕ → List ℕ → List ℕ
size_bytes zero rem bytes = bytes
size_bytes (suc n) rem bytes = size_bytes n (rem / 256) ((rem % 256) ∷ bytes)

-- The 32 bytes that `set_size` writes.
unfoldable pub set_size : ℕ → List ℕ
unfolding size_bytes
set_size len = size_bytes 32 len []

-- `n` rounds of the loop; a missing byte is a panic. The shift drops what leaves the 64-bit word.
unfoldable pub read_bytes : ℕ → ℕ → List ℕ → Option ℕ
read_bytes zero size bytes = some size
read_bytes (suc n) size [] = none
read_bytes (suc n) size (b ∷ bytes) = read_bytes n (size * 256 % u64_mod + b) bytes

unfoldable pub get_size : List ℕ → Option ℕ
unfolding read_bytes
get_size bytes = read_bytes 32 0 bytes

-- 256 ^ n
abbrev powers : ℕ → ℕ
powers zero = 1
powers (suc n) = 256 * powers n

length-size_bytes :
    (n rem : ℕ) (bytes : List ℕ) → length (size_bytes n rem bytes) ≡ n + length bytes
unfolding size_bytes
length-size_bytes zero rem bytes = omega arith
length-size_bytes (suc n) rem bytes =
    omega (arith, length-size_bytes n (rem / 256) ((rem % 256) ∷ bytes))

pub length-set_size : (len : ℕ) → length (set_size len) ≡ 32
unfolding set_size
length-set_size len = length-size_bytes 32 len []

size_bytes-append :
    (n rem : ℕ) (bytes rest : List ℕ)
    → size_bytes n rem bytes ++ rest ≡ size_bytes n rem (bytes ++ rest)
unfolding size_bytes
size_bytes-append zero rem bytes rest = refl
size_bytes-append (suc n) rem bytes rest =
    size_bytes-append n (rem / 256) ((rem % 256) ∷ bytes) rest

read-size_bytes :
    (k n m r : ℕ) (bytes : List ℕ)
    → k ≡ n + m
    → r < powers n
    → read_bytes k 0 (size_bytes n r bytes) ≡ read_bytes m (r % u64_mod) bytes
unfolding size_bytes read_bytes
read-size_bytes k zero m r bytes e lt =
    let same : k ≡ m = omega arith in
    let none_left : r ≡ 0 = omega arith in rw (same, none_left) refl
read-size_bytes k (suc n) m r bytes e lt =
    let step : r / 256 % u64_mod * 256 % u64_mod + r % 256 ≡ r % u64_mod = omega arith in
    read-size_bytes k n (suc m) (r / 256) ((r % 256) ∷ bytes) (omega arith) (omega arith)
    ∙ rw step refl

read-written :
    (n r : ℕ) (rest : List ℕ)
    → r < powers n
    → read_bytes n 0 (size_bytes n r [] ++ rest) ≡ some (r % u64_mod)
unfolding read_bytes
read-written n r rest lt =
    rw (size_bytes-append n r [] rest) (read-size_bytes n n 0 r rest (omega arith) lt)

-- A size below 2 ^ 64 that was written is read back, whatever follows it.
pub get_size-set_size :
    (len : ℕ) (rest : List ℕ) → len < u64_mod → get_size (set_size len ++ rest) ≡ some len
unfolding get_size set_size
get_size-set_size len rest small =
    let same : len % u64_mod ≡ len = omega arith in
    read-written 32 len rest (omega arith) ∙ rw same refl
