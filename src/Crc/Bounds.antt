-- ===== src/Crc/Bounds.antt =====
-- The bound of the checksum of src/stores/file.rs.
use Prim.Native.Nat.{bit_xor, bit_xor-bitwise, digits, differ}
use yaoki.Prelude.{ℕ, zero, suc, ◌*◌, ◌/◌, ◌%◌, ◌^◌, ◌<◌, [], ◌∷◌, ◌≡◌, arith, nat_eq}
use yaoki.Text.{Bytes}
use yaoki.Crc.{crc_round, crc_rounds, crc32_table, crc32_bytes, crc32}

-- The result of two digits is a digit.
differ-lt : (x y : ℕ) → x < 2 → y < 2 → differ x y < 2
differ-lt zero y hx hy = hy
differ-lt (suc x) zero hx hy = hx
differ-lt (suc x) (suc y) hx hy = differ-lt x y (omega arith) (omega arith)

digits_lt : (k n a b : ℕ) → a < 2 ^ k → b < 2 ^ k → digits (λ b. b) differ n a b < 2 ^ k
digits_lt k zero a b ha hb = hb
digits_lt k (suc n) zero b ha hb = hb
digits_lt zero (suc n) (suc a) b ha hb = absurd (omega arith)
digits_lt (suc k) (suc n) (suc a) b ha hb =
    let p : 2 ^ suc k ≡ 2 ^ k * 2 = omega arith in
    let d = differ-lt (suc a % 2) (b % 2) (omega arith) (omega arith) in
    let r = digits_lt k n (suc a / 2) (b / 2) (omega (arith, p)) (omega (arith, p)) in
    omega (arith, p, d, r)

pub bit_xor-lt : (k a b : ℕ) → a < 2 ^ k → b < 2 ^ k → bit_xor a b < 2 ^ k
bit_xor-lt k a b ha hb = rw (bit_xor-bitwise a b) (digits_lt k a a b ha hb)

crc_round-lt : (crc : ℕ) → crc < 2 ^ 32 → crc_round crc < 2 ^ 32
unfolding crc_round
crc_round-lt crc h = ground (arith, bit_xor-lt 32 (crc / 2) 0xEDB88320)

crc_rounds-lt : (j crc : ℕ) → crc < 2 ^ 32 → crc_rounds j crc < 2 ^ 32
unfolding crc_rounds
crc_rounds-lt zero crc h = h
crc_rounds-lt (suc j) crc h = crc_rounds-lt j (crc_round crc) (crc_round-lt crc h)

crc32_bytes-lt : (bytes : Bytes) (crc : ℕ) → crc < 2 ^ 32 → crc32_bytes crc bytes < 2 ^ 32
unfolding crc32_bytes crc32_table
crc32_bytes-lt [] crc h = h
crc32_bytes-lt (byte ∷ bytes) crc h = crc32_bytes-lt bytes _ (
    bit_xor-lt 32 (crc / 256) (crc32_table (bit_xor crc byte % 256)) (omega arith)
      (crc_rounds-lt 8 (bit_xor crc byte % 256) (omega arith)))

-- The checksum of any bytes is below 2^32: eight hexadecimal digits hold it, and it is a `u32`.
pub crc32-lt : (bytes : Bytes) → crc32 bytes < 2 ^ 32
unfolding crc32
crc32-lt bytes =
    bit_xor-lt 32 (crc32_bytes 0xFFFFFFFF bytes) 0xFFFFFFFF
      (crc32_bytes-lt bytes 0xFFFFFFFF (omega arith)) (omega arith)
