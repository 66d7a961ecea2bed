-- ===== src/Crc.antt =====
-- The CRC-32 of src/stores/file.rs: the table of `crc32_table` and the loop of `crc32`. A shift to the
-- right is a quotient, a mask of low bits a remainder.
pub mod Bounds
use Prim.Native.Nat.{bit_xor}
use yaoki.Prelude.{ℕ, zero, suc, ◌/◌, ◌%◌, List, [], ◌∷◌, if◌then◌else◌, ◌==◌, nat_eq, ◌≡◌, refl}
use yaoki.Text.{Bytes}

-- One round of the loop on `j`.
unfoldable pub crc_round : ℕ → ℕ
crc_round crc = if crc % 2 == 0 then crc / 2 else bit_xor (crc / 2) 0xEDB88320

unfoldable pub crc_rounds : ℕ → ℕ → ℕ
crc_rounds zero crc = crc
crc_rounds (suc j) crc = crc_rounds j (crc_round crc)

-- The entry of the table at an index below 256.
unfoldable pub crc32_table : ℕ → ℕ
unfolding crc_round crc_rounds
crc32_table i = crc_rounds 8 i

-- The loop over the bytes.
unfoldable pub crc32_bytes : ℕ → Bytes → ℕ
unfolding crc32_table
crc32_bytes crc [] = crc
crc32_bytes crc (byte ∷ bytes) =
    crc32_bytes (bit_xor (crc / 256) (crc32_table (bit_xor crc byte % 256))) bytes

unfoldable pub crc32 : Bytes → ℕ
unfolding crc32_bytes
crc32 bytes = bit_xor (crc32_bytes 0xFFFFFFFF bytes) 0xFFFFFFFF

-- The standard check value.
crc32_check : crc32 (b'1' ∷ b'2' ∷ b'3' ∷ b'4' ∷ b'5' ∷ b'6' ∷ b'7' ∷ b'8' ∷ b'9' ∷ []) ≡ 0xCBF43926
unfolding crc32
crc32_check = refl
