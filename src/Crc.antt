-- ===== src/Crc.antt =====
-- donglora/crc.py: CRC-16/CCITT-FALSE.
pub mod Steps
pub mod Detection
use client_py.Prelude.{ℕ, zero, suc, ◌*◌, ◌≡◌, refl, bit_and, bit_xor, [], ◌∷◌, ◌==◌, if◌then◌else◌}
use client_py.Python.Struct.{Bytes}

-- `crc << 1` is `crc * 2`, and the test `crc & 0x8000` is that the result is not 0.
unfoldable pub crc_bit : ℕ → ℕ
crc_bit crc =
    if bit_and crc 0x8000 == 0
    then bit_and (crc * 2) 0xffff
    else bit_and (bit_xor (crc * 2) 0x1021) 0xffff

-- `for _ in range(n)`
unfoldable pub crc_bits : ℕ → ℕ → ℕ
crc_bits zero crc = crc
crc_bits (suc n) crc = crc_bits n (crc_bit crc)

-- One round of the loop over the bytes; `byte << 8` is `byte * 256`.
unfoldable pub crc_byte : ℕ → ℕ → ℕ
crc_byte crc byte = crc_bits 8 (bit_xor crc (byte * 256))

unfoldable pub crc_from : ℕ → Bytes → ℕ
crc_from crc [] = crc
crc_from crc (byte ∷ bytes) = crc_from (crc_byte crc byte) bytes

unfoldable pub crc16 : Bytes → ℕ
crc16 bytes = crc_from 0xffff bytes
