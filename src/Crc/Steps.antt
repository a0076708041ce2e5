-- ===== src/Crc/Steps.antt =====
-- One step of the CRC register is injective on 16-bit registers, bit by bit and byte by byte.
use client_py.Prelude.{
  ℕ, zero, suc, ◌*◌, ◌/◌, ◌%◌, ◌<◌, ◌≡◌, bit_xor, ap, ◌∙◌, arith, ◌≤◌, Bool-cases, inl, inr, ltb,
  ltb→lt,
}
use client_py.Prelude.Bits.{
  bit_and-mask, bit_and-top, bit_xor-div, bit_xor-lt, bit_xor-parity, xor_right_injective,
  xor_left_injective,
}
use client_py.Python.Struct.{IsByte}
use client_py.Crc.{crc_bit, crc_bits, crc_byte}

abbrev pub IsU16 : ℕ → Type 0
IsU16 n = n < 65536

-- The register shifted out by one, in arithmetic.
crc_bit_low : (c : ℕ) → c < 32768 → crc_bit c ≡ c * 2
unfolding crc_bit
crc_bit_low c h = ground (arith, bit_and-top 15 c, bit_and-mask 16 (c * 2))

crc_bit_high : (c : ℕ) → IsU16 c → 32768 ≤ c → crc_bit c ≡ bit_xor (c * 2) 0x1021 % 65536
unfolding crc_bit
crc_bit_high c h k = ground (arith, bit_and-top 15 c, bit_and-mask 16 (bit_xor (c * 2) 0x1021))

-- Above 16 bits the shifted register has one digit, and the polynomial has none.
carry : (c : ℕ) → IsU16 c → 32768 ≤ c → bit_xor (c * 2) 0x1021 / 65536 ≡ 1
carry c h k = bit_xor-div 16 (c * 2) 0x1021 ∙ ap (λ (q : ℕ). bit_xor q 0) {y = 1} (omega arith)

pub crc_bit-IsU16 : (c : ℕ) → IsU16 c → IsU16 (crc_bit c)
crc_bit-IsU16 c h = elim (Bool-cases (ltb c 32768)) [
  | inl low ↦ omega (arith, ltb→lt c 32768 low, crc_bit_low c (ltb→lt c 32768 low))
  | inr high ↦ omega (arith, crc_bit_high c h (ground arith))
]

-- The lowest bit of the polynomial records the bit that was shifted out.
pub crc_bit_injective : (c d : ℕ) → IsU16 c → IsU16 d → crc_bit c ≡ crc_bit d → c ≡ d
crc_bit_injective c d hc hd e = ground (
  arith,
  crc_bit_low c,
  crc_bit_low d,
  crc_bit_high c,
  crc_bit_high d,
  carry c,
  carry d,
  bit_xor-parity (c * 2) 0x1021,
  bit_xor-parity (d * 2) 0x1021,
  xor_right_injective (c * 2) (d * 2) 0x1021,
)

pub crc_bits-IsU16 : (n c : ℕ) → IsU16 c → IsU16 (crc_bits n c)
unfolding crc_bits
crc_bits-IsU16 zero c h = h
crc_bits-IsU16 (suc n) c h = crc_bits-IsU16 n (crc_bit c) (crc_bit-IsU16 c h)

pub crc_bits_injective : (n c d : ℕ) → IsU16 c → IsU16 d → crc_bits n c ≡ crc_bits n d → c ≡ d
unfolding crc_bits
crc_bits_injective zero c d hc hd e = e
crc_bits_injective (suc n) c d hc hd e =
    crc_bit_injective c d hc hd
      (crc_bits_injective n (crc_bit c) (crc_bit d) (crc_bit-IsU16 c hc) (crc_bit-IsU16 d hd) e)

module _ (c b : ℕ) (hc : IsU16 c) (hb : IsByte b) where
  mixed-IsU16 : IsU16 (bit_xor c (b * 256))
  mixed-IsU16 = bit_xor-lt 16 c (b * 256) hc (omega arith)

  pub crc_byte-IsU16 : IsU16 (crc_byte c b)
  unfolding crc_byte
  crc_byte-IsU16 = crc_bits-IsU16 8 _ mixed-IsU16

-- One byte absorbed: injective in the register, and in the byte.
pub crc_byte_injective :
    (c d b : ℕ) → IsU16 c → IsU16 d → IsByte b → crc_byte c b ≡ crc_byte d b → c ≡ d
unfolding crc_byte
crc_byte_injective c d b hc hd hb e =
    xor_right_injective c d (b * 256)
      (crc_bits_injective 8 _ _ (mixed-IsU16 c b hc hb) (mixed-IsU16 d b hd hb) e)

pub crc_byte_right_injective :
    (c a b : ℕ) → IsU16 c → IsByte a → IsByte b → crc_byte c a ≡ crc_byte c b → a ≡ b
unfolding crc_byte
crc_byte_right_injective c a b hc ha hb e =
    let same =
      xor_left_injective (a * 256) (b * 256) c
        (crc_bits_injective 8 _ _ (mixed-IsU16 c a hc ha) (mixed-IsU16 c b hc hb) e) in
    omega arith
