-- ===== src/Crc/Detection.antt =====
-- What the CRC detects.
use client_py.Prelude.{ℕ, ◌≡◌, ◌≢◌, refl, sym, ◌∙◌, [], ◌∷◌, ◌++◌, All, arith}
use client_py.Python.Struct.{Bytes, IsByte}
use client_py.Crc.{crc_byte, crc_from, crc16}
use client_py.Crc.Steps.{IsU16, crc_byte-IsU16, crc_byte_injective, crc_byte_right_injective}

pub crc_from-IsU16 : (c : ℕ) (bs : Bytes) → IsU16 c → All IsByte bs → IsU16 (crc_from c bs)
unfolding crc_from
crc_from-IsU16 c [] hc h = hc
crc_from-IsU16 c (b ∷ bs) hc h = crc_from-IsU16 (crc_byte c b) bs (crc_byte-IsU16 c b hc h.0) h.1

-- The CRC of a byte string is a 16-bit number, so its two bytes hold it.
pub crc16-IsU16 : (bs : Bytes) → All IsByte bs → IsU16 (crc16 bs)
unfolding crc16
crc16-IsU16 bs h = crc_from-IsU16 0xffff bs (omega arith) h

crc_from_injective :
    (c d : ℕ) (bs : Bytes)
    → IsU16 c
    → IsU16 d
    → All IsByte bs
    → crc_from c bs ≡ crc_from d bs
    → c ≡ d
unfolding crc_from
crc_from_injective c d [] hc hd h e = e
crc_from_injective c d (b ∷ bs) hc hd h e = crc_byte_injective c d b hc hd h.0 (
    crc_from_injective (crc_byte c b) (crc_byte d b) bs (crc_byte-IsU16 c b hc h.0)
      (crc_byte-IsU16 d b hd h.0) h.1 e)

crc_from-append : (c : ℕ) (xs bs : Bytes) → crc_from c (xs ++ bs) ≡ crc_from (crc_from c xs) bs
unfolding crc_from
crc_from-append c [] bs = refl
crc_from-append c (x ∷ xs) bs = crc_from-append (crc_byte c x) xs bs

-- Changing one byte of a byte string changes its CRC.
pub crc16_detects_byte :
    (front back : Bytes) (a b : ℕ)
    → All IsByte front
    → All IsByte back
    → IsByte a
    → IsByte b
    → a ≢ b
    → crc16 (front ++ a ∷ back) ≢ crc16 (front ++ b ∷ back)
unfolding crc16
crc16_detects_byte front back a b hf hk ha hb ne e =
    let c = crc_from 0xffff front in
    let hc : IsU16 c = crc_from-IsU16 0xffff front (omega arith) hf in
    let e' =
      sym (crc_from-append 0xffff front (a ∷ back)) ∙ e ∙ crc_from-append 0xffff front (b ∷ back) in
    ne (
      crc_byte_right_injective c a b hc ha hb (
        crc_from_injective (crc_byte c a) (crc_byte c b) back (crc_byte-IsU16 c a hc ha)
          (crc_byte-IsU16 c b hc hb) hk (unfold crc_from in e')))
