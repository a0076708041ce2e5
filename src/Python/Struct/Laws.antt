-- ===== src/Python/Struct/Laws.antt =====
-- Packing and unpacking are inverse, for every width.
use native.Mathlib.Nat.{pow-suc}
use client_py.Prelude.{
  ℕ, zero, suc, ◌+◌, ◌/◌, ◌^◌, ◌<◌, ◌≡◌, refl, ap, ap₂, ◌∙◌, List, [], ◌∷◌, arith, length, All,
  Bool, true, false, Bool-cases, inl, inr, lt→ltb, map, subst,
}
use client_py.Prelude.Int.{ℤ, pos, negsuc, pos_part}
use client_py.Python.Result.{Result, ok, ◌>>=◌, >>=-eq-ok}
use client_py.Python.Struct.{
  Bytes, IsByte, le, from_le, in_unsigned, in_signed, pattern_of, pack_unsigned, pack_signed,
  signed, byte_of, bytes_of, bit_of, is_bit, truth,
}

pub length-le : (w n : ℕ) → length (le w n) ≡ w
length-le zero n = refl
length-le (suc w) n = ap suc (length-le w (n / 256))

pub from_le-le : (w n : ℕ) → n < 256 ^ w → from_le (le w n) ≡ n
from_le-le zero n h = omega arith
from_le-le (suc w) n h = omega (arith, from_le-le w (n / 256) (omega (arith, pow-suc 256 w)))

pub le-from_le : (bs : Bytes) → All IsByte bs → le (length bs) (from_le bs) ≡ bs
le-from_le [] h = refl
le-from_le (b ∷ bs) h =
    ap₂ ◌∷◌ (omega arith) (ap (le (length bs)) (omega arith) ∙ le-from_le bs h.1)

pub from_le-lt : (bs : Bytes) → All IsByte bs → from_le bs < 256 ^ length bs
from_le-lt [] h = omega arith
from_le-lt (b ∷ bs) h = omega (arith, from_le-lt bs h.1, pow-suc 256 (length bs))

pub le-IsByte : (w n : ℕ) → All IsByte (le w n)
le-IsByte zero n = tt
le-IsByte (suc w) n = (omega arith, le-IsByte w (n / 256))

-- Reading back what was packed, on the values that packing accepts.
pub from_le-pack_unsigned :
    (w : ℕ) (z : ℤ) → in_unsigned w z ≡ true → pos (from_le (le w (pos_part z))) ≡ z
unfolding in_unsigned
from_le-pack_unsigned w (pos n) h = ap pos (from_le-le w n (ground arith))
from_le-pack_unsigned w (negsuc n) h = cc

pow_even : (w : ℕ) → 256 ^ suc w / 2 + 256 ^ suc w / 2 ≡ 256 ^ suc w
pow_even w = omega (arith, pow-suc 256 w)

pattern_of-lt : (w : ℕ) (z : ℤ) → in_signed w z ≡ true → pattern_of w z < 256 ^ w
unfolding in_signed pattern_of
pattern_of-lt w (pos n) h = ground arith
pattern_of-lt w (negsuc n) h = ground arith

signed-pattern_of :
    (w : ℕ) (z : ℤ) → in_signed (suc w) z ≡ true → signed (suc w) (pattern_of (suc w) z) ≡ z
unfolding in_signed pattern_of
signed-pattern_of w (pos n) h = ground arith
signed-pattern_of w (negsuc n) h = ground (arith, pow_even w)

pub from_le-pack_signed :
    (w : ℕ) (z : ℤ)
    → in_signed (suc w) z ≡ true
    → signed (suc w) (from_le (le (suc w) (pattern_of (suc w) z))) ≡ z
from_le-pack_signed w z h =
    ap (signed (suc w)) (from_le-le (suc w) (pattern_of (suc w) z) (pattern_of-lt (suc w) z h))
    ∙ signed-pattern_of w z h

-- Packing again what was read.
pub pack_unsigned-from_le :
    (bs : Bytes) → All IsByte bs → pack_unsigned (length bs) (pos (from_le bs)) ≡ ok bs
unfolding pack_unsigned in_unsigned
pack_unsigned-from_le bs h = ground (arith, from_le-lt bs h, le-from_le bs h)

pattern_of-signed : (w n : ℕ) → n < 256 ^ w → pattern_of w (signed w n) ≡ n
unfolding pattern_of
pattern_of-signed w n h = ground arith

in_signed-signed : (w n : ℕ) → n < 256 ^ suc w → in_signed (suc w) (signed (suc w) n) ≡ true
unfolding in_signed
in_signed-signed w n h = ground (arith, pow_even w)

pub pack_signed-from_le :
    (w : ℕ) (bs : Bytes)
    → length bs ≡ suc w
    → All IsByte bs
    → pack_signed (suc w) (signed (suc w) (from_le bs)) ≡ ok bs
unfolding pack_signed
pack_signed-from_le w bs e h =
    let lt : from_le bs < 256 ^ suc w = subst (λ k. from_le bs < 256 ^ k) e (from_le-lt bs h) in
    let back : le (suc w) (from_le bs) ≡ bs =
      subst (λ k. le k (from_le bs) ≡ bs) e (le-from_le bs h) in
    ground
      (arith, in_signed-signed w (from_le bs) lt, pattern_of-signed (suc w) (from_le bs) lt, back)

byte_of-eq-ok : (z : ℤ) (b : ℕ) → byte_of z ≡ ok b → (in_unsigned 1 z ≡ true) × (b ≡ pos_part z)
unfolding byte_of
byte_of-eq-ok z b h = ground arith

bytes_of-eq-ok :
    (zs : List ℤ) (bs : Bytes)
    → bytes_of zs ≡ ok bs
    → All (λ z. in_unsigned 1 z ≡ true) zs × (bs ≡ map pos_part zs)
unfolding bytes_of
bytes_of-eq-ok [] bs h = (tt, cc)
bytes_of-eq-ok (z ∷ zs) bs h =
    let (b, hb, h1) = >>=-eq-ok (byte_of z) _ h in
    let (bs', hbs, h2) = >>=-eq-ok (bytes_of zs) _ h1 in
    let (fit, e) = bytes_of-eq-ok zs bs' hbs in
    let (fit', e') = byte_of-eq-ok z b hb in ((fit', fit), cc)

pub pos-pos_part : (z : ℤ) → in_unsigned 1 z ≡ true → pos (pos_part z) ≡ z
unfolding in_unsigned
pos-pos_part (pos n) h = refl
pos-pos_part (negsuc n) h = cc

-- What a chain of packing steps that did not raise has tested.
module _ {ℓ} {B : Type ℓ} {r : B} where
  pub unsigned_step :
      (w : ℕ) (z : ℤ) (f : Bytes → Result B)
      → (pack_unsigned w z >>= f) ≡ ok r
      → (in_unsigned w z ≡ true) × (f (le w (pos_part z)) ≡ ok r)
  unfolding pack_unsigned
  unsigned_step w z f h = elim (Bool-cases (in_unsigned w z)) [
    | inl fits ↦ (fits, rw fits at h)
    | inr not_fits ↦ cc (rw not_fits at h)
  ]

  pub signed_step :
      (w : ℕ) (z : ℤ) (f : Bytes → Result B)
      → (pack_signed w z >>= f) ≡ ok r
      → (in_signed w z ≡ true) × (f (le w (pattern_of w z)) ≡ ok r)
  unfolding pack_signed
  signed_step w z f h = elim (Bool-cases (in_signed w z)) [
    | inl fits ↦ (fits, rw fits at h)
    | inr not_fits ↦ cc (rw not_fits at h)
  ]

  pub bytes_step :
      (zs : List ℤ) (f : Bytes → Result B)
      → (bytes_of zs >>= f) ≡ ok r
      → All (λ z. in_unsigned 1 z ≡ true) zs × (f (map pos_part zs) ≡ ok r)
  bytes_step zs f h =
      let (bs, hb, hf) = >>=-eq-ok (bytes_of zs) f h in
      let (fit, e) = bytes_of-eq-ok zs bs hb in (fit, rw (← e) hf)

pub is_bit-bit_of : (b : Bool) → is_bit (pos_part (bit_of b)) ≡ true
unfolding is_bit bit_of
is_bit-bit_of true = refl
is_bit-bit_of false = refl

pub truth-bit_of : (b : Bool) → truth (pos_part (bit_of b)) ≡ b
unfolding truth bit_of
truth-bit_of true = refl
truth-bit_of false = refl

pub bit_of-truth : (n : ℕ) → is_bit n ≡ true → bit_of (truth n) ≡ pos n
unfolding is_bit truth bit_of
bit_of-truth n h = ground arith

-- `bytes([...])` of numbers that were read from a byte string.
pub bytes_of-map_pos : (bs : Bytes) → All IsByte bs → bytes_of (map pos bs) ≡ ok bs
unfolding bytes_of byte_of in_unsigned
bytes_of-map_pos [] h = refl
bytes_of-map_pos (b ∷ bs) h = rw (lt→ltb b 256 h.0, bytes_of-map_pos bs h.1)
