-- ===== src/Prelude/Bits.antt =====
-- Laws of `&` and `^` on the native numbers, from their lowest digit up.
use Prim.Native.Nat.{
  ℕ, zero, suc, ◌+◌, ◌-◌, ◌*◌, ◌/◌, ◌%◌, ◌^◌, ◌≤◌, ◌<◌, min, bit_and, bit_xor, digits, bitwise,
  differ, bit_and-bitwise, bit_xor-bitwise,
}
use native.Mathlib.Nat.{pow-suc, one-le-pow, div-div-eq-div-mul, div-add-mod}
use mathlib.Core.Path.{◌≡◌, refl, sym, ap, ap₂, ◌∙◌}
use mathlib.Core.Logic.{◌⊎◌, inl, inr}
use native.Mathlib.Omega.{arith}

-- `digits` takes a count of digits, and any count of at least `x` gives the digits of `x`.
module _ (unit : ℕ → ℕ) (op : ℕ → ℕ → ℕ) where
  digits_enough : (x y n m : ℕ) → x ≤ n → x ≤ m → digits unit op n x y ≡ digits unit op m x y
  digits_enough zero y zero zero h k = refl
  digits_enough zero y (suc n) zero h k = refl
  digits_enough zero y zero (suc m) h k = refl
  digits_enough zero y (suc n) (suc m) h k = refl
  digits_enough (suc x) y zero m h k = absurd (omega arith)
  digits_enough (suc x) y (suc n) zero h k = absurd (omega arith)
  digits_enough (suc x) y (suc n) (suc m) h k =
      let low = digits_enough (suc x / 2) (y / 2) n m (omega arith) (omega arith) in rw low

  bitwise-suc :
      (x y : ℕ)
      → bitwise unit op (suc x) y ≡ bitwise unit op (suc x / 2) (y / 2) * 2 + op (suc x % 2) (y % 2)
  bitwise-suc x y =
      let low = digits_enough (suc x / 2) (y / 2) x (suc x / 2) (omega arith) (omega arith) in
      omega (arith, low)

differ_digits : (x y : ℕ) → x < 2 → y < 2 → differ x y ≡ (x + y) % 2
differ_digits zero y h k = omega arith
differ_digits (suc zero) zero h k = refl
differ_digits (suc zero) (suc zero) h k = refl
differ_digits (suc zero) (suc (suc y)) h k = absurd (omega arith)
differ_digits (suc (suc x)) y h k = absurd (omega arith)

pub bit_and-step : (a b : ℕ) → bit_and a b ≡ bit_and (a / 2) (b / 2) * 2 + min (a % 2) (b % 2)
bit_and-step zero b = simp bit_and-bitwise (omega arith)
bit_and-step (suc a) b = let digit = bitwise-suc (λ y. 0) min a b in simp bit_and-bitwise digit

pub bit_xor-step : (a b : ℕ) → bit_xor a b ≡ bit_xor (a / 2) (b / 2) * 2 + (a % 2 + b % 2) % 2
bit_xor-step zero b = simp bit_xor-bitwise (omega arith)
bit_xor-step (suc a) b = simp bit_xor-bitwise (
    omega (
      arith,
      bitwise-suc (λ y. y) differ a b,
      differ_digits (suc a % 2) (b % 2) (omega arith) (omega arith),
    ))

xor_cancel_below : (n a b : ℕ) → a ≤ n → b ≤ n → bit_xor (bit_xor a b) b ≡ a
xor_cancel_below zero zero zero h k = refl
xor_cancel_below zero (suc a) b h k = absurd (omega arith)
xor_cancel_below zero zero (suc b) h k = absurd (omega arith)
xor_cancel_below (suc n) a b h k =
    let x = bit_xor a b in
    let half : x / 2 ≡ bit_xor (a / 2) (b / 2) = omega (arith, bit_xor-step a b) in
    let rest : bit_xor (x / 2) (b / 2) ≡ a / 2 =
      rw half (xor_cancel_below n (a / 2) (b / 2) (omega arith) (omega arith)) in
    omega (arith, bit_xor-step x b, bit_xor-step a b, rest)

pub xor_cancel : (a b : ℕ) → bit_xor (bit_xor a b) b ≡ a
xor_cancel a b = xor_cancel_below (a + b) a b (omega arith) (omega arith)

pub xor_right_injective : (a b c : ℕ) → bit_xor a c ≡ bit_xor b c → a ≡ b
xor_right_injective a b c h = sym (xor_cancel a c) ∙ ap (λ x. bit_xor x c) h ∙ xor_cancel b c

pub bit_xor-parity : (a b : ℕ) → bit_xor a b % 2 ≡ (a + b) % 2
bit_xor-parity a b = omega (arith, bit_xor-step a b)

pub bit_xor-lt : (k a b : ℕ) → a < 2 ^ k → b < 2 ^ k → bit_xor a b < 2 ^ k
bit_xor-lt zero zero zero h l = omega arith
bit_xor-lt zero (suc a) b h l = absurd (omega arith)
bit_xor-lt zero zero (suc b) h l = absurd (omega arith)
bit_xor-lt (suc k) a b h l = omega (
  arith,
  pow-suc 2 k,
  bit_xor-step a b,
  bit_xor-lt k (a / 2) (b / 2) (omega (arith, pow-suc 2 k)) (omega (arith, pow-suc 2 k)),
)

xor_comm_below : (n a b : ℕ) → a ≤ n → b ≤ n → bit_xor a b ≡ bit_xor b a
xor_comm_below zero zero zero h k = refl
xor_comm_below zero (suc a) b h k = absurd (omega arith)
xor_comm_below zero zero (suc b) h k = absurd (omega arith)
xor_comm_below (suc n) a b h k = omega (
  arith,
  bit_xor-step a b,
  bit_xor-step b a,
  xor_comm_below n (a / 2) (b / 2) (omega arith) (omega arith),
)

pub xor_left_injective : (a b c : ℕ) → bit_xor c a ≡ bit_xor c b → a ≡ b
xor_left_injective a b c h = xor_right_injective a b c (
    xor_comm_below (a + c) a c (omega arith) (omega arith)
    ∙ h
    ∙ xor_comm_below (b + c) c b (omega arith) (omega arith))

div-pow-suc : (k a : ℕ) → a / 2 ^ suc k ≡ a / 2 / 2 ^ k
div-pow-suc k a =
    ap (λ (t : ℕ). a / t) (omega (arith, pow-suc 2 k)) ∙ sym (div-div-eq-div-mul a 2 (2 ^ k))

div_one : (a : ℕ) → a ≡ a / 1
div_one a = omega arith

-- The digits of `a ^ b` above the lowest `k` are those of the numbers.
pub bit_xor-div : (k a b : ℕ) → bit_xor a b / 2 ^ k ≡ bit_xor (a / 2 ^ k) (b / 2 ^ k)
bit_xor-div zero a b = omega (arith, ap₂ bit_xor (div_one a) (div_one b))
bit_xor-div (suc k) a b =
    let half : bit_xor a b / 2 ≡ bit_xor (a / 2) (b / 2) = omega (arith, bit_xor-step a b) in
    rw (div-pow-suc, div-pow-suc, div-pow-suc, half) (bit_xor-div k (a / 2) (b / 2))

and_zero_below : (n a : ℕ) → a ≤ n → bit_and a 0 ≡ 0
and_zero_below n zero h = bit_and-bitwise 0 0
and_zero_below zero (suc a) h = absurd (omega arith)
and_zero_below (suc n) (suc a) h =
    omega (arith, bit_and-step (suc a) 0, and_zero_below n (suc a / 2) (omega arith))

-- `a & (2 ** k - 1)`
pub bit_and-mask : (k a : ℕ) → bit_and a (2 ^ k - 1) ≡ a % 2 ^ k
bit_and-mask zero a = omega (arith, and_zero_below a a (omega arith))
bit_and-mask (suc k) a =
    let p = 2 ^ k in
    let twice : 2 ^ suc k ≡ 2 * p = omega (arith, pow-suc 2 k) in
    let rest : bit_and (a / 2) ((2 * p - 1) / 2) ≡ a / 2 % p =
      ap (bit_and (a / 2)) (omega (arith, one-le-pow k 2)) ∙ bit_and-mask k (a / 2) in
    rw twice (
      omega (
        arith,
        rest,
        one-le-pow k 2,
        bit_and-step a (2 * p - 1),
        div-add-mod a (2 * p),
        div-add-mod (a / 2) p,
        ap (λ (t : ℕ). p * t) (div-div-eq-div-mul a 2 p),
      ))

-- `a & 2 ** k` for a number of `k + 1` digits: the top digit in its place.
pub bit_and-top : (k a : ℕ) → a < 2 ^ suc k → bit_and a (2 ^ k) ≡ a / 2 ^ k * 2 ^ k
bit_and-top zero a h = omega (arith, bit_and-step a 1, and_zero_below (a / 2) (a / 2) (omega arith))
bit_and-top (suc k) a h =
    let p = 2 ^ k in
    let twice : 2 ^ suc k ≡ 2 * p = omega (arith, pow-suc 2 k) in
    let fits : a < 2 * (2 * p) = omega (arith, pow-suc 2 (suc k), twice) in
    let rest : bit_and (a / 2) (2 * p / 2) ≡ a / 2 / p * p =
      ap (bit_and (a / 2)) (omega arith) ∙ bit_and-top k (a / 2) (omega (arith, twice)) in
    rw twice (
      omega (arith, rest, bit_and-step a (2 * p), ap (λ (t : ℕ). t * p) (div-div-eq-div-mul a 2 p)))

-- `a & 2 ** k` is one bit.
pub bit_and-pow : (k a : ℕ) → (bit_and a (2 ^ k) ≡ 0) ⊎ (bit_and a (2 ^ k) ≡ 2 ^ k)
bit_and-pow zero a =
    let step = bit_and-step a 1 in
    let none = and_zero_below (a / 2) (a / 2) (omega arith) in omega (arith, step, none)
bit_and-pow (suc k) a =
    let p = 2 ^ k in
    let twice : 2 ^ suc k ≡ 2 * p = omega (arith, pow-suc 2 k) in
    let half : bit_and (a / 2) (2 * p / 2) ≡ bit_and (a / 2) p =
      ap (bit_and (a / 2)) (omega arith) in
    rw twice (elim (bit_and-pow k (a / 2)) [
      | inl h ↦ inl (omega (arith, h, half, bit_and-step a (2 * p)))
      | inr h ↦ inr (omega (arith, h, half, bit_and-step a (2 * p)))
    ])
