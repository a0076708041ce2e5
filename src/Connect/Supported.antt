-- ===== src/Connect/Supported.antt =====
-- The spreading factors that an Info lists are those that _prepare_config lets through.
use client_py.Prelude.{
  ℕ, zero, suc, ◌+◌, ◌^◌, ◌≡◌, ap, ◌∙◌, Bool, true, false, not, ◌&&◌, refl, List, [], ◌∷◌, ◌==◌,
  ==_iff, ltb, leb, if◌then◌else◌, Bool-cases, inl, inr, arith,
}
use client_py.Prelude.Int.{ℤ, pos, negsuc}
use native.Mathlib.Nat.{one-le-pow}
use client_py.Prelude.Bits.{bit_and-pow}
use client_py.Info.{Info, and_mask, bits_from, supported_sf}
use client_py.Connect.{has_bit}

-- `k in ks`
unfoldable pub contains : ℕ → List ℕ → Bool
contains k [] = false
contains k (j ∷ js) = if j == k then true else contains k js

-- The test of supported_sf and that of _prepare_config are the same.
and_mask-has_bit : (z : ℤ) (k : ℕ) → not (and_mask z (2 ^ k) == 0) ≡ has_bit z k
unfolding and_mask has_bit
and_mask-has_bit (pos n) k = refl
and_mask-has_bit (negsuc n) k = elim (bit_and-pow k n) [
  | inl none ↦ rw none (ground (arith, one-le-pow k 2))
  | inr all ↦ rw all (ground (arith, one-le-pow k 2))
]

contains-bits_from :
    (k a count : ℕ) (bitmap : ℤ)
    → contains k (bits_from a count bitmap) ≡ (leb a k && (ltb k (a + count) && has_bit bitmap k))
unfolding contains bits_from
contains-bits_from k a zero bitmap = ground arith
contains-bits_from k a (suc count) bitmap =
    let rest = contains-bits_from k (a + 1) count bitmap in
    let bit = and_mask-has_bit bitmap k in
    elim (Bool-cases (a == k)) [
      | inl same ↦
          let e = (==_iff a k).0 same in
          let power : and_mask bitmap (2 ^ a) ≡ and_mask bitmap (2 ^ k) =
            ap (λ j. and_mask bitmap (2 ^ j)) e in
          ground (arith, rest, power, bit)
      | inr other ↦ ground (arith, rest)
    ]

-- supported_sf contains a number exactly if it is below 16 and _prepare_config finds its bit.
pub contains-supported_sf :
    (info : Info) (k : ℕ)
    → contains k (supported_sf info) ≡ (ltb k 16 && has_bit info.supported_sf_bitmap k)
unfolding supported_sf
contains-supported_sf info k = contains-bits_from k 0 16 info.supported_sf_bitmap ∙ ground arith
