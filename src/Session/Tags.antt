-- ===== src/Session/Tags.antt =====
-- The tag counter: 1, 2, ..., 65535, 1, ... It never gives 0, which marks asynchronous frames.
use client_py.Prelude.{
  ℕ, zero, suc, ◌+◌, ◌-◌, ◌%◌, ◌≤◌, ◌<◌, ◌≡◌, ◌≢◌, arith, ◌==◌, ◌∙◌, if◌then◌else◌,
}
use client_py.Prelude.Bits.{bit_and-mask}
use client_py.Session.State.{Session}
use client_py.Session.Send.{following_tag, alloc_tag}

abbrev pub IsTag : ℕ → Type 0
IsTag t = (1 ≤ t) × (t ≤ 65535)

following_tag_lem : (t : ℕ) → IsTag t → following_tag t ≡ (if t == 65535 then 1 else t + 1)
unfolding following_tag
following_tag_lem t h = ground (arith, bit_and-mask 16 (t + 1))

pub following_tag-IsTag : (t : ℕ) → IsTag t → IsTag (following_tag t)
following_tag-IsTag t h = ground (arith, following_tag_lem t h)

following_tag-mod : (t : ℕ) → IsTag t → following_tag t ≡ t % 65535 + 1
following_tag-mod t h = ground (arith, following_tag_lem t h)

module _ {Float : Type 0} where
  -- The session after `n` more tags have been taken.
  unfoldable pub alloc_many : ℕ → Session Float → Session Float
  alloc_many zero s = s
  alloc_many (suc n) s = alloc_many n (alloc_tag s).1

  -- The tag taken after `n` others, from a counter at a valid tag: the counter runs through 1 to 65535
  -- and starts again at 1.
  pub alloc_many_tag :
      (n : ℕ) (s : Session Float)
      → IsTag s.next_tag
      → (alloc_tag (alloc_many n s)).0 ≡ (s.next_tag - 1 + n) % 65535 + 1
  unfolding alloc_many alloc_tag
  alloc_many_tag zero s h = omega arith
  alloc_many_tag (suc n) s h =
      alloc_many_tag n (alloc_tag s).1 (following_tag-IsTag s.next_tag h)
      ∙ omega (arith, following_tag-mod s.next_tag h)

  -- Of any 65535 successive commands no two have the same tag, and none has tag 0.
  pub alloc_tag_distinct :
      (m n : ℕ) (s : Session Float)
      → IsTag s.next_tag
      → m < n
      → n < m + 65535
      → ((alloc_tag (alloc_many m s)).0 ≢ (alloc_tag (alloc_many n s)).0)
        × IsTag (alloc_tag (alloc_many n s)).0
  alloc_tag_distinct m n s h lt near = (
    λ e. absurd (omega (arith, alloc_many_tag m s h, alloc_many_tag n s h, e)),
    omega (arith, alloc_many_tag n s h),
  )
