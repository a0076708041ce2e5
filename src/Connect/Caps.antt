-- ===== src/Connect/Caps.antt =====
-- _prepare_config keeps to what the device advertises.
use client_py.Prelude.{
  ℕ, ◌≡◌, refl, ap, sym, subst, ◌∙◌, Bool, true, false, not, if◌then◌else◌, ltb, leb→le, le→leb,
  and_true, ltb→lt, ◌≤◌, arith, Bool-cases, inl, inr, ◌⊎◌,
}
use client_py.Prelude.Int.{ℤ, pos, negsuc, ◌≤ℤ◌, ltb_ℤ}
use client_py.Python.Enum.{int_of}
use client_py.Errors.{config_not_supported}
use client_py.Info.{Info}
use client_py.Modulation.LoRa.{LoRaConfig}
use client_py.Modulation.LoRaEnums.{lora_bandwidth_enum}
use client_py.Connect.{Prepared, prepared, rejected, has_bit, clamp_power, prepare_lora, after_sf}

-- What the device advertises allows the configuration, its transmit power aside.
pub data Allowed (info : Info) (cfg : LoRaConfig) : Type 0 where
  allowed :
      (sf : ℕ)
      → cfg.sf ≡ pos sf
      → info.freq_min_hz ≤ℤ cfg.freq_hz
      → cfg.freq_hz ≤ℤ info.freq_max_hz
      → has_bit info.supported_sf_bitmap sf ≡ true
      → has_bit info.supported_bw_bitmap (int_of cfg.bw) ≡ true
      → Allowed info cfg

-- The power `q` that goes out for `p`: `p` itself between the two bounds, else the bound that it crosses.
pub data IsNearest (low high p : ℤ) : ℤ → Type 0 where
  inside : low ≤ℤ p → p ≤ℤ high → IsNearest low high p p
  over : high ≤ℤ p → IsNearest low high p high
  under : p ≤ℤ low → IsNearest low high p low

ltb-false : (a b : ℕ) → ltb a b ≡ false → b ≤ a
ltb-false a b h = ground arith

clamp_from : (low high p : ℤ) → ℤ
clamp_from low high p = if ltb_ℤ high p then high else if ltb_ℤ p low then low else p

module _ (low high p : ℤ) (order : low ≤ℤ high) where
  clamp_from_cases :
      ((clamp_from low high p ≡ high) × high ≤ℤ p)
      ⊎ (((clamp_from low high p ≡ low) × p ≤ℤ low)
          ⊎ ((clamp_from low high p ≡ p) × (low ≤ℤ p) × p ≤ℤ high))
  unfolding clamp_from
  clamp_from_cases = elim (Bool-cases (ltb_ℤ high p)) [
    | inl above ↦ let h = ltb→lt _ _ above in inl (rw above refl, omega arith)
    | inr not_above ↦ elim (Bool-cases (ltb_ℤ p low)) [
      | inl below ↦ let h = ltb→lt _ _ below in inr (inl (rw (not_above, below) refl, omega arith))
      | inr not_below ↦
          inr
            (inr (rw (not_above, not_below) refl, ltb-false _ _ not_below, ltb-false _ _ not_above))
    ]
  ]

  clamp_from-IsNearest : IsNearest low high p (clamp_from low high p)
  clamp_from-IsNearest = elim clamp_from_cases [
    | inl (e, h) ↦ rw e (over h)
    | inr (inl (e, h)) ↦ rw e (under h)
    | inr (inr (e, h, k)) ↦ rw e (inside h k)
  ]

  clamp_from_between : (low ≤ℤ clamp_from low high p) × clamp_from low high p ≤ℤ high
  clamp_from_between = elim clamp_from_cases [
    | inl (e, h) ↦ rw e (order, omega arith)
    | inr (inl (e, h)) ↦ rw e (omega arith, order)
    | inr (inr (e, h, k)) ↦ rw e (h, k)
  ]

-- A power between the bounds is kept.
clamp_from_inside : (low high p : ℤ) → low ≤ℤ p → p ≤ℤ high → clamp_from low high p ≡ p
unfolding clamp_from
clamp_from_inside low high p h k = ground arith

tx_power_dbm-clamp_power :
    (info : Info) (cfg : LoRaConfig)
    → clamp_power info cfg ≡ record cfg {
      tx_power_dbm = clamp_from info.tx_power_min_dbm info.tx_power_max_dbm cfg.tx_power_dbm;
    }
unfolding clamp_power clamp_from
tx_power_dbm-clamp_power info cfg = ground arith

sf_inversion :
    (info : Info) (z : ℤ) (rest : Prepared LoRaConfig) (out : LoRaConfig)
    → after_sf info z rest ≡ prepared out
    → (sf : ℕ) × (z ≡ pos sf) × (has_bit info.supported_sf_bitmap sf ≡ true) × (rest ≡ prepared out)
sf_inversion info (pos sf) rest out h = elim (Bool-cases (has_bit info.supported_sf_bitmap sf)) [
  | inl t ↦ (sf, refl, t, ground arith)
  | inr t ↦ ground arith
]
sf_inversion info (negsuc n) rest out h = cc

bw_inversion :
    (t : Bool) (cfg out : LoRaConfig)
    → (if t then prepared cfg else rejected config_not_supported) ≡ prepared out
    → (t ≡ true) × (cfg ≡ out)
bw_inversion true cfg out h = (refl, cc)
bw_inversion false cfg out h = cc

freq_inversion :
    (t : Bool) (rest : Prepared LoRaConfig) (out : LoRaConfig)
    → (if not t then rejected config_not_supported else rest) ≡ prepared out
    → (t ≡ true) × (rest ≡ prepared out)
freq_inversion true rest out h = (refl, h)
freq_inversion false rest out h = cc

prepare_lora-Allowed_lem :
    (info : Info) (cfg out : LoRaConfig)
    → prepare_lora info cfg ≡ prepared out
    → Allowed info cfg × (out ≡ clamp_power info cfg)
unfolding prepare_lora
prepare_lora-Allowed_lem info cfg out h =
    let (in_range, h1) = freq_inversion _ _ out h in
    let (low, high) = and_true _ _ in_range in
    let (sf, sf_is, sf_bit, h2) = sf_inversion info cfg.sf _ out h1 in
    let (bw_bit, same) = bw_inversion _ _ out h2 in
    (allowed sf sf_is (leb→le _ _ low) (leb→le _ _ high) sf_bit bw_bit, sym same)

-- If the device's power bounds are in order, a prepared configuration was allowed by the advertised
-- frequency range and bitmaps, and differs from the one asked for in the transmit power at most, which
-- is the one asked for if that lies between the bounds, else the bound that it crosses.
pub prepare_lora_sound :
    (info : Info) (cfg out : LoRaConfig)
    → info.tx_power_min_dbm ≤ℤ info.tx_power_max_dbm
    → prepare_lora info cfg ≡ prepared out
    → Allowed info cfg
      × IsNearest info.tx_power_min_dbm info.tx_power_max_dbm cfg.tx_power_dbm out.tx_power_dbm
      × (out ≡ record cfg { tx_power_dbm = out.tx_power_dbm })
prepare_lora_sound info cfg out bounds h =
    let (caps, same) = prepare_lora-Allowed_lem info cfg out h in
    let clamped = same ∙ tx_power_dbm-clamp_power info cfg in
    let power = ap (λ c. c.tx_power_dbm) clamped in
    (
      caps,
      rw power (
          clamp_from-IsNearest info.tx_power_min_dbm info.tx_power_max_dbm cfg.tx_power_dbm bounds),
      clamped ∙ ap (λ q. record cfg { tx_power_dbm = q }) (sym power),
    )

prepare_lora-Allowed :
    (info : Info) (cfg : LoRaConfig)
    → Allowed info cfg
    → prepare_lora info cfg ≡ prepared (clamp_power info cfg)
unfolding prepare_lora
prepare_lora-Allowed info cfg (allowed sf sf_is low high sf_bit bw_bit) =
    rw (le→leb _ _ low, le→leb _ _ high, sf_is, sf_bit, bw_bit) refl

Allowed-with_power :
    (info : Info) (cfg : LoRaConfig) (q : ℤ)
    → Allowed info cfg
    → Allowed info (record cfg { tx_power_dbm = q })
Allowed-with_power info cfg q (allowed sf sf_is low high sf_bit bw_bit) =
    allowed sf sf_is low high sf_bit bw_bit

power_between :
    (info : Info) (cfg out : LoRaConfig)
    → info.tx_power_min_dbm ≤ℤ info.tx_power_max_dbm
    → prepare_lora info cfg ≡ prepared out
    → (info.tx_power_min_dbm ≤ℤ out.tx_power_dbm) × out.tx_power_dbm ≤ℤ info.tx_power_max_dbm
power_between info cfg out bounds h =
    let clamped = (prepare_lora-Allowed_lem info cfg out h).1 ∙ tx_power_dbm-clamp_power info cfg in
    rw (ap (λ c. c.tx_power_dbm) clamped)
      (clamp_from_between info.tx_power_min_dbm info.tx_power_max_dbm cfg.tx_power_dbm bounds)

-- A configuration that _prepare_config returned is returned as it is when it is prepared again, if the
-- device's power bounds are in order.
pub prepare_lora_idempotent :
    (info : Info) (cfg out : LoRaConfig)
    → info.tx_power_min_dbm ≤ℤ info.tx_power_max_dbm
    → prepare_lora info cfg ≡ prepared out
    → prepare_lora info out ≡ prepared out
prepare_lora_idempotent info cfg out bounds h =
    let (caps, nearest, same) = prepare_lora_sound info cfg out bounds h in
    let q = out.tx_power_dbm in
    let (low, high) = power_between info cfg out bounds h in
    prepare_lora-Allowed info out
      (subst (Allowed info) (sym same) (Allowed-with_power info cfg q caps))
    ∙ ap prepared (
        tx_power_dbm-clamp_power info out
        ∙ ap (λ r. record out { tx_power_dbm = r })
            (clamp_from_inside info.tx_power_min_dbm info.tx_power_max_dbm q low high))

≤ℤ_antisym : (a b : ℤ) → a ≤ℤ b → b ≤ℤ a → a ≡ b
≤ℤ_antisym (pos a) (pos b) h k = ap pos (omega (arith, h, k))
≤ℤ_antisym (pos a) (negsuc b) h k = absurd (omega (arith, h))
≤ℤ_antisym (negsuc a) (pos b) h k = absurd (omega (arith, k))
≤ℤ_antisym (negsuc a) (negsuc b) h k = ap negsuc (omega (arith, h, k))

-- Only one power between the bounds is nearest.
nearest_unique :
    (low high p q r : ℤ) → low ≤ℤ high → IsNearest low high p q → IsNearest low high p r → q ≡ r
nearest_unique low high p q r order (inside a b) (inside c d) = refl
nearest_unique low high p q r order (inside a b) (over c) =
    ≤ℤ_antisym _ _ (omega arith) (omega arith)
nearest_unique low high p q r order (inside a b) (under c) =
    ≤ℤ_antisym _ _ (omega arith) (omega arith)
nearest_unique low high p q r order (over a) (inside b c) =
    ≤ℤ_antisym _ _ (omega arith) (omega arith)
nearest_unique low high p q r order (over a) (over b) = refl
nearest_unique low high p q r order (over a) (under b) = ≤ℤ_antisym _ _ (omega arith) (omega arith)
nearest_unique low high p q r order (under a) (inside b c) =
    ≤ℤ_antisym _ _ (omega arith) (omega arith)
nearest_unique low high p q r order (under a) (over b) = ≤ℤ_antisym _ _ (omega arith) (omega arith)
nearest_unique low high p q r order (under a) (under b) = refl

-- If the device's power bounds are in order, every configuration that its advertisement allows is
-- prepared, as the configuration with the power between the bounds that is nearest to the one asked for
-- and all else unchanged, and this one is prepared as itself.
pub prepare_lora_complete :
    (info : Info) (cfg : LoRaConfig) (q : ℤ)
    → info.tx_power_min_dbm ≤ℤ info.tx_power_max_dbm
    → Allowed info cfg
    → IsNearest info.tx_power_min_dbm info.tx_power_max_dbm cfg.tx_power_dbm q
    → (prepare_lora info cfg ≡ prepared (record cfg { tx_power_dbm = q }))
      × (prepare_lora info (record cfg { tx_power_dbm = q })
          ≡ prepared (record cfg { tx_power_dbm = q }))
prepare_lora_complete info cfg q bounds caps nearest =
    let same =
      nearest_unique _ _ _ _ q bounds
        (clamp_from-IsNearest info.tx_power_min_dbm info.tx_power_max_dbm cfg.tx_power_dbm bounds)
        nearest in
    let once : prepare_lora info cfg ≡ prepared (record cfg { tx_power_dbm = q }) =
      prepare_lora-Allowed info cfg caps
      ∙ ap prepared
          (tx_power_dbm-clamp_power info cfg ∙ ap (λ r. record cfg { tx_power_dbm = r }) same) in
    (once, prepare_lora_idempotent info cfg _ bounds once)
