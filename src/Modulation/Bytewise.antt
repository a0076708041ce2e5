-- ===== src/Modulation/Bytewise.antt =====
-- The payloads of SET_CONFIG as byte strings: `bytes` holds numbers below 256 by its type, a list of
-- numbers does not.
use client_py.Prelude.{
  ℕ, zero, suc, ◌+◌, ◌/◌, ◌≤◌, if◌then◌else◌, ◌≡◌, Bool, true, false, refl, List, [], ◌∷◌, ◌++◌,
  All, length, arith, leb, All-append, length-append, leb→le, subst,
}
use client_py.Prelude.Int.{ℤ, pos, negsuc, pos_part}
use client_py.Python.Result.{Result, Error, ok, err, value_error, ◌>>=◌, guard}
use client_py.Python.Struct.{
  Bytes, IsByte, le, pack_unsigned, pack_signed, in_unsigned, in_signed, pattern_of, byte_of,
  bytes_of,
}
use client_py.Python.Struct.Laws.{le-IsByte}
use client_py.Modulation.{Modulation, lora, fsk, lr_fhss, flrc, encode_modulation}
use client_py.Modulation.LoRa.{LoRaConfig}
use client_py.Modulation.Fsk.{FskConfig}
use client_py.Modulation.LrFhss.{LrFhssConfig}
use client_py.Modulation.Flrc.{FlrcConfig}
use client_py.Modulation.LoRa
use client_py.Modulation.Fsk
use client_py.Modulation.LrFhss
use client_py.Modulation.Flrc

-- At most `n` numbers, all of them bytes.
pub record AtMost (n : ℕ) (bs : Bytes) : Type 0 where
  pub bytes : All IsByte bs
  pub short : length bs ≤ n

-- What is returned, if anything is, has the predicate.
abbrev pub Returns : {A : Type 0} → (A → Type 0) → Result A → Type 0
Returns P (ok a) = P a
Returns P (err e) = Unit {0}

Returns-bind :
    {A B : Type 0} (P : A → Type 0) (Q : B → Type 0) (r : Result A) (k : A → Result B)
    → Returns P r
    → ((a : A) → P a → Returns Q (k a))
    → Returns Q (r >>= k)
Returns-bind P Q (ok a) k h next = next a h
Returns-bind P Q (err e) k h next = tt

pub Returns-ok : {A : Type 0} (P : A → Type 0) (r : Result A) (a : A) → Returns P r → r ≡ ok a → P a
Returns-ok P (ok b) a h e = subst (Returns P) e h
Returns-ok P (err x) a h e = cc

guard-Returns : (b : Bool) (e : Error) → Returns (λ (u : Unit {0}). b ≡ true) (guard b e)
guard-Returns true e = refl
guard-Returns false e = tt

infixl 5 ◌⊕◌
◌⊕◌ : {m n : ℕ} {xs ys : Bytes} → AtMost m xs → AtMost n ys → AtMost (m + n) (xs ++ ys)
◌⊕◌ {xs = xs} {ys = ys} h k = record {
  bytes = All-append IsByte xs ys h.bytes k.bytes;
  short = omega (arith, length-append xs ys, h.short, k.short);
}

length-le : (w n : ℕ) → length (le w n) ≡ w
length-le zero n = refl
length-le (suc w) n = omega (arith, length-le w (n / 256))

le-AtMost : (w n : ℕ) → AtMost w (le w n)
le-AtMost w n = record { bytes = le-IsByte w n; short = omega (arith, length-le w n) }

if-Returns :
    {A : Type 0} (P : A → Type 0) (b : Bool) (a : A) (e : Error)
    → P a
    → Returns P (if b then ok a else err e)
if-Returns P true a e h = h
if-Returns P false a e h = tt

pack_unsigned-AtMost : (w : ℕ) (z : ℤ) → Returns (AtMost w) (pack_unsigned w z)
unfolding pack_unsigned
pack_unsigned-AtMost w z = if-Returns (AtMost w) (in_unsigned w z) _ _ (le-AtMost w (pos_part z))

pack_signed-AtMost : (w : ℕ) (z : ℤ) → Returns (AtMost w) (pack_signed w z)
unfolding pack_signed
pack_signed-AtMost w z = if-Returns (AtMost w) (in_signed w z) _ _ (le-AtMost w (pattern_of w z))

byte_of-IsByte : (z : ℤ) → Returns IsByte (byte_of z)
unfolding byte_of in_unsigned
byte_of-IsByte (pos n) = ground arith
byte_of-IsByte (negsuc n) = tt

bytes_of-AtMost : (zs : List ℤ) → Returns (AtMost (length zs)) (bytes_of zs)
unfolding bytes_of
bytes_of-AtMost [] = record { bytes = tt; short = omega arith }
bytes_of-AtMost (z ∷ zs) = Returns-bind IsByte _ (byte_of z) _ (byte_of-IsByte z) λ b h.
    Returns-bind (AtMost (length zs)) _ (bytes_of zs) _ (bytes_of-AtMost zs)
      λ bs k. record { bytes = (h, k.bytes); short = omega (arith, k.short) }

-- A field of a payload in front of the others.
module _ (n : ℕ) (k : Bytes → Result Bytes) where
  unsigned_field :
      (w : ℕ) (z : ℤ)
      → ((bs : Bytes) → AtMost w bs → Returns (AtMost n) (k bs))
      → Returns (AtMost n) (pack_unsigned w z >>= k)
  unsigned_field w z = Returns-bind _ _ (pack_unsigned w z) k (pack_unsigned-AtMost w z)

  signed_field :
      (w : ℕ) (z : ℤ)
      → ((bs : Bytes) → AtMost w bs → Returns (AtMost n) (k bs))
      → Returns (AtMost n) (pack_signed w z >>= k)
  signed_field w z = Returns-bind _ _ (pack_signed w z) k (pack_signed-AtMost w z)

  bytes_field :
      (zs : List ℤ)
      → ((bs : Bytes) → AtMost (length zs) bs → Returns (AtMost n) (k bs))
      → Returns (AtMost n) (bytes_of zs >>= k)
  bytes_field zs = Returns-bind _ _ (bytes_of zs) k (bytes_of-AtMost zs)

lora-AtMost : (c : LoRaConfig) → Returns (AtMost 15) (LoRa.encode c)
unfolding LoRa.encode
lora-AtMost c = unsigned_field 15 _ 4 c.freq_hz λ freq h0. bytes_field 15 _ _ λ shape h1.
    unsigned_field 15 _ 2 c.preamble_len λ preamble h2. unsigned_field 15 _ 2 c.sync_word λ sync h3.
      signed_field 15 _ 1 c.tx_power_dbm
        λ power h4. bytes_field 15 _ _ λ flags h5. h0 ⊕ h1 ⊕ h2 ⊕ h3 ⊕ h4 ⊕ h5

lr_fhss-AtMost : (c : LrFhssConfig) → Returns (AtMost 10) (LrFhss.encode c)
unfolding LrFhss.encode
lr_fhss-AtMost c = unsigned_field 10 _ 4 c.freq_hz λ freq h0. bytes_field 10 _ _ λ shape h1.
    bytes_field 10 _ _
      λ hopping h2. signed_field 10 _ 1 c.tx_power_dbm λ power h3. h0 ⊕ h1 ⊕ h2 ⊕ h3 ⊕ le-AtMost 1 0

flrc-AtMost : (c : FlrcConfig) → Returns (AtMost 13) (Flrc.encode c)
unfolding Flrc.encode
flrc-AtMost c = unsigned_field 13 _ 4 c.freq_hz λ freq h0. bytes_field 13 _ _ λ shape h1.
    unsigned_field 13 _ 4 c.sync_word
      λ sync h2. signed_field 13 _ 1 c.tx_power_dbm λ power h3. h0 ⊕ h1 ⊕ h2 ⊕ h3

fsk-AtMost : (c : FskConfig) → All IsByte c.sync_word → Returns (AtMost 24) (Fsk.encode c)
unfolding Fsk.encode
fsk-AtMost c sync_bytes =
    Returns-bind _ (AtMost 24) (guard (leb (length c.sync_word) 8) value_error) _
      (guard-Returns (leb (length c.sync_word) 8) value_error)
      λ u short. unsigned_field 24 _ 4 c.freq_hz λ freq h0.
        unsigned_field 24 _ 4 c.bitrate_bps λ bitrate h1.
          unsigned_field 24 _ 4 c.freq_dev_hz λ freq_dev h2. bytes_field 24 _ _ λ rx_bw h3.
            unsigned_field 24 _ 2 c.preamble_len λ preamble h4. bytes_field 24 _ _ λ len h5.
              let sync_short : AtMost 8 c.sync_word = record {
                bytes = sync_bytes;
                short = leb→le _ _ short;
              } in
              h0 ⊕ h1 ⊕ h2 ⊕ h3 ⊕ h4 ⊕ h5 ⊕ sync_short

-- The `sync_word` of FskConfig is of type `bytes`; every other field is a number, a flag or an enum.
abbrev pub HasBytes : Modulation → Type 0
HasBytes (fsk c) = All IsByte c.sync_word
HasBytes _ = Unit {0}

at_most : (m n : ℕ) (bs : Bytes) → m ≤ n → AtMost m bs → AtMost n bs
at_most m n bs le h = record { bytes = h.bytes; short = omega (arith, le, h.short) }

-- The modulation id in front of the parameters.
prefixed :
    (id n : ℕ) (params : Result Bytes)
    → n ≤ 24
    → Returns (AtMost n) params
    → Returns (AtMost 25) (do prefix ← bytes_of (pos id ∷ []); bs ← params; ok (prefix ++ bs))
prefixed id n params le h = bytes_field 25 _ (pos id ∷ []) λ prefix h0.
    Returns-bind _ (AtMost 25) params _ h
      λ bs h1. at_most (1 + n) 25 _ (omega (arith, le)) (h0 ⊕ h1)

encode_modulation-Returns :
    (m : Modulation) → HasBytes m → Returns (AtMost 25) (encode_modulation m)
unfolding encode_modulation
encode_modulation-Returns (lora c) h = prefixed _ 15 _ (omega arith) (lora-AtMost c)
encode_modulation-Returns (fsk c) h = prefixed _ 24 _ (omega arith) (fsk-AtMost c h)
encode_modulation-Returns (lr_fhss c) h = prefixed _ 10 _ (omega arith) (lr_fhss-AtMost c)
encode_modulation-Returns (flrc c) h = prefixed _ 13 _ (omega arith) (flrc-AtMost c)

-- Whatever encode_modulation returns for a configuration whose sync word, if it has one as a byte
-- string, holds bytes, is a string of at most 25 bytes.
pub encode_modulation-AtMost :
    (m : Modulation) (bs : Bytes)
    → HasBytes m
    → encode_modulation m ≡ ok bs
    → All IsByte bs × (length bs ≤ 25)
encode_modulation-AtMost m bs h e =
    let k = Returns-ok (AtMost 25) (encode_modulation m) bs (encode_modulation-Returns m h) e in
    (k.bytes, k.short)
