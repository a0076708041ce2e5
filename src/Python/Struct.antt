-- ===== src/Python/Struct.antt =====
-- `struct.pack` and `struct.unpack_from` at the little-endian codes B, H, I, Q (unsigned) and
-- b, h, i (two's complement), `bytes([...])` and `data[i]`. A byte string is a list of numbers.
pub mod Laws
use client_py.Prelude.{
  ℕ, zero, suc, ◌+◌, ◌-◌, ◌*◌, ◌/◌, ◌%◌, ◌^◌, ◌<◌, Option, none, some, List, [], ◌∷◌, ◌==◌, ltb,
  leb, Bool, false, ◌||◌, not, if◌then◌else◌, length, take, drop, get_elem?,
}
use client_py.Prelude.Int.{ℤ, pos, negsuc, pos_part}
use client_py.Python.Result.{Result, ok, err, value_error, struct_error, index_error, ◌>>=◌}

abbrev pub Bytes : Type 0
Bytes = List ℕ

abbrev pub IsByte : ℕ → Type 0
IsByte b = b < 256

-- The `w` lowest bytes of `n`, lowest first.
abbrev pub le : ℕ → ℕ → Bytes
le zero n = []
le (suc w) n = (n % 256) ∷ le w (n / 256)

abbrev pub from_le : Bytes → ℕ
from_le [] = 0
from_le (b ∷ bs) = b + 256 * from_le bs

-- `z` fits `w` unsigned bytes.
unfoldable pub in_unsigned : ℕ → ℤ → Bool
in_unsigned w (pos n) = ltb n (256 ^ w)
in_unsigned w (negsuc n) = false

-- `z` fits `w` bytes in two's complement.
unfoldable pub in_signed : ℕ → ℤ → Bool
in_signed w (pos n) = ltb n (256 ^ w / 2)
in_signed w (negsuc n) = ltb n (256 ^ w / 2)

-- The unsigned number with the same `w` bytes in two's complement.
unfoldable pub pattern_of : ℕ → ℤ → ℕ
pattern_of w (pos n) = n
pattern_of w (negsuc n) = 256 ^ w - 1 - n

unfoldable pub pack_unsigned : ℕ → ℤ → Result Bytes
pack_unsigned w z = if in_unsigned w z then ok (le w (pos_part z)) else err struct_error

unfoldable pub pack_signed : ℕ → ℤ → Result Bytes
pack_signed w z = if in_signed w z then ok (le w (pattern_of w z)) else err struct_error

-- The integer that a pattern of `w` bytes stands for in two's complement.
abbrev pub signed : ℕ → ℕ → ℤ
signed w m = if ltb m (256 ^ w / 2) then pos m else negsuc (256 ^ w - 1 - m)

-- `struct.unpack_from(code, data, offset)` raises if the buffer ends too early.
abbrev pub raw_from : ℕ → Bytes → ℕ → Result ℕ
raw_from w bs offset =
    if leb (offset + w) (length bs)
    then ok (from_le (take w (drop offset bs)))
    else err struct_error

abbrev pub unpack_unsigned : ℕ → Bytes → ℕ → Result ℤ
unpack_unsigned w bs offset = do n ← raw_from w bs offset; ok (pos n)

abbrev pub unpack_signed : ℕ → Bytes → ℕ → Result ℤ
unpack_signed w bs offset = do n ← raw_from w bs offset; ok (signed w n)

-- One element of `bytes([...])`.
unfoldable pub byte_of : ℤ → Result ℕ
byte_of z = if in_unsigned 1 z then ok (pos_part z) else err value_error

unfoldable pub bytes_of : List ℤ → Result Bytes
bytes_of [] = ok []
bytes_of (z ∷ zs) = do b ← byte_of z; bs ← bytes_of zs; ok (b ∷ bs)

abbrev byte_or_raise : Option ℕ → Result ℕ
byte_or_raise none = err index_error
byte_or_raise (some b) = ok b

-- data[i]
abbrev pub byte_at : Bytes → ℕ → Result ℕ
byte_at bs i = byte_or_raise (get_elem? bs i)

-- `1 if b else 0`
unfoldable pub bit_of : Bool → ℤ
bit_of b = if b then pos 1 else pos 0

-- `n in (0, 1)`
unfoldable pub is_bit : ℕ → Bool
is_bit n = n == 0 || n == 1

-- `bool(n)`
unfoldable pub truth : ℕ → Bool
truth n = not (n == 0)
