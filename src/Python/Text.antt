-- ===== src/Python/Text.antt =====
-- What the client uses of `str`. A text is the list of its code points.
use Prim.Native.String.{String}
use Prim.Native.Char.{code}
use client_py.Prelude.{
  ℕ, zero, suc, and_true, ==_iff, ap₂, ◌+◌, ◌-◌, ◌*◌, ◌≡◌, refl, Bool, true, false, ◌&&◌, ◌||◌,
  Option, none, some, List, [], ◌∷◌, ◌++◌, ◌==◌, leb, if◌then◌else◌,
}
use client_py.Prelude.Int.{ℤ, pos, negsuc}

abbrev pub Text : Type 0
Text = List ℕ

abbrev pub codes : String → Text
codes String.[] = []
codes (String.◌∷◌ c s) = code c ∷ codes s

-- s == t
unfoldable pub same : Text → Text → Bool
same [] [] = true
same [] (d ∷ t) = false
same (c ∷ s) [] = false
same (c ∷ s) (d ∷ t) = let rest = same s t in c == d && rest

-- `if s:`
abbrev pub is_empty : Text → Bool
is_empty [] = true
is_empty (c ∷ s) = false

-- s.lower(), on ASCII
unfoldable pub lower : Text → Text
lower [] = []
lower (c ∷ s) = let rest = lower s in (if leb 65 c && leb c 90 then c + 32 else c) ∷ rest

abbrev prepend : ℕ → Option (Text × Text) → Option (Text × Text)
prepend c none = none
prepend c (some (before, behind)) = some (c ∷ before, behind)

-- s.split(c, 1), if the character c is in s
unfoldable pub split_first : ℕ → Text → Option (Text × Text)
split_first c [] = none
split_first c (d ∷ s) =
    let later = split_first c s in if d == c then some ([], s) else prepend d later

abbrev or_here : ℕ → ℕ → Text → Option (Text × Text) → Option (Text × Text)
or_here c d s (some (before, behind)) = some (d ∷ before, behind)
or_here c d s none = if d == c then some ([], s) else none

-- s.rpartition(c) less its middle, if the character c is in s
unfoldable pub split_last : ℕ → Text → Option (Text × Text)
split_last c [] = none
split_last c (d ∷ s) = or_here c d s (split_last c s)

-- The characters that end a line for str.splitlines, less "\r", which text=True has turned into "\n".
abbrev ends_line : ℕ → Bool
ends_line c = (leb 10 c && leb c 12) || (leb 28 c && leb c 30) || c == 133 || c == 8232 || c == 8233

abbrev last_line : Text → List Text
last_line [] = []
last_line (c ∷ s) = (c ∷ s) ∷ []

-- s.splitlines(), behind the part `line` of a line
unfoldable pub lines_from : Text → Text → List Text
lines_from line [] = last_line line
lines_from line (c ∷ s) =
    let rest = lines_from (if ends_line c then [] else line ++ c ∷ []) s in
    if ends_line c then line ∷ rest else rest

abbrev is_space : ℕ → Bool
is_space c = (leb 9 c && leb c 13) || (leb 28 c && leb c 32)

-- The digits of int(): the value so far, how many there were, and whether the last character was one.
record Digits : Type 0 where
  value : ℕ
  count : ℕ
  after_digit : Bool

abbrev one_digit : Digits → ℕ → Option Digits
one_digit d c =
    if leb 48 c && leb c 57
    then some (record { value = d.value * 10 + (c - 48); count = d.count + 1; after_digit = true })
    else if c == 95 && d.after_digit
    then some (record d { after_digit = false })
    else none

abbrev all_digits : Option Digits → Text → Option Digits
all_digits none s = none
all_digits (some d) [] = some d
all_digits (some d) (c ∷ s) = all_digits (one_digit d c) s

-- No digits, an underscore at the end, and more digits than Python converts are a ValueError.
abbrev digits_value : Option Digits → Option ℕ
digits_value none = none
digits_value (some d) = if d.after_digit && leb d.count 4300 then some d.value else none

abbrev natural : Text → Option ℕ
natural s =
    digits_value (all_digits (some (record { value = 0; count = 0; after_digit = false })) s)

abbrev negated : Option ℕ → Option ℤ
negated none = none
negated (some zero) = some (pos 0)
negated (some (suc n)) = some (negsuc n)

abbrev not_negated : Option ℕ → Option ℤ
not_negated none = none
not_negated (some n) = some (pos n)

abbrev signed : Text → Option ℤ
signed [] = none
signed (c ∷ s) =
    if c == 45
    then negated (natural s)
    else if c == 43
    then not_negated (natural s)
    else not_negated (natural (c ∷ s))

abbrev strip_left : Text → Text
strip_left [] = []
strip_left (c ∷ s) = let rest = strip_left s in if is_space c then rest else c ∷ s

abbrev keep_right : ℕ → Text → Text
keep_right c [] = if is_space c then [] else c ∷ []
keep_right c (d ∷ s) = c ∷ d ∷ s

abbrev strip_right : Text → Text
strip_right [] = []
strip_right (c ∷ s) = keep_right c (strip_right s)

-- int(s), on ASCII; `none` is its ValueError
unfoldable pub int_of_text : Text → Option ℤ
int_of_text s = signed (strip_right (strip_left s))

pub same-eq : (s t : Text) → same s t ≡ true → s ≡ t
unfolding same
same-eq [] [] h = refl
same-eq [] (d ∷ t) h = cc
same-eq (c ∷ s) [] h = cc
same-eq (c ∷ s) (d ∷ t) h =
    let (first, rest) = and_true (c == d) (same s t) h in
    ap₂ (λ (x : ℕ) (xs : Text). x ∷ xs) ((==_iff c d).0 first) (same-eq s t rest)
