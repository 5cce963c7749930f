-- ===== src/Common/Characters.antt =====
-- Texts as lists of code points, and what the sources do with them: `strip`, `lower`, `==`,
-- `bytes.fromhex` and `int`, on ASCII.
use Prim.Native.Char.{code}
use Prim.Native.String.{String}
use Prim.Native.Nat.{ℕ, zero, suc, ◌+◌, ◌-◌, ◌*◌}
use mathlib.Core.Path.{◌≡◌, refl}
use mathlib.Core.Logic.{◌≢◌, inl, inr}
use mathlib.Core.Bool.{Bool, true, false, not, ◌&&◌, ◌||◌}
use mathlib.Core.Option.{Option, none, some}
use mathlib.Core.List.{List, [], ◌∷◌}
use native.Mathlib.Omega.{arith}
use esphome_vitohome.Common.Tests.{Bool-cases, leb, ltb, ◌==◌, if◌then◌else◌}
use esphome_vitohome.Common.Int.{ℤ, pos, negsuc}

abbrev pub Text : Type 0
Text = List ℕ

abbrev pub codes : String → Text
codes String.[] = []
codes (String.◌∷◌ c s) = code c ∷ codes s

unfoldable pub is_space : ℕ → Bool
is_space c = (leb 9 c && leb c 13) || (leb 28 c && leb c 32)

unfoldable pub lower_code : ℕ → ℕ
lower_code c = if leb 65 c && leb c 90 then c + 32 else c

abbrev pub lower : Text → Text
lower [] = []
lower (c ∷ s) = lower_code c ∷ lower s

abbrev pub strip_start : Text → Text
strip_start [] = []
strip_start (c ∷ s) = let rest = strip_start s in if is_space c then rest else c ∷ s

abbrev after_end : ℕ → Text → Text
after_end c [] = if is_space c then [] else c ∷ []
after_end c (d ∷ s) = c ∷ d ∷ s

abbrev pub strip_end : Text → Text
strip_end [] = []
strip_end (c ∷ s) = after_end c (strip_end s)

abbrev pub strip : Text → Text
strip s = strip_end (strip_start s)

unfoldable pub same_text : Text → Text → Bool
same_text [] [] = true
same_text [] (d ∷ t) = false
same_text (c ∷ s) [] = false
same_text (c ∷ s) (d ∷ t) = (c == d) && same_text s t

pub same_text_sound : (s t : Text) → same_text s t ≡ true → s ≡ t
unfolding same_text
same_text_sound [] [] h = refl
same_text_sound [] (d ∷ t) h = cc
same_text_sound (c ∷ s) [] h = cc
same_text_sound (c ∷ s) (d ∷ t) h =
    let e : c ≡ d = ground arith in
    let r : same_text s t ≡ true = ground arith in cc (same_text_sound s t r)

pub same_text_refl : (t : Text) → same_text t t ≡ true
unfolding same_text
same_text_refl [] = refl
same_text_refl (c ∷ s) = ground (arith, same_text_refl s)

pub same_text-ne : (s t : Text) → s ≢ t → same_text s t ≡ false
same_text-ne s t q = elim (Bool-cases (same_text s t)) [
  | inl e ↦ absurd (q (same_text_sound s t e))
  | inr e ↦ e
]

-- A hexadecimal digit.
unfoldable pub hex_digit : ℕ → Option ℕ
hex_digit c =
    if leb 48 c && leb c 57
    then some (c - 48)
    else if leb 97 c && leb c 102
    then some (c - 87)
    else if leb 65 c && leb c 70
    then some (c - 55)
    else none

-- The white space that `bytes.fromhex` skips between bytes.
abbrev pub is_blank : ℕ → Bool
is_blank c = (leb 9 c && leb c 13) || (c == 32)

abbrev pub hex_pair : Option ℕ → Option ℕ → Option (List ℕ) → Option (List ℕ)
hex_pair (some a) (some b) (some bytes) = some ((a * 16 + b) ∷ bytes)
hex_pair _ _ _ = none

-- `bytes.fromhex`; `none` for its ValueError.
unfoldable pub from_hex : Text → Option (List ℕ)
unfolding hex_digit
from_hex [] = some []
from_hex (c ∷ []) = if is_blank c then some [] else none
from_hex (c ∷ d ∷ s) =
    let skipped = from_hex (d ∷ s) in
    let rest = from_hex s in
    if is_blank c then skipped else hex_pair (hex_digit c) (hex_digit d) rest

abbrev digit_of : ℕ → Option ℕ → Option ℕ
digit_of base none = none
digit_of base (some d) = if ltb d base then some d else none

-- The digits of a Python integer: single underscores may stand between two digits. `first` says that
-- a digit must follow.
unfoldable pub int_digits : ℕ → ℕ → Bool → Text → Option ℕ
unfolding hex_digit
int_digits base acc true [] = none
int_digits base acc false [] = some acc
int_digits base acc first (c ∷ s) =
    let between = int_digits base acc true s in
    elim (digit_of base (hex_digit c)) [
      | some d ↦ int_digits base (acc * base + d) false s
      | none ↦ if (c == b'_') && not first then between else none
    ]

abbrev negated : Option ℕ → Option ℤ
negated none = none
negated (some zero) = some (pos 0)
negated (some (suc n)) = some (negsuc n)

abbrev positive : Option ℕ → Option ℤ
positive none = none
positive (some n) = some (pos n)

-- `int(text, 10)`; `none` for its ValueError.
unfoldable pub int_10 : Text → Option ℤ
unfolding int_digits
int_10 [] = none
int_10 (c ∷ s) =
    if c == b'-'
    then negated (int_digits 10 0 true s)
    else if c == b'+'
    then positive (int_digits 10 0 true s)
    else positive (int_digits 10 0 true (c ∷ s))

-- `int(text, 16)` of what stands after `0x`.
unfoldable pub int_16 : Text → Option ℤ
unfolding int_digits
int_16 [] = none
int_16 (c ∷ s) =
    if c == b'_' then positive (int_digits 16 0 true s) else positive (int_digits 16 0 true (c ∷ s))
