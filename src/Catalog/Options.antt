-- ===== src/Catalog/Options.antt =====
-- scripts/vitocatalog/transforms.py: the options of an enumeration, as value and label.
pub mod Values
pub mod Labels
pub mod Lengths
use esphome_vitohome.Common.{
  ℕ, zero, suc, ◌+◌, ◌*◌, ◌/◌, ◌%◌, Bool, true, false, not, ◌&&◌, Option, none, some, List, [], ◌∷◌,
  ◌++◌, map, ℤ, pos, negsuc, leb, ltb, ◌==◌, any, if◌then◌else◌, Text, codes, same_text,
}
use esphome_vitohome.Catalog.{EventValue, Event, is_empty}

-- `a or b` on texts.
abbrev pub text_or : Text → Text → Text
text_or [] b = b
text_or (c ∷ s) b = c ∷ s

-- An upper-case hexadecimal digit.
abbrev pub hex_char : ℕ → ℕ
hex_char d = if ltb d 10 then d + 48 else d + 55

-- `f"{value:X}"`, with the fuel `value` enough, since each digit divides by 16.
abbrev pub hex_from : ℕ → ℕ → Text → Text
hex_from zero n after = after
hex_from (suc fuel) n after =
    let rest = hex_from fuel (n / 16) (hex_char (n % 16) ∷ after) in if n == 0 then after else rest

-- `f"{value:02X}"`
abbrev pub padded : Text → Text
padded [] = b'0' ∷ b'0' ∷ []
padded (c ∷ []) = b'0' ∷ c ∷ []
padded (c ∷ d ∷ s) = c ∷ d ∷ s

unfoldable pub hex_02 : ℕ → Text
hex_02 value = padded (hex_from value value [])

-- The label of an option.
unfoldable pub option_label : Bool → EventValue → ℕ → Text
unfolding hex_02
option_label german v value = text_or (if german then [] else codes v.label) (
    text_or (codes v.description) (
      text_or (codes v.label_de) (
        text_or (codes v.enum_replace_value)
          (text_or (codes v.name) (codes "0x" ++ hex_02 value)))))

abbrev pub seen_value : ℕ → List ℕ → Bool
seen_value value seen = any (λ s. s == value) seen

-- The loop of `_enum_options`: one value type.
abbrev pub options_step :
    Bool → EventValue → Option ℤ → List ℕ → (List ℕ → List (ℕ × Text)) → List (ℕ × Text)
options_step german v none seen rest = rest seen
options_step german v (some (negsuc _)) seen rest = rest seen
options_step german v (some (pos value)) seen rest =
    if seen_value value seen
    then rest seen
    else (value, option_label german v value) ∷ rest (value ∷ seen)

unfoldable pub options_from : Bool → List EventValue → List ℕ → List (ℕ × Text)
unfolding option_label
options_from german [] seen = []
options_from german (v ∷ vs) seen =
    options_step german v v.enum_address_value seen (λ s. options_from german vs s)

-- `_enum_options`
unfoldable pub enum_options : Event → Bool → List (ℕ × Text)
unfolding options_from
enum_options ev german = options_from german ev.values []

-- `_negative_option_count`
abbrev pub is_negative : Option ℤ → Bool
is_negative (some (negsuc _)) = true
is_negative _ = false

unfoldable pub negative_option_count : List EventValue → ℕ
negative_option_count [] = 0
negative_option_count (v ∷ vs) =
    let rest = negative_option_count vs in
    if is_negative v.enum_address_value then suc rest else rest

abbrev pub value_of : Text → List (Text × ℕ) → Option ℕ
value_of label [] = none
value_of label ((l, v) ∷ rows) =
    let rest = value_of label rows in if same_text l label then some v else rest

abbrev pub is_repeat : Option ℕ → ℕ → Bool
is_repeat none value = false
is_repeat (some v) value = not (v == value)

-- `f" (0x{value:02X})"`
abbrev pub suffix : ℕ → Text
suffix value = codes " (0x" ++ (hex_02 value ++ codes ")")

-- The loop of `_dedup_option_labels`; the newest entry of `seen` comes first.
unfoldable pub dedup_from : List (Text × ℕ) → List (ℕ × Text) → List (ℕ × Text)
unfolding hex_02 same_text
dedup_from seen [] = []
dedup_from seen ((value, label) ∷ opts) =
    let repeat = dedup_from seen opts in
    let fresh = dedup_from ((label, value) ∷ seen) opts in
    if is_repeat (value_of label seen) value
    then (value, label ++ suffix value) ∷ repeat
    else (value, label) ∷ fresh

-- `_dedup_option_labels`
unfoldable pub dedup_option_labels : List (ℕ × Text) → List (ℕ × Text)
unfolding dedup_from
dedup_option_labels opts = dedup_from [] opts

-- `max` of the values.
abbrev pub max_value : ℕ → List (ℕ × Text) → ℕ
max_value hi [] = hi
max_value hi (o ∷ os) = max_value (if ltb hi o.0 then o.0 else hi) os

-- `_enum_read_length`
unfoldable pub enum_read_length : List (ℕ × Text) → ℕ → ℕ
enum_read_length [] fallback = fallback
enum_read_length (o ∷ os) fallback =
    let hi = max_value o.0 os in
    if ltb hi 0x100 then 1 else (if ltb hi 0x10000 then 2 else fallback)
