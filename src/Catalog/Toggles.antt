-- ===== src/Catalog/Toggles.antt =====
-- scripts/vitocatalog/transforms.py: when an enumeration of two options is an on/off toggle. The
-- labels that the code returns with the two values only stand in a comment, and are left out.
pub mod Labels
pub mod Pairs
pub mod Found
use esphome_vitohome.Common.{
  ℕ, ◌+◌, Bool, true, false, ◌&&◌, ◌||◌, Option, none, some, List, [], ◌∷◌, ◌++◌, String, Text,
  codes, strip, lower, is_space, lower_code, same_text, leb, ◌==◌, if◌then◌else◌,
}
use esphome_vitohome.Catalog.{Event}
use esphome_vitohome.Catalog.Options.{enum_options, dedup_option_labels}

-- constants.py `_BOOLEAN_ON_OFF_PAIRS`
abbrev pub boolean_on_off_pairs : List (String × String)
boolean_on_off_pairs =
    ("ein", "aus")
    ∷ ("an", "aus")
    ∷ ("aktiv", "inaktiv")
    ∷ ("ja", "nein")
    ∷ ("on", "off")
    ∷ ("yes", "no")
    ∷ ("freigegeben", "gesperrt")
    ∷ []

abbrev pub is_digit : ℕ → Bool
is_digit c = leb b'0' c && leb c b'9'

-- `\s*` at the start, `\d*` at the start, `[:.]?` at the start.
abbrev pub skip_spaces : Text → Text
skip_spaces [] = []
skip_spaces (c ∷ s) = let rest = skip_spaces s in if is_space c then rest else c ∷ s

abbrev pub skip_digits : Text → Text
skip_digits [] = []
skip_digits (c ∷ s) = let rest = skip_digits s in if is_digit c then rest else c ∷ s

abbrev pub skip_mark : Text → Text
skip_mark [] = []
skip_mark (c ∷ s) = if c == b':' || c == b'.' then s else c ∷ s

-- `re.sub(r"^\d+\s*[:.]?\s*", "", text)`
abbrev pub without_echo : Text → Text
without_echo [] = []
without_echo (c ∷ s) =
    if is_digit c then skip_spaces (skip_mark (skip_spaces (skip_digits s))) else c ∷ s

-- `_norm_bool_label`
unfoldable pub norm_bool_label : Text → Text
unfolding is_space lower_code
norm_bool_label label = lower (without_echo (strip label))

abbrev pub starts_with : Text → Text → Bool
starts_with [] s = true
starts_with (c ∷ word) [] = false
starts_with (c ∷ word) (d ∷ s) = (c == d) && starts_with word s

-- `word in s`
abbrev pub has_word : Text → Text → Bool
has_word word [] = starts_with word []
has_word word (c ∷ s) = starts_with word (c ∷ s) || has_word word s

-- `s.rsplit("~", 1)[-1]`: what follows the last `~`, and all of `s` where it has none.
abbrev pub after_last : Text → Option Text
after_last [] = none
after_last (c ∷ s) = elim (after_last s) [
  | some t ↦ some t
  | none ↦ if c == b'~' then some s else none
]

abbrev pub last_part : Text → Text
last_part s = elim (after_last s) [ none ↦ s | some t ↦ t ]

abbrev pub both_stems : Text → Text → Bool
both_stems a b = has_word (codes "_ein_aus~") (lower a) && has_word (codes "_ein_aus~") (lower b)

abbrev pub parts_are : String → String → Text → Text → Bool
parts_are p q a b = same_text (last_part a) (codes p) && same_text (last_part b) (codes q)

abbrev pub by_parts : ℕ → Text → ℕ → Text → Option (ℕ × ℕ)
by_parts v_a a v_b b =
    if parts_are "1" "0" a b
    then some (v_a, v_b)
    else if parts_are "0" "1" a b
    then some (v_b, v_a)
    else none

-- The type name itself says on or off: `~1` is on, `~0` is off.
abbrev pub by_stem : ℕ → Text → ℕ → Text → Option (ℕ × ℕ)
by_stem v_a a v_b b = if both_stems a b then by_parts v_a a v_b b else none

-- One label is "nicht " and the other.
abbrev pub by_negation : ℕ → Text → ℕ → Text → Option (ℕ × ℕ)
by_negation v_a a v_b b =
    if same_text a (codes "nicht " ++ b)
    then some (v_b, v_a)
    else if same_text b (codes "nicht " ++ a)
    then some (v_a, v_b)
    else none

-- The labels are a known pair, in either order.
abbrev pub by_words : List (String × String) → ℕ → Text → ℕ → Text → Option (ℕ × ℕ)
by_words [] v_a a v_b b = none
by_words ((on_word, off_word) ∷ pairs) v_a a v_b b =
    let rest = by_words pairs v_a a v_b b in
    if same_text a (codes on_word) && same_text b (codes off_word)
    then some (v_a, v_b)
    else if same_text a (codes off_word) && same_text b (codes on_word)
    then some (v_b, v_a)
    else rest

infixr 30 ◌or_else◌
abbrev pub ◌or_else◌ : Option (ℕ × ℕ) → Option (ℕ × ℕ) → Option (ℕ × ℕ)
none or_else q = q
some p or_else q = some p

-- `_boolean_pair`: the value that means on, and the one that means off.
unfoldable pub boolean_pair : List (ℕ × Text) → Option (ℕ × ℕ)
unfolding norm_bool_label same_text
boolean_pair ((v_a, l_a) ∷ (v_b, l_b) ∷ []) =
    by_stem v_a l_a v_b l_b
    or_else by_negation v_a (norm_bool_label l_a) v_b (norm_bool_label l_b)
    or_else by_words boolean_on_off_pairs v_a (norm_bool_label l_a) v_b (norm_bool_label l_b)
boolean_pair _ = none

-- `_enum_bool_pair`: decided on the German labels.
unfoldable pub enum_bool_pair : Event → Option (ℕ × ℕ)
unfolding boolean_pair dedup_option_labels enum_options
enum_bool_pair ev = boolean_pair (dedup_option_labels (enum_options ev true))
