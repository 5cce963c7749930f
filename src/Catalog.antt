-- ===== src/Catalog.antt =====
-- scripts/vitocatalog/models.py: one datapoint of the export, with the fields that the modelled rules
-- of transforms.py read. Its Python integers may be absent, and are signed.
pub mod Bits
pub mod Blocks
pub mod Options
pub mod Floats
pub mod Toggles
pub mod Scales
pub mod Modes
use esphome_vitohome.Common.{
  is_space, lower_code, ℕ, zero, suc, String, Bool, true, false, ◌||◌, Option, none, some, List, [],
  ◌∷◌, ℤ, pos, negsuc, eqb_ℤ, Text, codes, strip, lower, same_text, if◌then◌else◌,
}

-- models.py `EventValue`
pub record EventValue : Type 0 where
  pub name : String
  pub enum_address_value : Option ℤ
  pub enum_replace_value : String
  pub description : String
  pub label : String
  pub label_de : String
  pub unit_token : String
  pub lower : String
  pub upper : String
  pub stepping : String

-- models.py `Event`
pub record Event : Type 0 where
  pub name : String
  pub tech : String
  pub token : String
  pub address : Option ℕ
  pub conversion : String
  pub access_type : ℤ
  pub block_length : Option ℤ
  pub byte_length : Option ℤ
  pub byte_position : Option ℤ
  pub bit_length : Option ℤ
  pub bit_position : Option ℤ
  pub lower : String
  pub upper : String
  pub stepping : String
  pub unit_token : String
  pub fc_read : String
  pub fc_write : String
  pub prefix_read : String
  pub prefix_write : String
  pub function_value : String
  pub parameter_type : String
  pub block_factor : Option ℤ
  pub values : List EventValue

-- `text.strip().lower()`
unfoldable pub normal : String → Text
unfolding is_space lower_code
normal s = lower (strip (codes s))

-- `text.strip().lower() == word`
abbrev pub names : String → String → Bool
names s word = same_text (normal s) (codes word)

abbrev pub is_empty : Text → Bool
is_empty [] = true
is_empty (_ ∷ _) = false

-- `a or b` on integers.
abbrev pub int_or : Option ℤ → ℤ → ℤ
int_or none b = b
int_or (some (pos zero)) b = b
int_or (some (pos (suc n))) b = pos (suc n)
int_or (some (negsuc n)) b = negsuc n

-- `ev.block_length or ev.byte_length or 0`
abbrev pub answer_size : Event → ℤ
answer_size ev = int_or ev.block_length (int_or ev.byte_length (pos 0))

-- `ev.access_type in (2, 3)`
abbrev pub marked_writable : Event → Bool
marked_writable ev = eqb_ℤ ev.access_type (pos 2) || eqb_ℤ ev.access_type (pos 3)

abbrev pub lookup {ℓ} : {A : Type ℓ} → Text → List (String × A) → Option A
lookup key [] = none
lookup key ((word, a) ∷ rows) =
    let rest = lookup key rows in if same_text key (codes word) then some a else rest
