-- ===== src/Emitter/Accepted.antt =====
-- What `build_entity_spec` emits for a datapoint, the component accepts.
use text.Mathlib.Text.{◌==◌ as str_eq}
use esphome_vitohome.Common.{
  ℕ, zero, suc, ◌+◌, ◌≤◌, ◌≡◌, refl, Bool, false, Option, none, some, List, [], String, Text, ℤ,
  pos, negsuc,
}
use esphome_vitohome.Hub.Access.{Protocol, number}
use esphome_vitohome.Hub.Converters.{rotatebytes}
use esphome_vitohome.Catalog.{Event, int_or}
use esphome_vitohome.Catalog.Blocks.{Blocks}
use esphome_vitohome.Catalog.Options.{enum_options, dedup_option_labels}
use esphome_vitohome.Catalog.Floats.{Floats}
use esphome_vitohome.Catalog.Scales.{width_of}
use esphome_vitohome.Emitter.{EntitySpec, block_length_of, conversion_of, Factors}
use esphome_vitohome.Emitter.Reading.{IsRead}
use esphome_vitohome.Emitter.Drafts.{Draft, draft_of}
use esphome_vitohome.Emitter.Fields.Numbers.{ReadsBack}
use esphome_vitohome.Emitter.Strings.{Place}
use esphome_vitohome.Emitter.Values.Places.{place}

-- The field's bytes lie in its block.
pub record IsPlaced (ev : Event) : Type 0 where
  pub size : ℕ
  pub width : ℕ
  pub off : ℕ
  pub is_size : block_length_of ev ≡ pos size
  pub is_width : width_of ev ≡ pos width
  pub is_off : int_or ev.byte_position (pos 0) ≡ pos off
  pub some_byte : 1 ≤ width
  pub inside : off + width ≤ size

-- The two orders of the lengths name the same width.
pub same_width :
    (byte_length block_length : Option ℤ)
    → int_or byte_length (int_or block_length (int_or byte_length (pos 1)))
      ≡ int_or byte_length (int_or block_length (pos 1))
same_width none block_length = refl
same_width (some (pos zero)) block_length = refl
same_width (some (pos (suc n))) block_length = refl
same_width (some (negsuc n)) block_length = refl

module _ (F : Floats) (ev : Event) (protocol : Protocol) (partial_writes : Bool)
    (ro_blocks : Blocks) (factors : Factors F.Float) (addr position : ℕ)
    (options : List (ℤ × String)) (lo hi : F.Float) (spec : EntitySpec F.Float) (back : ReadsBack F)
    (at : IsPlaced ev) (at_bit : int_or ev.bit_position (pos 0) ≡ pos position)
    (rotated_first : (conversion_of ev.conversion).0 ≡ some rotatebytes → at.off ≡ 0)
    (plain_number : spec.platform ≡ number → enum_options ev false ≡ [])
    (read : IsRead F spec.platform spec options lo hi) where
  abbrev draft : Draft F.Float
  draft = draft_of F ev protocol factors

  abbrev placed : Place
  placed = place at.size at.width at.off

  abbrev shown : List (ℕ × Text)
  shown = dedup_option_labels (enum_options ev false)
