-- ===== src/Tests/CatalogRules.antt =====
-- Datapoints in the shape of the export's, and the places where the theorems on the catalog's rules apply.
use mathlib.Core.List.{Memᴰ}
use mathlib.Core.Path.{subst}
use esphome_vitohome.Common.{
  ℕ, ◌≡◌, refl, ◌≢◌, ◌↔◌, ◌⊎◌, inr, true, false, ◌&&◌, none, some, List, [], ◌∷◌, ◌++◌, sym, arith,
  String, ℤ, pos, negsuc, All, codes, Text,
}
use esphome_vitohome.Hub.Access.{p300, gwg, eeprom, gfa, rpc, number}
use esphome_vitohome.Hub.Access.Checked.{SlotOk}
use esphome_vitohome.Catalog.{EventValue, Event, int_or}
use esphome_vitohome.Catalog.Bits.{bit_field}
use esphome_vitohome.Catalog.Bits.Fields.{BitSpec, bit_field_lem}
use esphome_vitohome.Catalog.Modes.{
  access_for, is_writable, is_reachable, is_rpc_reading, is_rpc_action, rpc_prefix,
  rpc_array_records,
}
use esphome_vitohome.Catalog.Modes.Roles.{roles-exclusive}
use esphome_vitohome.Catalog.Modes.Slots.{GfaRead, is_writable-SlotOk}
use esphome_vitohome.Catalog.Modes.Reachable.{DefaultRead, is_reachable_iff}
use esphome_vitohome.Catalog.Modes.Prefixes.{rpc_prefix-printed}
use esphome_vitohome.Catalog.Blocks.{block_write_blocker, read_only_blocks}
use esphome_vitohome.Catalog.Blocks.Writes.{block_write_blocker-writable}
use esphome_vitohome.Catalog.Options.{enum_options, dedup_option_labels, suffix}
use esphome_vitohome.Catalog.Options.Labels.{DistinctLabels, dedup_option_labels-DistinctLabels}
use esphome_vitohome.Catalog.Options.Values.{
  values_of, Distinct, FromType, Listed, enum_options_lem,
}

abbrev pub value : ℤ → String → EventValue
value n label = record {
  name = "";
  enum_address_value = some n;
  enum_replace_value = "";
  description = label;
  label = "";
  label_de = "";
  unit_token = "";
  lower = "";
  upper = "";
  stepping = "";
}

abbrev datapoint : ℤ → String → String → Event
datapoint access_type fc_read fc_write = record {
  name = "Betriebsart";
  tech = "K01";
  token = "";
  conversion = "NoConversion";
  byte_position = none;
  address = some 0x2323;
  access_type = access_type;
  block_length = some (pos 4);
  byte_length = some (pos 1);
  bit_length = some (pos 4);
  bit_position = some (pos 8);
  lower = "";
  upper = "";
  stepping = "";
  unit_token = "";
  fc_read = fc_read;
  fc_write = fc_write;
  prefix_read = "0x0E";
  prefix_write = "";
  function_value = "0x2E";
  parameter_type = "Byte";
  block_factor = none;
  values =
      value (pos 0) "Aus" ∷ value (negsuc 0) "-" ∷ value (pos 1) "Ein" ∷ value (pos 1) "An" ∷ [];
}

abbrev pub mode : Event
mode = datapoint (pos 3) "Virtual_READ" "Virtual_WRITE"

abbrev pub coding : Event
coding = datapoint (pos 3) "EEPROM_READ" "EEPROM_WRITE"

abbrev participant : Event
participant = datapoint (pos 1) " Remote_Procedure_Call" ""

abbrev pub burner : Event
burner = datapoint (pos 3) "GFA_READ" ""

mode_written : is_writable mode p300 ≡ true
unfolding is_writable
mode_written = refl

coding_access : access_for coding gwg ≡ some eeprom
unfolding access_for
coding_access = refl

coding_written : is_writable coding gwg ≡ true
unfolding is_writable
coding_written = refl

participant_read : access_for participant p300 ≡ some rpc
unfolding access_for
participant_read = refl

participant_prefix : rpc_prefix "0x0E" ≡ some (14 ∷ [])
unfolding rpc_prefix
participant_prefix = refl

-- A burner-control datapoint without a write function code counts as writable.
burner_written : (is_writable burner p300 ≡ true) × (access_for burner p300 ≡ some gfa)
unfolding is_writable
burner_written = (refl, refl)

low_nibble : bit_field mode ≡ some (record { byte_offset = pos 1; shift = 4; mask = 15 })
unfolding bit_field
low_nibble = refl

mode_options : enum_options mode true ≡ (0, codes "Aus") ∷ (1, codes "Ein") ∷ []
unfolding enum_options
mode_options = refl

-- A label that looks like a disambiguated one is not told apart from it.
labels_collide :
    dedup_option_labels ((1, codes "A") ∷ (2, codes "A") ∷ (3, codes "A (0x02)") ∷ [])
    ≡ (1, codes "A") ∷ (2, codes "A (0x02)") ∷ (3, codes "A (0x02)") ∷ []
unfolding dedup_option_labels
labels_collide = refl

is_writable-SlotOk_example : SlotOk gwg number (access_for coding gwg) ⊎ GfaRead coding gwg
is_writable-SlotOk_example = is_writable-SlotOk coding gwg coding_written

roles-exclusive_example :
    ((is_rpc_reading participant p300 && is_rpc_action participant p300) ≡ false)
    × ((is_rpc_reading participant p300 && is_writable participant p300) ≡ false)
    × ((is_rpc_action participant p300 && is_writable participant p300) ≡ false)
roles-exclusive_example = roles-exclusive participant p300

is_reachable_iff_example :
    (is_reachable burner p300 ≡ true) ↔ ((access_for burner p300 ≢ none) ⊎ DefaultRead burner p300)
is_reachable_iff_example = is_reachable_iff burner p300

rpc_prefix-printed_example : rpc_prefix "0x0E" ≡ some (14 ∷ [])
rpc_prefix-printed_example =
    rpc_prefix-printed "0x0E" (14 ∷ []) (ground arith, tt) (omega arith) (inr refl)

-- Thirty records of 8 bytes.
abbrev faults : Event
faults = record participant {
  block_factor = some (pos 30);
  block_length = some (pos 240);
  prefix_read = "";
}

faults_split : rpc_array_records faults p300 ≡ some (30, 8)
unfolding rpc_array_records
faults_split = refl

bit_field_lem_example :
    BitSpec (int_or mode.bit_position (pos 0)) (int_or mode.bit_length (pos 0)) (bit_field mode)
bit_field_lem_example = bit_field_lem mode

unblocked : block_write_blocker mode p300 4 1 (read_only_blocks (mode ∷ []) p300) true ≡ none
unfolding block_write_blocker read_only_blocks
unblocked = refl

block_write_blocker-writable_example : is_writable mode p300 ≡ true
block_write_blocker-writable_example =
    block_write_blocker-writable mode mode (mode ∷ []) p300 4 1 0x2323 true unblocked
      (Memᴰ.head refl) refl refl refl

enum_options_lem_example :
    Distinct (values_of (enum_options mode true))
    × All (FromType true mode.values) (enum_options mode true)
    × All (λ v. Listed (values_of (enum_options mode true)) v.enum_address_value) mode.values
enum_options_lem_example = enum_options_lem mode true

abbrev two_options : List (ℕ × Text)
two_options = (3, codes "Party") ∷ (200, codes "Party") ∷ []

party : (o : ℕ × Text) → Memᴰ o two_options → o.1 ≡ codes "Party"
party o (Memᴰ.head e) = rw e refl
party o (Memᴰ.tail (Memᴰ.head e)) = rw e refl
party o (Memᴰ.tail (Memᴰ.tail i)) = elim i [ ]

party-ne-suffix : (n : ℕ) → codes "Party" ≢ codes "Party" ++ suffix n
party-ne-suffix n q = cc

party_plain : (o p : ℕ × Text) → Memᴰ o two_options → Memᴰ p two_options → o.1 ≢ p.1 ++ suffix p.0
party_plain o p i j =
    subst (λ t. t ≢ p.1 ++ suffix p.0) (sym (party o i))
      (subst (λ t. codes "Party" ≢ t ++ suffix p.0) (sym (party p j)) (party-ne-suffix p.0))

two_values : Distinct (values_of two_options)
two_values = ((ground arith, tt), (tt, tt))

dedup_option_labels-DistinctLabels_example : DistinctLabels (dedup_option_labels two_options)
dedup_option_labels-DistinctLabels_example =
    dedup_option_labels-DistinctLabels two_options two_values party_plain
