-- ===== src/Special/History.antt =====
-- scripts/vitocatalog/special.py: boiler weekly programs and fault histories, block by block. The texts
-- of an entry (name, seed, comment) are display and left out.
pub mod Shapes
pub mod Slots
use esphome_vitohome.Common.{
  ℕ, zero, suc, ◌+◌, ◌*◌, ◌/◌, ◌%◌, Bool, true, false, not, ◌&&◌, ◌||◌, Option, none, some, List,
  [], ◌∷◌, String, Text, codes, lower, lower_code, ℤ, pos, negsuc, eqb_ℤ, leb, ltb, ◌==◌,
  if◌then◌else◌,
}
use esphome_vitohome.Catalog.{Event, int_or}
use esphome_vitohome.Catalog.Scales.{str_or}
use esphome_vitohome.Catalog.Toggles.{has_word}
use esphome_vitohome.Special.{Program, days_of_week, has_address, base_of}

-- `ev.token or ev.tech or ev.name`
abbrev pub token_of : Event → Text
token_of ev = codes (str_or ev.token (str_or ev.tech ev.name))

-- constants.py `_SCHALTZEITEN_RECORD_LEN`
abbrev pub day_length : ℕ
day_length = 8

abbrev named_program : Option ℕ → Event → Bool
named_program none ev = has_word (codes "Schaltzeit") (token_of ev)
named_program (some zero) ev = has_word (codes "Schaltzeit") (token_of ev)
named_program (some (suc m)) ev = m == 0

-- `_is_schaltzeiten`
unfoldable pub is_schaltzeiten : Program → Bool
is_schaltzeiten p =
    has_address p.event
    && named_program p.mapping_type p.event
    && eqb_ℤ (int_or p.event.byte_length (int_or p.event.block_length (pos 0))) (pos 56)
    && eqb_ℤ (int_or p.event.block_factor (pos 0)) (pos 7)

-- `_schaltzeiten_entries`: the addresses of the days, from `day` on.
unfoldable pub days_from : ℕ → ℕ → ℕ → List ℕ
days_from zero base day = []
days_from (suc left) base day = (base + day * day_length) ∷ days_from left base (day + 1)

unfoldable pub schaltzeiten_entries : Event → List ℕ
unfolding days_from
schaltzeiten_entries ev = days_from days_of_week (base_of ev) 0

-- constants.py `_ERROR_HISTORY_ADDRESS`
abbrev pub is_archive_address : Option ℕ → Bool
is_archive_address none = false
is_archive_address (some a) = a == 0x7507

-- `_is_error_history`
unfoldable pub is_error_history : Event → Bool
unfolding lower_code
is_error_history ev =
    let tok = token_of ev in
    if not (has_address ev)
    then false
    else if has_word (codes "Index") tok || has_word (codes "Zeiger") tok
    then false
    else (has_word (codes "ecnsysEventType") tok && has_word (codes "Error") tok)
      || has_word (codes "fehlerhis") (lower tok)
      || is_archive_address ev.address

-- The fields of an entry of `_error_history_entries` that are no texts.
pub record Slot : Type 0 where
  pub address : Option ℕ
  pub prefix : Option ℕ
  pub length : Option ℕ
  pub disabled : Bool
  pub system : Bool

-- The records of a remote procedure array, from record `i` on.
unfoldable pub records_from : ℕ → Option ℕ → (i length : ℕ) → List Slot
records_from zero address i length = []
records_from (suc left) address i length =
    record {
      address = address;
      prefix = some i;
      length = some length;
      disabled = ltb 0 i;
      system = true;
    }
    ∷ records_from left address (i + 1) length

abbrev pub slots_by_length : ℕ → ℕ × ℕ
slots_by_length blen = if leb 90 blen then (10, 9) else (1, 9)

-- The number of slots of a block, and their stride.
abbrev pub slots_of : ℤ → ℤ → ℕ × ℕ
slots_of (pos blen) (pos factor) =
    if ltb 1 factor && (blen % factor == 0) && leb 9 (blen / factor)
    then (factor, blen / factor)
    else slots_by_length blen
slots_of (pos blen) (negsuc factor) = slots_by_length blen
slots_of (negsuc blen) factor = (1, 9)

-- `ev.byte_length or ev.block_length or 9`
abbrev pub history_length : Event → ℤ
history_length ev = int_or ev.byte_length (int_or ev.block_length (pos 9))

-- The slots of an archive, from slot `i` on.
unfoldable pub slots_from : ℕ → (base stride i : ℕ) → List Slot
slots_from zero base stride i = []
slots_from (suc left) base stride i =
    record {
      address = some (base + i * stride);
      prefix = none;
      length = none;
      disabled = ltb 0 i;
      system = true;
    }
    ∷ slots_from left base stride (i + 1)

abbrev pub single_slot : Option ℕ → (disabled system : Bool) → List Slot
single_slot address disabled system =
    record { address = address; prefix = none; length = none; disabled = disabled; system = system }
    ∷ []

-- The archive of a block.
abbrev pub archive_slots : Event → ℕ × ℕ → List Slot
archive_slots ev shape =
    if ltb 1 shape.0
    then slots_from shape.0 (base_of ev) shape.1 0
    else single_slot ev.address false true

-- `_error_history_entries`, for the slot that `_error_history_slot` finds in the token of a burner's
-- history, and the records of a remote procedure array.
unfoldable pub error_history_entries : Event → Option ℕ → Option (ℕ × ℕ) → List Slot
unfolding slots_from records_from
error_history_entries ev burner_slot (some records) = records_from records.0 ev.address 0 records.1
error_history_entries ev (some slot) none = single_slot ev.address true false
error_history_entries ev none none =
    archive_slots ev (slots_of (history_length ev) (int_or ev.block_factor (pos 0)))
