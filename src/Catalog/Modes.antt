-- ===== src/Catalog/Modes.antt =====
-- scripts/vitocatalog/transforms.py: how a datapoint is read, called or written.
pub mod Roles
pub mod Slots
pub mod Reachable
pub mod Records
pub mod Prefixes
use esphome_vitohome.Common.{
  ℕ, zero, suc, ◌+◌, ◌-◌, ◌*◌, ◌/◌, ◌%◌, String, Bool, true, false, not, ◌&&◌, ◌||◌, Option, none,
  some, List, [], ◌∷◌, ℤ, pos, negsuc, eqb_ℤ, leb_ℤ, ltb_ℤ, leb, ltb, ◌==◌, length, if◌then◌else◌,
  Text, codes, strip, lower, lower_code, same_text, from_hex, int_10, int_16,
}
use esphome_vitohome.Catalog.{
  Event, normal, names, is_empty, int_or, answer_size, marked_writable, lookup,
}
use esphome_vitohome.Hub.Fields.{given}
use esphome_vitohome.Hub.Access.{
  Protocol, p300, kw, gwg, Access, physical, virtual, eeprom, xram, port, be, kmbus_eeprom,
  kmbus_ram, rpc, gfa,
}

-- constants.py `FCREAD_TO_GWG_ACCESS`
abbrev pub fcread_to_gwg_access : List (String × Access)
fcread_to_gwg_access =
    ("physical_read", physical)
    ∷ ("virtual_read", virtual)
    ∷ ("eeprom_read", eeprom)
    ∷ ("xram_read", xram)
    ∷ ("port_read", port)
    ∷ ("be_read", be)
    ∷ ("kmbus_eeprom_read", kmbus_eeprom)
    ∷ []

-- constants.py `FCWRITE_TO_GWG_ACCESS`
abbrev pub fcwrite_to_gwg_access : List (String × Access)
fcwrite_to_gwg_access =
    ("physical_write", physical)
    ∷ ("virtual_write", virtual)
    ∷ ("eeprom_write", eeprom)
    ∷ ("xram_write", xram)
    ∷ ("port_write", port)
    ∷ ("be_write", be)
    ∷ []

abbrev pub rpc_prefix_max : ℕ
rpc_prefix_max = 4

abbrev pub is_p300 : Protocol → Bool
is_p300 p300 = true
is_p300 _ = false

abbrev pub is_gwg : Protocol → Bool
is_gwg gwg = true
is_gwg _ = false

-- `text.replace(" ", "")`
abbrev pub without_spaces : Text → Text
without_spaces [] = []
without_spaces (c ∷ s) = let rest = without_spaces s in if c == 32 then rest else c ∷ rest

-- The text after `0x`, if `text[:2].lower()` is that.
abbrev pub after_0x : Text → Option Text
after_0x [] = none
after_0x (_ ∷ []) = none
after_0x (c ∷ d ∷ s) = if (c == b'0') && (lower_code d == b'x') then some s else none

abbrev pub drop_0x : Text → Text
drop_0x s = elim (after_0x s) [ none ↦ s | some rest ↦ rest ]

abbrev pub short_enough : Option (List ℕ) → Option (List ℕ)
short_enough none = none
short_enough (some out) = if leb (length out) rpc_prefix_max then some out else none

abbrev pub prefix_bytes : Text → Option (List ℕ)
prefix_bytes text =
    if is_empty text
    then some []
    else if length text % 2 == 1
    then none
    else short_enough (from_hex text)

-- `_rpc_prefix`, of the text of the field.
unfoldable pub rpc_prefix : String → Option (List ℕ)
unfolding from_hex lower_code
rpc_prefix field = prefix_bytes (drop_0x (without_spaces (codes field)))

-- `_is_rpc_reading`
unfoldable pub is_rpc_reading : Event → Protocol → Bool
unfolding rpc_prefix normal same_text
is_rpc_reading ev protocol =
    is_p300 protocol
    && names ev.fc_read "remote_procedure_call"
    && not (marked_writable ev)
    && not (ltb_ℤ (pos 1) (int_or ev.block_factor (pos 0)))
    && not (eqb_ℤ (answer_size ev) (pos 0))
    && given (rpc_prefix ev.prefix_read)

-- `_is_gfa_read`
unfoldable pub is_gfa_read : Event → Protocol → Bool
unfolding normal same_text
is_gfa_read ev protocol = not (is_gwg protocol) && names ev.fc_read "gfa_read"

-- `_access_for`; `none` is the empty text, where no `access:` is emitted.
abbrev pub access_if : Bool → Bool → Protocol → String → Option Access
access_if true _ protocol fc_read = some rpc
access_if false true protocol fc_read = some gfa
access_if false false gwg fc_read = lookup (normal fc_read) fcread_to_gwg_access
access_if false false _ fc_read = none

unfoldable pub access_for : Event → Protocol → Option Access
unfolding is_rpc_reading is_gfa_read normal same_text
access_for ev protocol =
    access_if (is_rpc_reading ev protocol) (is_gfa_read ev protocol) protocol ev.fc_read

-- `_is_reachable`
abbrev pub reached_by : Protocol → Event → Bool
reached_by gwg ev =
    is_empty (normal ev.fc_read) || given (lookup (normal ev.fc_read) fcread_to_gwg_access)
reached_by p ev =
    (is_empty (normal ev.fc_read) || names ev.fc_read "virtual_read")
    || is_gfa_read ev p
    || is_rpc_reading ev p

unfoldable pub is_reachable : Event → Protocol → Bool
unfolding is_rpc_reading is_gfa_read normal same_text
is_reachable ev protocol = reached_by protocol ev

abbrev pub access_eq : Option Access → Option Access → Bool
access_eq none none = true
access_eq (some physical) (some physical) = true
access_eq (some virtual) (some virtual) = true
access_eq (some eeprom) (some eeprom) = true
access_eq (some xram) (some xram) = true
access_eq (some port) (some port) = true
access_eq (some be) (some be) = true
access_eq (some kmbus_eeprom) (some kmbus_eeprom) = true
access_eq (some kmbus_ram) (some kmbus_ram) = true
access_eq (some rpc) (some rpc) = true
access_eq (some gfa) (some gfa) = true
access_eq _ _ = false

-- `_is_writable`
abbrev pub written_in : Option Access → Option Access → Bool
written_in none read_access = false
written_in (some a) read_access = access_eq (some a) read_access

abbrev pub written_by : Protocol → Event → Bool
written_by gwg ev =
    marked_writable ev
    && written_in (lookup (normal ev.fc_write) fcwrite_to_gwg_access) (access_for ev gwg)
written_by _ ev =
    marked_writable ev && (is_empty (normal ev.fc_write) || names ev.fc_write "virtual_write")

unfoldable pub is_writable : Event → Protocol → Bool
unfolding access_for normal same_text
is_writable ev protocol = written_by protocol ev

-- `_rpc_action_parameter`: the parameter bytes.
abbrev pub one_byte : Option ℤ → Option (List ℕ)
one_byte none = none
one_byte (some (negsuc _)) = none
one_byte (some (pos n)) = if leb n 0xFF then some (n ∷ []) else none

abbrev pub int_of : Text → Option ℤ
int_of text = elim (after_0x text) [ some digits ↦ int_16 digits | none ↦ int_10 text ]

abbrev pub function_parameter : Text → Option (List ℕ)
function_parameter [] = some []
function_parameter (c ∷ s) = one_byte (int_of (c ∷ s))

abbrev pub parameter_of : Option (List ℕ) → Text → Option (List ℕ)
parameter_of none text = none
parameter_of (some (b ∷ bytes)) text = some (b ∷ bytes)
parameter_of (some []) text = function_parameter text

unfoldable pub rpc_action_parameter : Event → Option (List ℕ)
unfolding rpc_prefix int_10 int_16
rpc_action_parameter ev =
    parameter_of (rpc_prefix ev.prefix_write) (strip (codes ev.function_value))

-- `ev.lower or ev.upper or ev.unit_token`
abbrev pub carries_value : Event → Bool
carries_value ev =
    not (is_empty (codes ev.lower) && is_empty (codes ev.upper) && is_empty (codes ev.unit_token))

-- `_is_rpc_action`
unfoldable pub is_rpc_action : Event → Protocol → Bool
unfolding rpc_action_parameter normal same_text
is_rpc_action ev protocol =
    is_p300 protocol
    && names ev.fc_write "remote_procedure_call"
    && marked_writable ev
    && not (ltb_ℤ (pos 1) (int_or ev.block_factor (pos 0)))
    && given (rpc_action_parameter ev)
    && (eqb_ℤ (answer_size ev) (pos 0)
        || (eqb_ℤ ev.access_type (pos 2)
            && leb_ℤ (answer_size ev) (pos 1)
            && same_text (lower (codes ev.parameter_type)) (codes "array")
            && not (carries_value ev)))

abbrev pub record_of : ℕ → ℕ → Option (ℕ × ℕ)
record_of total count =
    if leb count 1 || total == 0
    then none
    else if ltb 0 (total % count)
    then none
    else if leb (total / count) 48
    then some (count, total / count)
    else none

abbrev pub whole_records : ℤ → ℤ → Option (ℕ × ℕ)
whole_records (pos total) (pos count) = record_of total count
whole_records _ _ = none

-- `_rpc_array_records`
unfoldable pub rpc_array_records : Event → Protocol → Option (ℕ × ℕ)
unfolding normal same_text
rpc_array_records ev protocol =
    if is_p300 protocol
      && names ev.fc_read "remote_procedure_call"
      && eqb_ℤ ev.access_type (pos 1)
      && is_empty (codes ev.prefix_read)
    then whole_records (answer_size ev) (int_or ev.block_factor (pos 0))
    else none
