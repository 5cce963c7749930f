-- ===== src/Tests/HubAccess.antt =====
-- Two configurations of a hub under GWG, and the places where the theorems on them apply.
use mathlib.Core.List.{Memᴰ}
use esphome_vitohome.Common.{ℕ, ◌≤◌, ◌≡◌, refl, true, false, Option, none, some, [], ◌∷◌}
use esphome_vitohome.Hub.Access.{
  gwg, Access, eeprom, physical, kmbus_ram, number, sensor, Entity, Full, final_validate,
  registered, capacity, refused, read_only_space, wide_address, entity_access_slots,
  entity_gwg_addresses,
}
use esphome_vitohome.Hub.Access.Capacity.{registered-le-capacity}
use esphome_vitohome.Hub.Access.Checked.{
  SlotOk, AddressOk, final_validate-slots, final_validate-addresses,
}

abbrev entity : ℕ → Option Access → Entity
entity address access = record {
  is_vitohome = true;
  hub = none;
  address = some address;
  state_address = none;
  target_address = none;
  access = access;
  has_prefix = false;
  operating_mode = none;
  hub_fed = false;
}

-- One number and one sensor.
abbrev full : Entity → Entity → Full
full n s number = n ∷ []
full n s sensor = s ∷ []
full n s _ = []

abbrev curve : Entity
curve = entity 0x42 (some eeprom)

abbrev outside : Entity
outside = entity 0x25 none

abbrev house : Full
house = full curve outside

house_accepted : final_validate gwg house 1 false ≡ capacity 2
unfolding final_validate
house_accepted = refl

read_only_refused :
    final_validate gwg (full (entity 0x42 (some kmbus_ram)) outside) 1 false
    ≡ refused (read_only_space number kmbus_ram)
unfolding final_validate
read_only_refused = refl

wide_refused :
    final_validate gwg (full curve (entity 0x0800 (some physical))) 1 false
    ≡ refused (wide_address sensor 0x0800)
unfolding final_validate
wide_refused = refl

curve_slot : Memᴰ (some eeprom) (entity_access_slots curve)
unfolding entity_access_slots
curve_slot = Memᴰ.head refl

final_validate-slots_example : SlotOk gwg number (some eeprom)
final_validate-slots_example =
    final_validate-slots gwg house 1 2 false house_accepted number curve refl (Memᴰ.head refl)
      (some eeprom) (Memᴰ.tail (Memᴰ.tail (Memᴰ.tail (Memᴰ.head refl)))) curve_slot

curve_address : Memᴰ 0x42 (entity_gwg_addresses curve)
unfolding entity_gwg_addresses
curve_address = Memᴰ.head refl

final_validate-addresses_example : AddressOk gwg 0x42
final_validate-addresses_example =
    final_validate-addresses gwg house 1 2 false house_accepted number curve refl (Memᴰ.head refl)
      0x42 (Memᴰ.tail (Memᴰ.tail (Memᴰ.tail (Memᴰ.head refl)))) curve_address

registered-le-capacity_example : registered house 1 false ≤ 2
registered-le-capacity_example = registered-le-capacity gwg house 1 2 false house_accepted
