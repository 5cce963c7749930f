-- ===== src/Tests/Schedules.antt =====
-- A weekly program in the shape of the heat pumps' in the export.
use esphome_vitohome.Common.{ℕ, ◌≡◌, ◌*◌, refl, none, some, List, pos, length, arith}
use esphome_vitohome.Catalog.{Event, int_or}
use esphome_vitohome.Special.{
  Program, Entry, program_length, hydro_schedule_shape, hydro_schedule_entries,
}
use esphome_vitohome.Special.Schedules.{EntriesSpec, hydro_schedule_entries-covers}
use esphome_vitohome.Special.History.{error_history_entries, is_schaltzeiten, schaltzeiten_entries}
use esphome_vitohome.Special.History.Slots.{
  SlotsSpec, error_history_entries-covers, Daily, schaltzeiten_entries-covers,
}
use esphome_vitohome.Tests.CatalogRules.{mode}

-- Seven days of eight records of 3 bytes.
abbrev weekly : Program
weekly = record {
  event = record mode {
    address = some 0x9200;
    block_length = some (pos 168);
    byte_length = none;
    block_factor = some (pos 56);
  };
  mapping_type = some 5;
}

weekly_shape : hydro_schedule_shape weekly ≡ some (8, 3)
unfolding hydro_schedule_shape
weekly_shape = refl

hydro_schedule_entries-covers_example :
    (entries : List Entry) × (total : ℕ) × (factor : ℕ) × (hydro_schedule_entries weekly
      ≡ some entries)
    × (program_length weekly.event ≡ pos total)
    × (int_or weekly.event.block_factor (pos 0) ≡ pos factor)
    × EntriesSpec weekly total factor entries
hydro_schedule_entries-covers_example = hydro_schedule_entries-covers weekly 8 3 weekly_shape

-- Ten records of 12 bytes.
abbrev archive : Event
archive = record mode {
  address = some 0x7000;
  block_length = some (pos 120);
  byte_length = none;
  block_factor = some (pos 10);
}

error_history_entries-covers_example :
    SlotsSpec 0x7000 120 (pos 10) (error_history_entries archive none none)
error_history_entries-covers_example =
    error_history_entries-covers archive 0x7000 120 none none refl refl (omega arith)

-- A switching-time program without a mapping.
abbrev switching : Program
switching = record {
  event = record mode {
    token = "Schaltzeiten_HK1~0x2000";
    address = some 0x2000;
    block_length = some (pos 56);
    byte_length = none;
    block_factor = some (pos 7);
  };
  mapping_type = none;
}

schaltzeiten_entries-covers_example :
    (length (schaltzeiten_entries switching.event) ≡ 7)
    × Daily 0x2000 0 (schaltzeiten_entries switching.event)
    × (pos 56 ≡ pos (7 * 8))
    × (hydro_schedule_shape switching ≡ none)
unfolding is_schaltzeiten
schaltzeiten_entries-covers_example = schaltzeiten_entries-covers switching refl
