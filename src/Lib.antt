-- ===== src/Lib.antt =====
-- esphome_vitohome: an ESPHome component for Viessmann heating controllers, and the generator of its
-- catalogs. The generator (scripts/vitocatalog) reads the manufacturer's datapoint export, decides how
-- each datapoint is read and written, and writes YAML configuration; it also decides which device a
-- set of identification bytes names. The component (components/vitohome, Python side) validates such a
-- configuration before any C++ is compiled: what it accepts is what the firmware reads from and writes
-- to a heater. The C++ side is not modelled.
--
-- Common       lists, orders, integers over the native numbers, Boolean tests and their rulesets.
-- Identify     scripts/vitocatalog/identify.py: `resolve_pool` (device id, hardware and software byte
--              to rows of the table), `resolve_device` (with the F0 number), `_resolve_runs` (the
--              run-length table of all answers that the web finder reads). An exception is a value
--              (`raised`, `none`).
-- Hub          components/vitohome/__init__.py. Invalid: a `cv.Invalid` as a value, the validators in
--              a result type. Masks: `_contiguous_bit_mask`, `bit_field_max`. Fields: the field of a
--              datapoint and `validate_block_extraction`, `validate_bit_field`, `raw_fits`,
--              `emit_write_target`. Converters: the table `CONVERTERS`. Access: `ACCESS_SPACES` and
--              `_final_validate`, on the whole configuration. Settings: `_check_interval`,
--              `_validate_raw_access`, `_validate_time_sync`.
-- Platforms    components/vitohome/number.py, select.py, switch.py: each platform's chain of
--              validators, composed of those of Hub in the order of the schema.
-- Readers      components/vitohome/sensor.py, binary_sensor.py, text_sensor.py, event.py: the
--              validators of the platforms that only read.
-- Climate      components/vitohome/climate.py: `_validate_presets` and `_validate_setpoint_range`.
-- Catalog      scripts/vitocatalog/transforms.py, on the records of models.py. Modes: how a datapoint
--              is read, called or written (`_access_for`, `_is_reachable`, `_is_writable`, the
--              procedures). Bits: `_bit_field`. Blocks: `_block_write_blocker`. Options:
--              `_enum_options` and its kin. Toggles: which two options are on and off
--              (`_boolean_pair`, `_enum_bool_pair`). Labels: what a label says of on and off. Floats:
--              the floating-point operations that the generator uses, as a record of functions.
--              Scales: what borders and stepping say (`_scale_from_bounds`, `_declared_unsigned`,
--              `_bound_fits`).
-- Emitter      scripts/vitocatalog/emitter.py on the tables of constants.py: `build_entity_spec`, from
--              a datapoint of the export to the entity that is emitted, or to the reason why none is.
--              Fields: `_build_bit_field_spec`. Drafts: its converter, filters and writability.
--              Strings: where a field lies, and `_string_spec`. Platforms: the entity of each
--              platform. Values: the rest of it, in the order of the code. Presets: the converters of
--              factors. Reading: the component's side, which configuration the emitted keys stand for
--              and which of its validators read it. Accepted (and Fields.Accepted): its verdict on
--              them. Addresses, Extents, Positions: which address and which bytes it reads and writes.
-- Renderer     scripts/vitocatalog/renderer.py `_make_obj_id`: the loop that numbers an id until it is
--              free. Keys, Generate: the main pass of `generate`, from the datapoints of a device to
--              what is emitted, with the access mode and the prefix of each. Groups: which datapoints
--              an emission is taken from. Profiles: transforms.py `_profile_keep`, `_is_diagnostic`,
--              `_is_mode_select`.
-- Special      scripts/vitocatalog/special.py `_hydro_schedule_shape` and `_hydro_schedule_entries`:
--              the weekly programs of heat pumps, without the texts of their entries. History: the
--              weekly programs of boilers and the fault histories (`_schaltzeiten_entries`,
--              `_error_history_entries`), where the slot that a regular expression finds in a token is
--              an argument.
-- Tests        runs on concrete inputs, and each theorem applied to one.
--
-- Bounds: a mask is a byte, and two facts on masks are decided by running over the 256 bytes. The loop
-- of `_resolve_runs` has its 256 rounds. `bit_length` of a byte has fuel 9, one more than its digits;
-- a number is printed in hexadecimal with itself as fuel, since each digit divides it by 16, and in
-- decimal likewise. `_make_obj_id` has one round more than there are ids in use, and is shown to need
-- no more.
--
-- Not modelled: ESPHome's own schema (types and ranges of single keys, defaults), whose results are
-- the arguments here; logging; the emission of C++; floats, whose conversion to a raw integer and
-- whose order are parameters of the number and climate platforms and of the generator, which take them
-- as finite; the XML reader. Texts that are stripped, lowered or parsed are lists of code points, on
-- which those functions act as they do on ASCII. Of an emitted entity the name, the notes and
-- comments, the labels of on and off, the unit, the device class, the icon and the accuracy are left
-- out, and a placeholder bound is the text "0" that is written for it.
pub mod Catalog
pub mod Climate
pub mod Common
pub mod Emitter
pub mod Hub
pub mod Identify
pub mod Platforms
pub mod Readers
pub mod Renderer
pub mod Special
pub mod Tests
