-- ===== src/Renderer/Generate.antt =====
-- scripts/vitocatalog/renderer.py `generate`: its main pass over the datapoints of a device. The lines, the
-- ids and the counters of the report are left out; the two patterns of the command line are a test.
pub mod Emissions
pub mod Guards
pub mod Groups
pub mod Sorted
pub mod Fields
use text.Mathlib.Text.{◌==◌ as str_eq}
use esphome_vitohome.Common.{
  ℕ, ◌+◌, ◌*◌, Bool, true, false, not, ◌&&◌, ◌||◌, Option, none, some, List, [], ◌∷◌, ◌++◌, map,
  String, Text, codes, strip, is_space, same_text, ℤ, pos, eqb_ℤ, leb, ltb, ◌==◌, any,
  if◌then◌else◌,
}
use esphome_vitohome.Hub.Access.{
  Protocol, Access, rpc, gfa, Domain, sensor, binary_sensor, text_sensor,
}
use esphome_vitohome.Hub.Fields.{given}
use esphome_vitohome.Catalog.{Event, int_or, names, is_empty}
use esphome_vitohome.Catalog.Modes.{
  access_for, access_eq, is_reachable, is_rpc_action, rpc_action_parameter, rpc_array_records,
  rpc_prefix, is_gwg,
}
use esphome_vitohome.Catalog.Blocks.{Blocks, read_only_blocks}
use esphome_vitohome.Catalog.Floats.{Floats}
use esphome_vitohome.Special.{Program, Entry, hydro_schedule_shape, hydro_schedule_entries}
use esphome_vitohome.Special.History.{is_schaltzeiten, schaltzeiten_entries, is_error_history}
use esphome_vitohome.Emitter.{EntitySpec, Emitted, skipped, comment, entity, Reason, Factors}
use esphome_vitohome.Emitter.Values.{build_entity_spec}
use esphome_vitohome.Renderer.Profiles.{Profile, minimal, standard, full, profile_keep}
use esphome_vitohome.Renderer.Keys.{
  Settings, Item, Decoding, FieldKey, Emission, day, raw_day, action, datapoint, Pass, is_wide,
  is_identification, is_rpc_mode, is_gfa_mode, takes_reading, same_numbers, same_address,
  is_selector, has_action, same_float, same_decoding, same_key, is_seen, numbers_or_none, field_key,
}

module _ (F : Floats) where
  open F use {Float, eq}

  abbrev pub add : Pass Float → FieldKey Float → List (Emission Float) → Pass Float
  add p k es = record p { seen = k ∷ p.seen; emitted = es ++ p.emitted }

  -- A fault history waits for the second pass.
  abbrev pub history_step : Settings → Pass Float → Item Float → Pass Float
  history_step s p it =
      let ev = it.program.event in
      let array = given (rpc_array_records ev s.protocol) in
      if (s.reachable_only && not (array || is_reachable ev s.protocol))
        || (names ev.fc_read "remote_procedure_call" && not array)
      then p
      else record p { deferred = it ∷ p.deferred }

  abbrev pub is_dropped : Settings → Event → Option Access → Bool
  is_dropped s ev access =
      (s.reachable_only && not (is_reachable ev s.protocol)) || is_rpc_mode access

  -- The seven days of a boiler's weekly program; the last is 48 addresses on.
  abbrev pub weekly_step : Settings → Pass Float → Item Float → Option Access → Pass Float
  weekly_step s p it access =
      let ev = it.program.event in
      if is_dropped s ev access
      then p
      else if is_gwg s.protocol && is_wide ev.address 48
      then p
      else if is_seen F (field_key F it access) p.seen
      then p
      else add p (field_key F it access) (map (λ a. day a access) (schaltzeiten_entries ev))

  abbrev pub raw_days : Option (List Entry) → Option Access → List (Emission Float)
  raw_days none access = []
  raw_days (some entries) access = map (λ e. raw_day e access) entries

  abbrev pub hydro_step : Settings → Pass Float → Item Float → Option Access → Pass Float
  hydro_step s p it access =
      if is_dropped s it.program.event access
      then p
      else if is_seen F (field_key F it access) p.seen
      then p
      else add p (field_key F it access) (raw_days (hydro_schedule_entries it.program) access)

  abbrev pub is_minimal : Profile → Bool
  is_minimal minimal = true
  is_minimal _ = false

  abbrev pub action_of : Settings → Pass Float → Event → List ℕ → Pass Float
  action_of s p ev parameter =
      if is_empty parameter && is_selector s.selectors ev.address
      then p
      else if has_action ev.address parameter p.actions
      then p
      else record p {
        actions = (ev.address, parameter) ∷ p.actions;
        emitted = action ev.address parameter ∷ p.emitted;
      }

  abbrev pub action_step : Settings → Pass Float → Event → Pass Float
  action_step s p ev =
      if is_minimal s.profile || not (s.is_selected ev.name)
      then p
      else action_of s p ev (numbers_or_none F (rpc_action_parameter ev))

  -- The access mode and the prefix that travel with the address.
  abbrev pub prefix_for : Event → Option Access → Option (List ℕ)
  prefix_for ev access = if is_rpc_mode access then rpc_prefix ev.prefix_read else none

  abbrev pub entity_step : Pass Float → Item Float → Option Access → Emitted Float → Pass Float
  entity_step p it access skipped = p
  entity_step p it access (comment reason) = record p { comments = reason ∷ p.comments }
  entity_step p it access (entity spec) =
      if is_rpc_mode access && not (takes_reading spec.platform)
      then p
      else if is_gfa_mode access && not (takes_reading spec.platform)
      then p
      else add p (field_key F it access)
          (datapoint spec access (prefix_for it.program.event access) ∷ [])

  abbrev pub value_step : Settings → Blocks → Pass Float → Item Float → Option Access → Pass Float
  value_step s ro_blocks p it access =
      let ev = it.program.event in
      if not (profile_keep ev s.profile) || not (s.is_selected ev.name)
      then p
      else if given ev.address && is_seen F (field_key F it access) p.seen
      then p
      else if s.reachable_only && not (is_reachable ev s.protocol)
      then p
      else entity_step p it access
          (build_entity_spec F ev s.protocol s.partial_writes ro_blocks it.factors)

  -- One datapoint of the loop.
  unfoldable pub step : Settings → Blocks → Pass Float → Item Float → Pass Float
  unfolding build_entity_spec profile_keep is_reachable access_for rpc_action_parameter
      is_rpc_action rpc_array_records field_key is_schaltzeiten schaltzeiten_entries
      is_error_history hydro_schedule_shape hydro_schedule_entries
  step s ro_blocks p it =
      let ev = it.program.event in
      let access = access_for ev s.protocol in
      if s.emit_device_id && is_identification ev.address
      then p
      else if s.emit_error_history && is_error_history ev
      then history_step s p it
      else if is_gwg s.protocol && is_wide ev.address 0
      then p
      else if is_schaltzeiten it.program
      then weekly_step s p it access
      else if given (hydro_schedule_shape it.program)
      then hydro_step s p it access
      else if is_rpc_action ev s.protocol
      then action_step s p ev
      else value_step s ro_blocks p it access

  abbrev pub run : Settings → Blocks → Pass Float → List (Item Float) → Pass Float
  run s ro_blocks p [] = p
  run s ro_blocks p (it ∷ its) = run s ro_blocks (step s ro_blocks p it) its

  abbrev pub key_of : Item Float → ℕ
  key_of it = elim it.program.event.address as (λ _. ℕ) [ none ↦ 0 | some a ↦ a ]

  -- `sorted(events, key=lambda e: e.address or 0)`, which is stable.
  abbrev pub insert : Item Float → List (Item Float) → List (Item Float)
  insert it [] = it ∷ []
  insert it (jt ∷ its) =
      let rest = insert it its in if leb (key_of it) (key_of jt) then it ∷ jt ∷ its else jt ∷ rest

  abbrev pub sorted : List (Item Float) → List (Item Float)
  sorted [] = []
  sorted (it ∷ its) = insert it (sorted its)

  abbrev pub start : Pass Float
  start = record { seen = []; actions = []; emitted = []; comments = []; deferred = [] }

  -- The pass over all datapoints; the lists stand in the reverse order.
  unfoldable pub main_pass : Settings → List (Item Float) → Pass Float
  unfolding step read_only_blocks
  main_pass s items =
      run s (read_only_blocks (map (λ it. it.program.event) items) s.protocol) start (sorted items)
