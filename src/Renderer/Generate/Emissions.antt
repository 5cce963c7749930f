-- ===== src/Renderer/Generate/Emissions.antt =====
-- renderer.py `generate`: what the main pass emits has an access mode and addresses that the component
-- accepts.
use esphome_vitohome.Common.{
  ℕ, ◌+◌, ◌≤◌, ◌≡◌, refl, ◌≢◌, ◌⊎◌, inl, inr, Bool, true, false, not, ◌&&◌, ◌||◌, Option, none,
  some, List, [], ◌∷◌, map, arith, All, if◌then◌else◌, Bool-cases,
}
use esphome_vitohome.Hub.Access.{p300, gwg, Access, sensor, text_sensor, writes}
use esphome_vitohome.Hub.Access.Checked.{SlotOk, AddressOk}
use esphome_vitohome.Hub.Fields.{given}
use esphome_vitohome.Catalog.{Event, is_empty}
use esphome_vitohome.Catalog.Modes.{
  access_for, is_writable, is_rpc_action, is_reachable, is_gwg, rpc_action_parameter,
}
use esphome_vitohome.Catalog.Modes.Roles.{action-is_p300}
use esphome_vitohome.Catalog.Modes.Slots.{access_for-SlotOk, is_writable-SlotOk}
use esphome_vitohome.Catalog.Blocks.{Blocks, read_only_blocks}
use esphome_vitohome.Catalog.Floats.{Floats}
use esphome_vitohome.Special.{Entry, base_of, hydro_schedule_shape, hydro_schedule_entries}
use esphome_vitohome.Special.History.{
  is_schaltzeiten, schaltzeiten_entries, days_from, is_error_history,
}
use esphome_vitohome.Emitter.{EntitySpec, Emitted, skipped, comment, entity}
use esphome_vitohome.Emitter.Values.{build_entity_spec}
use esphome_vitohome.Emitter.Addresses.{build_entity_spec-address}
use esphome_vitohome.Renderer.Profiles.{profile_keep}
use esphome_vitohome.Renderer.Generate.{
  history_step, is_dropped, weekly_step, raw_days, hydro_step, action_of, action_step, is_minimal,
  entity_step, value_step, step, run, sorted, start, main_pass,
}
use esphome_vitohome.Renderer.Keys.{
  Settings, Item, day, action, Pass, is_wide, is_identification, is_rpc_mode, is_gfa_mode,
  takes_reading, is_seen, field_key, is_selector, has_action, numbers_or_none,
}
use esphome_vitohome.Renderer.Generate.Guards.{
  EmissionOk, narrow, below, All-++, days-Ok, raw_days-Ok, read_slot, written_slot,
  takes_reading-not, p300_only, either_where,
}

module _ (F : Floats) (s : Settings) where
  abbrev Good : Pass F.Float → Type 0
  Good p = All (EmissionOk s.protocol) p.emitted

  either-Good :
      (b : Bool) (p q : Pass F.Float)
      → (b ≡ true → Good p)
      → (b ≡ false → Good q)
      → Good (if b then p else q)
  either-Good = either_where Good

  -- Where the guards before an emission leave the pass as it is.
  unless-Good :
      (b : Bool) (p q : Pass F.Float) → Good p → (b ≡ false → Good q) → Good (if b then p else q)
  unless-Good b p q h k = either-Good b p q (λ e. h) k

  history-Good : (p : Pass F.Float) (it : Item F.Float) → Good p → Good (history_step F s p it)
  history-Good p it h = unless-Good _ p _ h (λ e. h)

  weekly-Good :
      (p : Pass F.Float) (it : Item F.Float) (access : Option Access)
      → Good p
      → Good (weekly_step F s p it access)
  unfolding schaltzeiten_entries
  weekly-Good p it access h =
      let ev = it.program.event in
      unless-Good (is_dropped F s ev access) p _ h (λ a.
        unless-Good (is_gwg s.protocol && is_wide ev.address 48) p _ h (λ b.
          unless-Good (is_seen F (field_key F it access) p.seen) p _ h (λ c.
            All-++ (EmissionOk s.protocol) (map (λ a. day a access) (days_from 7 (base_of ev) 0))
              p.emitted
              (days-Ok F.Float s.protocol access (base_of ev) (last_day ev.address b) 7 0
                (omega arith))
              h)))
    where
      last_day :
          (o : Option ℕ)
          → (is_gwg s.protocol && is_wide o 48) ≡ false
          → (s.protocol ≢ gwg) ⊎ ((elim o as (λ _. ℕ) [ none ↦ 0 | some a ↦ a ]) + 48 ≤ 0xFF)
      last_day none e = inr (omega arith)
      last_day (some a) e = narrow s.protocol a 48 e

  hydro-Good :
      (p : Pass F.Float) (it : Item F.Float) (access : Option Access)
      → SlotOk s.protocol sensor access
      → Good p
      → Good (hydro_step F s p it access)
  hydro-Good p it access slot h = unless-Good (is_dropped F s it.program.event access) p _ h (λ a.
      unless-Good (is_seen F (field_key F it access) p.seen) p _ h (λ c.
        All-++ (EmissionOk s.protocol) (raw_days F (hydro_schedule_entries it.program) access)
          p.emitted (go (hydro_schedule_entries it.program)) h))
    where
      go : (o : Option (List Entry)) → All (EmissionOk s.protocol) (raw_days F o access)
      go none = tt
      go (some entries) =
          raw_days-Ok F.Float s.protocol access entries
            (read_slot s.protocol text_sensor access refl slot)

  action-Good :
      (p : Pass F.Float) (ev : Event) → s.protocol ≡ p300 → Good p → Good (action_step F s p ev)
  action-Good p ev e h =
      unless-Good (is_minimal F s.profile || not (s.is_selected ev.name)) p _ h
        (λ a. of_parameter (numbers_or_none F (rpc_action_parameter ev)))
    where
      of_parameter : (parameter : List ℕ) → Good (action_of F s p ev parameter)
      of_parameter parameter =
          let q : Pass F.Float = record p {
            actions = (ev.address, parameter) ∷ p.actions;
            emitted = action ev.address parameter ∷ p.emitted;
          } in
          let known = has_action ev.address parameter p.actions in
          unless-Good (is_empty parameter && is_selector s.selectors ev.address) p
            (if known then p else q) h (λ b. unless-Good known p q h (λ c. (e, h)))

  -- The slot of an entity that the two tests on its platform let through.
  entity_slot :
      (ev : Event) (spec : EntitySpec F.Float)
      → (writes spec.platform ≡ true → is_writable ev s.protocol ≡ true)
      → (is_gfa_mode (access_for ev s.protocol) && not (takes_reading spec.platform)) ≡ false
      → SlotOk s.protocol spec.platform (access_for ev s.protocol)
  entity_slot ev spec written gfa_read = elim (Bool-cases (writes spec.platform)) [
    | inr r ↦
        read_slot s.protocol spec.platform (access_for ev s.protocol) r
          (access_for-SlotOk ev s.protocol)
    | inl w ↦ elim (is_writable-SlotOk ev s.protocol (written w)) [
      | inl slot ↦ written_slot s.protocol spec.platform (access_for ev s.protocol) slot
      | inr (_, _, g) ↦ (let q = rw (g, takes_reading-not spec.platform w) at gfa_read in cc)
    ]
  ]

  entity-Good :
      (ro_blocks : Blocks) (p : Pass F.Float) (it : Item F.Float) (r : Emitted F.Float)
      → build_entity_spec F it.program.event s.protocol s.partial_writes ro_blocks it.factors ≡ r
      → ((protocol_wide : (is_gwg s.protocol && is_wide it.program.event.address 0) ≡ false)
          → Good p
          → Good (entity_step F p it (access_for it.program.event s.protocol) r))
  entity-Good ro_blocks p it skipped e w h = h
  entity-Good ro_blocks p it (comment reason) e w h = h
  entity-Good ro_blocks p it (entity spec) e w h =
      let ev = it.program.event in
      let access = access_for ev s.protocol in
      let (at, written) =
        build_entity_spec-address F ev s.protocol s.partial_writes ro_blocks it.factors spec e in
      unless-Good (is_rpc_mode access && not (takes_reading spec.platform)) p _ h (λ a.
        unless-Good (is_gfa_mode access && not (takes_reading spec.platform)) p _ h
          (λ b. ((entity_slot ev spec written b, address spec.address (rw at at w)), h)))
    where
      address : (a : ℕ) → (is_gwg s.protocol && is_wide (some a) 0) ≡ false → AddressOk s.protocol a
      address a w = below s.protocol a (a + 0) (omega arith) (narrow s.protocol a 0 w)

  value-Good :
      (ro_blocks : Blocks) (p : Pass F.Float) (it : Item F.Float)
      → (is_gwg s.protocol && is_wide it.program.event.address 0) ≡ false
      → Good p
      → Good (value_step F s ro_blocks p it (access_for it.program.event s.protocol))
  value-Good ro_blocks p it w h =
      let ev = it.program.event in
      let access = access_for ev s.protocol in
      unless-Good (not (profile_keep ev s.profile) || not (s.is_selected ev.name)) p _ h (λ a.
        unless-Good (given ev.address && is_seen F (field_key F it access) p.seen) p _ h (λ b.
          unless-Good (s.reachable_only && not (is_reachable ev s.protocol)) p _ h (λ c.
            entity-Good ro_blocks p it
              (build_entity_spec F ev s.protocol s.partial_writes ro_blocks it.factors) refl w h)))

  step-Good :
      (ro_blocks : Blocks) (p : Pass F.Float) (it : Item F.Float)
      → Good p
      → Good (step F s ro_blocks p it)
  unfolding step
  step-Good ro_blocks p it h =
      let ev = it.program.event in
      let access = access_for ev s.protocol in
      unless-Good (s.emit_device_id && is_identification ev.address) p _ h (λ a.
        either-Good (s.emit_error_history && is_error_history ev) (history_step F s p it) _
          (λ b. history-Good p it h)
          (λ b. unless-Good (is_gwg s.protocol && is_wide ev.address 0) p _ h (λ w.
            either-Good (is_schaltzeiten it.program) (weekly_step F s p it access) _
              (λ c. weekly-Good p it access h)
              (λ c.
                either-Good (given (hydro_schedule_shape it.program)) (hydro_step F s p it access) _
                  (λ d. hydro-Good p it access (access_for-SlotOk ev s.protocol) h)
                  (λ d.
                    either-Good (is_rpc_action ev s.protocol) (action_step F s p ev)
                      (value_step F s ro_blocks p it access)
                      (λ e.
                        action-Good p ev (p300_only s.protocol (action-is_p300 ev s.protocol e)) h)
                      (λ e. value-Good ro_blocks p it w h))))))

  run-Good :
      (ro_blocks : Blocks) (p : Pass F.Float) (its : List (Item F.Float))
      → Good p
      → Good (run F s ro_blocks p its)
  run-Good ro_blocks p [] h = h
  run-Good ro_blocks p (it ∷ its) h =
      run-Good ro_blocks (step F s ro_blocks p it) its (step-Good ro_blocks p it h)

-- Whatever the datapoints of a device and the arguments: the access mode that the main pass writes for
-- an entity, or for a day of a heat pump's program, has a telegram under the protocol, and for an
-- entity of a platform that writes it is one that may be written; under GWG such an entity states its
-- mode, and no address of an entity or of a day of a boiler's program is wider than one byte; a
-- procedure's button is emitted for a P300 device only.
pub main_pass-EmissionOk :
    (F : Floats) (s : Settings) (items : List (Item F.Float))
    → All (EmissionOk s.protocol) (main_pass F s items).emitted
unfolding main_pass
main_pass-EmissionOk F s items =
    run-Good F s (read_only_blocks (map (λ it. it.program.event) items) s.protocol) (start F)
      (sorted F items) tt
