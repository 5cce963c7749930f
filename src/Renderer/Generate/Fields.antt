-- ===== src/Renderer/Generate/Fields.antt =====
-- renderer.py `generate`: no field is emitted twice.
use mathlib.Core.List.{Memᴰ}
use esphome_vitohome.Common.{
  true, ap, inl, inr, All, ℕ, ◌≡◌, refl, Bool, false, not, ◌&&◌, ◌||◌, Option, none, some, List, [],
  ◌∷◌, map, if◌then◌else◌,
}
use esphome_vitohome.Hub.Fields.{given}
use esphome_vitohome.Catalog.{Event, is_empty}
use esphome_vitohome.Catalog.Modes.{is_rpc_action, is_reachable, is_gwg, rpc_action_parameter}
use esphome_vitohome.Catalog.Blocks.{Blocks, read_only_blocks}
use esphome_vitohome.Catalog.Floats.{Floats}
use esphome_vitohome.Special.{hydro_schedule_shape}
use esphome_vitohome.Special.History.{is_schaltzeiten, is_error_history}
use esphome_vitohome.Emitter.{Emitted, skipped, comment, entity}
use esphome_vitohome.Emitter.Values.{build_entity_spec}
use esphome_vitohome.Emitter.Addresses.{build_entity_spec-address}
use esphome_vitohome.Renderer.Profiles.{profile_keep}
use esphome_vitohome.Renderer.Generate.{
  add, history_step, is_dropped, weekly_step, hydro_step, action_of, action_step, is_minimal,
  entity_step, value_step, step, run, sorted, start, main_pass,
}
use esphome_vitohome.Renderer.Keys.{
  Emission, Settings, Item, Pass, action, is_wide, is_identification, is_rpc_mode, is_gfa_mode,
  takes_reading, is_seen, field_key, is_selector, has_action, numbers_or_none,
}
use esphome_vitohome.Renderer.Generate.Guards.{either_where}
use esphome_vitohome.Renderer.Generate.Groups.{
  access_of, key_of_item, AreDistinct, EmitsAs, Groups, OncePerField,
}
use esphome_vitohome.Renderer.Generate.Sorted.{sorted-All, all_listed}

module _ (F : Floats) (s : Settings) (items : List (Item F.Float)) (ro_blocks : Blocks) where
  -- The pass so far, which has noted the keys of the datapoints taken.
  abbrev Good : Pass F.Float → Type 0
  Good p =
      (its : List (Item F.Float)) × All (λ it. Memᴰ it items) its
      × AreDistinct F s its
      × Groups F s ro_blocks its p.emitted
      × (p.seen ≡ map (key_of_item F s) its)

  add-Good :
      (p : Pass F.Float) (it : Item F.Float) (es : List (Emission F.Float))
      → Good p
      → Memᴰ it items
      → is_seen F (key_of_item F s it) p.seen ≡ false
      → EmitsAs F s ro_blocks it es
      → Good (add F p (key_of_item F s it) es)
  add-Good p it es (its, listed, apart, groups, noted) m unseen emits =
      let fresh : is_seen F (key_of_item F s it) (map (key_of_item F s) its) ≡ false =
        rw noted at unseen in
      (
        it ∷ its,
        (m, listed),
        (fresh, apart),
        Groups.taken it es emits groups,
        ap (λ ks. key_of_item F s it ∷ ks) noted,
      )

  unless-Good :
      (b : Bool) (p q : Pass F.Float) → Good p → (b ≡ false → Good q) → Good (if b then p else q)
  unless-Good b p q h k = either_where Good b p q (λ e. h) k

  weekly-Good :
      (p : Pass F.Float) (it : Item F.Float)
      → Memᴰ it items
      → is_schaltzeiten it.program ≡ true
      → Good p
      → Good (weekly_step F s p it (access_of F s it))
  weekly-Good p it m shaped h =
      let ev = it.program.event in
      let access = access_of F s it in
      unless-Good (is_dropped F s ev access) p _ h (λ a.
        unless-Good (is_gwg s.protocol && is_wide ev.address 48) p _ h (λ b.
          unless-Good (is_seen F (field_key F it access) p.seen) p _ h
            (λ c. add-Good p it _ h m c (inl (shaped, refl)))))

  hydro-Good :
      (p : Pass F.Float) (it : Item F.Float)
      → Memᴰ it items
      → given (hydro_schedule_shape it.program) ≡ true
      → Good p
      → Good (hydro_step F s p it (access_of F s it))
  hydro-Good p it m shaped h =
      let access = access_of F s it in
      unless-Good (is_dropped F s it.program.event access) p _ h (λ a.
        unless-Good (is_seen F (field_key F it access) p.seen) p _ h
          (λ c. add-Good p it _ h m c (inr (inl (shaped, refl)))))

  action-Good : (p : Pass F.Float) (ev : Event) → Good p → Good (action_step F s p ev)
  action-Good p ev h =
      unless-Good (is_minimal F s.profile || not (s.is_selected ev.name)) p _ h
        (λ a. of_parameter (numbers_or_none F (rpc_action_parameter ev)))
    where
      of_parameter : (parameter : List ℕ) → Good (action_of F s p ev parameter)
      of_parameter parameter =
          let q : Pass F.Float = record p {
            actions = (ev.address, parameter) ∷ p.actions;
            emitted = action ev.address parameter ∷ p.emitted;
          } in
          let known = has_action ev.address parameter p.actions in
          let pressed : Good p → Good q = λ (its, listed, apart, groups, noted).
            (its, listed, apart, Groups.button_of ev.address parameter groups, noted) in
          unless-Good (is_empty parameter && is_selector s.selectors ev.address) p
            (if known then p else q) h (λ b. unless-Good known p q h (λ c. pressed h))

  entity-Good :
      (p : Pass F.Float) (it : Item F.Float) (r : Emitted F.Float)
      → build_entity_spec F it.program.event s.protocol s.partial_writes ro_blocks it.factors ≡ r
      → (given it.program.event.address && is_seen F (key_of_item F s it) p.seen) ≡ false
      → Memᴰ it items
      → Good p
      → Good (entity_step F p it (access_of F s it) r)
  entity-Good p it skipped e k m h = h
  entity-Good p it (comment reason) e k m h = h
  entity-Good p it (entity spec) e k m h =
      let ev = it.program.event in
      let access = access_of F s it in
      let (at, written) =
        build_entity_spec-address F ev s.protocol s.partial_writes ro_blocks it.factors spec e in
      unless-Good (is_rpc_mode access && not (takes_reading spec.platform)) p _ h (λ a.
        unless-Good (is_gfa_mode access && not (takes_reading spec.platform)) p _ h (λ b.
          add-Good p it _ h m
            (unseen ev.address spec.address (is_seen F (key_of_item F s it) p.seen) at k)
            (inr (inr (spec, e, refl)))))
    where
      unseen : (o : Option ℕ) (a : ℕ) (b : Bool) → o ≡ some a → (given o && b) ≡ false → b ≡ false
      unseen none a b at k = cc
      unseen (some c) a b at k = k

  value-Good :
      (p : Pass F.Float) (it : Item F.Float)
      → Memᴰ it items
      → Good p
      → Good (value_step F s ro_blocks p it (access_of F s it))
  value-Good p it m h =
      let ev = it.program.event in
      unless-Good (not (profile_keep ev s.profile) || not (s.is_selected ev.name)) p _ h (λ a.
        unless-Good (given ev.address && is_seen F (key_of_item F s it) p.seen) p _ h (λ b.
          unless-Good (s.reachable_only && not (is_reachable ev s.protocol)) p _ h (λ c.
            entity-Good p it
              (build_entity_spec F ev s.protocol s.partial_writes ro_blocks it.factors) refl b m
              h)))

  step-Good :
      (p : Pass F.Float) (it : Item F.Float)
      → Memᴰ it items
      → Good p
      → Good (step F s ro_blocks p it)
  unfolding step
  step-Good p it m h =
      let ev = it.program.event in
      let access = access_of F s it in
      unless-Good (s.emit_device_id && is_identification ev.address) p _ h (λ a.
        either_where Good (s.emit_error_history && is_error_history ev) (history_step F s p it) _
          (λ b. unless-Good _ p _ h (λ c. h))
          (λ b. unless-Good (is_gwg s.protocol && is_wide ev.address 0) p _ h (λ w.
            either_where Good (is_schaltzeiten it.program) (weekly_step F s p it access) _
              (λ c. weekly-Good p it m c h)
              (λ c.
                either_where Good (given (hydro_schedule_shape it.program))
                  (hydro_step F s p it access) _ (λ d. hydro-Good p it m d h)
                  (λ d.
                    either_where Good (is_rpc_action ev s.protocol) (action_step F s p ev)
                      (value_step F s ro_blocks p it access) (λ e. action-Good p ev h)
                      (λ e. value-Good p it m h))))))

  run-Good :
      (p : Pass F.Float) (its : List (Item F.Float))
      → All (λ it. Memᴰ it items) its
      → Good p
      → Good (run F s ro_blocks p its)
  run-Good p [] listed h = h
  run-Good p (it ∷ its) (m, listed) h =
      run-Good (step F s ro_blocks p it) its listed (step-Good p it m h)

-- No field is emitted twice. What the main pass emits, apart from the buttons of procedures, is that of
-- some of the datapoints that it is given, one after the other: of one that is a weekly program its
-- days, or else the one entity that is built from it; and no two of these datapoints have the same
-- address, byte and bit position, access mode, prefix and decoding.
pub main_pass-OncePerField :
    (F : Floats) (s : Settings) (items : List (Item F.Float))
    → OncePerField F s
        (read_only_blocks (map (λ it. it.program.event) items) s.protocol)
        items
        (main_pass F s items).emitted
unfolding main_pass
main_pass-OncePerField F s items =
    let ro_blocks = read_only_blocks (map (λ it. it.program.event) items) s.protocol in
    let (its, listed, apart, groups, noted) =
      run-Good F s items ro_blocks (start F) (sorted F items)
        (sorted-All F (λ it. Memᴰ it items) items (all_listed items))
        ([], tt, tt, Groups.nothing, refl) in
    (its, listed, apart, groups)
