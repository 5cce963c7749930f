-- ===== src/Renderer/Generate/Groups.antt =====
-- renderer.py `generate`: what its emissions are taken from.
use mathlib.Core.List.{Memᴰ}
use esphome_vitohome.Common.{◌⊎◌, ◌++◌, All, ℕ, ◌≡◌, true, false, Option, List, [], ◌∷◌, map}
use esphome_vitohome.Hub.Access.{Access}
use esphome_vitohome.Hub.Fields.{given}
use esphome_vitohome.Catalog.Modes.{access_for}
use esphome_vitohome.Catalog.Blocks.{Blocks}
use esphome_vitohome.Catalog.Floats.{Floats}
use esphome_vitohome.Special.{hydro_schedule_shape, hydro_schedule_entries}
use esphome_vitohome.Special.History.{is_schaltzeiten, schaltzeiten_entries}
use esphome_vitohome.Emitter.{EntitySpec, entity}
use esphome_vitohome.Emitter.Values.{build_entity_spec}
use esphome_vitohome.Renderer.Generate.{raw_days, prefix_for}
use esphome_vitohome.Renderer.Keys.{
  Emission, day, datapoint, Settings, Item, FieldKey, action, is_seen, field_key,
}

module _ (F : Floats) (s : Settings) where
  open F use {Float}

  -- The access mode and the key of a datapoint.
  abbrev pub access_of : Item Float → Option Access
  access_of it = access_for it.program.event s.protocol

  abbrev pub key_of_item : Item Float → FieldKey Float
  key_of_item it = field_key F it (access_of it)

  -- Each datapoint has another key than those before it.
  abbrev pub AreDistinct : List (Item Float) → Type 0
  AreDistinct [] = Unit
  AreDistinct (it ∷ its) =
      (is_seen F (key_of_item it) (map key_of_item its) ≡ false) × AreDistinct its

  -- What a datapoint is emitted as: the days of a weekly program, where it is one, or the one entity that is
  -- built from it.
  abbrev pub EmitsAs : Blocks → Item Float → List (Emission Float) → Type 0
  EmitsAs ro_blocks it es =
      let ev = it.program.event in
      ((is_schaltzeiten it.program ≡ true)
        × (es ≡ map (λ a. day a (access_of it)) (schaltzeiten_entries ev)))
      ⊎ (((given (hydro_schedule_shape it.program) ≡ true)
            × (es ≡ raw_days F (hydro_schedule_entries it.program) (access_of it)))
          ⊎ ((spec : EntitySpec Float) × (build_entity_spec F ev s.protocol s.partial_writes
                  ro_blocks it.factors
                ≡ entity spec)
              × (es ≡ datapoint spec (access_of it) (prefix_for F ev (access_of it)) ∷ [])))

  -- The emissions are those of the datapoints taken, one after the other, and buttons of procedures.
  pub data Groups (ro_blocks : Blocks) : List (Item Float) → List (Emission Float) → Type 0 where
    nothing : Groups ro_blocks [] []
    taken :
        {its : List (Item Float)} {rest : List (Emission Float)} (it : Item Float)
        (es : List (Emission Float))
        → EmitsAs ro_blocks it es
        → Groups ro_blocks its rest
        → Groups ro_blocks (it ∷ its) (es ++ rest)
    button_of :
        {its : List (Item Float)} {rest : List (Emission Float)} (address : Option ℕ)
        (parameter : List ℕ)
        → Groups ro_blocks its rest
        → Groups ro_blocks its (action address parameter ∷ rest)

  -- The emissions are those of different datapoints of `items`.
  abbrev pub OncePerField : Blocks → List (Item Float) → List (Emission Float) → Type 0
  OncePerField ro_blocks items emitted =
      (its : List (Item Float)) × All (λ it. Memᴰ it items) its
      × AreDistinct its
      × Groups ro_blocks its emitted
