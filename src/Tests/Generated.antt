-- ===== src/Tests/Generated.antt =====
-- The main pass of the generator over a few datapoints of one device.
use esphome_vitohome.Common.{ℕ, ◌≡◌, refl, true, none, List, [], ◌∷◌, All, map}
use esphome_vitohome.Hub.Access.{p300}
use esphome_vitohome.Catalog.{Event}
use esphome_vitohome.Catalog.Blocks.{read_only_blocks}
use esphome_vitohome.Renderer.Profiles.{full}
use esphome_vitohome.Renderer.Generate.{main_pass}
use esphome_vitohome.Renderer.Keys.{Settings, Item, datapoint}
use esphome_vitohome.Renderer.Generate.Guards.{EmissionOk}
use esphome_vitohome.Renderer.Generate.Emissions.{main_pass-EmissionOk}
use esphome_vitohome.Renderer.Generate.Groups.{OncePerField}
use esphome_vitohome.Renderer.Generate.Fields.{main_pass-OncePerField}
use esphome_vitohome.Tests.CatalogRules.{mode}
use esphome_vitohome.Tests.Emitted.{decimals, no_factors, set_point, set_point_entity, pump}

abbrev settings : Settings
settings = record {
  protocol = p300;
  profile = full;
  emit_device_id = true;
  emit_error_history = true;
  reachable_only = true;
  partial_writes = true;
  is_selected = λ name. true;
  selectors = [];
}

abbrev item : Event → Item ℕ
item ev = record { program = record { event = ev; mapping_type = none }; factors = no_factors }

-- The second is the first once more.
abbrev items : List (Item ℕ)
items = item set_point ∷ item set_point ∷ item mode ∷ []

folded :
    (main_pass decimals settings items).emitted
    ≡ datapoint pump none none ∷ datapoint set_point_entity none none ∷ []
unfolding main_pass
folded = refl

main_pass-EmissionOk_example : All (EmissionOk p300) (main_pass decimals settings items).emitted
main_pass-EmissionOk_example = main_pass-EmissionOk decimals settings items

main_pass-OncePerField_example :
    OncePerField decimals settings
      (read_only_blocks (map (λ it. it.program.event) items) p300)
      items
      (main_pass decimals settings items).emitted
main_pass-OncePerField_example = main_pass-OncePerField decimals settings items
