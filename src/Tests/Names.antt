-- ===== src/Tests/Names.antt =====
-- Ids of technical names, and the place where the theorem on them applies.
use esphome_vitohome.Common.{◌≡◌, refl, true, false, some, [], ◌∷◌, Text, codes}
use esphome_vitohome.Renderer.Profiles.{minimal, standard, profile_keep, is_diagnostic}
use esphome_vitohome.Tests.CatalogRules.{mode}
use esphome_vitohome.Renderer.{make_obj_id, is_used}
use esphome_vitohome.Renderer.Ids.{IsId, make_obj_id-IsId}

numbered :
    make_obj_id (codes "HK~Pumpe (A1)") (codes "HK_Pumpe_A1" ∷ codes "HK_Pumpe_A1_2" ∷ [])
    ≡ some (codes "HK_Pumpe_A1_3")
unfolding make_obj_id
numbered = refl

digit_first : make_obj_id (codes "0x2323") [] ≡ some (codes "id_0x2323")
unfolding make_obj_id
digit_first = refl

make_obj_id-IsId_example :
    (c : Text) × (make_obj_id (codes "HK~Pumpe (A1)") (codes "HK_Pumpe_A1" ∷ []) ≡ some c)
    × (is_used c (codes "HK_Pumpe_A1" ∷ []) ≡ false)
    × IsId c
make_obj_id-IsId_example = make_obj_id-IsId (codes "HK~Pumpe (A1)") (codes "HK_Pumpe_A1" ∷ [])

kept : (profile_keep mode minimal ≡ true) × (profile_keep mode standard ≡ true)
unfolding profile_keep
kept = (refl, refl)

not_diagnostic : is_diagnostic mode ≡ false
unfolding is_diagnostic
not_diagnostic = refl
