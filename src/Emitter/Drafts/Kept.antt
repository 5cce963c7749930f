-- ===== src/Emitter/Drafts/Kept.antt =====
-- The steps of the emitter's first part make nothing writable, and give no big-endian converter.
use esphome_vitohome.Common.{
  ◌≡◌, refl, Bool, true, false, All, Option, none, some, List, [], ◌∷◌, String, if◌then◌else◌,
}
use esphome_vitohome.Hub.Access.{Protocol}
use esphome_vitohome.Hub.Converters.{
  Converter, noconv, div2, div10, div100, div1000, sec2hour, mult2, mult5, mult10, mult100,
  rotatebytes,
}
use esphome_vitohome.Catalog.{Event}
use esphome_vitohome.Catalog.Floats.{Floats, nought, one, ratio}
use esphome_vitohome.Catalog.Scales.{BoundsScale, scale_from_bounds}
use esphome_vitohome.Emitter.{conversion_of, Factors}
use esphome_vitohome.Emitter.Presets.{nearest, factor_presets, eff_factor, or_nought}
use esphome_vitohome.Emitter.Drafts.{
  Draft, draft_of, first_draft, or_noconv_draft, by_bounds, demote_unmapped, factor_draft,
  factor_driven, real_preset, is_transform, is_unmapped,
}
use esphome_vitohome.Emitter.Platforms.{is_big_endian, conv_or_noconv}

abbrev pub is_rotated : Option Converter → Bool
is_rotated o = is_big_endian (conv_or_noconv o)

pub rotated : (o : Option Converter) → is_rotated o ≡ true → o ≡ some rotatebytes
rotated none h = cc
rotated (some noconv) h = cc
rotated (some div2) h = cc
rotated (some div10) h = cc
rotated (some div100) h = cc
rotated (some div1000) h = cc
rotated (some sec2hour) h = cc
rotated (some mult2) h = cc
rotated (some mult5) h = cc
rotated (some mult10) h = cc
rotated (some mult100) h = cc
rotated (some rotatebytes) h = refl

-- No step of a draft makes it writable, or its converter the big-endian one.
module _ (F : Floats) where
  abbrev pub Kept : Draft F.Float → Draft F.Float → Type 0
  Kept d d' =
      (d.writable ≡ true → d'.writable ≡ true)
      × (is_rotated d.conv ≡ true → is_rotated d'.conv ≡ true)

  or_noconv_draft-Kept : (d : Draft F.Float) → Kept (or_noconv_draft F d) d
  or_noconv_draft-Kept d = go d.conv refl
    where
      go :
          (o : Option Converter)
          → d.conv ≡ o
          → Kept
              (elim o as (λ _. Draft F.Float) [
                | none ↦ record d { conv = some noconv }
                | some _ ↦ d
              ])
              d
      go none e = ((λ h. h), λ h. cc)
      go (some name) e = ((λ h. h), λ h. h)

  either-Kept :
      (b : Bool) (x y d : Draft F.Float) → Kept x d → Kept y d → Kept (if b then x else y) d
  either-Kept true x y d h k = h
  either-Kept false x y d h k = k

  demote_unmapped-Kept :
      (unmapped : Bool) (d : Draft F.Float) → Kept (demote_unmapped F unmapped d) d
  demote_unmapped-Kept unmapped d =
      either-Kept _ (record d { writable = false }) d d ((λ h. cc), λ h. h) ((λ h. h), λ h. h)

  -- The converter of a factor is a preset.
  nearest-little :
      (f : F.Float) (rows : List (F.Float × Converter))
      → All (λ row. is_big_endian row.1 ≡ false) rows
      → is_rotated (nearest F f rows) ≡ false
  nearest-little f [] h = refl
  nearest-little f ((pf, name) ∷ rows) (p, h) =
      go (F.lt (F.abs (F.sub f pf)) (ratio F 1 1000000000000)) (nearest-little f rows h)
    where
      go :
          (b : Bool)
          → is_rotated (nearest F f rows) ≡ false
          → is_rotated (if b then some name else nearest F f rows) ≡ false
      go true r = p
      go false r = r

  real_preset-little : (f : Option F.Float) (o : F.Float) → is_rotated (real_preset F f o) ≡ false
  real_preset-little none o = refl
  real_preset-little (some f) o = go (F.eq f (one F)) (F.eq o (nought F))
    where
      go :
          (a b : Bool)
          → is_rotated (if a then none else (if b then nearest F f (factor_presets F) else none))
            ≡ false
      go true b = refl
      go false true =
          nearest-little f (factor_presets F)
            (refl, (refl, (refl, (refl, (refl, (refl, (refl, (refl, tt))))))))
      go false false = refl

  factor_draft-Kept :
      (conversion : String) (f : Option F.Float) (o : F.Float) (preset : Option Converter)
      (d : Draft F.Float)
      → is_rotated preset ≡ false
      → Kept (factor_draft F conversion f o preset d) d
  factor_draft-Kept conversion f o (some name) d e = ((λ h. h), λ h. cc)
  factor_draft-Kept conversion f o none d e =
      either-Kept (is_transform F f o) _ _ d ((λ h. h), λ h. cc) (or_noconv_draft-Kept d)

  by_bounds-Kept :
      (ev : Event) (factors : Factors F.Float) (scale : Option (BoundsScale F.Float))
      (d : Draft F.Float)
      → Kept (by_bounds F ev factors scale d) d
  by_bounds-Kept ev factors (some bs) d = ((λ h. cc), λ h. cc)
  by_bounds-Kept ev factors none d =
      let f = eff_factor F factors in
      let o = or_nought F factors.conv_offset in
      either-Kept (factor_driven F ev.conversion f) _ d d
        (factor_draft-Kept ev.conversion f o (real_preset F f o) d (real_preset-little f o))
        ((λ h. h), λ h. h)

  pub draft_of-Kept :
      (ev : Event) (protocol : Protocol) (factors : Factors F.Float)
      → Kept (draft_of F ev protocol factors) (first_draft F ev protocol)
  unfolding draft_of
  draft_of-Kept ev protocol factors =
      let first = first_draft F ev protocol in
      let scale = scale_from_bounds F ev protocol in
      let d = by_bounds F ev factors scale first in
      let (a, p) =
        demote_unmapped-Kept (is_unmapped (conversion_of ev.conversion).0 ev.conversion)
          (or_noconv_draft F d) in
      let (b, q) = or_noconv_draft-Kept d in
      let (c, r) = by_bounds-Kept ev factors scale first in ((λ h. c (b (a h))), λ h. r (q (p h)))
