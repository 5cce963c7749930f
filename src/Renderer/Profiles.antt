-- ===== src/Renderer/Profiles.antt =====
-- scripts/vitocatalog/transforms.py: which datapoints a profile keeps, and the tags of a datapoint.
use esphome_vitohome.Common.{
  ℕ, ◌≡◌, refl, Bool, true, false, not, ◌&&◌, ◌||◌, Option, none, some, List, [], ◌∷◌, Text, codes,
  lower, lower_code, leb, ◌==◌, any, if◌then◌else◌,
}
use esphome_vitohome.Hub.Access.{p300}
use esphome_vitohome.Catalog.{Event, marked_writable}
use esphome_vitohome.Catalog.Modes.{is_rpc_reading}
use esphome_vitohome.Catalog.Scales.{str_or}
use esphome_vitohome.Catalog.Toggles.{starts_with, has_word}
use esphome_vitohome.Emitter.{ConversionKind, plain, conversion_of, is_non_numeric}

-- The names of the profiles that the command line takes.
pub data Profile : Type 0 where
  minimal standard full : Profile

-- `s.split("~", 1)[0]`
abbrev pub before_tilde : Text → Text
before_tilde [] = []
before_tilde (c ∷ s) = if c == b'~' then [] else c ∷ before_tilde s

-- `(ev.token or ev.tech or "").split("~", 1)[0]`
abbrev pub stem_of : Event → Text
stem_of ev = before_tilde (codes (str_or ev.token ev.tech))

-- `nvi[A-Z]` at the start of a text, and anywhere in it.
abbrev pub starts_input : Text → Bool
starts_input (n ∷ v ∷ i ∷ c ∷ s) = (n == b'n') && (v == b'v') && (i == b'i') && leb 65 c && leb c 90
starts_input _ = false

abbrev pub has_input : Text → Bool
has_input [] = false
has_input (c ∷ s) = starts_input (c ∷ s) || has_input s

-- `_is_lon_input`
unfoldable pub is_lon_input : Event → Bool
is_lon_input ev = starts_input (stem_of ev)

abbrev pub is_lon_address : Option ℕ → Bool
is_lon_address none = false
is_lon_address (some a) = a == 0xA010

-- `_is_lon_bound_rpc`
unfoldable pub is_lon_bound_rpc : Event → Bool
unfolding is_rpc_reading lower_code
is_lon_bound_rpc ev =
    is_rpc_reading ev p300
    && (is_lon_address ev.address
        || starts_with (codes "vlon") (lower (stem_of ev))
        || has_input (stem_of ev))

-- `conv_kind in (DIV, COUNTER)`
abbrev pub is_measured : ConversionKind → Bool
is_measured plain = false
is_measured _ = true

abbrev pub kept_in : Profile → Event → Bool
kept_in full ev = true
kept_in standard ev = not (is_non_numeric ev.conversion)
kept_in minimal ev = marked_writable ev || is_measured (conversion_of ev.conversion).1

-- `_profile_keep`
unfoldable pub profile_keep : Event → Profile → Bool
unfolding is_lon_input is_lon_bound_rpc conversion_of is_non_numeric
profile_keep ev full = true
profile_keep ev p = if is_lon_input ev || is_lon_bound_rpc ev then false else kept_in p ev

-- `_DIAGNOSTIC_RE`, of a text in lower case.
abbrev pub diagnostic_words : List Text
diagnostic_words =
    codes "fehler"
    ∷ codes "stoer"
    ∷ codes "stor"
    ∷ codes "stör"
    ∷ codes "stÖr"
    ∷ codes "status"
    ∷ codes "alarm"
    ∷ codes "eeprom"
    ∷ codes "i2c"
    ∷ codes "diagnos"
    ∷ codes "sammel"
    ∷ codes "wartung"
    ∷ codes "quitt"
    ∷ []

-- `_is_diagnostic`
unfoldable pub is_diagnostic : Event → Bool
unfolding lower_code
is_diagnostic ev =
    let target = lower (codes (str_or ev.token (str_or ev.tech ev.name))) in
    any (λ word. has_word word target) diagnostic_words

-- `_is_mode_select`
unfoldable pub is_mode_select : Event → Bool
unfolding lower_code
is_mode_select ev =
    let target = lower (codes (str_or ev.token ev.tech)) in
    marked_writable ev
    && any (λ word. has_word word target)
        (codes "betriebsart" ∷ codes "bedienteilba" ∷ codes "bedienbetriebsart" ∷ [])

-- The profiles are nested: what the minimal one keeps, the standard one keeps, where the conversion is
-- one that entities are made for, and the full one keeps everything; only the full one keeps an input
-- of the LON network, or a reading that is bound to it.
pub profile_keep-nested :
    (ev : Event)
    → (is_non_numeric ev.conversion ≡ false
        → profile_keep ev minimal ≡ true
        → profile_keep ev standard ≡ true)
      × (profile_keep ev full ≡ true)
      × ((p : Profile)
          → profile_keep ev p ≡ true
          → (is_lon_input ev || is_lon_bound_rpc ev) ≡ true
          → p ≡ full)
unfolding profile_keep
profile_keep-nested ev = (nested (is_lon_input ev || is_lon_bound_rpc ev), refl, only_full)
  where
    nested :
        (bound : Bool)
        → is_non_numeric ev.conversion ≡ false
        → (if bound then false else kept_in minimal ev) ≡ true
        → (if bound then false else kept_in standard ev) ≡ true
    nested true e h = cc
    nested false e h = rw e refl

    dropped : (bound kept : Bool) → (if bound then false else kept) ≡ true → bound ≡ true → ⊥
    dropped true kept h e = cc
    dropped false kept h e = cc

    only_full :
        (p : Profile)
        → profile_keep ev p ≡ true
        → (is_lon_input ev || is_lon_bound_rpc ev) ≡ true
        → p ≡ full
    only_full full h e = refl
    only_full standard h e =
        absurd (dropped (is_lon_input ev || is_lon_bound_rpc ev) (kept_in standard ev) h e)
    only_full minimal h e =
        absurd (dropped (is_lon_input ev || is_lon_bound_rpc ev) (kept_in minimal ev) h e)
