-- ===== src/Catalog/Toggles/Pairs.antt =====
-- The two values of a toggle are those of the enumeration's two options, on that of the one that says on.
use esphome_vitohome.Common.{
  ap, sym, ◌∙◌, ◌≢◌, ℤ, pos, negsuc, Bool-cases, ℕ, ◌≡◌, refl, ◌⊎◌, inl, inr, Bool, true, Option,
  none, some, List, [], ◌∷◌, Text,
}
use esphome_vitohome.Catalog.{Event, EventValue}
use esphome_vitohome.Catalog.Options.{
  enum_options, dedup_option_labels, options_from, options_step, seen_value,
}
use esphome_vitohome.Catalog.Options.Values.{
  values_of, Distinct, enum_options_lem, dedup_option_labels-values,
}
use esphome_vitohome.Catalog.Toggles.{
  by_stem, by_negation, boolean_on_off_pairs, boolean_pair, norm_bool_label, enum_bool_pair,
}
use esphome_vitohome.Catalog.Toggles.Labels.{
  Says, Decides, or_else-Right, by_words-Right, by_stem-Right, by_negation-Right,
}

-- The two values in either order.
abbrev pub Either : ℕ → ℕ → ℕ → ℕ → Type 0
Either a b on off = ((on ≡ a) × (off ≡ b)) ⊎ ((on ≡ b) × (off ≡ a))

-- The values of a toggle are those of a list of two options, in one order or the other.
abbrev pub ToggleSpec : List ℕ → ℕ → ℕ → Type 0
ToggleSpec values on off = (a : ℕ) × (b : ℕ) × (values ≡ a ∷ b ∷ []) × Either a b on off

-- Of two options, one has the value and a label of on, the other those of off.
abbrev pub Meant : List (ℕ × Text) → ℕ → ℕ → Type 0
Meant opts on off =
    (l_on : Text) × (l_off : Text) × Says l_on l_off
    × ((opts ≡ (on, l_on) ∷ (off, l_off) ∷ []) ⊎ (opts ≡ (off, l_off) ∷ (on, l_on) ∷ []))

ordered_pair :
    (v_a : ℕ) (l_a : Text) (v_b : ℕ) (l_b : Text) (p : Option (ℕ × ℕ)) (on off : ℕ)
    → Decides v_a l_a v_b l_b p
    → p ≡ some (on, off)
    → Meant ((v_a, l_a) ∷ (v_b, l_b) ∷ []) on off
ordered_pair v_a l_a v_b l_b none on off h e = cc
ordered_pair v_a l_a v_b l_b (some p) on off h e =
    let q : p.0 ≡ on = cc in let r : p.1 ≡ off = cc in ordered q r h
  where
    ordered :
        p.0 ≡ on
        → p.1 ≡ off
        → Decides v_a l_a v_b l_b (some p)
        → Meant ((v_a, l_a) ∷ (v_b, l_b) ∷ []) on off
    ordered q r (inl (i, j, says)) =
        let c : v_a ≡ on = cc in let d : v_b ≡ off = cc in (l_a, l_b, says, inl (rw (c, d) refl))
    ordered q r (inr (i, j, says)) =
        let c : v_b ≡ on = cc in let d : v_a ≡ off = cc in (l_b, l_a, says, inr (rw (c, d) refl))

boolean_pair-Meant :
    (opts : List (ℕ × Text)) (on off : ℕ) → boolean_pair opts ≡ some (on, off) → Meant opts on off
unfolding boolean_pair
boolean_pair-Meant [] on off h = cc
boolean_pair-Meant (o ∷ []) on off h = cc
boolean_pair-Meant ((v_a, l_a) ∷ (v_b, l_b) ∷ []) on off h =
    ordered_pair v_a l_a v_b l_b _ on off
      (or_else-Right v_a l_a v_b l_b (by_stem v_a l_a v_b l_b) _ (by_stem-Right v_a l_a v_b l_b) (
        or_else-Right v_a l_a v_b l_b
          (by_negation v_a (norm_bool_label l_a) v_b (norm_bool_label l_b)) _
          (by_negation-Right v_a l_a v_b l_b)
          (by_words-Right v_a l_a v_b l_b boolean_on_off_pairs (λ p m. m))))
      h
boolean_pair-Meant (o ∷ p ∷ q ∷ opts) on off h = cc

Meant-ToggleSpec :
    (opts : List (ℕ × Text)) (on off : ℕ) → Meant opts on off → ToggleSpec (values_of opts) on off
Meant-ToggleSpec opts on off (l_on, l_off, says, inl e) =
    (on, off, ap values_of e, inl (refl, refl))
Meant-ToggleSpec opts on off (l_on, l_off, says, inr e) =
    (off, on, ap values_of e, inr (refl, refl))

options_from-languages :
    (g g' : Bool) (vs : List EventValue) (seen : List ℕ)
    → values_of (options_from g vs seen) ≡ values_of (options_from g' vs seen)
unfolding options_from
options_from-languages g g' [] seen = refl
options_from-languages g g' (v ∷ vs) seen =
    step v.enum_address_value (λ s. options_from-languages g g' vs s)
  where
    step :
        (o : Option ℤ)
        → ((s : List ℕ) → values_of (options_from g vs s) ≡ values_of (options_from g' vs s))
        → values_of (options_step g v o seen (λ s. options_from g vs s))
          ≡ values_of (options_step g' v o seen (λ s. options_from g' vs s))
    step none f = f seen
    step (some (negsuc n)) f = f seen
    step (some (pos n)) f = elim (Bool-cases (seen_value n seen)) [
      | inl k ↦ rw k (f seen)
      | inr k ↦ rw k (ap (λ ns. n ∷ ns) (f (n ∷ seen)))
    ]

-- The values of the shown options do not depend on the language.
pub shown_values :
    (ev : Event) (g g' : Bool)
    → values_of (dedup_option_labels (enum_options ev g))
      ≡ values_of (dedup_option_labels (enum_options ev g'))
unfolding enum_options
shown_values ev g g' =
    dedup_option_labels-values (enum_options ev g)
    ∙ options_from-languages g g' ev.values []
    ∙ sym (dedup_option_labels-values (enum_options ev g'))

pub enum_bool_pair-values :
    (ev : Event) (german : Bool) (on off : ℕ)
    → enum_bool_pair ev ≡ some (on, off)
    → ToggleSpec (values_of (dedup_option_labels (enum_options ev german))) on off × (on ≢ off)
unfolding enum_bool_pair
enum_bool_pair-values ev german on off h =
    let (a, b, e, order) =
      Meant-ToggleSpec _ on off
        (boolean_pair-Meant (dedup_option_labels (enum_options ev true)) on off h) in
    (
      (a, b, shown_values ev german true ∙ e, order),
      apart a b order (
          Distinct-pair _ a b (sym (dedup_option_labels-values (enum_options ev true)) ∙ e)
            (enum_options_lem ev true).0),
    )
  where
    Distinct-pair : (ns : List ℕ) (a b : ℕ) → ns ≡ a ∷ b ∷ [] → Distinct ns → a ≢ b
    Distinct-pair ns a b e d = (rw e at d).0.0

    apart : (a b : ℕ) → Either a b on off → a ≢ b → on ≢ off
    apart a b (inl (p, q)) d = λ e. d (sym p ∙ e ∙ q)
    apart a b (inr (p, q)) d = λ e. d (sym q ∙ sym e ∙ p)

-- A toggle is one of an enumeration of exactly two options. On is the value of the option whose German
-- label says on, and off that of the one whose label says off: the name of the type and part 1 or 0,
-- a word and the same after "nicht ", or the first and the second of a known pair of words. In whatever
-- language the options are shown, on and off are their two values, and differ.
pub enum_bool_pair_lem :
    (ev : Event) (german : Bool) (on off : ℕ)
    → enum_bool_pair ev ≡ some (on, off)
    → Meant (dedup_option_labels (enum_options ev true)) on off
      × ToggleSpec (values_of (dedup_option_labels (enum_options ev german))) on off
      × (on ≢ off)
unfolding enum_bool_pair
enum_bool_pair_lem ev german on off h =
    let (values, apart) = enum_bool_pair-values ev german on off h in
    (boolean_pair-Meant (dedup_option_labels (enum_options ev true)) on off h, values, apart)
