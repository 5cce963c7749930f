-- ===== src/Catalog/Options/Values.antt =====
-- The values of an enumeration's options.
use mathlib.Core.List.{Memᴰ}
use esphome_vitohome.Common.{
  ℕ, ◌≡◌, refl, ◌≢◌, ◌⊎◌, inl, inr, Bool, true, false, Option, none, some, List, [], ◌∷◌, map,
  arith, All, All-of, Bool-cases, ℤ, pos, negsuc, ◌==◌, Text, ◌||◌,
}
use esphome_vitohome.Catalog.{EventValue, Event}
use esphome_vitohome.Catalog.Options.{
  option_label, seen_value, options_step, options_from, enum_options, dedup_from,
  dedup_option_labels, is_repeat, value_of,
}

abbrev pub values_of : List (ℕ × Text) → List ℕ
values_of opts = map (λ o. o.0) opts

abbrev pub Distinct : List ℕ → Type 0
Distinct [] = Unit
Distinct (x ∷ xs) = All (λ y. x ≢ y) xs × Distinct xs

-- An option's value is the address value of a value type, and its label is that type's.
abbrev pub FromType : Bool → List EventValue → ℕ × Text → Type 0
FromType german vs o =
    (v : EventValue) × Memᴰ v vs
    × (v.enum_address_value ≡ some (pos o.0))
    × (o.1 ≡ option_label german v o.0)

-- A value that is not negative is listed.
abbrev pub Listed : List ℕ → Option ℤ → Type 0
Listed values (some (pos n)) = Memᴰ n values
Listed values _ = Unit

abbrev pub OptionsSpec : Bool → List EventValue → List ℕ → List (ℕ × Text) → Type 0
OptionsSpec german vs seen opts =
    Distinct (values_of opts)
    × All (λ n. seen_value n seen ≡ false) (values_of opts)
    × All (FromType german vs) opts

from_later :
    (german : Bool) (v : EventValue) (vs : List EventValue) (o : ℕ × Text)
    → FromType german vs o
    → FromType german (v ∷ vs) o
from_later german v vs o (w, i, e, l) = (w, Memᴰ.tail i, e, l)

later_all :
    (german : Bool) (v : EventValue) (vs : List EventValue) (opts : List (ℕ × Text))
    → All (FromType german vs) opts
    → All (FromType german (v ∷ vs)) opts
later_all german v vs [] h = tt
later_all german v vs (o ∷ opts) (p, h) = (from_later german v vs o p, later_all german v vs opts h)

unseen :
    (value : ℕ) (seen ns : List ℕ)
    → All (λ n. seen_value n (value ∷ seen) ≡ false) ns
    → All (λ n. value ≢ n) ns × All (λ n. seen_value n seen ≡ false) ns
unseen value seen [] h = (tt, tt)
unseen value seen (n ∷ ns) (p, h) =
    let (a, b) = unseen value seen ns h in
    let (x, y) = both (value == n) (seen_value n seen) p in
    ((λ q. (let z : (value == n) ≡ true = ground arith in cc), a), (y, b))
  where
    both : (x y : Bool) → (x || y) ≡ false → (x ≡ false) × (y ≡ false)
    both true y h = cc
    both false y h = (refl, h)

options_step_lem :
    (german : Bool) (v : EventValue) (vs : List EventValue) (o : Option ℤ) (seen : List ℕ)
    (rest : List ℕ → List (ℕ × Text))
    → v.enum_address_value ≡ o
    → ((s : List ℕ) → OptionsSpec german vs s (rest s))
    → OptionsSpec german (v ∷ vs) seen (options_step german v o seen rest)
options_step_lem german v vs none seen rest e f =
    let (d, u, t) = f seen in (d, u, later_all german v vs (rest seen) t)
options_step_lem german v vs (some (negsuc n)) seen rest e f =
    let (d, u, t) = f seen in (d, u, later_all german v vs (rest seen) t)
options_step_lem german v vs (some (pos n)) seen rest e f = elim (Bool-cases (seen_value n seen)) [
  | inl k ↦ (let (d, u, t) = f seen in rw k (d, u, later_all german v vs (rest seen) t))
  | inr k ↦
      (let (d, u, t) = f (n ∷ seen) in
        let (new, old) = unseen n seen (values_of (rest (n ∷ seen))) u in
        rw k (
          (new, d),
          (k, old),
          ((v, Memᴰ.head refl, e, refl), later_all german v vs (rest (n ∷ seen)) t),
        ))
]

options_from_lem :
    (german : Bool) (vs : List EventValue) (seen : List ℕ)
    → OptionsSpec german vs seen (options_from german vs seen)
unfolding options_from
options_from_lem german [] seen = (tt, tt, tt)
options_from_lem german (v ∷ vs) seen =
    options_step_lem german v vs v.enum_address_value seen (λ s. options_from german vs s) refl
      (λ s. options_from_lem german vs s)

-- A value that is not negative is seen before, or listed.
abbrev pub Covered : List ℕ → List ℕ → Option ℤ → Type 0
Covered seen values (some (pos n)) = (seen_value n seen ≡ true) ⊎ Memᴰ n values
Covered seen values _ = Unit

options_step-Covered :
    (german : Bool) (v : EventValue) (o w : Option ℤ) (seen : List ℕ)
    (rest : List ℕ → List (ℕ × Text))
    → ((s : List ℕ) → Covered s (values_of (rest s)) w)
    → Covered seen (values_of (options_step german v o seen rest)) w
options_step-Covered german v none w seen rest f = f seen
options_step-Covered german v (some (negsuc m)) w seen rest f = f seen
options_step-Covered german v (some (pos m)) w seen rest f = elim (Bool-cases (seen_value m seen)) [
  | inl k ↦ rw k (f seen)
  | inr k ↦ rw k (go w (f (m ∷ seen)))
]
  where
    go :
        (w : Option ℤ)
        → Covered (m ∷ seen) (values_of (rest (m ∷ seen))) w
        → Covered seen (m ∷ values_of (rest (m ∷ seen))) w
    go none c = tt
    go (some (negsuc n)) c = tt
    go (some (pos n)) (inr i) = inr (Memᴰ.tail i)
    go (some (pos n)) (inl k) = elim (Bool-cases (m == n)) [
      | inl q ↦ inr (Memᴰ.head (ground arith))
      | inr q ↦ inl (rw q at k)
    ]

options_step-Covered_self :
    (german : Bool) (v : EventValue) (o : Option ℤ) (seen : List ℕ)
    (rest : List ℕ → List (ℕ × Text))
    → Covered seen (values_of (options_step german v o seen rest)) o
options_step-Covered_self german v none seen rest = tt
options_step-Covered_self german v (some (negsuc m)) seen rest = tt
options_step-Covered_self german v (some (pos m)) seen rest =
    elim (Bool-cases (seen_value m seen)) [ inl k ↦ inl k | inr k ↦ rw k (inr (Memᴰ.head refl)) ]

options_from-Covered :
    (german : Bool) (vs : List EventValue) (seen : List ℕ) (w : EventValue)
    → Memᴰ w vs
    → Covered seen (values_of (options_from german vs seen)) w.enum_address_value
unfolding options_from
options_from-Covered german [] seen w i = elim i [ ]
options_from-Covered german (v ∷ vs) seen w (Memᴰ.head e) =
    rw e
      (options_step-Covered_self german v v.enum_address_value seen (λ s. options_from german vs s))
options_from-Covered german (v ∷ vs) seen w (Memᴰ.tail i) =
    options_step-Covered german v v.enum_address_value w.enum_address_value seen
      (λ s. options_from german vs s) (λ s. options_from-Covered german vs s w i)

-- No two options have one value; every option is a value type's, with the label of that type; and every
-- address value that is not negative is listed.
pub enum_options_lem :
    (ev : Event) (german : Bool)
    → Distinct (values_of (enum_options ev german))
      × All (FromType german ev.values) (enum_options ev german)
      × All (λ v. Listed (values_of (enum_options ev german)) v.enum_address_value) ev.values
unfolding enum_options
enum_options_lem ev german =
    let (d, u, t) = options_from_lem german ev.values [] in
    (
      d,
      t,
      All-of _ ev.values
          (λ v i. listed v.enum_address_value (options_from-Covered german ev.values [] v i)),
    )
  where
    listed :
        (o : Option ℤ)
        → Covered [] (values_of (options_from german ev.values [])) o
        → Listed (values_of (options_from german ev.values [])) o
    listed none c = tt
    listed (some (negsuc n)) c = tt
    listed (some (pos n)) (inr i) = i
    listed (some (pos n)) (inl k) = cc

dedup_from-values :
    (seen : List (Text × ℕ)) (opts : List (ℕ × Text))
    → values_of (dedup_from seen opts) ≡ values_of opts
unfolding dedup_from
dedup_from-values seen [] = refl
dedup_from-values seen ((value, label) ∷ opts) =
    elim (Bool-cases (is_repeat (value_of label seen) value)) [
      | inl k ↦ rw (k, dedup_from-values seen opts) refl
      | inr k ↦ rw (k, dedup_from-values ((label, value) ∷ seen) opts) refl
    ]

-- The labels are made different without touching the values: they and their order stay.
pub dedup_option_labels-values :
    (opts : List (ℕ × Text)) → values_of (dedup_option_labels opts) ≡ values_of opts
unfolding dedup_option_labels
dedup_option_labels-values opts = dedup_from-values [] opts
