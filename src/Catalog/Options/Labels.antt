-- ===== src/Catalog/Options/Labels.antt =====
-- When the labels of an enumeration's options end up different.
use mathlib.Core.List.{Memᴰ}
use esphome_vitohome.Common.{
  ℕ, zero, suc, ◌+◌, ◌*◌, ◌-◌, ◌/◌, ◌%◌, ◌≤◌, ◌<◌, ◌≡◌, refl, sym, ap, ◌∙◌, ◌≢◌, inl, inr, true,
  false, not, ◌&&◌, some, List, [], ◌∷◌, ◌++◌, arith, All, Bool-cases, not_both, leb, ◌==◌,
  if◌then◌else◌, Text, codes, same_text_refl, same_text-ne,
}
use esphome_vitohome.Catalog.Options.{
  hex_char, hex_from, padded, hex_02, value_of, is_repeat, suffix, dedup_from, dedup_option_labels,
}
use esphome_vitohome.Catalog.Options.Values.{values_of, Distinct}

-- The number that a text ends in: an `x` starts it anew, other characters than digits are passed over.
abbrev next : ℕ → ℕ → ℕ
next acc c =
    if c == b'x'
    then 0
    else if leb 48 c && leb c 57
    then acc * 16 + (c - 48)
    else if leb 65 c && leb c 70
    then acc * 16 + (c - 55)
    else acc

abbrev last_number : ℕ → Text → ℕ
last_number acc [] = acc
last_number acc (c ∷ s) = last_number (next acc c) s

last_number-append :
    (acc : ℕ) (s t : Text) → last_number acc (s ++ t) ≡ last_number (last_number acc s) t
last_number-append acc [] t = refl
last_number-append acc (c ∷ s) t = last_number-append (next acc c) s t

next_digit : (acc d : ℕ) → d < 16 → next acc (hex_char d) ≡ acc * 16 + d
next_digit acc d h = ground arith

last_number-hex_from :
    (fuel n : ℕ) (after : Text)
    → n ≤ fuel
    → last_number 0 (hex_from fuel n after) ≡ last_number n after
last_number-hex_from zero n after h = (let e : n ≡ 0 = omega arith in rw e refl)
last_number-hex_from (suc fuel) n after h = elim (Bool-cases (n == 0)) [
  | inl e ↦ (let q : n ≡ 0 = ground arith in rw q refl)
  | inr e ↦
      (let q : n ≢ 0 = ground arith in
        rw e (
          last_number-hex_from fuel (n / 16) (hex_char (n % 16) ∷ after) (omega arith)
          ∙ ap (λ k. last_number k after)
              (next_digit (n / 16) (n % 16) (omega arith) ∙ omega arith)))
]

last_number-padded : (t : Text) → last_number 0 (padded t) ≡ last_number 0 t
last_number-padded [] = refl
last_number-padded (c ∷ []) = refl
last_number-padded (c ∷ d ∷ s) = refl

last_number-hex_02 : (value : ℕ) → last_number 0 (hex_02 value) ≡ value
unfolding hex_02
last_number-hex_02 value =
    last_number-padded (hex_from value value []) ∙ last_number-hex_from value value [] (omega arith)

last_number-suffix : (acc value : ℕ) → last_number acc (suffix value) ≡ value
last_number-suffix acc value =
    last_number-append acc (codes " (0x") (hex_02 value ++ codes ")")
    ∙ last_number-append 0 (hex_02 value) (codes ")")
    ∙ last_number-hex_02 value

-- The suffix tells the value.
suffix-injective : (l m : Text) (v w : ℕ) → l ++ suffix v ≡ m ++ suffix w → v ≡ w
suffix-injective l m v w e =
    sym (last_number-append 0 l (suffix v) ∙ last_number-suffix (last_number 0 l) v)
    ∙ ap (last_number 0) e
    ∙ (last_number-append 0 m (suffix w) ∙ last_number-suffix (last_number 0 m) w)

-- A label that some option had with a value of its own does not come out again for another value.
taken_label :
    (seen : List (Text × ℕ)) (opts : List (ℕ × Text)) (l : Text) (v : ℕ)
    → value_of l seen ≡ some v
    → All (λ w. v ≢ w) (values_of opts)
    → ((p : ℕ × Text) → Memᴰ p opts → l ≢ p.1 ++ suffix p.0)
    → All (λ o. l ≢ o.1) (dedup_from seen opts)
unfolding dedup_from
taken_label seen [] l v e new plain = tt
taken_label seen ((w, m) ∷ opts) l v e (q, new) plain =
    elim (Bool-cases (is_repeat (value_of m seen) w)) [
      | inl k ↦ rw k (
        plain (w, m) (Memᴰ.head refl),
        taken_label seen opts l v e new (λ p i. plain p (Memᴰ.tail i)),
      )
      | inr k ↦ rw k (
        other k,
        taken_label ((m, w) ∷ seen) opts l v (kept k) new (λ p i. plain p (Memᴰ.tail i)),
      )
    ]
  where
    repeats : value_of m seen ≡ some v → is_repeat (value_of m seen) w ≡ true
    repeats h = rw h (different v w q)
      where
        different : (a b : ℕ) → a ≢ b → not (a == b) ≡ true
        different a b r = ground arith

    other : is_repeat (value_of m seen) w ≡ false → l ≢ m
    other k r = not_both (repeats (rw (← r) e)) k

    kept : is_repeat (value_of m seen) w ≡ false → value_of l ((m, w) ∷ seen) ≡ some v
    kept k = rw (same_text-ne m l (λ r. other k (sym r))) e

-- A label that was made with a suffix does not come out again.
made_label :
    (seen : List (Text × ℕ)) (opts : List (ℕ × Text)) (l : Text) (v : ℕ)
    → All (λ w. v ≢ w) (values_of opts)
    → ((p : ℕ × Text) → Memᴰ p opts → p.1 ≢ l ++ suffix v)
    → All (λ o. (l ++ suffix v) ≢ o.1) (dedup_from seen opts)
unfolding dedup_from
made_label seen [] l v new plain = tt
made_label seen ((w, m) ∷ opts) l v (q, new) plain =
    elim (Bool-cases (is_repeat (value_of m seen) w)) [
      | inl k ↦ rw k (
        (λ r. q (suffix-injective l m v w r)),
        made_label seen opts l v new (λ p i. plain p (Memᴰ.tail i)),
      )
      | inr k ↦ rw k (
        (λ r. plain (w, m) (Memᴰ.head refl) (sym r)),
        made_label ((m, w) ∷ seen) opts l v new (λ p i. plain p (Memᴰ.tail i)),
      )
    ]

abbrev pub DistinctLabels : List (ℕ × Text) → Type 0
DistinctLabels [] = Unit
DistinctLabels (o ∷ os) = All (λ p. o.1 ≢ p.1) os × DistinctLabels os

dedup_from-DistinctLabels :
    (seen : List (Text × ℕ)) (opts : List (ℕ × Text))
    → Distinct (values_of opts)
    → ((o p : ℕ × Text) → Memᴰ o opts → Memᴰ p opts → o.1 ≢ p.1 ++ suffix p.0)
    → DistinctLabels (dedup_from seen opts)
unfolding dedup_from
dedup_from-DistinctLabels seen [] d plain = tt
dedup_from-DistinctLabels seen ((v, l) ∷ opts) (new, d) plain =
    elim (Bool-cases (is_repeat (value_of l seen) v)) [
      | inl k ↦ rw k (
        made_label seen opts l v new (λ p i. plain p (v, l) (Memᴰ.tail i) (Memᴰ.head refl)),
        dedup_from-DistinctLabels seen opts d (λ o p i j. plain o p (Memᴰ.tail i) (Memᴰ.tail j)),
      )
      | inr k ↦ rw k (
        taken_label ((l, v) ∷ seen) opts l v (rw (same_text_refl l) refl) new
            (λ p i. plain (v, l) p (Memᴰ.head refl) (Memᴰ.tail i)),
        dedup_from-DistinctLabels ((l, v) ∷ seen) opts d
            (λ o p i j. plain o p (Memᴰ.tail i) (Memᴰ.tail j)),
      )
    ]

-- Where the values are distinct, and no label is already spelled like one that is made different, no two
-- options have the same label.
pub dedup_option_labels-DistinctLabels :
    (opts : List (ℕ × Text))
    → Distinct (values_of opts)
    → ((o p : ℕ × Text) → Memᴰ o opts → Memᴰ p opts → o.1 ≢ p.1 ++ suffix p.0)
    → DistinctLabels (dedup_option_labels opts)
unfolding dedup_option_labels
dedup_option_labels-DistinctLabels opts d plain = dedup_from-DistinctLabels [] opts d plain
