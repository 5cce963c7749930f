-- ===== src/Catalog/Toggles/Labels.antt =====
-- transforms.py `_boolean_pair`: each of its rules takes for on the option whose label says on.
use mathlib.Core.List.{Memᴰ}
use esphome_vitohome.Common.{
  ◌&&◌, lower, same_text_sound, and-true, ℕ, ◌≡◌, refl, ◌⊎◌, inl, inr, Bool, true, false, Option,
  none, some, List, [], ◌∷◌, ◌++◌, String, Text, codes, same_text, if◌then◌else◌,
}
use esphome_vitohome.Catalog.Toggles.{
  last_part, has_word, both_stems, parts_are, by_parts, by_stem, by_negation, by_words,
  boolean_on_off_pairs, ◌or_else◌, norm_bool_label,
}

-- Labels that say on and off: by the name of their type, of which part 1 is on and part 0 is off; as a
-- word and its negation; or as one of the known pairs of words.
abbrev pub Says : (l_on l_off : Text) → Type 0
Says l_on l_off =
    ((both_stems l_on l_off ≡ true) × (last_part l_on ≡ codes "1") × (last_part l_off ≡ codes "0"))
    ⊎ ((norm_bool_label l_off ≡ codes "nicht " ++ norm_bool_label l_on)
        ⊎ ((on_word : String) × (off_word : String) × Memᴰ (on_word, off_word) boolean_on_off_pairs
            × (norm_bool_label l_on ≡ codes on_word)
            × (norm_bool_label l_off ≡ codes off_word)))

-- A pair of on and off, each with the label that says so.
abbrev pub Decides : ℕ → Text → ℕ → Text → Option (ℕ × ℕ) → Type 0
Decides v_a l_a v_b l_b none = Unit
Decides v_a l_a v_b l_b (some p) =
    ((p.0 ≡ v_a) × (p.1 ≡ v_b) × Says l_a l_b) ⊎ ((p.0 ≡ v_b) × (p.1 ≡ v_a) × Says l_b l_a)

module _ (v_a : ℕ) (l_a : Text) (v_b : ℕ) (l_b : Text) where
  abbrev pub Right : Option (ℕ × ℕ) → Type 0
  Right = Decides v_a l_a v_b l_b

  pub or_else-Right : (p q : Option (ℕ × ℕ)) → Right p → Right q → Right (p or_else q)
  or_else-Right none q h k = k
  or_else-Right (some p) q h k = h

  -- Two tests, of which the first gives one order and the second the other.
  tested :
      (s t : Bool) (q : Option (ℕ × ℕ))
      → (s ≡ true → Says l_a l_b)
      → (t ≡ true → Says l_b l_a)
      → Right q
      → Right (if s then some (v_a, v_b) else if t then some (v_b, v_a) else q)
  tested true t q f g h = inl (refl, refl, f refl)
  tested false true q f g h = inr (refl, refl, g refl)
  tested false false q f g h = h

  swapped :
      (s t : Bool) (q : Option (ℕ × ℕ))
      → (s ≡ true → Says l_b l_a)
      → (t ≡ true → Says l_a l_b)
      → Right q
      → Right (if s then some (v_b, v_a) else if t then some (v_a, v_b) else q)
  swapped true t q f g h = inr (refl, refl, f refl)
  swapped false true q f g h = inl (refl, refl, g refl)
  swapped false false q f g h = h

  abbrev pub Known : List (String × String) → Type 0
  Known pairs = (p : String × String) → Memᴰ p pairs → Memᴰ p boolean_on_off_pairs

  pub by_words-Right :
      (pairs : List (String × String))
      → Known pairs
      → Right (by_words pairs v_a (norm_bool_label l_a) v_b (norm_bool_label l_b))
  by_words-Right [] known = tt
  by_words-Right ((on_word, off_word) ∷ pairs) known =
      let pair = known (on_word, off_word) (Memᴰ.head refl) in
      tested _ _ _
        (λ e.
          (let (p, q) = both on_word off_word _ _ e in inr (inr (on_word, off_word, pair, p, q))))
        (λ e.
          (let (q, p) = both off_word on_word _ _ e in inr (inr (on_word, off_word, pair, p, q))))
        (by_words-Right pairs (λ p m. known p (Memᴰ.tail m)))
    where
      both :
          (u v : String) (a b : Text)
          → (same_text a (codes u) && same_text b (codes v)) ≡ true
          → (a ≡ codes u) × (b ≡ codes v)
      both u v a b h =
          let (p, q) = and-true (same_text a (codes u)) (same_text b (codes v)) h in
          (same_text_sound a (codes u) p, same_text_sound b (codes v) q)

  pub by_stem-Right : Right (by_stem v_a l_a v_b l_b)
  by_stem-Right = go (both_stems l_a l_b) refl
    where
      parts :
          (p q : String) (a b : Text)
          → parts_are p q a b ≡ true
          → (last_part a ≡ codes p) × (last_part b ≡ codes q)
      parts p q a b h =
          let (i, j) =
            and-true (same_text (last_part a) (codes p)) (same_text (last_part b) (codes q)) h in
          (same_text_sound (last_part a) (codes p) i, same_text_sound (last_part b) (codes q) j)

      other_way : both_stems l_a l_b ≡ true → both_stems l_b l_a ≡ true
      other_way h =
          let (p, q) =
            and-true (has_word (codes "_ein_aus~") (lower l_a))
              (has_word (codes "_ein_aus~") (lower l_b)) h in
          rw (p, q) refl

      go :
          (s : Bool) → both_stems l_a l_b ≡ s → Right (if s then by_parts v_a l_a v_b l_b else none)
      go false e = tt
      go true e =
          tested (parts_are "1" "0" l_a l_b) (parts_are "0" "1" l_a l_b) none
            (λ h. (let (i, j) = parts "1" "0" l_a l_b h in inl (e, i, j)))
            (λ h. (let (i, j) = parts "0" "1" l_a l_b h in inl (other_way e, j, i))) tt

  pub by_negation-Right : Right (by_negation v_a (norm_bool_label l_a) v_b (norm_bool_label l_b))
  by_negation-Right =
      swapped _ _ none (λ h. inr (inl (same_text_sound _ _ h)))
        (λ h. inr (inl (same_text_sound _ _ h))) tt
