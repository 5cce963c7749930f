-- ===== src/Renderer/Ids.antt =====
-- The ids of `_make_obj_id` are valid, and no two are the same.
use esphome_vitohome.Common.{
  ℕ, zero, suc, ◌+◌, ◌/◌, ◌%◌, ◌<◌, ◌≡◌, refl, true, false, ◌&&◌, some, List, [], ◌∷◌, ◌++◌, arith,
  All, Bool-cases, inl, inr, ◌==◌, if◌then◌else◌, Text,
}
use esphome_vitohome.Renderer.{
  is_digit, is_id_char, sanitised, after_underscore, collapsed, trim_start, before_end, trim_end,
  prefixed, base_id, decimal_from, nth_candidate, is_used, make_obj_id,
}
use esphome_vitohome.Renderer.Search.{search_id-finds}

abbrev IdChars : Text → Type 0
IdChars s = All (λ c. is_id_char c ≡ true) s

-- An ESPHome id: letters, digits and underscores, at least one, and no digit first.
abbrev pub IsId : Text → Type 0
IsId [] = ⊥
IsId (c ∷ s) = (is_digit c ≡ false) × All (λ d. is_id_char d ≡ true) (c ∷ s)

sanitised-IdChars : (s : Text) → IdChars (sanitised s)
unfolding is_id_char
sanitised-IdChars [] = tt
sanitised-IdChars (c ∷ s) = (kept, sanitised-IdChars s)
  where
    kept : is_id_char (if is_id_char c then c else 95) ≡ true
    kept = elim (Bool-cases (is_id_char c)) [
      | inl e ↦ rw (e, is_id_char) e
      | inr e ↦ rw (e, is_id_char) refl
    ]

after_underscore-IdChars :
    (c : ℕ) (s : Text) → is_id_char c ≡ true → IdChars s → IdChars (after_underscore c s)
after_underscore-IdChars c [] p h = (p, h)
after_underscore-IdChars c (d ∷ s) p (q, h) = elim (Bool-cases ((c == 95) && (d == 95))) [
  | inl e ↦ rw e (q, h)
  | inr e ↦ rw e (p, (q, h))
]

collapsed-IdChars : (s : Text) → IdChars s → IdChars (collapsed s)
collapsed-IdChars [] h = tt
collapsed-IdChars (c ∷ s) (p, h) =
    after_underscore-IdChars c (collapsed s) p (collapsed-IdChars s h)

trim_start-IdChars : (s : Text) → IdChars s → IdChars (trim_start s)
trim_start-IdChars [] h = tt
trim_start-IdChars (c ∷ s) (p, h) = elim (Bool-cases (c == 95)) [
  | inl e ↦ rw e (trim_start-IdChars s h)
  | inr e ↦ rw e (p, h)
]

before_end-IdChars : (c : ℕ) (s : Text) → is_id_char c ≡ true → IdChars s → IdChars (before_end c s)
before_end-IdChars c [] p h = elim (Bool-cases (c == 95)) [ inl e ↦ rw e tt | inr e ↦ rw e (p, tt) ]
before_end-IdChars c (d ∷ s) p h = (p, h)

trim_end-IdChars : (s : Text) → IdChars s → IdChars (trim_end s)
trim_end-IdChars [] h = tt
trim_end-IdChars (c ∷ s) (p, h) = before_end-IdChars c (trim_end s) p (trim_end-IdChars s h)

prefixed-IsId : (s : Text) → IdChars s → IsId (prefixed s)
unfolding is_id_char
prefixed-IsId [] h = (refl, (refl, (refl, (refl, (refl, (refl, tt))))))
prefixed-IsId (c ∷ s) (p, h) = elim (Bool-cases (is_digit c)) [
  | inl e ↦ rw e (refl, (refl, (refl, (refl, (p, h)))))
  | inr e ↦ rw e (e, (p, h))
]

base_id-IsId : (tech : Text) → IsId (base_id tech)
unfolding base_id
base_id-IsId tech = prefixed-IsId (trim_end (trim_start (collapsed (sanitised tech)))) (
    trim_end-IdChars (trim_start (collapsed (sanitised tech))) (
      trim_start-IdChars (collapsed (sanitised tech))
        (collapsed-IdChars (sanitised tech) (sanitised-IdChars tech))))

append-IdChars : (s t : Text) → IdChars s → IdChars t → IdChars (s ++ t)
append-IdChars [] t h g = g
append-IdChars (c ∷ s) t (p, h) g = (p, append-IdChars s t h g)

append-IsId : (s t : Text) → IsId s → IdChars t → IsId (s ++ t)
append-IsId [] t h g = absurd h
append-IsId (c ∷ s) t (d, (p, h)) g = (d, (p, append-IdChars s t h g))

digit-is_id_char : (d : ℕ) → d < 10 → is_id_char (d + 48) ≡ true
unfolding is_id_char
digit-is_id_char d h = ground arith

decimal_from-IdChars :
    (fuel n : ℕ) (after : Text) → IdChars after → IdChars (decimal_from fuel n after)
decimal_from-IdChars zero n after h = h
decimal_from-IdChars (suc fuel) n after h = elim (Bool-cases (n == 0)) [
  | inl e ↦ rw e h
  | inr e ↦ rw e (
      decimal_from-IdChars fuel (n / 10) ((n % 10 + 48) ∷ after)
        (digit-is_id_char (n % 10) (omega arith), h))
]

nth_candidate-IsId : (base : Text) (k : ℕ) → IsId base → IsId (nth_candidate base k)
unfolding nth_candidate is_id_char
nth_candidate-IsId base zero h = h
nth_candidate-IsId base (suc k) h =
    append-IsId base (95 ∷ decimal_from (k + 2) (k + 2) []) h
      (refl, decimal_from-IdChars (k + 2) (k + 2) [] tt)

-- Whatever the technical name and the ids in use, an id is found, which no entity uses and ESPHome
-- accepts: letters, digits and underscores, no digit first.
pub make_obj_id-IsId :
    (tech : Text) (used : List Text)
    → (c : Text) × (make_obj_id tech used ≡ some c) × (is_used c used ≡ false) × IsId c
unfolding make_obj_id
make_obj_id-IsId tech used =
    let (c, found, free, k, same) = search_id-finds (base_id tech) used in
    (c, found, free, rw same (nth_candidate-IsId (base_id tech) k (base_id-IsId tech)))
