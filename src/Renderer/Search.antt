-- ===== src/Renderer/Search.antt =====
-- The loop of `_make_obj_id` ends, with an id that is not used.
use esphome_vitohome.Common.{
  ℕ, zero, suc, ◌+◌, ◌*◌, ◌-◌, ◌/◌, ◌%◌, ◌≤◌, ◌<◌, ◌≡◌, refl, sym, ap, ◌∙◌, ◌≢◌, inl, inr, Bool,
  true, false, not, ◌||◌, Option, none, some, List, [], ◌∷◌, ◌++◌, arith, Bool-cases, ◌==◌, length,
  keep_if, if◌then◌else◌, Text, same_text, same_text_sound, same_text-ne,
}
use esphome_vitohome.Renderer.{decimal_from, nth_candidate, is_used, search_id}

-- The number that a text ends in, after its last underscore.
abbrev next_decimal : ℕ → ℕ → ℕ
next_decimal acc c = if c == 95 then 0 else acc * 10 + (c - 48)

abbrev decimal_end : ℕ → Text → ℕ
decimal_end acc [] = acc
decimal_end acc (c ∷ s) = decimal_end (next_decimal acc c) s

decimal_end-append :
    (acc : ℕ) (s t : Text) → decimal_end acc (s ++ t) ≡ decimal_end (decimal_end acc s) t
decimal_end-append acc [] t = refl
decimal_end-append acc (c ∷ s) t = decimal_end-append (next_decimal acc c) s t

next_decimal_digit : (acc d : ℕ) → d < 10 → next_decimal acc (d + 48) ≡ acc * 10 + d
next_decimal_digit acc d h = ground arith

decimal_end-decimal_from :
    (fuel n : ℕ) (after : Text)
    → n ≤ fuel
    → decimal_end 0 (decimal_from fuel n after) ≡ decimal_end n after
decimal_end-decimal_from zero n after h = (let e : n ≡ 0 = omega arith in rw e refl)
decimal_end-decimal_from (suc fuel) n after h = elim (Bool-cases (n == 0)) [
  | inl e ↦ (let q : n ≡ 0 = ground arith in rw q refl)
  | inr e ↦
      (let q : n ≢ 0 = ground arith in
        rw e (
          decimal_end-decimal_from fuel (n / 10) ((n % 10 + 48) ∷ after) (omega arith)
          ∙ ap (λ k. decimal_end k after)
              (next_decimal_digit (n / 10) (n % 10) (omega arith) ∙ omega arith)))
]

numbered_end : (base : Text) (k : ℕ) → decimal_end 0 (nth_candidate base (suc k)) ≡ k + 2
unfolding nth_candidate
numbered_end base k =
    decimal_end-append 0 base (95 ∷ decimal_from (k + 2) (k + 2) [])
    ∙ decimal_end-decimal_from (k + 2) (k + 2) [] (omega arith)

length-append : {A : Type 0} (xs ys : List A) → length (xs ++ ys) ≡ length xs + length ys
length-append [] ys = omega arith
length-append (x ∷ xs) ys = (let e = length-append xs ys in omega (arith, e))

-- No two candidates are the same.
nth_candidate-injective :
    (base : Text) (i j : ℕ) → nth_candidate base i ≡ nth_candidate base j → i ≡ j
unfolding nth_candidate
nth_candidate-injective base zero zero e = refl
nth_candidate-injective base zero (suc j) e =
    absurd (longer base 95 (decimal_from (j + 2) (j + 2) []) e)
  where
    longer : (s : Text) (c : ℕ) (t : Text) → s ≢ s ++ (c ∷ t)
    longer s c t q = (let a = ap length q ∙ length-append s (c ∷ t) in omega (arith, a))
nth_candidate-injective base (suc i) zero e =
    absurd (longer base 95 (decimal_from (i + 2) (i + 2) []) (sym e))
  where
    longer : (s : Text) (c : ℕ) (t : Text) → s ≢ s ++ (c ∷ t)
    longer s c t q = (let a = ap length q ∙ length-append s (c ∷ t) in omega (arith, a))
nth_candidate-injective base (suc i) (suc j) e =
    let a : i + 2 ≡ j + 2 =
      sym (numbered_end base i) ∙ ap (decimal_end 0) e ∙ numbered_end base j in
    omega (arith, a)

abbrev without : Text → List Text → List Text
without x xs = keep_if (λ t. not (same_text t x)) xs

length-without_le : (x : Text) (xs : List Text) → length (without x xs) ≤ length xs
length-without_le x [] = omega arith
length-without_le x (y ∷ xs) = elim (Bool-cases (same_text y x)) [
  | inl e ↦ (let h = length-without_le x xs in rw e (omega (arith, h)))
  | inr e ↦ (let h = length-without_le x xs in rw e (omega (arith, h)))
]

length-without :
    (x : Text) (xs : List Text) → is_used x xs ≡ true → suc (length (without x xs)) ≤ length xs
length-without x [] h = cc
length-without x (y ∷ xs) h = elim (Bool-cases (same_text y x)) [
  | inl e ↦ (let g = length-without_le x xs in rw e (omega (arith, g)))
  | inr e ↦ (let g = length-without x xs (rw e at h) in rw e (omega (arith, g)))
]

used-without :
    (x z : Text) (xs : List Text) → z ≢ x → is_used z xs ≡ true → is_used z (without x xs) ≡ true
used-without x z [] q h = cc
used-without x z (y ∷ xs) q h = elim (Bool-cases (same_text y x)) [
  | inl e ↦ rw e (used-without x z xs q (skip (same_text y z) (is_used z xs) (different e) h))
  | inr e ↦
      rw e
        (either (same_text y z) (is_used z xs) (is_used z (without x xs)) h (used-without x z xs q))
]
  where
    different : same_text y x ≡ true → same_text y z ≡ false
    different e = same_text-ne y z (λ r. q (sym r ∙ same_text_sound y x e))

    skip : (a b : Bool) → a ≡ false → (a || b) ≡ true → b ≡ true
    skip true b f h = cc
    skip false b f h = h

    either : (a b c : Bool) → (a || b) ≡ true → (b ≡ true → c ≡ true) → (a || c) ≡ true
    either true b c h f = refl
    either false b c h f = f h

-- As many candidates as are all used, so many ids are used.
candidates-le-used :
    (n i : ℕ) (base : Text) (used : List Text)
    → ((k : ℕ) → i ≤ k → k < i + n → is_used (nth_candidate base k) used ≡ true)
    → n ≤ length used
candidates-le-used zero i base used f = omega arith
candidates-le-used (suc n) i base used f =
    let fewer = length-without (nth_candidate base i) used (f i (omega arith) (omega arith)) in
    let rest : n ≤ length (without (nth_candidate base i) used) =
      candidates-le-used n (suc i) base (without (nth_candidate base i) used) (λ k h g.
        used-without (nth_candidate base i) (nth_candidate base k) used (later k h)
          (f k (omega arith) (omega arith))) in
    omega (arith, fewer, rest)
  where
    later : (k : ℕ) → suc i ≤ k → nth_candidate base k ≢ nth_candidate base i
    later k h q = (let e : k ≡ i = nth_candidate-injective base k i q in omega arith)

search_id-none :
    (fuel i : ℕ) (base : Text) (used : List Text)
    → search_id fuel base i used ≡ none
    → (k : ℕ) → i ≤ k
    → k < i + fuel
    → is_used (nth_candidate base k) used ≡ true
unfolding search_id
search_id-none zero i base used h k low high = (let q : ⊥ = omega arith in absurd q)
search_id-none (suc fuel) i base used h k low high =
    elim (Bool-cases (is_used (nth_candidate base i) used)) [
      | inl e ↦ elim (Bool-cases (k == i)) [
        | inl q ↦ (let r : k ≡ i = ground arith in rw r e)
        | inr q ↦
            (let r : k ≢ i = ground arith in
              search_id-none fuel (suc i) base used (rw e at h) k (omega arith) (omega arith))
      ]
      | inr e ↦ (let q : some (nth_candidate base i) ≡ none = (rw e at h) in cc)
    ]

search_id-some :
    (fuel i : ℕ) (base : Text) (used : List Text) (c : Text)
    → search_id fuel base i used ≡ some c
    → (is_used c used ≡ false) × (k : ℕ) × (c ≡ nth_candidate base k)
unfolding search_id
search_id-some zero i base used c h = cc
search_id-some (suc fuel) i base used c h =
    elim (Bool-cases (is_used (nth_candidate base i) used)) [
      | inl e ↦ search_id-some fuel (suc i) base used c (rw e at h)
      | inr e ↦
          (let q : some (nth_candidate base i) ≡ some c = (rw e at h) in
            let r : c ≡ nth_candidate base i = cc in (rw r e, i, r))
    ]

pub search_id-finds :
    (base : Text) (used : List Text)
    → (c : Text) × (search_id (suc (length used)) base 0 used ≡ some c)
      × (is_used c used ≡ false)
      × (k : ℕ) × (c ≡ nth_candidate base k)
search_id-finds base used = go (search_id (suc (length used)) base 0 used) refl
  where
    go :
        (o : Option Text)
        → search_id (suc (length used)) base 0 used ≡ o
        → (c : Text) × (search_id (suc (length used)) base 0 used ≡ some c)
          × (is_used c used ≡ false)
          × (k : ℕ) × (c ≡ nth_candidate base k)
    go none e =
        let h : suc (length used) ≤ length used =
          candidates-le-used (suc (length used)) 0 base used
            (search_id-none (suc (length used)) 0 base used e) in
        absurd (never h)
      where
        never : suc (length used) ≤ length used → ⊥
        never h = omega arith
    go (some c) e =
        let (free, k, same) = search_id-some (suc (length used)) 0 base used c e in
        (c, e, free, k, same)
