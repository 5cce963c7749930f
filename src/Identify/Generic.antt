-- ===== src/Identify/Generic.antt =====
-- `generic_of` of identify.py: the row with the least F0.
use mathlib.Core.List.{Memᴰ}
use esphome_vitohome.Common.{
  ◌≡◌, refl, ◌≢◌, inl, inr, Bool, false, Option, none, some, List, [], ◌∷◌, arith, All, All-of,
  All-at, any, Bool-cases, ◌≤ℤ◌, min_from, min_from-le, IsTotalOrder, min_from-mem, ℤ, negsuc,
  ltb_ℤ,
}
use esphome_vitohome.Identify.{Row, is_some_int, f0_key, generic_of}
use esphome_vitohome.Identify.Generation.{any-false}

f0_less : Row → Row → Bool
f0_less s t = ltb_ℤ (f0_key s) (f0_key t)

f0_less-IsTotalOrder : IsTotalOrder f0_less (λ s t. f0_key s ≤ℤ f0_key t)
unfolding f0_less
f0_less-IsTotalOrder = record {
  reflexive = λ x. omega arith;
  transitive = λ x y z p q. omega arith;
  le_of_less = λ x y h. ground arith;
  le_of_not = λ x y h. ground arith;
}

-- Where no row has an F0, all keys are -1.
no_f0_key : (t : Row) → is_some_int t.f0 ≡ false → f0_key t ≡ negsuc 0
no_f0_key t h = go t.f0 h
  where
    go :
        (o : Option ℤ)
        → is_some_int o ≡ false
        → elim o as (λ _. ℤ) [ none ↦ negsuc 0 | some f0 ↦ f0 ] ≡ negsuc 0
    go none h = refl
    go (some f) h = cc

same_key-le : (t u : Row) → f0_key t ≡ negsuc 0 → f0_key u ≡ negsuc 0 → f0_key t ≤ℤ f0_key u
same_key-le t u p q = go (f0_key t) (f0_key u) p q
  where
    go : (a b : ℤ) → a ≡ negsuc 0 → b ≡ negsuc 0 → a ≤ℤ b
    go a b p q = rw (p, q) (omega arith)

no_f0_at :
    (pool : List Row)
    → any (λ t. is_some_int t.f0) pool ≡ false
    → (u : Row) → Memᴰ u pool
    → f0_key u ≡ negsuc 0
no_f0_at pool e u i = no_f0_key u (All-at (λ t. is_some_int t.f0 ≡ false) i (any-false _ pool e))

-- The generic row of a pool that is not empty exists, and its F0 (-1 if it has none) is least.
pub generic_of_lem :
    (pool : List Row)
    → pool ≢ []
    → (t : Row) × (generic_of pool ≡ some t) × Memᴰ t pool × All (λ u. f0_key t ≤ℤ f0_key u) pool
unfolding generic_of f0_less
generic_of_lem [] ne = absurd (ne refl)
generic_of_lem (t ∷ ts) ne = elim (Bool-cases (any (λ t. is_some_int t.f0) (t ∷ ts))) [
  | inl e ↦ (
    min_from f0_less t ts,
    rw e,
    min_from-mem f0_less t ts,
    All-of _ (t ∷ ts) (λ u i. min_from-le f0_less-IsTotalOrder u t ts i),
  )
  | inr e ↦ (
    t,
    rw e,
    Memᴰ.head refl,
    All-of _ (t ∷ ts)
        (λ u i. same_key-le t u (no_f0_at (t ∷ ts) e t (Memᴰ.head refl)) (no_f0_at (t ∷ ts) e u i)),
  )
]
