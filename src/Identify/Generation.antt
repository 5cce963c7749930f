-- ===== src/Identify/Generation.antt =====
-- The candidates that the hardware byte leaves (step 3 of `resolve_pool` in identify.py).
use mathlib.Core.List.{Memᴰ}
use esphome_vitohome.Common.{
  ℕ, ◌≡◌, refl, ◌≢◌, ◌⊎◌, inl, inr, Bool, true, false, Option, none, some, List, [], ◌∷◌, arith,
  All, All-of, All-at, keep_if, any, mem-keep_if, mem_of_mem-keep_if, keep_if-eq-nil, Bool-cases,
  pos, eqb_ℤ, eqb_ℤ_iff,
}
use esphome_vitohome.Identify.{
  Row, candidates, of_generation, or_else, single_high, same_hw, high_of,
}

-- The row has the live hardware byte, or no row of the family has it.
abbrev pub InGeneration : Option ℕ → List Row → Row → Type 0
InGeneration none have_ext t = Unit
InGeneration (some hw) have_ext t = (high_of t ≡ pos hw) ⊎ All (λ u. high_of u ≢ pos hw) have_ext

-- Another generation than the live hardware byte.
abbrev pub OtherGeneration : Option ℕ → Row → Type 0
OtherGeneration none u = ⊥
OtherGeneration (some hw) u = high_of u ≢ pos hw

pub any-false : (p : Row → Bool) (xs : List Row) → any p xs ≡ false → All (λ u. p u ≡ false) xs
any-false p [] h = tt
any-false p (x ∷ xs) h = (ground arith, any-false p xs (ground arith))

any-true : (p : Row → Bool) (xs : List Row) → any p xs ≡ true → (u : Row) × Memᴰ u xs × (p u ≡ true)
any-true p [] h = cc
any-true p (x ∷ xs) h = elim (Bool-cases (p x)) [
  | inl e ↦ (x, Memᴰ.head refl, e)
  | inr e ↦ (let (u, i, k) = any-true p xs (rw e at h) in (u, Memᴰ.tail i, k))
]

of_generation-keeps :
    (hw : Option ℕ) (have_ext : List Row) (t : Row)
    → Memᴰ t (of_generation hw have_ext)
    → Memᴰ t have_ext × InGeneration hw have_ext t
of_generation-keeps none have_ext t i = (i, tt)
of_generation-keeps (some hw) have_ext t i =
    elim (Bool-cases (any (λ t. eqb_ℤ (high_of t) (pos hw)) have_ext)) [
      | inl e ↦ listed (mem_of_mem-keep_if (same_hw (some hw)) have_ext t (rw e at i))
      | inr e ↦ (rw e at i, inr (All-of _ have_ext (λ u j q. unlisted e u j q)))
    ]
  where
    listed :
        Memᴰ t have_ext × (eqb_ℤ (high_of t) (pos hw) ≡ true)
        → Memᴰ t have_ext × ((high_of t ≡ pos hw) ⊎ All (λ u. high_of u ≢ pos hw) have_ext)
    listed (j, h) = (j, inl ((eqb_ℤ_iff _ _).0 h))

    unlisted :
        any (λ t. eqb_ℤ (high_of t) (pos hw)) have_ext ≡ false
        → (u : Row) → Memᴰ u have_ext
        → high_of u ≡ pos hw
        → ⊥
    unlisted e u j q =
        cc (All-at _ j (any-false _ have_ext e), (eqb_ℤ_iff (high_of u) (pos hw)).1 q)

of_generation_complete :
    (hw : Option ℕ) (have_ext : List Row) (u : Row)
    → Memᴰ u have_ext
    → Memᴰ u (of_generation hw have_ext) ⊎ OtherGeneration hw u
of_generation_complete none have_ext u i = inl i
of_generation_complete (some hw) have_ext u i =
    elim (Bool-cases (any (λ t. eqb_ℤ (high_of t) (pos hw)) have_ext)) [
      | inr e ↦ rw e (inl i)
      | inl e ↦ rw e (elim (Bool-cases (eqb_ℤ (high_of u) (pos hw))) [
        | inl h ↦ inl (mem-keep_if (same_hw (some hw)) have_ext u i h)
        | inr h ↦ inr (λ q. cc (h, (eqb_ℤ_iff (high_of u) (pos hw)).1 q))
      ])
    ]

of_generation-ne-nil :
    (hw : Option ℕ) (have_ext : List Row) → have_ext ≢ [] → of_generation hw have_ext ≢ []
of_generation-ne-nil none have_ext ne = ne
of_generation-ne-nil (some hw) have_ext ne =
    elim (Bool-cases (any (λ t. eqb_ℤ (high_of t) (pos hw)) have_ext)) [
      | inr e ↦ rw e ne
      | inl e ↦ rw e (λ empty.
          (let (u, i, h) = any-true _ have_ext e in
            cc (h, keep_if-eq-nil (same_hw (some hw)) have_ext u empty i)))
    ]

or_else-keeps :
    (p : Row → Bool) (xs : List Row) (t : Row) → Memᴰ t (or_else (keep_if p xs) xs) → Memᴰ t xs
or_else-keeps p xs t i = go (keep_if p xs) refl i
  where
    go : (ys : List Row) → keep_if p xs ≡ ys → Memᴰ t (or_else ys xs) → Memᴰ t xs
    go [] e i = i
    go (y ∷ ys) e i = (mem_of_mem-keep_if p xs t (rw e i)).0

or_else_complete :
    (p : Row → Bool) (xs : List Row) (u : Row)
    → Memᴰ u xs
    → Memᴰ u (or_else (keep_if p xs) xs) ⊎ (p u ≡ false)
or_else_complete p xs u i = go (keep_if p xs) refl
  where
    go : (ys : List Row) → keep_if p xs ≡ ys → Memᴰ u (or_else ys xs) ⊎ (p u ≡ false)
    go [] e = inl i
    go (y ∷ ys) e = elim (Bool-cases (p u)) [
      | inl h ↦ inl (rw e at (mem-keep_if p xs u i h))
      | inr h ↦ inr h
    ]

or_else-ne-nil : (ys xs : List Row) → xs ≢ [] → or_else ys xs ≢ []
or_else-ne-nil [] xs ne = ne
or_else-ne-nil (y ∷ ys) xs ne = λ q. cc

module _ (hw : Option ℕ) (have_ext : List Row) where
  pub candidates-keeps :
      (t : Row) → Memᴰ t (candidates hw have_ext) → Memᴰ t have_ext × InGeneration hw have_ext t
  unfolding candidates
  candidates-keeps t i = of_generation-keeps hw have_ext t (or_else-keeps single_high _ t i)

  pub candidates-ne-nil : have_ext ≢ [] → candidates hw have_ext ≢ []
  unfolding candidates
  candidates-ne-nil ne = or_else-ne-nil _ _ (of_generation-ne-nil hw have_ext ne)

  -- A candidate is a row of the family in the live generation, or in any if no row has the live
  -- hardware byte; a row is left out only for another generation or for a range that spans two.
  pub candidates_lem :
      have_ext ≢ []
      → (candidates hw have_ext ≢ [])
        × All (λ t. Memᴰ t have_ext × InGeneration hw have_ext t) (candidates hw have_ext)
        × All
            (λ u. Memᴰ u (candidates hw have_ext) ⊎ OtherGeneration hw u ⊎ (single_high u ≡ false))
            have_ext
  unfolding candidates
  candidates_lem ne =
      (candidates-ne-nil ne, All-of _ _ candidates-keeps, All-of _ have_ext complete)
    where
      complete :
          (u : Row)
          → Memᴰ u have_ext
          → Memᴰ u (candidates hw have_ext) ⊎ OtherGeneration hw u ⊎ (single_high u ≡ false)
      complete u i = elim (of_generation_complete hw have_ext u i) [
        | inl j ↦ elim (or_else_complete single_high (of_generation hw have_ext) u j) [
          | inl k ↦ inl k
          | inr h ↦ inr (inr h)
        ]
        | inr o ↦ inr (inl o)
      ]
