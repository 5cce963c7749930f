-- ===== src/Common/Lists.antt =====
-- Lists as Python's comprehensions and built-ins use them: selection by a Boolean test, membership,
-- `all`, the last element.
use Prim.Native.Nat.{ℕ, suc}
use mathlib.Core.Path.{◌≡◌, refl}
use mathlib.Core.Logic.{inl, inr}
use mathlib.Core.Bool.{Bool, true, false, ◌||◌, ◌&&◌}
use mathlib.Core.List.{List, [], ◌∷◌, Memᴰ}
use mathlib.Core.Option.{Option, none, some}
use esphome_vitohome.Common.Tests.{if◌then◌else◌, Bool-cases}

module _ {ℓ} {A : Type ℓ} where
  abbrev pub length : List A → ℕ
  length [] = 0
  length (x ∷ xs) = suc (length xs)

  -- `[t for t in xs if p(t)]`
  abbrev pub keep_if : (A → Bool) → List A → List A
  keep_if p [] = []
  keep_if p (x ∷ xs) = let rest = keep_if p xs in if p x then x ∷ rest else rest

  -- `any(p(t) for t in xs)`
  abbrev pub any : (A → Bool) → List A → Bool
  any p [] = false
  any p (x ∷ xs) = p x || any p xs

  -- `all(p(t) for t in xs)`
  abbrev pub all : (A → Bool) → List A → Bool
  all p [] = true
  all p (x ∷ xs) = p x && all p xs

  -- `xs[-1]`
  abbrev pub get_last? : List A → Option A
  get_last? [] = none
  get_last? (x ∷ []) = some x
  get_last? (x ∷ y ∷ xs) = get_last? (y ∷ xs)

  abbrev pub head? : List A → Option A
  head? [] = none
  head? (x ∷ xs) = some x

module _ {ℓ κ} {A : Type ℓ} (P : A → Type κ) where
  abbrev pub All : List A → Type κ
  All [] = Unit
  All (x ∷ xs) = P x × All xs

  pub All-at : {a : A} {xs : List A} → Memᴰ a xs → All xs → P a
  All-at (Memᴰ.head e) (p, _) = rw e p
  All-at (Memᴰ.tail i) (_, h) = All-at i h

  pub All-of : (xs : List A) → ((a : A) → Memᴰ a xs → P a) → All xs
  All-of [] f = tt
  All-of (x ∷ xs) f = (f x (Memᴰ.head refl), All-of xs (λ a i. f a (Memᴰ.tail i)))

module _ {ℓ} {A : Type ℓ} (p : A → Bool) where
  pub mem-keep_if : (xs : List A) (a : A) → Memᴰ a xs → p a ≡ true → Memᴰ a (keep_if p xs)
  mem-keep_if [] a i h = elim i [ ]
  mem-keep_if (x ∷ xs) a (Memᴰ.head e) h = rw (rw e at h) (Memᴰ.head e)
  mem-keep_if (x ∷ xs) a (Memᴰ.tail i) h = elim (Bool-cases (p x)) [
    | inl e ↦ rw e (Memᴰ.tail (mem-keep_if xs a i h))
    | inr e ↦ rw e (mem-keep_if xs a i h)
  ]

  mem_of_mem-cons :
      {a x : A} {xs ys : List A}
      → p x ≡ true
      → (Memᴰ a ys → Memᴰ a xs × (p a ≡ true))
      → Memᴰ a (x ∷ ys)
      → Memᴰ a (x ∷ xs) × (p a ≡ true)
  mem_of_mem-cons h f (Memᴰ.head e) = (Memᴰ.head e, rw e h)
  mem_of_mem-cons h f (Memᴰ.tail i) = let (j, k) = f i in (Memᴰ.tail j, k)

  pub mem_of_mem-keep_if : (xs : List A) (a : A) → Memᴰ a (keep_if p xs) → Memᴰ a xs × (p a ≡ true)
  mem_of_mem-keep_if [] a i = elim i [ ]
  mem_of_mem-keep_if (x ∷ xs) a i = elim (Bool-cases (p x)) [
    | inl e ↦ mem_of_mem-cons e (mem_of_mem-keep_if xs a) (rw e at i)
    | inr e ↦ skipped (mem_of_mem-keep_if xs a (rw e at i))
  ]
    where
      skipped : Memᴰ a xs × (p a ≡ true) → Memᴰ a (x ∷ xs) × (p a ≡ true)
      skipped (j, k) = (Memᴰ.tail j, k)

  -- What was kept is not empty exactly if some element passes.
  pub keep_if-eq-nil : (xs : List A) (a : A) → keep_if p xs ≡ [] → Memᴰ a xs → p a ≡ false
  keep_if-eq-nil xs a e i = elim (Bool-cases (p a)) [
    | inl h ↦ absurd (not_mem (rw e at (mem-keep_if xs a i h)))
    | inr h ↦ h
  ]
    where
      not_mem : Memᴰ a [] → ⊥
      not_mem i = elim i [ ]
