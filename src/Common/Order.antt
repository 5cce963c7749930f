-- ===== src/Common/Order.antt =====
-- Python's `min` and stable `sorted` with a key, and what they return.
use Prim.Native.Nat.{ℕ, ◌≤◌}
use mathlib.Core.Path.{◌≡◌, refl}
use mathlib.Core.Logic.{inl, inr}
use mathlib.Core.Option.{Option, none, some}
use mathlib.Core.Bool.{Bool, true, false}
use mathlib.Core.List.{List, [], ◌∷◌, Memᴰ}
use native.Mathlib.Omega.{arith}
use native.Mathlib.Nat.{le_trans}
use esphome_vitohome.Common.Tests.{if◌then◌else◌, leb, ltb, leb→le, Bool-cases}
use esphome_vitohome.Common.Lists.{All, All-at, All-of, get_last?}

-- The running minimum of `min(xs, key=key)`: a later element replaces it only if it is less.
module _ {ℓ} {A : Type ℓ} (less : A → A → Bool) where
  abbrev pub min_from : A → List A → A
  min_from best [] = best
  min_from best (x ∷ xs) = min_from (if less x best then x else best) xs

  -- `min` raises on an empty list: here `none`.
  abbrev pub min_by : List A → Option A
  min_by [] = none
  min_by (x ∷ xs) = some (min_from x xs)

  pub min_from-mem : (best : A) (xs : List A) → Memᴰ (min_from best xs) (best ∷ xs)
  min_from-mem best [] = Memᴰ.head refl
  min_from-mem best (x ∷ xs) = elim (Bool-cases (less x best)) [
    | inl e ↦ rw e (Memᴰ.tail (min_from-mem x xs))
    | inr e ↦ rw e (skip (min_from-mem best xs))
  ]
    where
      skip : {a : A} → Memᴰ a (best ∷ xs) → Memᴰ a (best ∷ x ∷ xs)
      skip (Memᴰ.head e) = Memᴰ.head e
      skip (Memᴰ.tail i) = Memᴰ.tail (Memᴰ.tail i)

-- `less` decides the strict part of a total preorder `le`.
pub record IsTotalOrder {ℓ} {A : Type ℓ} (less : A → A → Bool) (le : A → A → Type 0) : Type ℓ where
  pub reflexive : (x : A) → le x x
  pub transitive : (x y z : A) → le x y → le y z → le x z
  pub le_of_less : (x y : A) → less x y ≡ true → le x y
  pub le_of_not : (x y : A) → less x y ≡ false → le y x

module _ {ℓ} {A : Type ℓ} {less : A → A → Bool} {le : A → A → Type 0}
    (order : IsTotalOrder less le) where
  min_from-le_best : (best : A) (xs : List A) → le (min_from less best xs) best
  min_from-le_best best [] = order.reflexive best
  min_from-le_best best (x ∷ xs) = elim (Bool-cases (less x best)) [
    | inl e ↦ rw e (order.transitive _ _ _ (min_from-le_best x xs) (order.le_of_less x best e))
    | inr e ↦ rw e (min_from-le_best best xs)
  ]

  min_from-le_rest : (a best : A) (xs : List A) → Memᴰ a xs → le (min_from less best xs) a
  min_from-le_rest a best [] i = elim i [ ]
  min_from-le_rest a best (x ∷ xs) (Memᴰ.head e) = elim (Bool-cases (less x best)) [
    | inl lower ↦ rw lower (rw e (min_from-le_best x xs))
    | inr higher ↦
        rw higher
          (rw e (order.transitive _ _ _ (min_from-le_best best xs) (order.le_of_not x best higher)))
  ]
  min_from-le_rest a best (x ∷ xs) (Memᴰ.tail i) =
      min_from-le_rest a (if less x best then x else best) xs i

  -- `min` returns an element below all others.
  pub min_from-le : (a best : A) (xs : List A) → Memᴰ a (best ∷ xs) → le (min_from less best xs) a
  min_from-le a best xs (Memᴰ.head e) = rw e (min_from-le_best best xs)
  min_from-le a best xs (Memᴰ.tail i) = min_from-le_rest a best xs i

module _ {ℓ} {A : Type ℓ} (key : A → ℕ) where
  abbrev pub less_by : A → A → Bool
  less_by x y = ltb (key x) (key y)

  pub less_by-IsTotalOrder : IsTotalOrder less_by (λ x y. key x ≤ key y)
  less_by-IsTotalOrder = record {
    reflexive = λ x. omega arith;
    transitive = λ x y z p q. omega arith;
    le_of_less = λ x y h. ground arith;
    le_of_not = λ x y h. ground arith;
  }

  -- Stable insertion: before the first element whose key is not less.
  abbrev pub insert_by : A → List A → List A
  insert_by x [] = x ∷ []
  insert_by x (y ∷ ys) =
      let later = y ∷ insert_by x ys in if leb (key x) (key y) then x ∷ y ∷ ys else later

  -- `sorted(xs, key=key)`
  abbrev pub sorted_by : List A → List A
  sorted_by [] = []
  sorted_by (x ∷ xs) = insert_by x (sorted_by xs)

  abbrev Sorted : List A → Type 0
  Sorted [] = Unit
  Sorted (x ∷ xs) = All (λ y. key x ≤ key y) xs × Sorted xs

  insert_by-mem : (x : A) (ys : List A) (a : A) → Memᴰ a (insert_by x ys) → Memᴰ a (x ∷ ys)
  insert_by-mem x [] a i = i
  insert_by-mem x (y ∷ ys) a i = elim (Bool-cases (leb (key x) (key y))) [
    | inl e ↦ rw e at i
    | inr e ↦ swap (insert_by-mem x ys a) (rw e at i)
  ]
    where
      swap : {zs : List A} → (Memᴰ a zs → Memᴰ a (x ∷ ys)) → Memᴰ a (y ∷ zs) → Memᴰ a (x ∷ y ∷ ys)
      swap f (Memᴰ.head e) = Memᴰ.tail (Memᴰ.head e)
      swap f (Memᴰ.tail j) = back (f j)
        where
          back : Memᴰ a (x ∷ ys) → Memᴰ a (x ∷ y ∷ ys)
          back (Memᴰ.head e) = Memᴰ.head e
          back (Memᴰ.tail k) = Memᴰ.tail (Memᴰ.tail k)

  mem-insert_by : (x : A) (ys : List A) (a : A) → Memᴰ a (x ∷ ys) → Memᴰ a (insert_by x ys)
  mem-insert_by x [] a i = i
  mem-insert_by x (y ∷ ys) a i = elim (Bool-cases (leb (key x) (key y))) [
    | inl e ↦ rw e i
    | inr e ↦ rw e (swap (mem-insert_by x ys a) i)
  ]
    where
      swap : {zs : List A} → (Memᴰ a (x ∷ ys) → Memᴰ a zs) → Memᴰ a (x ∷ y ∷ ys) → Memᴰ a (y ∷ zs)
      swap f (Memᴰ.head e) = Memᴰ.tail (f (Memᴰ.head e))
      swap f (Memᴰ.tail (Memᴰ.head e)) = Memᴰ.head e
      swap f (Memᴰ.tail (Memᴰ.tail k)) = Memᴰ.tail (f (Memᴰ.tail k))

  insert_by-Sorted : (x : A) (ys : List A) → Sorted ys → Sorted (insert_by x ys)
  insert_by-Sorted x [] s = (tt, tt)
  insert_by-Sorted x (y ∷ ys) (low, s) = elim (Bool-cases (leb (key x) (key y))) [
    | inl e ↦
        rw e
          ((leb→le _ _ e, All-of _ ys (λ a i. le_trans (leb→le _ _ e) (All-at _ i low))), (low, s))
    | inr e ↦
        rw e (All-of _ _ (λ a i. at_least e (insert_by-mem x ys a i)), insert_by-Sorted x ys s)
  ]
    where
      at_least : {a : A} → leb (key x) (key y) ≡ false → Memᴰ a (x ∷ ys) → key y ≤ key a
      at_least more (Memᴰ.head e) = rw e (ground arith)
      at_least more (Memᴰ.tail i) = All-at (λ b. key y ≤ key b) i low

  sorted_by-Sorted : (xs : List A) → Sorted (sorted_by xs)
  sorted_by-Sorted [] = tt
  sorted_by-Sorted (x ∷ xs) = insert_by-Sorted x (sorted_by xs) (sorted_by-Sorted xs)

  pub sorted_by-mem : (xs : List A) (a : A) → Memᴰ a (sorted_by xs) → Memᴰ a xs
  sorted_by-mem [] a i = i
  sorted_by-mem (x ∷ xs) a i = grow (sorted_by-mem xs a) (insert_by-mem x (sorted_by xs) a i)
    where
      grow : {ys : List A} → (Memᴰ a ys → Memᴰ a xs) → Memᴰ a (x ∷ ys) → Memᴰ a (x ∷ xs)
      grow f (Memᴰ.head e) = Memᴰ.head e
      grow f (Memᴰ.tail j) = Memᴰ.tail (f j)

  pub mem-sorted_by : (xs : List A) (a : A) → Memᴰ a xs → Memᴰ a (sorted_by xs)
  mem-sorted_by (x ∷ xs) a (Memᴰ.head e) = mem-insert_by x (sorted_by xs) a (Memᴰ.head e)
  mem-sorted_by (x ∷ xs) a (Memᴰ.tail i) =
      mem-insert_by x (sorted_by xs) a (Memᴰ.tail (mem-sorted_by xs a i))
  mem-sorted_by [] a i = elim i [ ]

  last_max : (xs : List A) (m a : A) → Sorted xs → get_last? xs ≡ some m → Memᴰ a xs → key a ≤ key m
  last_max [] m a s e i = elim i [ ]
  last_max (x ∷ []) m a s e (Memᴰ.head h) = (let same : x ≡ m = cc in rw (h, same) (omega arith))
  last_max (x ∷ []) m a s e (Memᴰ.tail i) = elim i [ ]
  last_max (x ∷ y ∷ xs) m a (low, s) e (Memᴰ.head h) =
      rw h (le_trans low.0 (last_max (y ∷ xs) m y s e (Memᴰ.head refl)))
  last_max (x ∷ y ∷ xs) m a (low, s) e (Memᴰ.tail i) = last_max (y ∷ xs) m a s e i

  -- The last element of `sorted` has the greatest key.
  pub sorted_by-last_max :
      (xs : List A) (m a : A) → get_last? (sorted_by xs) ≡ some m → Memᴰ a xs → key a ≤ key m
  sorted_by-last_max xs m a e i =
      last_max (sorted_by xs) m a (sorted_by-Sorted xs) e (mem-sorted_by xs a i)

module _ {ℓ} {A : Type ℓ} where
  pub get_last?-mem : (xs : List A) (m : A) → get_last? xs ≡ some m → Memᴰ m xs
  get_last?-mem [] m e = cc
  get_last?-mem (x ∷ []) m e = Memᴰ.head (cc)
  get_last?-mem (x ∷ y ∷ xs) m e = Memᴰ.tail (get_last?-mem (y ∷ xs) m e)

  pub get_last?-some : (x : A) (xs : List A) → (m : A) × (get_last? (x ∷ xs) ≡ some m)
  get_last?-some x [] = (x, refl)
  get_last?-some x (y ∷ xs) = get_last?-some y xs

  pub get_last?-none : (xs : List A) (a : A) → get_last? xs ≡ none → Memᴰ a xs → ⊥
  get_last?-none [] a e i = elim i [ ]
  get_last?-none (x ∷ []) a e i = cc
  get_last?-none (x ∷ y ∷ xs) a e i = get_last?-none (y ∷ xs) y e (Memᴰ.head refl)
