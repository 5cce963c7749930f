-- ===== src/Identify/Devices.antt =====
-- `resolve_device` of identify.py: which row's token it returns, and why.
use mathlib.Core.List.{Memᴰ}
use esphome_vitohome.Common.{
  ℕ, ◌≡◌, refl, ◌≢◌, ◌⊎◌, inl, inr, true, false, Option, none, some, List, [], ◌∷◌, All, All-of,
  keep_if, mem-keep_if, mem_of_mem-keep_if, keep_if-eq-nil, Bool-cases, ℤ, ◌≤ℤ◌,
}
use esphome_vitohome.Identify.{
  Row, How, family, range, floor, lowest, Found, Pool, no_family, found, raised, resolve_pool, pos,
  is_some_int, f0_key, head_row, f0_matches, Tail, no_tail, not_provided, f0_match, f0_miss, Device,
  unknown_id, ambiguous, resolved, by_f0, ranged_device, family_device, device_of, device_of_pool,
  resolve_device,
}
use esphome_vitohome.Identify.Resolution.{PoolSpec, resolve_pool-selects, found-ne-nil}
use esphome_vitohome.Identify.Generic.{generic_of_lem}

-- Why the row `t` of the pool was taken.
abbrev pub TailSpec : List Row → Option ℤ → How → Row → Tail → Type 0
TailSpec pool number how t no_tail =
    (head_row pool ≡ some t)
    × (((how ≡ family) × (pool ≡ t ∷ [])) ⊎ All (λ u. is_some_int u.f0 ≡ false) pool)
TailSpec pool number how t not_provided = (number ≡ none) × All (λ u. f0_key t ≤ℤ f0_key u) pool
TailSpec pool number how t (f0_match n) = (number ≡ some n) × (f0_matches n t ≡ true)
TailSpec pool number how t (f0_miss n) =
    (number ≡ some n)
    × All (λ u. f0_matches n u ≡ false) pool
    × All (λ u. f0_key t ≤ℤ f0_key u) pool

abbrev pub OfPool : Found → Option ℤ → Device → Type 0
OfPool f number unknown_id = ⊥
OfPool f number Device.raised = ⊥
OfPool f number (ambiguous pool) =
    (f.how ≡ family)
    × (pool ≡ f.rows)
    × ((s : Row) × (t : Row) × (ts : List Row) × (pool ≡ s ∷ t ∷ ts))
OfPool f number (resolved token how tail remark) =
    (how ≡ f.how)
    × ((t : Row) × Memᴰ t f.rows × (token ≡ t.token) × TailSpec f.rows number f.how t tail)

abbrev pub DeviceSpec : List Row → ℕ → Option ℤ → Pool → Device → Type 0
DeviceSpec rows device_id number no_family d =
    (d ≡ unknown_id) × All (λ u. u.ident ≢ some (pos device_id)) rows
DeviceSpec rows device_id number raised d = ⊥
DeviceSpec rows device_id number (found f) d = OfPool f number d

-- A row without F0 matches no number.
matches-some : (n : ℤ) (u : Row) → is_some_int u.f0 ≡ false → f0_matches n u ≡ false
matches-some n u h = go u.f0 h
  where
    go : (o : Option ℤ) → is_some_int o ≡ false → f0_matches n (record u { f0 = o }) ≡ false
    go none h = refl
    go (some f0) h = cc

module _ (f : Found) (ne : f.rows ≢ []) where
  module _ (n : ℤ) {f0_aware : List Row}
      (selected : keep_if (λ t. is_some_int t.f0) f.rows ≡ f0_aware) where
    no_match :
        keep_if (f0_matches n) f0_aware ≡ [] → (u : Row) → Memᴰ u f.rows → f0_matches n u ≡ false
    no_match e u i = elim (Bool-cases (is_some_int u.f0)) [
      | inl h ↦
          keep_if-eq-nil (f0_matches n) f0_aware u e
            (rw selected at (mem-keep_if (λ t. is_some_int t.f0) f.rows u i h))
      | inr h ↦ matches-some n u h
    ]

    f0_lem :
        (fm : List Row) → keep_if (f0_matches n) f0_aware ≡ fm → OfPool f (some n) (by_f0 fm f n)
    f0_lem [] e =
        let (t, g, i, low) = generic_of_lem f.rows ne in
        rw g (refl, (t, i, refl, (refl, All-of _ f.rows (no_match e), low)))
    f0_lem (t ∷ ts) e =
        let (i, h) = mem_of_mem-keep_if (f0_matches n) f0_aware t (rw e (Memᴰ.head refl)) in
        (
          refl,
          (
            t,
            (mem_of_mem-keep_if (λ t. is_some_int t.f0) f.rows t (rw selected i)).0,
            refl,
            (refl, h),
          ),
        )

  ranged_lem :
      (number : Option ℤ) (f0_aware : List Row)
      → keep_if (λ t. is_some_int t.f0) f.rows ≡ f0_aware
      → OfPool f number (ranged_device f0_aware f number)
  ranged_lem number [] e = first f.rows refl ne
    where
      first :
          (pool : List Row)
          → f.rows ≡ pool
          → pool ≢ []
          → OfPool f number (ranged_device [] (record f { rows = pool }) number)
      first [] q ne = absurd (ne refl)
      first (t ∷ ts) q ne = (
        refl,
        (
          t,
          rw q (Memᴰ.head refl),
          refl,
          (
            rw q,
            inr (All-of _ f.rows (λ u i. keep_if-eq-nil (λ t. is_some_int t.f0) f.rows u e i)),
          ),
        ),
      )
  ranged_lem none (t ∷ ts) e =
      let (g, eq, i, low) = generic_of_lem f.rows ne in rw eq (refl, (g, i, refl, (refl, low)))
  ranged_lem (some n) (t ∷ ts) e = f0_lem n e (keep_if (f0_matches n) (t ∷ ts)) refl

  family_lem :
      (number : Option ℤ) (pool : List Row)
      → f.rows ≡ pool
      → f.how ≡ family
      → OfPool f number (family_device pool)
  family_lem number [] q h = absurd (ne q)
  family_lem number (t ∷ []) q h = (rw h, (t, rw q (Memᴰ.head refl), refl, (rw q, inl (h, q))))
  family_lem number (s ∷ t ∷ ts) q h = (h, rw q, (s, t, ts, refl))

  device_of_lem :
      (number : Option ℤ) (how : How) → f.how ≡ how → OfPool f number (device_of how f number)
  device_of_lem number family e = family_lem number f.rows refl e
  device_of_lem number range e = ranged_lem number _ refl
  device_of_lem number floor e = ranged_lem number _ refl
  device_of_lem number lowest e = ranged_lem number _ refl

-- `resolve_device` never raises. For an unknown id it says so; a family that the two bytes cannot
-- subdivide gives its only row or is ambiguous; else the token is that of a row of the pool: one
-- whose F0 range holds the number, where there is such a row, the one of least F0 (no F0 first)
-- where the number is missing or matches none, and the first row where no row has an F0.
pub resolve_device-selects :
    (rows : List Row) (device_id hw sw : ℕ) (number : Option ℤ)
    → DeviceSpec rows device_id number
        (resolve_pool rows device_id (some hw) sw)
        (resolve_device rows device_id hw sw number)
unfolding resolve_device
resolve_device-selects rows device_id hw sw number =
    go (resolve_pool rows device_id (some hw) sw) (resolve_pool-selects rows device_id (some hw) sw)
  where
    go :
        (p : Pool)
        → PoolSpec rows device_id (some hw) sw p
        → DeviceSpec rows device_id number p (device_of_pool p number)
    go no_family s = (refl, s)
    go raised s = s
    go (found f) s =
        device_of_lem f (found-ne-nil rows device_id (some hw) sw f s) number f.how refl
