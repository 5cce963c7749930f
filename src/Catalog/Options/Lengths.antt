-- ===== src/Catalog/Options/Lengths.antt =====
-- transforms.py `_enum_read_length`: the width that holds every option's value.
use mathlib.Core.List.{Memᴰ}
use esphome_vitohome.Common.{
  ℕ, ◌≤◌, ◌<◌, ◌≡◌, refl, inl, inr, Bool, true, false, List, [], ◌∷◌, arith, All, Bool-cases,
  lt→ltb, pos, ltb, if◌then◌else◌, Text,
}
use esphome_vitohome.Hub.Fields.{raw_fits}
use esphome_vitohome.Catalog.Options.{max_value, enum_read_length}

max_value-ge_first : (hi : ℕ) (os : List (ℕ × Text)) → hi ≤ max_value hi os
max_value-ge_first hi [] = omega arith
max_value-ge_first hi (o ∷ os) = elim (Bool-cases (ltb hi o.0)) [
  | inl k ↦ (let h = max_value-ge_first o.0 os in rw k (ground arith))
  | inr k ↦ rw k (max_value-ge_first hi os)
]

max_value-ge : (hi : ℕ) (os : List (ℕ × Text)) (o : ℕ × Text) → Memᴰ o os → o.0 ≤ max_value hi os
max_value-ge hi [] o i = elim i [ ]
max_value-ge hi (x ∷ os) o (Memᴰ.head e) =
    rw e (larger (ltb hi x.0) refl (max_value-ge_first (if ltb hi x.0 then x.0 else hi) os))
  where
    larger : (b : Bool) → ltb hi x.0 ≡ b → {m : ℕ} → (if b then x.0 else hi) ≤ m → x.0 ≤ m
    larger true e h = h
    larger false e h = ground arith
max_value-ge hi (x ∷ os) o (Memᴰ.tail i) = max_value-ge (if ltb hi x.0 then x.0 else hi) os o i

max_value-lt :
    (bound hi : ℕ) (os : List (ℕ × Text))
    → hi < bound
    → All (λ o. o.0 < bound) os
    → max_value hi os < bound
max_value-lt bound hi [] h t = h
max_value-lt bound hi (o ∷ os) h (p, t) =
    max_value-lt bound (if ltb hi o.0 then o.0 else hi) os (either (ltb hi o.0)) t
  where
    either : (b : Bool) → (if b then o.0 else hi) < bound
    either true = p
    either false = h

-- Where every option's value is below 0x10000, each fits the unsigned field that is read.
pub enum_read_length-raw_fits :
    (opts : List (ℕ × Text)) (fallback : ℕ) (o : ℕ × Text)
    → All (λ p. p.0 < 0x10000) opts
    → Memᴰ o opts
    → raw_fits (pos o.0) (enum_read_length opts fallback) false ≡ true
unfolding enum_read_length raw_fits
enum_read_length-raw_fits [] fallback o small i = elim i [ ]
enum_read_length-raw_fits (x ∷ os) fallback o (first, small) i =
    width (max_value x.0 os) (below (x ∷ os) i) (max_value-lt 0x10000 x.0 os first small)
  where
    below : (xs : List (ℕ × Text)) → Memᴰ o (x ∷ os) → o.0 ≤ max_value x.0 os
    below xs (Memᴰ.head e) = rw e (max_value-ge_first x.0 os)
    below xs (Memᴰ.tail i) = max_value-ge x.0 os o i

    width :
        (hi : ℕ)
        → o.0 ≤ hi
        → hi < 0x10000
        → raw_fits
            (pos o.0)
            (if ltb hi 0x100 then 1 else (if ltb hi 0x10000 then 2 else fallback))
            false
          ≡ true
    width hi h k = elim (Bool-cases (ltb hi 0x100)) [
      | inl e ↦ rw e (ground arith)
      | inr e ↦ rw (e, lt→ltb hi 0x10000 k) (ground arith)
    ]
