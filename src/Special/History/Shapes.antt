-- ===== src/Special/History/Shapes.antt =====
-- special.py `_error_history_entries`: how many slots an archive has, and how far apart they are.
use esphome_vitohome.Common.{
  ◌<◌, ◌⊎◌, inl, inr, ℕ, ◌*◌, ◌/◌, ◌%◌, ◌≤◌, ◌≡◌, refl, Bool, true, false, ◌&&◌, arith, ℤ, pos,
  negsuc, leb, ltb, ◌==◌, if◌then◌else◌,
}
use native.Mathlib.Nat.{mod-add-div, mul-mod_right, mul-div_right}
use esphome_vitohome.Special.History.{slots_by_length, slots_of}

-- The declared number of records cuts the block into two or more equal records of at least 9 bytes.
abbrev pub Cuts : ℕ → ℤ → Type 0
Cuts blen factor =
    (count : ℕ) × (stride : ℕ) × (factor ≡ pos count)
    × (2 ≤ count)
    × (9 ≤ stride)
    × (count * stride ≡ blen)

-- How many slots a block has and how far apart: the declared records where they cut the block, and else
-- slots of 9 bytes, of which a block of 90 bytes or more has ten and a shorter one has one.
abbrev pub ShapeSpec : ℕ → ℤ → (count stride : ℕ) → Type 0
ShapeSpec blen factor count stride =
    ((factor ≡ pos count) × (2 ≤ count) × (count * stride ≡ blen))
    ⊎ ((¬ Cuts blen factor)
        × (stride ≡ 9)
        × (((90 ≤ blen) × (count ≡ 10)) ⊎ ((blen < 90) × (count ≡ 1))))

-- The slots of at least 9 bytes fit the block, in the shape above.
abbrev pub Fit : ℕ → ℤ → ℕ × ℕ → Type 0
Fit blen factor shape =
    (1 ≤ shape.0)
    × (9 ≤ shape.1)
    × (shape.0 * shape.1 ≤ blen)
    × ShapeSpec blen factor shape.0 shape.1

slots_by_length-Fit :
    (blen : ℕ) (factor : ℤ) → 9 ≤ blen → ¬ Cuts blen factor → Fit blen factor (slots_by_length blen)
slots_by_length-Fit blen factor h uncut = go (leb 90 blen) refl
  where
    go : (b : Bool) → leb 90 blen ≡ b → Fit blen factor (if b then (10, 9) else (1, 9))
    go true e =
        (omega arith, omega arith, ground arith, inr (uncut, refl, inl (ground arith, refl)))
    go false e =
        (omega arith, omega arith, omega arith, inr (uncut, refl, inr (ground arith, refl)))

-- The test of the code is the one for a cut.
cut_test :
    (blen factor : ℕ)
    → Cuts blen (pos factor)
    → (ltb 1 factor && (blen % factor == 0) && leb 9 (blen / factor)) ≡ true
cut_test blen factor (count, stride, same, two, wide, whole) =
    let n : factor ≡ count = cc in
    let r : blen % factor ≡ 0 = rw (n, ← whole) (mul-mod_right count stride) in
    let q : blen / factor ≡ stride = rw (n, ← whole) (mul-div_right stride (omega arith)) in
    rw (r, q) (tests factor stride (omega (arith, n)) wide)
  where
    tests : (f q : ℕ) → 2 ≤ f → 9 ≤ q → (ltb 1 f && (0 == 0) && leb 9 q) ≡ true
    tests f q h k = ground arith

pub slots_of-Fit : (blen : ℕ) (factor : ℤ) → 9 ≤ blen → Fit blen factor (slots_of (pos blen) factor)
slots_of-Fit blen (negsuc factor) h =
    slots_by_length-Fit blen (negsuc factor) h (λ (count, stride, same, two, wide, whole). cc)
slots_of-Fit blen (pos factor) h =
    go (ltb 1 factor && (blen % factor == 0) && leb 9 (blen / factor)) refl
  where
    parts :
        (r q : ℕ) → (ltb 1 factor && (r == 0) && leb 9 q) ≡ true → (2 ≤ factor) × (r ≡ 0) × (9 ≤ q)
    parts r q h = ground arith

    go :
        (b : Bool)
        → (ltb 1 factor && (blen % factor == 0) && leb 9 (blen / factor)) ≡ b
        → Fit blen (pos factor) (if b then (factor, blen / factor) else slots_by_length blen)
    go true e =
        let (some_slot, whole, wide) = parts (blen % factor) (blen / factor) e in
        let cut : factor * (blen / factor) ≡ blen = omega (arith, whole, mod-add-div blen factor) in
        (omega arith, wide, omega (arith, cut), inl (refl, some_slot, cut))
    go false e =
        slots_by_length-Fit blen (pos factor) h (λ c. (let t = cut_test blen factor c in cc))
