-- ===== src/Hub/Masks/Runs.antt =====
-- Which masks the component accepts, and what a field under one can hold.
use esphome_vitohome.Common.{
  ℕ, ◌+◌, ◌-◌, ◌^◌, ◌≤◌, ◌<◌, ◌≡◌, refl, ◌↔◌, Bool, true, false, not, ◌&&◌, ◌||◌, arith, leb, ltb,
  ◌==◌, ==_iff, leb→le, all_below, all_below-at, lowest_bit,
}
use esphome_vitohome.Hub.Invalid.{Result, ok, invalid}
use esphome_vitohome.Hub.Masks.{contiguous_bit_mask, bit_length, bit_field_max, run_mask}

accepts : Result ℕ → ℕ → Bool
accepts (ok a) m = a == m
accepts (invalid _) m = false

accepts_iff : (r : Result ℕ) (m : ℕ) → (accepts r m ≡ true) ↔ (r ≡ ok m)
unfolding accepts
accepts_iff (ok a) m = ground arith
accepts_iff (invalid e) m = ground arith

-- The run that an accepted mask is: its lowest set bit and the number of its bits.
first_bit : ℕ → ℕ
first_bit m = bit_length (lowest_bit m) - 1

run_width : ℕ → ℕ
unfolding first_bit
run_width m = bit_length m - first_bit m

is_its_run : ℕ → Bool
unfolding accepts contiguous_bit_mask first_bit run_width
is_its_run m =
    not (accepts (contiguous_bit_mask m) m)
    || ((m == run_mask (first_bit m) (run_width m))
        && (leb 1 (run_width m) && leb (first_bit m + run_width m) 8))

every_mask : all_below 256 is_its_run ≡ true
unfolding is_its_run
every_mask = refl

-- The run of `width` bits from bit `shift` on is accepted, and its greatest field value is right.
run_fits : ℕ → ℕ → Bool
unfolding accepts contiguous_bit_mask bit_field_max
run_fits width shift =
    ltb 8 (shift + width)
    || (width == 0)
    || (accepts (contiguous_bit_mask (run_mask shift width)) (run_mask shift width)
        && (bit_field_max (run_mask shift width) == 2 ^ width - 1))

every_run : all_below 9 (λ width. all_below 9 (run_fits width)) ≡ true
unfolding run_fits
every_run = refl

-- Adjacent bits of one byte.
abbrev pub IsRun : ℕ → Type 0
IsRun m = (shift : ℕ) × (width : ℕ) × (1 ≤ width) × (shift + width ≤ 8) × (m ≡ run_mask shift width)

run_at :
    (shift width : ℕ)
    → 1 ≤ width
    → shift + width ≤ 8
    → (contiguous_bit_mask (run_mask shift width) ≡ ok (run_mask shift width))
      × (bit_field_max (run_mask shift width) ≡ 2 ^ width - 1)
unfolding run_fits
run_at shift width some_bit fits =
    let row =
      all_below-at 9 (λ width. all_below 9 (run_fits width)) width every_run (omega arith) in
    let (accepted, top) =
      split (ltb 8 (shift + width)) (width == 0)
        (accepts (contiguous_bit_mask (run_mask shift width)) (run_mask shift width))
        (bit_field_max (run_mask shift width) == 2 ^ width - 1) (ground arith) (ground arith)
        (all_below-at 9 (run_fits width) shift row (omega arith)) in
    ((accepts_iff _ _).0 accepted, (==_iff _ _).0 top)
  where
    split :
        (a b c d : Bool)
        → a ≡ false
        → b ≡ false
        → (a || b || (c && d)) ≡ true
        → (c ≡ true) × (d ≡ true)
    split a b c d p q h = ground arith

IsRun-of : (m : ℕ) → m < 256 → contiguous_bit_mask m ≡ ok m → IsRun m
unfolding is_its_run
IsRun-of m byte h =
    let (same, some_bit, fits) =
      split (accepts (contiguous_bit_mask m) m) (m == run_mask (first_bit m) (run_width m))
        (leb 1 (run_width m)) (leb (first_bit m + run_width m) 8) ((accepts_iff _ m).1 h)
        (all_below-at 256 is_its_run m every_mask byte) in
    (first_bit m, run_width m, leb→le _ _ some_bit, leb→le _ _ fits, (==_iff _ _).0 same)
  where
    split :
        (a b c d : Bool)
        → a ≡ true
        → (not a || (b && (c && d))) ≡ true
        → (b ≡ true) × (c ≡ true) × (d ≡ true)
    split a b c d p h = ground arith

-- A byte is accepted as a mask, unchanged, exactly if it is a run of adjacent bits.
pub contiguous_bit_mask_iff : (m : ℕ) → m < 256 → (contiguous_bit_mask m ≡ ok m) ↔ IsRun m
contiguous_bit_mask_iff m byte = (
  IsRun-of m byte,
  λ run. (let (shift, width, some_bit, fits, e) = run in rw e (run_at shift width some_bit fits).0),
)

-- A run of at least one bit inside a byte is an accepted mask, and the largest value of its field is
-- that of its number of bits.
pub bit_field_max-run :
    (shift width : ℕ)
    → 1 ≤ width
    → shift + width ≤ 8
    → (contiguous_bit_mask (run_mask shift width) ≡ ok (run_mask shift width))
      × (bit_field_max (run_mask shift width) ≡ 2 ^ width - 1)
bit_field_max-run = run_at
