-- ===== src/Hub/Fields/Range.antt =====
-- `raw_fits` against the wire: a value fits if and only if encoding it in two's complement and
-- decoding the bytes gives it back.
use native.Mathlib.Nat.{mod-lt, mod-eq_of_lt, two-pow-succ, one-le-pow}
use esphome_vitohome.Common.{
  ℕ, suc, ◌+◌, ◌-◌, ◌*◌, ◌%◌, ◌^◌, ◌≤◌, ◌<◌, ◌≡◌, ap, ◌∙◌, ◌↔◌, Bool, true, false, ◌&&◌, ℤ, pos,
  negsuc, arith, ltb, leb_ℤ, if◌then◌else◌,
}
use esphome_vitohome.Hub.Fields.{raw_fits}

-- A value's bytes as one number below 2 ^ (8 * length).
abbrev pub encode : ℕ → ℤ → ℕ
encode modulus (pos n) = n % modulus
encode modulus (negsuc n) = modulus - 1 - n % modulus

abbrev pub decode : Bool → ℕ → ℕ → ℤ
decode false half w = pos w
decode true half w = if ltb w half then pos w else negsuc (half + half - 1 - w)

-- The remainder enters through what is known of it: it is below the modulus, and the number itself
-- where that is.
fits_pos :
    (half n r : ℕ)
    → 0 < half
    → r < half + half
    → (n < half + half → r ≡ n)
    → ((leb_ℤ (negsuc (half - 1)) (pos n) && leb_ℤ (pos n) (pos (half - 1))) ≡ true)
      ↔ ((if ltb r half then pos r else negsuc (half + half - 1 - r)) ≡ pos n)
fits_pos half n r h small same = (λ p. ground arith, λ p. ground arith)

fits_negsuc :
    (half n r : ℕ)
    → 0 < half
    → r < half + half
    → (n < half + half → r ≡ n)
    → ((leb_ℤ (negsuc (half - 1)) (negsuc n) && leb_ℤ (negsuc n) (pos (half - 1))) ≡ true) ↔ (
        (if ltb (half + half - 1 - r) half
          then pos (half + half - 1 - r)
          else negsuc (half + half - 1 - (half + half - 1 - r)))
        ≡ negsuc n)
fits_negsuc half n r h small same = (λ p. ground arith, λ p. ground arith)

fits_signed :
    (half : ℕ) (raw : ℤ)
    → 0 < half
    → ((leb_ℤ (negsuc (half - 1)) raw && leb_ℤ raw (pos (half - 1))) ≡ true)
      ↔ (decode true half (encode (half + half) raw) ≡ raw)
fits_signed half (pos n) h =
    fits_pos half n (n % (half + half)) h (mod-lt n (omega arith)) (λ p. mod-eq_of_lt p)
fits_signed half (negsuc n) h =
    fits_negsuc half n (n % (half + half)) h (mod-lt n (omega arith)) (λ p. mod-eq_of_lt p)

fits_unsigned :
    (modulus : ℕ) (raw : ℤ)
    → 0 < modulus
    → ((leb_ℤ (pos 0) raw && leb_ℤ raw (pos (modulus - 1))) ≡ true)
      ↔ (pos (encode modulus raw) ≡ raw)
fits_unsigned modulus (pos n) h = go (n % modulus) (mod-lt n h) (λ p. mod-eq_of_lt p)
  where
    go :
        (r : ℕ)
        → r < modulus
        → (n < modulus → r ≡ n)
        → ((leb_ℤ (pos 0) (pos n) && leb_ℤ (pos n) (pos (modulus - 1))) ≡ true) ↔ (pos r ≡ pos n)
    go r small same = (λ p. ground arith, λ p. ground arith)
fits_unsigned modulus (negsuc n) h = ground arith

two_halves :
    (length : ℕ) → 1 ≤ length → 2 ^ (8 * length) ≡ 2 ^ (8 * length - 1) + 2 ^ (8 * length - 1)
two_halves length h =
    let e : 8 * length ≡ suc (8 * length - 1) = omega arith in
    ap (λ k. 2 ^ k) e ∙ two-pow-succ (8 * length - 1)

-- A raw value fits `length` bytes, at least one, exactly if its bytes in two's complement decode to it,
-- with the sign or without.
pub raw_fits_iff :
    (raw : ℤ) (length : ℕ) (is_signed : Bool)
    → 1 ≤ length
    → (raw_fits raw length is_signed ≡ true)
      ↔ (decode is_signed (2 ^ (8 * length - 1)) (encode (2 ^ (8 * length)) raw) ≡ raw)
unfolding raw_fits
raw_fits_iff raw length true h =
    rw (two_halves length h)
      (fits_signed (2 ^ (8 * length - 1)) raw (one-le-pow (8 * length - 1) 2 (omega arith)))
raw_fits_iff raw length false h =
    fits_unsigned (2 ^ (8 * length)) raw (one-le-pow (8 * length) 2 (omega arith))
