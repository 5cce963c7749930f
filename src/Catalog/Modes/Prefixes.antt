-- ===== src/Catalog/Modes/Prefixes.antt =====
-- transforms.py `_rpc_prefix` reads back the bytes of a procedure's parameter.
use esphome_vitohome.Common.{
  ℕ, ◌+◌, ◌*◌, ◌/◌, ◌%◌, ◌≤◌, ◌<◌, ◌≡◌, refl, ap, ◌∙◌, ◌⊎◌, inl, inr, Bool, true, false, ◌&&◌, none,
  some, List, [], ◌∷◌, ◌++◌, arith, All, leb, ◌==◌, length, if◌then◌else◌, String, Text, codes,
  hex_digit, is_blank, from_hex, lower_code,
}
use esphome_vitohome.Catalog.Modes.{rpc_prefix, prefix_bytes, drop_0x, without_spaces}
use esphome_vitohome.Catalog.Options.{hex_char}

-- Two digits for each byte.
abbrev pub printed : List ℕ → Text
printed [] = []
printed (b ∷ bytes) = hex_char (b / 16) ∷ hex_char (b % 16) ∷ printed bytes

abbrev pub Bytes : List ℕ → Type 0
Bytes bytes = All (λ b. b < 256) bytes

hex_digit-hex_char : (d : ℕ) → d < 16 → hex_digit (hex_char d) ≡ some d
unfolding hex_digit
hex_digit-hex_char d h = ground arith

not_blank : (d : ℕ) → d < 16 → is_blank (hex_char d) ≡ false
not_blank d h = ground arith

not_space : (d : ℕ) → d < 16 → (hex_char d == 32) ≡ false
not_space d h = ground arith

from_hex-printed : (bytes : List ℕ) → Bytes bytes → from_hex (printed bytes) ≡ some bytes
unfolding from_hex
from_hex-printed [] h = refl
from_hex-printed (b ∷ bytes) (small, h) =
    rw
      (
        not_blank (b / 16) (omega arith),
        hex_digit-hex_char (b / 16) (omega arith),
        hex_digit-hex_char (b % 16) (omega arith),
        from_hex-printed bytes h,
      )
      (let e : b / 16 * 16 + b % 16 ≡ b = omega arith in rw e refl)

without_spaces-printed :
    (bytes : List ℕ) → Bytes bytes → without_spaces (printed bytes) ≡ printed bytes
without_spaces-printed [] h = refl
without_spaces-printed (b ∷ bytes) (small, h) =
    rw
      (
        not_space (b / 16) (omega arith),
        not_space (b % 16) (omega arith),
        without_spaces-printed bytes h,
      )
      refl

even_length : (bytes : List ℕ) → (length (printed bytes) % 2 == 1) ≡ false
even_length bytes = even (length (printed bytes)) (length bytes) (twice bytes)
  where
    twice : (bytes : List ℕ) → length (printed bytes) ≡ 2 * length bytes
    twice [] = refl
    twice (b ∷ bytes) = (let e = twice bytes in omega (arith, e))

    even : (n k : ℕ) → n ≡ 2 * k → (n % 2 == 1) ≡ false
    even n k e = ground arith

no_0x : (d : ℕ) → d < 16 → (lower_code (hex_char d) == b'x') ≡ false
unfolding lower_code
no_0x d h = ground arith

drop_0x-printed : (bytes : List ℕ) → Bytes bytes → drop_0x (printed bytes) ≡ printed bytes
drop_0x-printed [] h = refl
drop_0x-printed (b ∷ bytes) (small, h) =
    kept (hex_char (b / 16) == b'0') (lower_code (hex_char (b % 16)) == b'x')
      (no_0x (b % 16) (omega arith))
  where
    kept :
        (x y : Bool)
        → y ≡ false
        → (elim (if x && y then some (printed bytes) else none) [
          | none ↦ printed (b ∷ bytes)
          | some rest ↦ rest
        ])
          ≡ printed (b ∷ bytes)
    kept true true e = cc
    kept true false e = refl
    kept false y e = refl

prefix_bytes-printed :
    (bytes : List ℕ) → Bytes bytes → length bytes ≤ 4 → prefix_bytes (printed bytes) ≡ some bytes
prefix_bytes-printed [] h short = refl
prefix_bytes-printed (b ∷ bytes) h short =
    rw (even_length (b ∷ bytes), from_hex-printed (b ∷ bytes) h)
      (within (leb (length (b ∷ bytes)) 4) (ground arith))
  where
    within : (c : Bool) → c ≡ true → (if c then some (b ∷ bytes) else none) ≡ some (b ∷ bytes)
    within c e = rw e refl

-- A parameter of at most 4 bytes is read back from its hexadecimal digits, two for each byte, with or
-- without 0x before them.
pub rpc_prefix-printed :
    (field : String) (bytes : List ℕ)
    → Bytes bytes
    → length bytes ≤ 4
    → ((codes field ≡ printed bytes) ⊎ (codes field ≡ codes "0x" ++ printed bytes))
    → rpc_prefix field ≡ some bytes
unfolding rpc_prefix
rpc_prefix-printed field bytes h short (inl e) =
    ap (λ t. prefix_bytes (drop_0x (without_spaces t))) e
    ∙ ap (λ t. prefix_bytes (drop_0x t)) (without_spaces-printed bytes h)
    ∙ ap prefix_bytes (drop_0x-printed bytes h)
    ∙ prefix_bytes-printed bytes h short
rpc_prefix-printed field bytes h short (inr e) =
    ap (λ t. prefix_bytes (drop_0x (without_spaces t))) e
    ∙ ap prefix_bytes (without_spaces-printed bytes h)
    ∙ prefix_bytes-printed bytes h short
