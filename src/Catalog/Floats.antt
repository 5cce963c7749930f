-- ===== src/Catalog/Floats.antt =====
-- What transforms.py and emitter.py do with a Python `float`: an interface, since the numbers are
-- binary64. Every float that the code works on is finite.
use esphome_vitohome.Common.{ℕ, zero, suc, Bool, Option, String, ℤ, pos, negsuc, if◌then◌else◌}
use esphome_vitohome.Hub.Converters.{
  Converter, noconv, div2, div10, div100, div1000, sec2hour, mult2, mult5, mult10, mult100,
  rotatebytes,
}

-- `parse` is `float(text)`, with `none` for a ValueError; `show` is `f"{x:g}"`; `round` goes half to
-- even.
pub record Floats : Type 1 where
  pub Float : Type 0
  pub parse : String → Option Float
  pub show : Float → String
  pub of_int : ℤ → Float
  pub add : Float → Float → Float
  pub sub : Float → Float → Float
  pub mul : Float → Float → Float
  pub div : Float → Float → Float
  pub abs : Float → Float
  pub floor : Float → ℤ
  pub round : Float → ℤ
  pub eq : Float → Float → Bool
  pub lt : Float → Float → Bool
  pub le : Float → Float → Bool

module _ (F : Floats) where
  open F use {Float, of_int, add, div, abs, floor, lt, eq, le}

  abbrev pub nought : Float
  nought = of_int (pos 0)

  abbrev pub one : Float
  one = of_int (pos 1)

  -- The literal for a / b, which is the float next to it.
  abbrev pub ratio : ℕ → ℕ → Float
  ratio a b = div (of_int (pos a)) (of_int (pos b))

  -- constants.py `_CONV_SCALE`, with the default 1.0.
  unfoldable pub conv_scale : Converter → Float
  conv_scale noconv = one
  conv_scale div2 = ratio 1 2
  conv_scale div10 = ratio 1 10
  conv_scale div100 = ratio 1 100
  conv_scale div1000 = ratio 1 1000
  conv_scale sec2hour = ratio 1 3600
  conv_scale mult2 = of_int (pos 2)
  conv_scale mult5 = of_int (pos 5)
  conv_scale mult10 = of_int (pos 10)
  conv_scale mult100 = of_int (pos 100)
  conv_scale rotatebytes = one

  abbrev pub negated : ℤ → ℤ
  negated (pos zero) = pos zero
  negated (pos (suc n)) = negsuc n
  negated (negsuc n) = pos (suc n)

  -- `_llround`: half away from zero.
  unfoldable pub llround : Float → ℤ
  llround x =
      let away = floor (add (abs x) (ratio 1 2)) in if le nought x then away else negated away

  -- The raw integer of a value under a converter.
  abbrev pub raw_of : Converter → Float → ℤ
  raw_of name x = llround (div x (conv_scale name))
