-- ===== src/Identify.antt =====
-- scripts/vitocatalog/identify.py: the match of live identification bytes to a datapoint type, and
-- the run-length table of all its answers. The proofs are in the modules below.
pub mod Selection
pub mod Generation
pub mod Resolution
pub mod Generic
pub mod Runs
pub mod Devices
pub mod Table
pub mod Loop
pub mod Finder
use mathlib.Core.List.{reverse}
use text.Mathlib.Text.{◌==◌ as str_eq}
use esphome_vitohome.Common.{
  ℕ, zero, suc, ◌+◌, ◌%◌, String, Bool, true, false, ◌&&◌, Option, none, some, List, [], ◌∷◌, map,
  ℤ, pos, negsuc, eqb_ℤ, leb_ℤ, ltb_ℤ, shr8, low_byte, leb, ltb, if◌then◌else◌, keep_if, any,
  get_last?, min_by, less_by, sorted_by,
}

-- One row of `load_catalog().ident_rows`, the fields that the match reads. A column that is absent
-- or does not parse is `none`.
pub record Row : Type 0 where
  pub token : String
  pub ident : Option ℤ
  pub ext : Option ℤ
  pub extt : Option ℤ
  pub f0 : Option ℤ
  pub f0t : Option ℤ

pub data How : Type 0 where
  family range floor lowest : How

-- The answer of `resolve_pool` for a known device: the rows, how they were found (which fixes the
-- text of `why`), and the hardware byte that the note names, if it was ignored.
pub record Found : Type 0 where
  pub rows : List Row
  pub how : How
  pub note : Option ℕ

-- `raised` is an exception (`min` of an empty list).
pub data Pool : Type 0 where
  no_family : Pool
  found : Found → Pool
  raised : Pool

abbrev pub opt_eq : Option ℤ → ℤ → Bool
opt_eq none b = false
opt_eq (some a) b = eqb_ℤ a b

unfoldable pub is_hw_sw_ext : Option ℤ → Bool
is_hw_sw_ext none = false
is_hw_sw_ext (some ext) = leb_ℤ (pos 0) ext && leb_ℤ ext (pos 0xFFFF)

-- `t["ext"]` where it is used as a number. Only rows that pass `is_hw_sw_ext` come there.
abbrev pub ext_of : Row → ℤ
ext_of t = elim t.ext [ none ↦ pos 0 | some ext ↦ ext ]

abbrev pub high_of : Row → ℤ
high_of t = shr8 (ext_of t)

abbrev pub software_low : Row → ℕ
software_low t = low_byte (ext_of t)

abbrev pub software_high : Row → ℕ
software_high t = elim t.extt [ none ↦ software_low t | some extt ↦ low_byte extt ]

abbrev pub family_of : List Row → ℕ → List Row
family_of ident_rows device_id = keep_if (λ t. opt_eq t.ident (pos device_id)) ident_rows

abbrev pub ranged : List Row → List Row
ranged fam = keep_if (λ t. is_hw_sw_ext t.ext) fam

-- `hw in highs`
abbrev pub hw_listed : Option ℕ → List Row → Bool
hw_listed none have_ext = false
hw_listed (some hw) have_ext = any (λ t. eqb_ℤ (high_of t) (pos hw)) have_ext

abbrev pub same_hw : Option ℕ → Row → Bool
same_hw none t = false
same_hw (some hw) t = eqb_ℤ (high_of t) (pos hw)

-- Python's `xs or ys`
abbrev pub or_else : List Row → List Row → List Row
or_else [] ys = ys
or_else (x ∷ xs) ys = x ∷ xs

abbrev pub single_high : Row → Bool
single_high t = elim t.extt [ none ↦ true | some extt ↦ eqb_ℤ (high_of t) (shr8 extt) ]

abbrev pub of_generation : Option ℕ → List Row → List Row
of_generation hw have_ext =
    if hw_listed hw have_ext then keep_if (same_hw hw) have_ext else have_ext

unfoldable pub candidates : Option ℕ → List Row → List Row
candidates hw have_ext =
    let cand = of_generation hw have_ext in or_else (keep_if single_high cand) cand

unfoldable pub hw_note : Option ℕ → List Row → Option ℕ
hw_note hw have_ext = if hw_listed hw have_ext then none else hw

abbrev pub contains_sw : ℕ → Row → Bool
contains_sw sw t = leb (software_low t) sw && leb sw (software_high t)

abbrev pub starts_by : ℕ → Row → Bool
starts_by sw t = leb (software_low t) sw

abbrev lowest_found : Option Row → Option ℕ → Pool
lowest_found none remark = raised
lowest_found (some t) remark = found (record { rows = t ∷ []; how = lowest; note = remark })

abbrev floor_or_lowest : Option Row → List Row → Option ℕ → Pool
floor_or_lowest (some t) cand remark = found (record { rows = t ∷ []; how = floor; note = remark })
floor_or_lowest none cand remark = lowest_found (min_by (less_by software_low) cand) remark

abbrev range_or_below : List Row → List Row → ℕ → Option ℕ → Pool
range_or_below (t ∷ ts) cand sw remark =
    found (record { rows = t ∷ ts; how = range; note = remark })
range_or_below [] cand sw remark =
    floor_or_lowest (get_last? (sorted_by software_low (keep_if (starts_by sw) cand))) cand remark

-- Step 4 of the algorithm, on the candidates that the hardware byte leaves.
unfoldable pub match_software : List Row → ℕ → Option ℕ → Pool
match_software cand sw remark = range_or_below (keep_if (contains_sw sw) cand) cand sw remark

abbrev pub match_ranged : List Row → List Row → Option ℕ → ℕ → Pool
match_ranged fam [] hw sw = found (record { rows = fam; how = family; note = none })
match_ranged fam (t ∷ ts) hw sw = match_software (candidates hw (t ∷ ts)) sw (hw_note hw (t ∷ ts))

abbrev pub match_family : List Row → Option ℕ → ℕ → Pool
match_family [] hw sw = no_family
match_family (t ∷ ts) hw sw = match_ranged (t ∷ ts) (ranged (t ∷ ts)) hw sw

unfoldable pub resolve_pool : List Row → ℕ → Option ℕ → ℕ → Pool
unfolding match_software candidates hw_note is_hw_sw_ext
resolve_pool ident_rows device_id hw sw = match_family (family_of ident_rows device_id) hw sw

abbrev pub is_some_int : Option ℤ → Bool
is_some_int none = false
is_some_int (some _) = true

abbrev pub f0_key : Row → ℤ
f0_key t = elim t.f0 [ none ↦ negsuc 0 | some f0 ↦ f0 ]

abbrev pub head_row : List Row → Option Row
head_row [] = none
head_row (t ∷ ts) = some t

-- `none` where the list is empty and Python raises.
unfoldable pub generic_of : List Row → Option Row
generic_of pool =
    if any (λ t. is_some_int t.f0) pool
    then min_by (λ s t. ltb_ℤ (f0_key s) (f0_key t)) pool
    else head_row pool

-- `t["f0"] <= number <= (t["f0t"] if t["f0t"] is not None else t["f0"])`
abbrev pub f0_matches : ℤ → Row → Bool
f0_matches number t = elim t.f0 [
  | none ↦ false
  | some f0 ↦ leb_ℤ f0 number && leb_ℤ number (elim t.f0t [ none ↦ f0 | some f0t ↦ f0t ])
]

-- What the reason adds about F0.
pub data Tail : Type 0 where
  no_tail not_provided : Tail
  f0_match f0_miss : ℤ → Tail

pub data Device : Type 0 where
  unknown_id : Device
  ambiguous : List Row → Device
  resolved : (token : String) → How → Tail → Option ℕ → Device
  raised : Device

abbrev pub resolved_row : Option Row → How → Tail → Option ℕ → Device
resolved_row none how tail remark = raised
resolved_row (some t) how tail remark = resolved t.token how tail remark

abbrev pub by_f0 : List Row → Found → ℤ → Device
by_f0 (t ∷ ts) f number = resolved t.token f.how (f0_match number) f.note
by_f0 [] f number = resolved_row (generic_of f.rows) f.how (f0_miss number) f.note

-- `f0_aware` is not empty; the number is that of `f0_value`.
abbrev pub among_f0 : List Row → Found → Option ℤ → Device
among_f0 f0_aware f none = resolved_row (generic_of f.rows) f.how not_provided f.note
among_f0 f0_aware f (some number) = by_f0 (keep_if (f0_matches number) f0_aware) f number

abbrev pub ranged_device : List Row → Found → Option ℤ → Device
ranged_device [] f number = resolved_row (head_row f.rows) f.how no_tail f.note
ranged_device (t ∷ ts) f number = among_f0 (t ∷ ts) f number

abbrev pub family_device : List Row → Device
family_device [] = raised
family_device (t ∷ []) = resolved t.token family no_tail none
family_device (s ∷ t ∷ ts) = ambiguous (s ∷ t ∷ ts)

abbrev pub device_of : How → Found → Option ℤ → Device
device_of family f number = family_device f.rows
device_of range f number = ranged_device (keep_if (λ t. is_some_int t.f0) f.rows) f number
device_of floor f number = ranged_device (keep_if (λ t. is_some_int t.f0) f.rows) f number
device_of lowest f number = ranged_device (keep_if (λ t. is_some_int t.f0) f.rows) f number

abbrev pub device_of_pool : Pool → Option ℤ → Device
device_of_pool no_family number = unknown_id
device_of_pool raised number = raised
device_of_pool (found f) number = device_of f.how f number

-- `number` is `f0_value(f0)`.
unfoldable pub resolve_device : List Row → ℕ → ℕ → ℕ → Option ℤ → Device
unfolding resolve_pool generic_of
resolve_device ident_rows device_id hw sw number =
    device_of_pool (resolve_pool ident_rows device_id (some hw) sw) number
