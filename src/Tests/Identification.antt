-- ===== src/Tests/Identification.antt =====
-- A small identification table in the shape of the export's.
use text.Mathlib.TextEquality.{eq_iff}
use esphome_vitohome.Common.{
  ℕ, ◌+◌, ◌≡◌, refl, ◌≢◌, Option, none, some, List, [], ◌∷◌, arith, String, pos,
}
use esphome_vitohome.Identify.{
  Row, range, floor, Found, found, Tail, resolved, f0_match, not_provided, resolve_pool,
  resolve_device, ranged, family_of,
}
use esphome_vitohome.Identify.Runs.{Run, resolve_runs}
use esphome_vitohome.Identify.Resolution.{PoolSpec, resolve_pool-selects}
use esphome_vitohome.Identify.Devices.{DeviceSpec, resolve_device-selects}
use esphome_vitohome.Identify.Table.{DistinctTokens, Agrees, TilesFrom, find_run}
use esphome_vitohome.Identify.Finder.{resolve_runs-tells, index_key, find_run-eq-resolve_device}

abbrev row : String → ℕ → ℕ → Option ℕ → Row
row token lo hi f0 = record {
  token = token;
  ident = some (pos 0x20CB);
  ext = some (pos lo);
  extt = some (pos hi);
  f0 = elim f0 [ none ↦ none | some n ↦ some (pos n) ];
  f0t = elim f0 [ none ↦ none | some n ↦ some (pos (n + 9)) ];
}

abbrev units : List Row
units =
    row "VScotHO1_72" 0x0148 0x0149 none
    ∷ row "VScotHO1_200" 0x01C8 0x01CF none
    ∷ row "VScotHO1_200_30" 0x01C8 0x01CF (some 30)
    ∷ []

picked :
    resolve_device units 0x20CB 1 0xC9 (some (pos 33))
    ≡ resolved "VScotHO1_200_30" range (f0_match (pos 33)) none
unfolding resolve_device
picked = refl

generic : resolve_device units 0x20CB 1 0xC9 none ≡ resolved "VScotHO1_200" range not_provided none
unfolding resolve_device
generic = refl

past_the_ranges :
    resolve_device units 0x20CB 3 0x60 none ≡ resolved "VScotHO1_72" floor Tail.no_tail (some 3)
unfolding resolve_device
past_the_ranges = refl

units_distinct : DistinctTokens units
units_distinct = (
  (
    ground (arith, eq_iff "VScotHO1_72" "VScotHO1_200"),
    (ground (arith, eq_iff "VScotHO1_72" "VScotHO1_200_30"), tt),
  ),
  ((ground (arith, eq_iff "VScotHO1_200" "VScotHO1_200_30"), tt), (tt, tt)),
)

units-ranged : ranged (family_of units 0x20CB) ≢ []
unfolding resolve_pool
units-ranged q = cc

resolve_pool-selects_example :
    PoolSpec units 0x20CB (some 1) 0xC9 (resolve_pool units 0x20CB (some 1) 0xC9)
resolve_pool-selects_example = resolve_pool-selects units 0x20CB (some 1) 0xC9

resolve_device-selects_example :
    DeviceSpec units 0x20CB
      (some (pos 33))
      (resolve_pool units 0x20CB (some 1) 0xC9)
      (resolve_device units 0x20CB 1 0xC9 (some (pos 33)))
resolve_device-selects_example = resolve_device-selects units 0x20CB 1 0xC9 (some (pos 33))

units_known : family_of units 0x20CB ≢ []
units_known q = cc

resolve_runs-tells_example :
    (runs : List Run) × (r : Run) × (f : Found) × (resolve_runs units 0x20CB none ≡ some runs)
    × TilesFrom 0 runs 256
    × (find_run 0x60 runs ≡ some r)
    × (resolve_pool units 0x20CB none 0x60 ≡ found f)
    × Agrees r f
resolve_runs-tells_example =
    resolve_runs-tells units 0x20CB 0x60 none units_distinct units_known (omega arith)

find_run-eq-resolve_device_example :
    (runs : List Run) × (r : Run) × (tail : Tail) × (remark : Option ℕ) × (resolve_runs units 0x20CB
        (index_key 3 (ranged (family_of units 0x20CB)))
      ≡ some runs)
    × (find_run 0x60 runs ≡ some r)
    × (resolve_device units 0x20CB 3 0x60 none ≡ resolved r.token r.how tail remark)
find_run-eq-resolve_device_example =
    find_run-eq-resolve_device units 0x20CB 3 0x60 units_distinct units-ranged (omega arith)
