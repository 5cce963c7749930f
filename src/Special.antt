-- ===== src/Special.antt =====
-- scripts/vitocatalog/special.py: the weekly programs of heat pumps, one entity for each day.
pub mod Schedules
pub mod History
use esphome_vitohome.Common.{
  ℕ, zero, suc, ◌+◌, ◌*◌, ◌/◌, ◌%◌, Bool, true, false, ◌||◌, Option, none, some, List, [], ◌∷◌, ℤ,
  pos, negsuc, leb, ltb, ◌==◌, if◌then◌else◌,
}
use esphome_vitohome.Catalog.{Event, int_or}

-- A datapoint with its `mapping_type`, an attribute of `Event` that older exports lack.
pub record Program : Type 0 where
  pub event : Event
  pub mapping_type : Option ℕ

-- constants.py `_SCHALTZEITEN_DAYS`, the length of `_WEEKDAYS` and the count of the days' labels.
abbrev pub days_of_week : ℕ
days_of_week = 7

-- constants.py `MAX_P300_READ_LENGTH`
abbrev pub max_p300_read_length : ℕ
max_p300_read_length = 48

-- `in HYDRO_SCHEDULE_MAPPINGS`
abbrev pub hydro_mapping : Option ℕ → Bool
hydro_mapping none = false
hydro_mapping (some m) = m == 2 || m == 5 || m == 6 || m == 7 || m == 8 || m == 10

abbrev pub has_address : Event → Bool
has_address ev = elim ev.address as (λ _. Bool) [ none ↦ false | some a ↦ true ]

-- For a length and a factor that are not negative.
abbrev pub shape_of_day : ℕ → ℕ → Option (ℕ × ℕ)
shape_of_day total factor =
    if total == 0 || factor == 0 || ltb 0 (total % factor) || ltb 0 (factor % days_of_week)
    then none
    else if leb (factor / days_of_week * (total / factor)) max_p300_read_length
    then some (factor / days_of_week, total / factor)
    else none

abbrev pub shape_of : ℤ → ℤ → Option (ℕ × ℕ)
shape_of (pos total) (pos factor) = shape_of_day total factor
shape_of (pos total) (negsuc factor) = none
shape_of (negsuc total) factor = none

-- `ev.block_length or ev.byte_length or 0`
abbrev pub program_length : Event → ℤ
program_length ev = int_or ev.block_length (int_or ev.byte_length (pos 0))

-- `_hydro_schedule_shape`: the records of a day and the length of one.
unfoldable pub hydro_schedule_shape : Program → Option (ℕ × ℕ)
hydro_schedule_shape p =
    let shape = shape_of (program_length p.event) (int_or p.event.block_factor (pos 0)) in
    if has_address p.event then (if hydro_mapping p.mapping_type then shape else none) else none

-- An entry's numbers; its name, seed and comment are display text.
pub record Entry : Type 0 where
  pub address : ℕ
  pub length : ℕ

-- The loop over the weekdays, from `day` on.
unfoldable pub entries_from : ℕ → ℕ → ℕ → ℕ → ℕ → List Entry
entries_from zero base day per_day record_len = []
entries_from (suc left) base day per_day record_len =
    record { address = base + day * per_day; length = per_day * record_len }
    ∷ entries_from left base (day + 1) per_day record_len

-- `ev.address or 0`
abbrev pub base_of : Event → ℕ
base_of ev = elim ev.address as (λ _. ℕ) [ none ↦ 0 | some a ↦ a ]

-- `_hydro_schedule_entries`: `none` where it unpacks the shape of a program that has none.
unfoldable pub hydro_schedule_entries : Program → Option (List Entry)
unfolding hydro_schedule_shape entries_from
hydro_schedule_entries p = elim (hydro_schedule_shape p) as (λ _. Option (List Entry)) [
  | none ↦ none
  | some shape ↦ some (entries_from days_of_week (base_of p.event) 0 shape.0 shape.1)
]
