-- ===== src/Special/History/Slots.antt =====
-- special.py `_error_history_entries` and `_schaltzeiten_entries`: the entries lie in their block, or
-- are the records of an array.
use esphome_vitohome.Common.{
  ℕ, zero, suc, ◌+◌, ◌*◌, ◌≤◌, ◌≡◌, refl, Bool, true, false, ◌&&◌, Option, none, some, List, [],
  ◌∷◌, arith, ℤ, pos, eqb_ℤ, eqb_ℤ_iff, ltb, length, if◌then◌else◌, and-true,
}
use esphome_vitohome.Catalog.{Event, int_or}
use esphome_vitohome.Special.{Program, hydro_mapping, has_address, base_of, hydro_schedule_shape}
use esphome_vitohome.Special.History.{
  Slot, records_from, slots_of, history_length, slots_from, single_slot, archive_slots,
  error_history_entries, named_program, is_schaltzeiten, days_from, schaltzeiten_entries,
}
use esphome_vitohome.Special.History.Shapes.{Fit, ShapeSpec, slots_of-Fit}

-- From slot `i` on, each slot starts `stride` addresses after the one before it, and only slot 0 is
-- enabled.
abbrev pub Evenly : (base stride i : ℕ) → List Slot → Type 0
Evenly base stride i [] = Unit
Evenly base stride i (e ∷ es) =
    (e.address ≡ some (base + i * stride))
    × (e.prefix ≡ none)
    × (e.disabled ≡ ltb 0 i)
    × (e.system ≡ true)
    × Evenly base stride (i + 1) es

slots_from-Evenly : (left base stride i : ℕ) → Evenly base stride i (slots_from left base stride i)
unfolding slots_from
slots_from-Evenly zero base stride i = tt
slots_from-Evenly (suc left) base stride i =
    (refl, refl, refl, refl, slots_from-Evenly left base stride (i + 1))

slots_from-length : (left base stride i : ℕ) → length (slots_from left base stride i) ≡ left
unfolding slots_from
slots_from-length zero base stride i = refl
slots_from-length (suc left) base stride i = rw (slots_from-length left base stride (i + 1)) refl

-- What the entries of an archive of `blen` bytes are.
abbrev pub SlotsSpec : (base blen : ℕ) (factor : ℤ) → List Slot → Type 0
SlotsSpec base blen factor entries =
    (stride : ℕ) × (9 ≤ stride)
    × (1 ≤ length entries)
    × (length entries * stride ≤ blen)
    × ShapeSpec blen factor (length entries) stride
    × Evenly base stride 0 entries

-- From record `i` on, each entry is at the archive's own address, of the stated length, and passes its
-- index to the procedure; only record 0 is enabled.
abbrev pub Records : (base size i : ℕ) → List Slot → Type 0
Records base size i [] = Unit
Records base size i (e ∷ es) =
    (e.address ≡ some base)
    × (e.prefix ≡ some i)
    × (e.length ≡ some size)
    × (e.disabled ≡ ltb 0 i)
    × (e.system ≡ true)
    × Records base size (i + 1) es

-- The entries of a fault history: of a remote procedure array, of one slot of a burner's history, or of an
-- archive.
abbrev pub HistorySpec :
    (base blen : ℕ) (factor : ℤ) → Option ℕ → Option (ℕ × ℕ) → List Slot → Type 0
HistorySpec base blen factor burner_slot (some (count, size)) entries =
    (length entries ≡ count) × Records base size 0 entries
HistorySpec base blen factor (some slot) none entries = entries ≡ single_slot (some base) true false
HistorySpec base blen factor none none entries = SlotsSpec base blen factor entries

records_from-Records :
    (left base size i : ℕ)
    → (length (records_from left (some base) i size) ≡ left)
      × Records base size i (records_from left (some base) i size)
unfolding records_from
records_from-Records zero base size i = (refl, tt)
records_from-Records (suc left) base size i =
    let (n, rest) = records_from-Records left base size (i + 1) in
    (rw n refl, (refl, refl, refl, refl, refl, rest))

archive_slots-spec :
    (ev : Event) (base blen : ℕ) (factor : ℤ) (shape : ℕ × ℕ)
    → ev.address ≡ some base
    → Fit blen factor shape
    → SlotsSpec base blen factor (archive_slots ev shape)
archive_slots-spec ev base blen factor (n, stride) at (some_slot, wide, fits, shaped) =
    go (ltb 1 n) refl
  where
    first : base_of ev ≡ base
    first = rw at refl

    alone : ltb 1 n ≡ false → n ≡ 1
    alone e = ground arith

    go :
        (b : Bool)
        → ltb 1 n ≡ b
        → SlotsSpec base blen factor
            (if b then slots_from n (base_of ev) stride 0 else single_slot ev.address false true)
    go true e = rw first (
      stride,
      wide,
      rw (slots_from-length n base stride 0) some_slot,
      rw (slots_from-length n base stride 0) fits,
      rw (slots_from-length n base stride 0) shaped,
      slots_from-Evenly n base stride 0,
    )
    go false e =
        let one = alone e in
        (
          stride,
          wide,
          omega arith,
          (let f = rw one at fits in f),
          (let f = rw one at shaped in f),
          (
            let same : base ≡ base + 0 * stride = omega arith in rw (← same) at,
            refl,
            refl,
            refl,
            tt,
          ),
        )

-- A fault history that has an address and at least 9 bytes, which are also taken where no length is stated.
-- Of a remote procedure array, there is one entry for each record, at the archive's own address, with its
-- index as the procedure's parameter. A slot of a burner's history is the one entry at its address,
-- disabled and not among the system's faults. Of any other, the slots start at its address and end
-- within it, evenly spaced and at least 9 apart, so that they do not overlap: as many as the declared
-- number of records, spaced by their length, where this cuts the block into two or more equal records
-- of at least 9 bytes; and else ten slots of 9 bytes from 90 bytes on, and one below. Of the records
-- and the slots only the first is enabled.
pub error_history_entries-covers :
    (ev : Event) (base blen : ℕ) (burner_slot : Option ℕ) (rpc_records : Option (ℕ × ℕ))
    → ev.address ≡ some base
    → history_length ev ≡ pos blen
    → 9 ≤ blen
    → HistorySpec base blen
        (int_or ev.block_factor (pos 0))
        burner_slot
        rpc_records
        (error_history_entries ev burner_slot rpc_records)
unfolding error_history_entries
error_history_entries-covers ev base blen burner_slot (some (count, size)) at long h =
    rw at (records_from-Records count base size 0)
error_history_entries-covers ev base blen (some slot) none at long h = rw at refl
error_history_entries-covers ev base blen none none at long h =
    let factor = int_or ev.block_factor (pos 0) in
    archive_slots-spec ev base blen factor (slots_of (history_length ev) factor) at
      (rw long (slots_of-Fit blen factor h))

-- Each day is 8 addresses after the one before.
abbrev pub Daily : (base day : ℕ) → List ℕ → Type 0
Daily base day [] = Unit
Daily base day (a ∷ days) = (a ≡ base + day * 8) × Daily base (day + 1) days

days_from-Daily : (left base day : ℕ) → Daily base day (days_from left base day)
unfolding days_from
days_from-Daily zero base day = tt
days_from-Daily (suc left) base day = (refl, days_from-Daily left base (day + 1))

not_hydro : (m : Option ℕ) (ev : Event) → named_program m ev ≡ true → hydro_mapping m ≡ false
not_hydro none ev h = refl
not_hydro (some zero) ev h = refl
not_hydro (some (suc zero)) ev h = refl
not_hydro (some (suc (suc m))) ev h = absurd (ground arith)

-- A boiler's weekly program: there are seven entries of 8 bytes, one after another from the datapoint's
-- address on, which make up the 56 bytes of the block; and it is not taken for a heat pump's.
pub schaltzeiten_entries-covers :
    (p : Program)
    → is_schaltzeiten p ≡ true
    → (length (schaltzeiten_entries p.event) ≡ 7)
      × Daily (base_of p.event) 0 (schaltzeiten_entries p.event)
      × (int_or p.event.byte_length (int_or p.event.block_length (pos 0)) ≡ pos (7 * 8))
      × (hydro_schedule_shape p ≡ none)
unfolding is_schaltzeiten schaltzeiten_entries days_from hydro_schedule_shape
schaltzeiten_entries-covers p h =
    let blen = int_or p.event.byte_length (int_or p.event.block_length (pos 0)) in
    let address = has_address p.event in
    let named = named_program p.mapping_type p.event in
    let (a, seven) =
      and-true (address && named && eqb_ℤ blen (pos 56))
        (eqb_ℤ (int_or p.event.block_factor (pos 0)) (pos 7)) h in
    let (b, whole) = and-true (address && named) (eqb_ℤ blen (pos 56)) a in
    let (c, name) = and-true address named b in
    (
      refl,
      days_from-Daily 7 (base_of p.event) 0,
      (eqb_ℤ_iff blen (pos 56)).0 whole,
      rw (c, not_hydro p.mapping_type p.event name) refl,
    )
