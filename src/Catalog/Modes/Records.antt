-- ===== src/Catalog/Modes/Records.antt =====
-- transforms.py `_rpc_array_records`: sizes that the component can read.
use native.Mathlib.Nat.{mod-add-div}
use esphome_vitohome.Common.{
  ℕ, zero, suc, ◌*◌, ◌/◌, ◌%◌, ◌≤◌, ◌≡◌, refl, Bool, true, false, ◌||◌, Option, none, some, arith,
  ℤ, pos, negsuc, leb, ltb, ◌==◌, if◌then◌else◌,
}
use esphome_vitohome.Hub.Access.{Protocol}
use esphome_vitohome.Catalog.{Event, int_or, answer_size}
use esphome_vitohome.Catalog.Modes.{record_of, whole_records, rpc_array_records}

abbrev records : ℕ → ℕ → Option (ℕ × ℕ)
records count n = some (count, n)

divided_lem :
    (total count c n : ℕ) (exact short : Bool)
    → 2 ≤ count
    → 1 ≤ total
    → ltb 0 (total % count) ≡ exact
    → leb (total / count) 48 ≡ short
    → (if exact then none else if short then records count (total / count) else none) ≡ records c n
    → (c ≡ count) × (total ≡ count * n) × (2 ≤ count) × (1 ≤ n) × (n ≤ 48)
divided_lem total count c n true short k t e f h = cc
divided_lem total count c n false false k t e f h = cc
divided_lem total count c n false true k t e f h =
    let p : c ≡ count = cc in
    let q : n ≡ total / count = cc in
    let r : total % count ≡ 0 = ground arith in
    let whole : total ≡ count * (total / count) = omega (arith, r, mod-add-div total count) in
    let some_byte : 1 ≤ total / count = positive (total / count) (rw (← whole) t) in
    (p, rw q whole, k, rw q some_byte, rw q (ground arith))
  where
    positive : (d : ℕ) → 1 ≤ count * d → 1 ≤ d
    positive zero h = ground arith
    positive (suc d) h = omega arith

record_of_lem :
    (total count c n : ℕ)
    → record_of total count ≡ records c n
    → (c ≡ count) × (total ≡ count * n) × (2 ≤ count) × (1 ≤ n) × (n ≤ 48)
record_of_lem total count c n h = go (leb count 1 || total == 0) refl h
  where
    sizes :
        (a b : Bool)
        → leb count 1 ≡ a
        → (total == 0) ≡ b
        → (a || b) ≡ false
        → (2 ≤ count) × (1 ≤ total)
    sizes true b e f h = cc
    sizes false true e f h = cc
    sizes false false e f h = (ground arith, ground arith)

    go :
        (b : Bool)
        → (leb count 1 || total == 0) ≡ b
        → (if b
            then none
            else if ltb 0 (total % count)
            then none
            else if leb (total / count) 48
            then records count (total / count)
            else none)
          ≡ records c n
        → (c ≡ count) × (total ≡ count * n) × (2 ≤ count) × (1 ≤ n) × (n ≤ 48)
    go true e h = cc
    go false e h =
        let (k, t) = sizes (leb count 1) (total == 0) refl refl e in
        divided_lem total count c n (ltb 0 (total % count)) (leb (total / count) 48) k t refl refl h

whole_records_lem :
    (total factor : ℤ) (count size : ℕ)
    → whole_records total factor ≡ records count size
    → (factor ≡ pos count) × (total ≡ pos (count * size)) × (2 ≤ count) × (1 ≤ size) × (size ≤ 48)
whole_records_lem (pos total) (pos factor) count size h =
    let (p, q, k, l, m) = record_of_lem total factor count size h in
    (rw p refl, rw (q, p) refl, rw p k, l, m)
whole_records_lem (pos total) (negsuc factor) count size h = cc
whole_records_lem (negsuc total) (pos factor) count size h = cc
whole_records_lem (negsuc total) (negsuc factor) count size h = cc

-- An array that is read record by record: its records are all of one size, at least two, and each is
-- read in one telegram of 1 to 48 bytes.
pub rpc_array_records_lem :
    (ev : Event) (protocol : Protocol) (count size : ℕ)
    → rpc_array_records ev protocol ≡ records count size
    → (int_or ev.block_factor (pos 0) ≡ pos count)
      × (answer_size ev ≡ pos (count * size))
      × (2 ≤ count)
      × (1 ≤ size)
      × (size ≤ 48)
unfolding rpc_array_records
rpc_array_records_lem ev protocol count size h =
    whole_records_lem (answer_size ev) (int_or ev.block_factor (pos 0)) count size (kept _ h)
  where
    kept :
        (b : Bool) {o : Option (ℕ × ℕ)}
        → (if b then o else none) ≡ records count size
        → o ≡ records count size
    kept true h = h
    kept false h = cc
