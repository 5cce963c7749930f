-- ===== src/Special/Schedules.antt =====
-- special.py `_hydro_schedule_entries`: the seven days cover the program.
use native.Mathlib.Nat.{mod-add-div}
use esphome_vitohome.Common.{
  ℕ, zero, suc, ◌+◌, ◌*◌, ◌/◌, ◌%◌, ◌≤◌, ◌≡◌, refl, Bool, true, false, ◌||◌, Option, none, some,
  List, [], ◌∷◌, arith, ℤ, pos, negsuc, leb, ltb, ◌==◌, length, All, if◌then◌else◌,
}
use esphome_vitohome.Catalog.{int_or}
use esphome_vitohome.Special.{
  Program, Entry, shape_of, shape_of_day, program_length, hydro_schedule_shape, entries_from,
  base_of, hydro_schedule_entries, has_address, hydro_mapping,
}

-- The entries start at `first`, each `step` addresses after the one before, and `last` is the
-- address where the next would start.
abbrev pub Successive : ℕ → ℕ → List Entry → ℕ → Type 0
Successive first step [] last = first ≡ last
Successive first step (e ∷ es) last = (e.address ≡ first) × Successive (first + step) step es last

abbrev pub total_length : List Entry → ℕ
total_length [] = 0
total_length (e ∷ es) = e.length + total_length es

-- What a shape says of the block: seven days of whole records, a day of at most 48 bytes.
abbrev pub ShapeFits : ℕ → ℕ → ℕ → ℕ → Type 0
ShapeFits total factor per_day record_len =
    (factor ≡ per_day * 7)
    × (total ≡ factor * record_len)
    × (1 ≤ per_day * record_len)
    × (per_day * record_len ≤ 48)

after_tests :
    (o : ℕ × ℕ) (refused short : Bool) (k n : ℕ)
    → (if refused then none else if short then some o else none) ≡ some (k, n)
    → (refused ≡ false) × (short ≡ true) × (some o ≡ some (k, n))
after_tests o true short k n h = cc
after_tests o false false k n h = cc
after_tests o false true k n h = (refl, refl, h)

tests :
    (t f r q : ℕ)
    → (t == 0 || f == 0 || ltb 0 r || ltb 0 q) ≡ false
    → (1 ≤ t) × (1 ≤ f) × (r ≡ 0) × (q ≡ 0)
tests t f r q h = ground arith

positive_product : (k n : ℕ) → 1 ≤ k → 1 ≤ n → 1 ≤ k * n
positive_product zero n p q = ground arith
positive_product (suc k) n p q = omega arith

positive_factor : (f d : ℕ) → 1 ≤ f * d → 1 ≤ d
positive_factor f zero h = ground arith
positive_factor f (suc d) h = omega arith

shape_of_day-fits :
    (total factor k n : ℕ) → shape_of_day total factor ≡ some (k, n) → ShapeFits total factor k n
shape_of_day-fits total factor k n h =
    let (e, short, same) =
      after_tests (factor / 7, total / factor)
        (total == 0 || factor == 0 || ltb 0 (total % factor) || ltb 0 (factor % 7))
        (leb (factor / 7 * (total / factor)) 48) k n h in
    fits k n (tests total factor (total % factor) (factor % 7) e) short same
  where
    fits :
        (k n : ℕ)
        → (1 ≤ total) × (1 ≤ factor) × (total % factor ≡ 0) × (factor % 7 ≡ 0)
        → leb (factor / 7 * (total / factor)) 48 ≡ true
        → ◌≡◌ {A = Option (ℕ × ℕ)} (some (factor / 7, total / factor)) (some (k, n))
        → ShapeFits total factor k n
    fits k n (t, f, r, q) short same =
        let whole : total ≡ factor * (total / factor) =
          omega (arith, r, mod-add-div total factor) in
        let days : factor ≡ factor / 7 * 7 = omega arith in
        let a : k ≡ factor / 7 = cc in
        let b : n ≡ total / factor = cc in
        let some_byte : 1 ≤ total / factor =
          positive_factor factor (total / factor) (rw (← whole) t) in
        let some_day : 1 ≤ factor / 7 = omega arith in
        rw (a, b)
          (
            days,
            whole,
            positive_product (factor / 7) (total / factor) some_day some_byte,
            ground arith,
          )

shape_of-fits :
    (total factor : ℤ) (k n : ℕ)
    → shape_of total factor ≡ some (k, n)
    → (t : ℕ) × (f : ℕ) × (total ≡ pos t) × (factor ≡ pos f) × ShapeFits t f k n
shape_of-fits (pos t) (pos f) k n h = (t, f, refl, refl, shape_of_day-fits t f k n h)
shape_of-fits (pos t) (negsuc f) k n h = cc
shape_of-fits (negsuc t) factor k n h = cc

entries_from-Successive :
    (left base day k n : ℕ)
    → Successive (base + day * k) k (entries_from left base day k n) (base + (day + left) * k)
unfolding entries_from
entries_from-Successive zero base day k n = omega arith
entries_from-Successive (suc left) base day k n =
    (refl, step (entries_from-Successive left base (day + 1) k n))
  where
    step :
        Successive
          (base + (day + 1) * k)
          k
          (entries_from left base (day + 1) k n)
          (base + (day + 1 + left) * k)
        → Successive
            (base + day * k + k)
            k
            (entries_from left base (day + 1) k n)
            (base + (day + suc left) * k)
    step h =
        let p : base + day * k + k ≡ base + (day + 1) * k = omega arith in
        let q : base + (day + suc left) * k ≡ base + (day + 1 + left) * k = omega arith in
        rw (p, q) h

entries_from-length : (left base day k n : ℕ) → length (entries_from left base day k n) ≡ left
unfolding entries_from
entries_from-length zero base day k n = refl
entries_from-length (suc left) base day k n = rw (entries_from-length left base (day + 1) k n) refl

entries_from-total :
    (left base day k n : ℕ) → total_length (entries_from left base day k n) ≡ left * (k * n)
unfolding entries_from
entries_from-total zero base day k n = omega arith
entries_from-total (suc left) base day k n =
    rw (entries_from-total left base (day + 1) k n) (omega arith)

entries_from-short :
    (left base day k n : ℕ)
    → 1 ≤ k * n
    → k * n ≤ 48
    → All (λ e. (1 ≤ e.length) × (e.length ≤ 48)) (entries_from left base day k n)
unfolding entries_from
entries_from-short zero base day k n low high = tt
entries_from-short (suc left) base day k n low high =
    ((low, high), entries_from-short left base (day + 1) k n low high)

-- What the entries of a program are: seven, whose addresses run through the block's factor from the
-- base on, whose lengths add up to the program, and of which each is read in one telegram.
abbrev pub EntriesSpec : Program → ℕ → ℕ → List Entry → Type 0
EntriesSpec p total factor entries =
    (length entries ≡ 7)
    × ((step : ℕ) × Successive (base_of p.event) step entries (base_of p.event + factor)
        × (step * 7 ≡ factor))
    × (total_length entries ≡ total)
    × All (λ e. (1 ≤ e.length) × (e.length ≤ 48)) entries

moved :
    {a b c d : ℕ} (step : ℕ) (entries : List Entry)
    → a ≡ b
    → c ≡ d
    → Successive a step entries c
    → Successive b step entries d
moved step entries p q h = rw (← p, ← q) h

entries-spec :
    (p : Program) (total factor k n : ℕ)
    → ShapeFits total factor k n
    → EntriesSpec p total factor (entries_from 7 (base_of p.event) 0 k n)
entries-spec p total factor k n (days, whole, low, high) = (
  entries_from-length 7 (base_of p.event) 0 k n,
  (k, run, omega arith),
  rw (entries_from-total 7 (base_of p.event) 0 k n, whole, days) (product k n),
  entries_from-short 7 (base_of p.event) 0 k n low high,
)
  where
    product : (k n : ℕ) → 7 * (k * n) ≡ k * 7 * n
    product k n = omega arith

    run :
        Successive
          (base_of p.event)
          k
          (entries_from 7 (base_of p.event) 0 k n)
          (base_of p.event + factor)
    run =
        moved k (entries_from 7 (base_of p.event) 0 k n) (omega arith) (omega arith)
          (entries_from-Successive 7 (base_of p.event) 0 k n)

-- The entries of a heat pump's weekly program, where it has a shape: there are seven; the addresses of
-- the days are evenly spaced from the program's own, and the seven steps make up its block factor;
-- the lengths add up to the program's, and each is of 1 to 48 bytes, which one telegram reads.
pub hydro_schedule_entries-covers :
    (p : Program) (k n : ℕ)
    → hydro_schedule_shape p ≡ some (k, n)
    → (entries : List Entry) × (total : ℕ) × (factor : ℕ) × (hydro_schedule_entries p
        ≡ some entries)
      × (program_length p.event ≡ pos total)
      × (int_or p.event.block_factor (pos 0) ≡ pos factor)
      × EntriesSpec p total factor entries
unfolding hydro_schedule_entries hydro_schedule_shape
hydro_schedule_entries-covers p k n h =
    let (total, factor, e, f, fits) =
      shape_of-fits (program_length p.event) (int_or p.event.block_factor (pos 0)) k n
        (kept (has_address p.event) (hydro_mapping p.mapping_type) h) in
    (
      entries_from 7 (base_of p.event) 0 k n,
      total,
      factor,
      rw (hydro_schedule_entries, h) refl,
      e,
      f,
      entries-spec p total factor k n fits,
    )
  where
    kept :
        (a b : Bool) {o : Option (ℕ × ℕ)}
        → (if a then (if b then o else none) else none) ≡ some (k, n)
        → o ≡ some (k, n)
    kept true true h = h
    kept true false h = cc
    kept false b h = cc
