-- ===== src/Identify/Selection.antt =====
-- What `resolve_pool` of identify.py selects.
use mathlib.Core.List.{Memᴰ}
use esphome_vitohome.Common.{
  ℕ, ◌≤◌, ◌<◌, ◌≡◌, refl, ◌⊎◌, inl, inr, ◌≢◌, true, false, Option, none, some, List, [], ◌∷◌, arith,
  All, All-of, All-at, keep_if, mem-keep_if, mem_of_mem-keep_if, keep_if-eq-nil, get_last?, less_by,
  less_by-IsTotalOrder, sorted_by, min_from-mem, min_from, min_from-le, sorted_by-mem,
  mem-sorted_by, sorted_by-last_max, get_last?-mem, get_last?-none, Bool-cases,
}
use esphome_vitohome.Identify.{
  Row, How, family, range, floor, lowest, Pool, no_family, found, raised, software_low,
  software_high, contains_sw, starts_by, match_software, range_or_below, floor_or_lowest,
}

-- What a found pool says of the candidates that the hardware byte leaves.
abbrev pub SoftwareMatch : List Row → ℕ → How → List Row → Type 0
SoftwareMatch cand sw family rows = ⊥
SoftwareMatch cand sw range rows =
    (rows ≢ [])
    × All (λ t. Memᴰ t cand × (software_low t ≤ sw) × (sw ≤ software_high t)) rows
    × All (λ u. Memᴰ u rows ⊎ (sw < software_low u) ⊎ (software_high u < sw)) cand
SoftwareMatch cand sw floor rows =
    (t : Row) × (rows ≡ t ∷ [])
    × Memᴰ t cand
    × (software_low t ≤ sw)
    × All (λ u. (sw < software_low u) ⊎ (software_high u < sw)) cand
    × All (λ u. (sw < software_low u) ⊎ (software_low u ≤ software_low t)) cand
SoftwareMatch cand sw lowest rows =
    (t : Row) × (rows ≡ t ∷ [])
    × Memᴰ t cand
    × All (λ u. (sw < software_low u) × (software_low t ≤ software_low u)) cand

abbrev pub SoftwarePool : List Row → ℕ → Option ℕ → Pool → Type 0
SoftwarePool cand sw remark no_family = ⊥
SoftwarePool cand sw remark raised = ⊥
SoftwarePool cand sw remark (found f) = SoftwareMatch cand sw f.how f.rows × (f.note ≡ remark)

in_range :
    (sw : ℕ) (t : Row) → contains_sw sw t ≡ true → (software_low t ≤ sw) × (sw ≤ software_high t)
in_range sw t h = ground arith

outside :
    (sw : ℕ) (t : Row) → contains_sw sw t ≡ false → (sw < software_low t) ⊎ (software_high t < sw)
outside sw t h = ground arith

module _ (cand : List Row) (sw : ℕ) where
  kept :
      (t : Row)
      → Memᴰ t cand
      → Memᴰ t (keep_if (contains_sw sw) cand) ⊎ (sw < software_low t) ⊎ (software_high t < sw)
  kept t i = elim (Bool-cases (contains_sw sw t)) [
    | inl h ↦ inl (mem-keep_if (contains_sw sw) cand t i h)
    | inr h ↦ inr (outside sw t h)
  ]

  starters : List Row
  starters = sorted_by software_low (keep_if (starts_by sw) cand)

  -- Below the floor, or not a later start than the last of the sorted candidates.
  floor_below :
      (m u : Row)
      → get_last? starters ≡ some m
      → Memᴰ u cand
      → (sw < software_low u) ⊎ (software_low u ≤ software_low m)
  unfolding starters
  floor_below m u last i = elim (Bool-cases (starts_by sw u)) [
    | inl h ↦ inr (
        sorted_by-last_max software_low (keep_if (starts_by sw) cand) m u last
          (mem-keep_if (starts_by sw) cand u i h))
    | inr h ↦ inl (ground arith)
  ]

  none_below : (u : Row) → get_last? starters ≡ none → Memᴰ u cand → sw < software_low u
  unfolding starters
  none_below u e i = elim (Bool-cases (starts_by sw u)) [
    | inl h ↦ absurd (
        get_last?-none starters u e (
          mem-sorted_by software_low (keep_if (starts_by sw) cand) u
            (mem-keep_if (starts_by sw) cand u i h)))
    | inr h ↦ ground arith
  ]

  floor_mem : (m : Row) → get_last? starters ≡ some m → Memᴰ m cand × (software_low m ≤ sw)
  unfolding starters
  floor_mem m last =
      let (i, h) = mem_of_mem-keep_if (starts_by sw) cand m (
        sorted_by-mem software_low (keep_if (starts_by sw) cand) m
          (get_last?-mem starters m last)) in
      (i, ground arith)

lowest_lem :
    (cand : List Row) (sw : ℕ) (remark : Option ℕ)
    → cand ≢ []
    → All (λ u. sw < software_low u) cand
    → SoftwarePool cand sw remark (floor_or_lowest none cand remark)
lowest_lem [] sw remark ne h = absurd (ne refl)
lowest_lem (c ∷ cs) sw remark ne h = (
  (
    min_from (less_by software_low) c cs,
    refl,
    min_from-mem (less_by software_low) c cs,
    All-of _ (c ∷ cs)
        (λ u i. (All-at _ i h, min_from-le (less_by-IsTotalOrder software_low) u c cs i)),
  ),
  refl,
)

module _ (cand : List Row) (sw : ℕ) (remark : Option ℕ) (ne : cand ≢ []) where
  below_lem :
      (o : Option Row)
      → get_last? (starters cand sw) ≡ o
      → keep_if (contains_sw sw) cand ≡ []
      → SoftwarePool cand sw remark (floor_or_lowest o cand remark)
  below_lem none e empty =
      lowest_lem cand sw remark ne (All-of _ cand (λ u i. none_below cand sw u e i))
  below_lem (some m) e empty =
      let (i, h) = floor_mem cand sw m e in
      (
        (
          m,
          refl,
          i,
          h,
          All-of _ cand (λ u j. outside sw u (keep_if-eq-nil (contains_sw sw) cand u empty j)),
          All-of _ cand (λ u j. floor_below cand sw m u e j),
        ),
        refl,
      )

  range_lem :
      (contain : List Row)
      → keep_if (contains_sw sw) cand ≡ contain
      → SoftwarePool cand sw remark (range_or_below contain cand sw remark)
  unfolding starters
  range_lem [] e = below_lem (get_last? (starters cand sw)) refl e
  range_lem (t ∷ ts) e = (
    (
      λ q. cc,
      All-of _ (t ∷ ts) (λ u i.
          (let (j, h) = mem_of_mem-keep_if (contains_sw sw) cand u (rw e i) in
            (j, (in_range sw u h).0, (in_range sw u h).1))),
      All-of _ cand (λ u i. rw (← e) (kept cand sw u i)),
    ),
    refl,
  )

  -- With candidates at hand the software index selects rows, and nothing raises.
  pub match_software_lem : SoftwarePool cand sw remark (match_software cand sw remark)
  unfolding match_software
  match_software_lem = range_lem (keep_if (contains_sw sw) cand) refl
