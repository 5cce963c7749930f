-- ===== src/Identify/Resolution.antt =====
-- `resolve_pool` of identify.py as a whole.
use mathlib.Core.List.{Memᴰ}
use esphome_vitohome.Common.{
  ℕ, ◌≡◌, refl, ◌≢◌, ◌⊎◌, inl, inr, true, false, Option, none, some, List, [], ◌∷◌, ap, All, All-of,
  All-at, mem-keep_if, mem_of_mem-keep_if, keep_if-eq-nil, Bool-cases, not_both, ℤ, pos, eqb_ℤ_iff,
}
use esphome_vitohome.Identify.{
  Row, How, family, range, floor, lowest, Found, Pool, no_family, found, raised, is_hw_sw_ext,
  family_of, ranged, candidates, hw_note, match_software, match_ranged, match_family, resolve_pool,
  opt_eq,
}
use esphome_vitohome.Identify.Selection.{SoftwareMatch, SoftwarePool, match_software_lem}
use esphome_vitohome.Identify.Generation.{candidates-keeps, candidates-ne-nil}

opt_eq_iff : (o : Option ℤ) (b : ℤ) → opt_eq o b ≡ true → o ≡ some b
opt_eq_iff none b h = cc
opt_eq_iff (some a) b h = ap some ((eqb_ℤ_iff a b).0 h)

opt_eq_self : (o : Option ℤ) (b : ℤ) → o ≡ some b → opt_eq o b ≡ true
opt_eq_self o b e = rw e ((eqb_ℤ_iff b b).1 refl)

opt_ne : (o : Option ℤ) (b : ℤ) → opt_eq o b ≡ false → o ≢ some b
opt_ne o b h q = not_both (opt_eq_self o b q) h

-- What the answer of `resolve_pool` says of the identification rows.
abbrev pub FoundSpec : List Row → ℕ → Option ℕ → ℕ → How → List Row → Option ℕ → Type 0
FoundSpec rows device_id hw sw family pool remark =
    (pool ≢ [])
    × (remark ≡ none)
    × All (λ t. is_hw_sw_ext t.ext ≡ false) pool
    × All (λ u. Memᴰ u pool ⊎ (u.ident ≢ some (pos device_id))) rows
FoundSpec rows device_id hw sw how pool remark =
    SoftwareMatch (candidates hw (ranged (family_of rows device_id))) sw how pool
    × (remark ≡ hw_note hw (ranged (family_of rows device_id)))

abbrev pub PoolSpec : List Row → ℕ → Option ℕ → ℕ → Pool → Type 0
PoolSpec rows device_id hw sw no_family = All (λ u. u.ident ≢ some (pos device_id)) rows
PoolSpec rows device_id hw sw raised = ⊥
PoolSpec rows device_id hw sw (found f) =
    All (λ t. Memᴰ t rows × (t.ident ≡ some (pos device_id))) f.rows
    × FoundSpec rows device_id hw sw f.how f.rows f.note

module _ (rows : List Row) (device_id : ℕ) where
  member :
      (t : Row) → Memᴰ t (family_of rows device_id) → Memᴰ t rows × (t.ident ≡ some (pos device_id))
  member t i =
      let (j, h) = mem_of_mem-keep_if (λ t. opt_eq t.ident (pos device_id)) rows t i in
      (j, opt_eq_iff t.ident (pos device_id) h)

  others :
      (u : Row) → Memᴰ u rows → Memᴰ u (family_of rows device_id) ⊎ (u.ident ≢ some (pos device_id))
  others u i = elim (Bool-cases (opt_eq u.ident (pos device_id))) [
    | inl h ↦ inl (mem-keep_if (λ t. opt_eq t.ident (pos device_id)) rows u i h)
    | inr h ↦ inr (opt_ne u.ident (pos device_id) h)
  ]

module _ (rows : List Row) (device_id : ℕ) where
  pub family-mem :
      (t : Row) → Memᴰ t (family_of rows device_id) → Memᴰ t rows × (t.ident ≡ some (pos device_id))
  family-mem = member rows device_id

  pub family-nil : All (λ u. u.ident ≢ some (pos device_id)) rows → family_of rows device_id ≡ []
  family-nil none_has = go (family_of rows device_id) refl
    where
      go : (fam : List Row) → family_of rows device_id ≡ fam → family_of rows device_id ≡ []
      go [] e = e
      go (t ∷ ts) e =
          let (i, h) = member rows device_id t (rw e (Memᴰ.head refl)) in
          absurd (All-at (λ u. u.ident ≢ some (pos device_id)) i none_has h)

-- Every row that a software match selects is a candidate.
SoftwareMatch-mem :
    (cand : List Row) (sw : ℕ) (how : How) (pool : List Row)
    → SoftwareMatch cand sw how pool
    → (t : Row) → Memᴰ t pool
    → Memᴰ t cand
SoftwareMatch-mem cand sw family pool m t i = absurd m
SoftwareMatch-mem cand sw range pool (ne, sound, complete) t i = (All-at _ i sound).0
SoftwareMatch-mem cand sw floor pool (m, e, c, _, _, _) t i = only (rw e at i) c
  where
    only : Memᴰ t (m ∷ []) → Memᴰ m cand → Memᴰ t cand
    only (Memᴰ.head q) k = rw q k
    only (Memᴰ.tail j) k = elim j [ ]
SoftwareMatch-mem cand sw lowest pool (m, e, c, _) t i = only (rw e at i) c
  where
    only : Memᴰ t (m ∷ []) → Memᴰ m cand → Memᴰ t cand
    only (Memᴰ.head q) k = rw q k
    only (Memᴰ.tail j) k = elim j [ ]

module _ (rows : List Row) (device_id : ℕ) (hw : Option ℕ) (sw : ℕ) where
  software_spec :
      (p : Pool)
      → SoftwarePool
          (candidates hw (ranged (family_of rows device_id)))
          sw
          (hw_note hw (ranged (family_of rows device_id)))
          p
      → PoolSpec rows device_id hw sw p
  software_spec no_family s = absurd s
  software_spec raised s = absurd s
  software_spec (found f) (m, e) = (
    All-of _ f.rows (λ t i.
        member rows device_id t
          (mem_of_mem-keep_if (λ t. is_hw_sw_ext t.ext) (family_of rows device_id) t
            (candidates-keeps hw (ranged (family_of rows device_id)) t
              (SoftwareMatch-mem _ sw f.how f.rows m t i)).0).0),
    by_how f.how m,
  )
    where
      by_how :
          (how : How)
          → SoftwareMatch (candidates hw (ranged (family_of rows device_id))) sw how f.rows
          → FoundSpec rows device_id hw sw how f.rows f.note
      by_how family m = absurd m
      by_how range m = (m, e)
      by_how floor m = (m, e)
      by_how lowest m = (m, e)

  ranged_spec :
      (fam : List Row)
      → family_of rows device_id ≡ fam
      → fam ≢ []
      → (have_ext : List Row) → ranged fam ≡ have_ext
      → PoolSpec rows device_id hw sw (match_ranged fam have_ext hw sw)
  ranged_spec fam from ne [] e = (
    All-of _ fam (λ t i. member rows device_id t (rw from i)),
    (
      ne,
      refl,
      All-of _ fam (λ t i. keep_if-eq-nil (λ t. is_hw_sw_ext t.ext) fam t e i),
      All-of _ rows (λ u i. rw (← from) (others rows device_id u i)),
    ),
  )
  ranged_spec fam from ne (t ∷ ts) e =
      software_spec (match_software (candidates hw (t ∷ ts)) sw (hw_note hw (t ∷ ts))) (
        rw (from, e)
          (match_software_lem (candidates hw (t ∷ ts)) sw (hw_note hw (t ∷ ts))
            (candidates-ne-nil hw (t ∷ ts) (λ q. cc))))

  family_spec :
      (fam : List Row)
      → family_of rows device_id ≡ fam
      → PoolSpec rows device_id hw sw (match_family fam hw sw)
  family_spec [] e = All-of _ rows (λ u i q.
      not_both (opt_eq_self u.ident (pos device_id) q)
        (keep_if-eq-nil (λ t. opt_eq t.ident (pos device_id)) rows u e i))
  family_spec (t ∷ ts) e = ranged_spec (t ∷ ts) e (λ q. cc) (ranged (t ∷ ts)) refl

  pub found-ne-nil : (f : Found) → PoolSpec rows device_id hw sw (found f) → f.rows ≢ []
  found-ne-nil f (_, s) = go f.how s
    where
      single : {t : Row} {xs : List Row} → xs ≡ t ∷ [] → xs ≢ []
      single e q = cc

      go : (how : How) → FoundSpec rows device_id hw sw how f.rows f.note → f.rows ≢ []
      go family s = s.0
      go range (m, _) = m.0
      go floor (m, _) = single m.1
      go lowest (m, _) = single m.1

  -- A family with a 2-byte extension is never returned whole.
  pub how-ne-family :
      (f : Found)
      → PoolSpec rows device_id hw sw (found f)
      → ranged (family_of rows device_id) ≢ []
      → f.how ≢ family
  how-ne-family f (_, s) ne whole = go f.how s whole (ranged (family_of rows device_id)) refl ne
    where
      go :
          (how : How)
          → FoundSpec rows device_id hw sw how f.rows f.note
          → how ≡ family
          → (have_ext : List Row) → ranged (family_of rows device_id) ≡ have_ext
          → have_ext ≢ []
          → ⊥
      go range s q have_ext e ne = cc
      go floor s q have_ext e ne = cc
      go lowest s q have_ext e ne = cc
      go family s q [] e ne = ne refl
      go family (_, _, unranged, complete) q (t ∷ ts) e ne =
          let (i, h) =
            mem_of_mem-keep_if (λ t. is_hw_sw_ext t.ext) (family_of rows device_id) t
              (rw e (Memᴰ.head refl)) in
          let (j, has) = member rows device_id t i in
          elim (All-at (λ u. Memᴰ u f.rows ⊎ (u.ident ≢ some (pos device_id))) j complete) [
            | inl k ↦ not_both h (All-at (λ t. is_hw_sw_ext t.ext ≡ false) k unranged)
            | inr other ↦ other has
          ]

  -- `resolve_pool` never raises. It finds no family exactly where no row has the device id;
  -- otherwise its rows all have the id, and are: the whole family, where no row of it has a 2-byte
  -- extension; the candidates whose range holds the software index, all of them; the candidate
  -- with the latest start, where the index is past every range that starts by it; or the one with
  -- the earliest start, where the index is below them all.
  pub resolve_pool-selects : PoolSpec rows device_id hw sw (resolve_pool rows device_id hw sw)
  unfolding resolve_pool
  resolve_pool-selects = family_spec (family_of rows device_id) refl
