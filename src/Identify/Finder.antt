-- ===== src/Identify/Finder.antt =====
-- The table of `_resolve_runs` in identify.py answers as `resolve_pool` and `resolve_device` do.
use mathlib.Core.List.{Memᴰ, reverse, reverse_aux}
use esphome_vitohome.Common.{
  ℕ, ◌<◌, ◌≡◌, refl, ◌≢◌, ◌⊎◌, inl, inr, Bool, false, Option, none, some, List, [], ◌∷◌, arith,
  All-of, All-at, Bool-cases, if◌then◌else◌, any, keep_if,
}
use esphome_vitohome.Identify.{
  Row, How, family, range, floor, lowest, Found, Pool, no_family, found, raised, generic_of, ranged,
  family_of, resolve_pool, resolve_device, resolved, device_of_pool, Tail, no_tail, not_provided,
  hw_listed, candidates, match_software, match_ranged, match_family, range_or_below,
  floor_or_lowest, device_of, ranged_device, is_some_int, head_row, contains_sw, get_last?,
  sorted_by, starts_by, software_low,
}
use esphome_vitohome.Identify.Runs.{Run, resolve_runs}
use esphome_vitohome.Identify.Resolution.{
  family-nil, how-ne-family, PoolSpec, resolve_pool-selects, found-ne-nil,
}
use esphome_vitohome.Identify.Table.{
  DistinctTokens, Agrees, TilesFrom, TilesFrom-reverse_aux, find_run, find_run-tiles,
}
use esphome_vitohome.Identify.Loop.{IsAnswer, runs_lem}

mem-reverse_aux :
    (rs acc : List Run) (r : Run) → Memᴰ r (reverse_aux rs acc) → Memᴰ r rs ⊎ Memᴰ r acc
mem-reverse_aux [] acc r i = inr i
mem-reverse_aux (x ∷ rs) acc r i = elim (mem-reverse_aux rs (x ∷ acc) r i) [
  | inl j ↦ inl (Memᴰ.tail j)
  | inr j ↦ from_cons j
]
  where
    from_cons : Memᴰ r (x ∷ acc) → Memᴰ r (x ∷ rs) ⊎ Memᴰ r acc
    from_cons (Memᴰ.head e) = inl (Memᴰ.head e)
    from_cons (Memᴰ.tail j) = inr j

mem-reverse : (rs : List Run) (r : Run) → Memᴰ r (reverse rs) → Memᴰ r rs
mem-reverse rs r i = elim (mem-reverse_aux rs [] r i) [ inl j ↦ j | inr j ↦ (elim j [ ]) ]

module _ (rows : List Row) (device_id : ℕ) (known : family_of rows device_id ≢ [])
    (hw : Option ℕ) where
  answered : (sw : ℕ) → (f : Found) × IsAnswer rows (resolve_pool rows device_id hw sw) f
  answered sw =
      go (resolve_pool rows device_id hw sw) refl (resolve_pool-selects rows device_id hw sw)
    where
      go :
          (p : Pool)
          → resolve_pool rows device_id hw sw ≡ p
          → PoolSpec rows device_id hw sw p
          → (f : Found) × IsAnswer rows (resolve_pool rows device_id hw sw) f
      go no_family e s = absurd (known (family-nil rows device_id s))
      go raised e s = absurd s
      go (found f) e s = (
        f,
        record {
          answer = e;
          listed = All-of _ f.rows (λ t i. (All-at _ i s.0).0);
          some_row = found-ne-nil rows device_id hw sw f s;
        },
      )

-- Where no two rows share a token, for a device id that a row has, any hardware byte and a software
-- index below 256: the table exists, its runs tile the
-- software indices 0 to 255, and looking an index up gives the pool's `how`, the token of its
-- generic row, and its candidates in order.
pub resolve_runs-tells :
    (rows : List Row) (device_id sw : ℕ) (hw : Option ℕ)
    → DistinctTokens rows
    → family_of rows device_id ≢ []
    → sw < 256
    → (runs : List Run) × (r : Run) × (f : Found) × (resolve_runs rows device_id hw ≡ some runs)
      × TilesFrom 0 runs 256
      × (find_run sw runs ≡ some r)
      × (resolve_pool rows device_id hw sw ≡ found f)
      × Agrees r f
unfolding resolve_runs
resolve_runs-tells rows device_id sw hw distinct known small =
    let (s, e, tiles, tells) =
      runs_lem rows distinct (resolve_pool rows device_id hw) (answered rows device_id known hw)
        256 in
    let ordered : TilesFrom 0 (reverse s.runs) 256 =
      TilesFrom-reverse_aux s.runs [] 256 256 tiles refl in
    let (r, found_r, m, lo, hi) =
      find_run-tiles 0 sw 256 (reverse s.runs) ordered (omega arith) small in
    let t = tells r (mem-reverse s.runs r m) sw lo hi in
    (reverse s.runs, r, t.pool, rw e, ordered, found_r, t.answer, t.agrees)

-- Two answers that differ in the note at most.
abbrev SamePool : Pool → Pool → Type 0
SamePool (found f) (found g) = (f.rows ≡ g.rows) × (f.how ≡ g.how)
SamePool no_family no_family = Unit
SamePool raised raised = Unit
SamePool _ _ = ⊥

below_same :
    (o : Option Row) (cand : List Row) (a b : Option ℕ)
    → SamePool (floor_or_lowest o cand a) (floor_or_lowest o cand b)
below_same (some t) cand a b = (refl, refl)
below_same none [] a b = tt
below_same none (c ∷ cs) a b = (refl, refl)

match_software_same :
    (cand : List Row) (sw : ℕ) (a b : Option ℕ)
    → SamePool (match_software cand sw a) (match_software cand sw b)
unfolding match_software
match_software_same cand sw a b = go (keep_if (contains_sw sw) cand)
  where
    go : (ts : List Row) → SamePool (range_or_below ts cand sw a) (range_or_below ts cand sw b)
    go [] = below_same (get_last? (sorted_by software_low (keep_if (starts_by sw) cand))) cand a b
    go (t ∷ ts) = (refl, refl)

-- The part of an index entry that the finder looks in: the runs of the live hardware byte where
-- the entry has it, `any` otherwise.
abbrev pub index_key : ℕ → List Row → Option ℕ
index_key hw have_ext = if hw_listed (some hw) have_ext then some hw else none

candidates-index_key :
    (hw : ℕ) (have_ext : List Row)
    → candidates (index_key hw have_ext) have_ext ≡ candidates (some hw) have_ext
unfolding candidates
candidates-index_key hw have_ext = elim (Bool-cases (hw_listed (some hw) have_ext)) [
  | inl e ↦ rw (e, e)
  | inr e ↦ rw e
]

pool_same :
    (rows : List Row) (device_id hw sw : ℕ)
    → ranged (family_of rows device_id) ≢ []
    → SamePool
        (resolve_pool rows device_id (index_key hw (ranged (family_of rows device_id))) sw)
        (resolve_pool rows device_id (some hw) sw)
unfolding resolve_pool
pool_same rows device_id hw sw ne = go (family_of rows device_id) ne
  where
    within :
        (fam have_ext : List Row)
        → have_ext ≢ []
        → SamePool
            (match_ranged fam have_ext (index_key hw have_ext) sw)
            (match_ranged fam have_ext (some hw) sw)
    within fam [] ne = absurd (ne refl)
    within fam (t ∷ ts) ne =
        rw (candidates-index_key hw (t ∷ ts))
          (match_software_same (candidates (some hw) (t ∷ ts)) sw _ _)

    go :
        (fam : List Row)
        → ranged fam ≢ []
        → SamePool (match_family fam (index_key hw (ranged fam)) sw) (match_family fam (some hw) sw)
    go [] ne = absurd (ne refl)
    go (t ∷ ts) ne = within (t ∷ ts) (ranged (t ∷ ts)) ne

any-of-keep_if : (p : Row → Bool) (xs : List Row) → keep_if p xs ≡ [] → any p xs ≡ false
any-of-keep_if p [] e = refl
any-of-keep_if p (x ∷ xs) e = elim (Bool-cases (p x)) [
  | inl h ↦ absurd (cons-ne (rw h at e))
  | inr h ↦ rw h (any-of-keep_if p xs (rw h at e))
]
  where
    cons-ne : {ys : List Row} → ◌≢◌ {A = List Row} (x ∷ ys) []
    cons-ne q = cc

ranged_device_generic :
    (f : Found) (g : Row) (aware : List Row)
    → keep_if (λ t. is_some_int t.f0) f.rows ≡ aware
    → generic_of f.rows ≡ some g
    → (tail : Tail) × (ranged_device aware f none ≡ resolved g.token f.how tail f.note)
unfolding generic_of
ranged_device_generic f g (t ∷ ts) e h = (not_provided, rw h)
ranged_device_generic f g [] e h =
    let first : head_row f.rows ≡ some g =
      rw (any-of-keep_if (λ t. is_some_int t.f0) f.rows e) at h in
    (no_tail, rw first)

-- Without F0, `resolve_device` takes the generic row of the pool.
device_generic :
    (f : Found) (g : Row)
    → f.how ≢ family
    → generic_of f.rows ≡ some g
    → (tail : Tail) × (device_of f.how f none ≡ resolved g.token f.how tail f.note)
device_generic f g ne h = go f.how ne
  where
    go :
        (how : How)
        → how ≢ family
        → (tail : Tail) × (device_of how f none ≡ resolved g.token f.how tail f.note)
    go family ne = absurd (ne refl)
    go range ne = ranged_device_generic f g _ refl h
    go floor ne = ranged_device_generic f g _ refl h
    go lowest ne = ranged_device_generic f g _ refl h

-- Where no two rows share a token, for an id whose family has a 2-byte extension and a software index
-- below 256: looking up the software index in the runs that
-- the index keeps for the live hardware byte (`any` where it lists no such byte) gives the token
-- and the way that `resolve_device` returns without F0.
pub find_run-eq-resolve_device :
    (rows : List Row) (device_id hw sw : ℕ)
    → DistinctTokens rows
    → ranged (family_of rows device_id) ≢ []
    → sw < 256
    → (runs : List Run) × (r : Run) × (tail : Tail) × (remark : Option ℕ) × (resolve_runs rows
          device_id
          (index_key hw (ranged (family_of rows device_id)))
        ≡ some runs)
      × (find_run sw runs ≡ some r)
      × (resolve_device rows device_id hw sw none ≡ resolved r.token r.how tail remark)
unfolding resolve_device
find_run-eq-resolve_device rows device_id hw sw distinct ne small =
    let (runs, r, f, made, _, looked, answer, agrees) =
      resolve_runs-tells rows device_id sw (index_key hw (ranged (family_of rows device_id)))
        distinct (λ e. ne (rw e)) small in
    let (tail, remark, e) =
      direct f r agrees (resolve_pool rows device_id (some hw) sw)
        (resolve_pool-selects rows device_id (some hw) sw)
        (rw answer at (pool_same rows device_id hw sw ne)) in
    (runs, r, tail, remark, made, looked, e)
  where
    direct :
        (f : Found) (r : Run)
        → Agrees r f
        → (p : Pool) → PoolSpec rows device_id (some hw) sw p
        → SamePool (found f) p
        → (tail : Tail) × (remark : Option ℕ) × (device_of_pool p none
            ≡ resolved r.token r.how tail remark)
    direct f r agrees no_family s same = absurd same
    direct f r agrees raised s same = absurd same
    direct f r agrees (found g) s (same_rows, same_how) =
        let (tail, e) =
          device_generic g agrees.generic (how-ne-family rows device_id (some hw) sw g s ne)
            (rw same_rows at agrees.generic_of) in
        (tail, g.note, rw (agrees.token, agrees.how, same_how) e)
