-- ===== src/Identify/Table.antt =====
-- `_resolve_runs` of identify.py: the run-length table of `resolve_pool` over the software index.
use mathlib.Core.List.{Memᴰ, reverse_aux}
use text.Mathlib.TextEquality.{eq_iff}
use esphome_vitohome.Common.{
  ℕ, ◌+◌, ◌≤◌, ◌<◌, ◌≡◌, refl, sym, ◌≢◌, inl, inr, String, true, ◌&&◌, Option, none, some, List, [],
  ◌∷◌, map, arith, All, All-at, Bool-cases, and-true, leb, if◌then◌else◌,
}
use esphome_vitohome.Identify.{Row, How, family, range, floor, lowest, Found, generic_of}
use esphome_vitohome.Identify.Runs.{run_key, how_eq, tokens_eq, key_eq, Run, listed_of}

-- No two rows share a token: the token is the id of the datapoint type.
abbrev pub DistinctTokens : List Row → Type 0
DistinctTokens [] = Unit
DistinctTokens (t ∷ ts) = All (λ u. t.token ≢ u.token) ts × DistinctTokens ts

same_row :
    (rows : List Row) (s t : Row)
    → DistinctTokens rows
    → Memᴰ s rows
    → Memᴰ t rows
    → s.token ≡ t.token
    → s ≡ t
same_row [] s t d i j e = elim i [ ]
same_row (r ∷ rs) s t (new, d) (Memᴰ.head p) (Memᴰ.head q) e = rw (p, q)
same_row (r ∷ rs) s t (new, d) (Memᴰ.head p) (Memᴰ.tail j) e =
    absurd (All-at (λ u. r.token ≢ u.token) j new (rw (← p) e))
same_row (r ∷ rs) s t (new, d) (Memᴰ.tail i) (Memᴰ.head q) e =
    absurd (All-at (λ u. r.token ≢ u.token) i new (rw (← q) (sym e)))
same_row (r ∷ rs) s t (new, d) (Memᴰ.tail i) (Memᴰ.tail j) e = same_row rs s t d i j e

unfoldable pub tokens_of : List Row → List String
tokens_of pool = map (λ t. t.token) pool

pub same_pool :
    (rows xs ys : List Row)
    → DistinctTokens rows
    → All (λ t. Memᴰ t rows) xs
    → All (λ t. Memᴰ t rows) ys
    → tokens_of xs ≡ tokens_of ys
    → xs ≡ ys
unfolding tokens_of
same_pool rows [] [] d p q e = refl
same_pool rows [] (y ∷ ys) d p q e = cc
same_pool rows (x ∷ xs) [] d p q e = cc
same_pool rows (x ∷ xs) (y ∷ ys) d (p, ps) (q, qs) e =
    let h : x.token ≡ y.token = cc in
    let r : tokens_of xs ≡ tokens_of ys = cc in
    rw (same_row rows x y d p q h, same_pool rows xs ys d ps qs r)

how_eq_sound : (a b : How) → how_eq a b ≡ true → a ≡ b
how_eq_sound family family h = refl
how_eq_sound range range h = refl
how_eq_sound floor floor h = refl
how_eq_sound lowest lowest h = refl
how_eq_sound _ _ h = cc

tokens_eq_sound : (xs ys : List String) → tokens_eq xs ys ≡ true → xs ≡ ys
tokens_eq_sound [] [] h = refl
tokens_eq_sound [] (y ∷ ys) h = cc
tokens_eq_sound (x ∷ xs) [] h = cc
tokens_eq_sound (x ∷ xs) (y ∷ ys) h =
    let (same, rest) = and-true _ _ h in rw ((eq_iff x y).0 same, tokens_eq_sound xs ys rest)

pub key_eq_sound :
    (f g : Found)
    → key_eq (run_key f) (some (run_key g)) ≡ true
    → (f.how ≡ g.how) × (tokens_of f.rows ≡ tokens_of g.rows)
unfolding key_eq run_key tokens_of
key_eq_sound f g h = let (a, b) = and-true _ _ h in (how_eq_sound _ _ a, tokens_eq_sound _ _ b)

-- What a run says is the answer `f`.
pub record Agrees (r : Run) (f : Found) : Type 0 where
  pub how : r.how ≡ f.how
  pub generic : Row
  pub generic_of : generic_of f.rows ≡ some generic
  pub token : r.token ≡ generic.token
  pub listed : r.listed ≡ listed_of f.rows

-- The runs, the latest first, tile the indices below `n` without a gap or an overlap.
abbrev pub Tiles : List Run → ℕ → Type 0
Tiles [] n = n ≡ 0
Tiles (r ∷ rs) n = (r.last + 1 ≡ n) × (r.first ≤ r.last) × Tiles rs r.first

-- The same in ascending order, from `i` up to `n`.
abbrev pub TilesFrom : ℕ → List Run → ℕ → Type 0
TilesFrom i [] n = i ≡ n
TilesFrom i (r ∷ rs) n = (r.first ≡ i) × (r.first ≤ r.last) × TilesFrom (r.last + 1) rs n

pub TilesFrom-reverse_aux :
    (rs acc : List Run) (i n : ℕ)
    → Tiles rs i
    → TilesFrom i acc n
    → TilesFrom 0 (reverse_aux rs acc) n
TilesFrom-reverse_aux [] acc i n t h = rw (← t) h
TilesFrom-reverse_aux (r ∷ rs) acc i n (last, order, t) h =
    TilesFrom-reverse_aux rs (r ∷ acc) r.first n t (refl, order, rw last h)

-- The lookup that the table serves: the first run that holds the index.
unfoldable pub find_run : ℕ → List Run → Option Run
find_run sw [] = none
find_run sw (r ∷ rs) = if leb r.first sw && leb sw r.last then some r else find_run sw rs

pub find_run-tiles :
    (i sw n : ℕ) (runs : List Run)
    → TilesFrom i runs n
    → i ≤ sw
    → sw < n
    → (r : Run) × (find_run sw runs ≡ some r) × Memᴰ r runs × (r.first ≤ sw) × (sw ≤ r.last)
unfolding find_run
find_run-tiles i sw n [] t lo hi = absurd (omega arith)
find_run-tiles i sw n (r ∷ rs) (first, order, t) lo hi =
    elim (Bool-cases (leb r.first sw && leb sw r.last)) [
      | inl e ↦ (r, rw e, Memᴰ.head refl, ground arith, ground arith)
      | inr e ↦
          (let (q, f, m, a, b) = find_run-tiles (r.last + 1) sw n rs t (ground arith) hi in
            (q, rw e f, Memᴰ.tail m, a, b))
    ]
