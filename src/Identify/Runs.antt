-- ===== src/Identify/Runs.antt =====
-- scripts/vitocatalog/identify.py: the run-length table of all the answers for one device id.
use mathlib.Core.List.{reverse}
use text.Mathlib.Text.{◌==◌ as str_eq}
use esphome_vitohome.Common.{
  ℕ, zero, suc, String, Bool, true, false, ◌&&◌, Option, none, some, List, [], ◌∷◌, map, ℤ,
  if◌then◌else◌,
}
use esphome_vitohome.Identify.{
  Row, How, family, range, floor, lowest, Found, Pool, no_family, found, raised, resolve_pool,
  generic_of,
}

-- `_resolve_run_key`
pub record RunKey : Type 0 where
  pub how : How
  pub tokens : List String

unfoldable pub run_key : Found → RunKey
run_key f = record { how = f.how; tokens = map (λ t. t.token) f.rows }

abbrev pub how_eq : How → How → Bool
how_eq family family = true
how_eq range range = true
how_eq floor floor = true
how_eq lowest lowest = true
how_eq _ _ = false

abbrev pub tokens_eq : List String → List String → Bool
tokens_eq [] [] = true
tokens_eq (a ∷ xs) (b ∷ ys) = str_eq a b && tokens_eq xs ys
tokens_eq _ _ = false

unfoldable pub key_eq : RunKey → Option RunKey → Bool
key_eq k none = false
key_eq k (some j) = how_eq k.how j.how && tokens_eq k.tokens j.tokens

pub record Candidate : Type 0 where
  pub token : String
  pub f0 : Option (ℤ × ℤ)

pub record Run : Type 0 where
  pub first : ℕ
  pub last : ℕ
  pub how : How
  pub token : String
  pub listed : List Candidate

abbrev pub candidate : Row → Candidate
candidate t = record {
  token = t.token;
  f0 = elim t.f0 [ none ↦ none | some f0 ↦ some (f0, elim t.f0t [ none ↦ f0 | some f0t ↦ f0t ]) ];
}

-- `candidates` is present only if the pool has several rows.
abbrev pub listed_of : List Row → List Candidate
listed_of [] = []
listed_of (t ∷ []) = []
listed_of (s ∷ t ∷ ts) = map candidate (s ∷ t ∷ ts)

-- The loop's `runs`, the latest first, and its `prev_key`.
pub record RunState : Type 0 where
  pub runs : List Run
  pub prev : Option RunKey

abbrev pub push_run : Option Row → ℕ → Found → RunState → Option RunState
push_run none sw f s = none
push_run (some t) sw f s = some (record {
  runs =
      record { first = sw; last = sw; how = f.how; token = t.token; listed = listed_of f.rows }
      ∷ s.runs;
  prev = some (run_key f);
})

abbrev pub extend_last : ℕ → RunState → Option RunState
extend_last sw s = elim s.runs [
  | [] ↦ none
  | r ∷ rs ↦ some (record s { runs = record r { last = sw } ∷ rs })
]

-- One round of the loop; `none` where Python raises.
unfoldable pub add_software : ℕ → Pool → RunState → Option RunState
unfolding key_eq run_key generic_of
add_software sw no_family s = none
add_software sw raised s = none
add_software sw (found f) s =
    if key_eq (run_key f) s.prev then extend_last sw s else push_run (generic_of f.rows) sw f s

infixl 5 ◌>>=◌
abbrev pub ◌>>=◌ {ℓ κ} : {A : Type ℓ} {B : Type κ} → Option A → (A → Option B) → Option B
none >>= k = none
some a >>= k = k a

unfoldable pub runs_from : (ℕ → Pool) → ℕ → ℕ → RunState → Option RunState
unfolding add_software
runs_from pool_at zero sw s = some s
runs_from pool_at (suc n) sw s =
    add_software sw (pool_at sw) s >>= λ s'. runs_from pool_at n (suc sw) s'

abbrev pub no_runs : RunState
no_runs = record { runs = []; prev = none }

unfoldable pub resolve_runs : List Row → ℕ → Option ℕ → Option (List Run)
unfolding runs_from resolve_pool
resolve_runs ident_rows device_id hw =
    runs_from (resolve_pool ident_rows device_id hw) 256 0 no_runs >>= λ s. some (reverse s.runs)
