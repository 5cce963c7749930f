-- ===== src/Identify/Loop.antt =====
-- The loop of `_resolve_runs` in identify.py keeps a tiling whose runs tell every answer.
use mathlib.Core.List.{Memᴰ}
use esphome_vitohome.Common.{
  ℕ, zero, suc, ◌+◌, ◌≤◌, ◌≡◌, refl, ◌≢◌, inl, inr, true, Option, none, some, List, [], ◌∷◌, arith,
  ◌∙◌, leb, All, All-at, Bool-cases,
}
use esphome_vitohome.Identify.{Row, Found, Pool, found, generic_of}
use esphome_vitohome.Identify.Runs.{
  RunKey, run_key, key_eq, Run, RunState, listed_of, push_run, extend_last, add_software, runs_from,
  no_runs,
}
use esphome_vitohome.Identify.Generic.{generic_of_lem}
use esphome_vitohome.Identify.Table.{
  DistinctTokens, same_pool, key_eq_sound, tokens_of, Agrees, Tiles,
}

Agrees-same : {r : Run} {f g : Found} → f.how ≡ g.how → f.rows ≡ g.rows → Agrees r f → Agrees r g
Agrees-same h e a = record {
  how = rw (← h) a.how;
  generic = a.generic;
  generic_of = rw (← e) a.generic_of;
  token = a.token;
  listed = rw (← e) a.listed;
}

Agrees-extend : {r : Run} {f : Found} (last : ℕ) → Agrees r f → Agrees (record r { last = last }) f
Agrees-extend last a = record {
  how = a.how;
  generic = a.generic;
  generic_of = a.generic_of;
  token = a.token;
  listed = a.listed;
}

run_key-same :
    (f g : Found) → f.how ≡ g.how → tokens_of f.rows ≡ tokens_of g.rows → run_key f ≡ run_key g
unfolding run_key tokens_of
run_key-same f g h t = λ i. record { how = h i; tokens = t i }

-- An answer whose rows are identification rows, at least one.
pub record IsAnswer (rows : List Row) (p : Pool) (f : Found) : Type 0 where
  pub answer : p ≡ found f
  pub listed : All (λ t. Memᴰ t rows) f.rows
  pub some_row : f.rows ≢ []

module _ (rows : List Row) (distinct : DistinctTokens rows) (pool_at : ℕ → Pool)
    (answered : (sw : ℕ) → (f : Found) × IsAnswer rows (pool_at sw) f) where
  -- The run tells the answer at each of its indices.
  pub record Tells (r : Run) (j : ℕ) : Type 0 where
    pub pool : Found
    pub answer : pool_at j ≡ found pool
    pub agrees : Agrees r pool

  abbrev TellsAll : Run → Type 0
  TellsAll r = (j : ℕ) → r.first ≤ j → j ≤ r.last → Tells r j

  -- `prev_key` is the key of the answer that the latest run was last extended by.
  abbrev Latest : List Run → Option RunKey → Type 0
  Latest rs none = Unit
  Latest [] (some k) = ⊥
  Latest (r ∷ rs) (some k) =
      (f : Found) × IsAnswer rows (pool_at r.last) f × (k ≡ run_key f) × Agrees r f

  record Inv (i : ℕ) (s : RunState) : Type 0 where
    tiles : Tiles s.runs i
    tells : All TellsAll s.runs
    latest : Latest s.runs s.prev

  extend : {r : Run} {j : ℕ} (i : ℕ) → Tells r j → Tells (record r { last = i }) j
  extend i t = record { pool = t.pool; answer = t.answer; agrees = Agrees-extend i t.agrees }

  push_lem :
      (i : ℕ) (s : RunState) (f : Found)
      → Inv i s
      → IsAnswer rows (pool_at i) f
      → (s' : RunState) × (push_run (generic_of f.rows) i f s ≡ some s') × Inv (suc i) s'
  push_lem i s f inv a =
      let (g, e, _, _) = generic_of_lem f.rows a.some_row in
      let r : Run = record {
        first = i;
        last = i;
        how = f.how;
        token = g.token;
        listed = listed_of f.rows;
      } in
      let agrees : Agrees r f = record {
        how = refl;
        generic = g;
        generic_of = e;
        token = refl;
        listed = refl;
      } in
      (
        record { runs = r ∷ s.runs; prev = some (run_key f) },
        rw e,
        record {
          tiles = (omega arith, omega arith, inv.tiles);
          tells = (
            λ j lo hi.
                (let same : j ≡ i = omega arith in
                  record { pool = f; answer = rw same a.answer; agrees = agrees }),
            inv.tells,
          );
          latest = (f, a, refl, agrees);
        },
      )

  extend_lem :
      (i : ℕ) (runs : List Run) (k : RunKey) (f : Found)
      → Inv i (record { runs = runs; prev = some k })
      → IsAnswer rows (pool_at i) f
      → key_eq (run_key f) (some k) ≡ true
      → (s' : RunState) × (extend_last i (record { runs = runs; prev = some k }) ≡ some s')
        × Inv (suc i) s'
  extend_lem i [] k f inv a e = absurd inv.latest
  extend_lem i (r ∷ rs) k f inv a e =
      let (g, b, same_k, agrees) = inv.latest in
      let (same_how, same_tokens) = key_eq_sound f g (rw same_k at e) in
      let same_rows : g.rows ≡ f.rows =
        same_pool rows g.rows f.rows distinct b.listed a.listed (rw same_tokens refl) in
      let now : Agrees (record r { last = i }) f =
        Agrees-extend i (Agrees-same (rw same_how refl) same_rows agrees) in
      (
        record { runs = record r { last = i } ∷ rs; prev = some k },
        refl,
        record {
          tiles = (omega arith, omega (arith, inv.tiles.0, inv.tiles.1), inv.tiles.2);
          tells = (
            λ j lo hi. elim (Bool-cases (leb j r.last)) [
              | inl old ↦ extend i (inv.tells.0 j lo (ground arith))
              | inr new ↦
                  (let same : j ≡ i = ground arith in
                    record { pool = f; answer = rw same a.answer; agrees = now })
            ],
            inv.tells.1,
          );
          latest = (f, a, same_k ∙ run_key-same g f (rw same_how refl) (rw same_tokens refl), now);
        },
      )

  step_lem :
      (i : ℕ) (runs : List Run) (prev : Option RunKey) (f : Found)
      → Inv i (record { runs = runs; prev = prev })
      → IsAnswer rows (pool_at i) f
      → (s' : RunState) × (add_software i (found f) (record { runs = runs; prev = prev }) ≡ some s')
        × Inv (suc i) s'
  unfolding add_software
  step_lem i runs none f inv a = push_lem i (record { runs = runs; prev = none }) f inv a
  step_lem i runs (some k) f inv a = elim (Bool-cases (key_eq (run_key f) (some k))) [
    | inl same ↦ rw same (extend_lem i runs k f inv a same)
    | inr new ↦ rw new (push_lem i (record { runs = runs; prev = some k }) f inv a)
  ]

  add_lem :
      (i : ℕ) (s : RunState)
      → Inv i s
      → (s' : RunState) × (add_software i (pool_at i) s ≡ some s') × Inv (suc i) s'
  add_lem i s inv = let (f, a) = answered i in rw a.answer (step_lem i s.runs s.prev f inv a)

  loop_lem :
      (n i m : ℕ) (s : RunState)
      → n + i ≡ m
      → Inv i s
      → (s' : RunState) × (runs_from pool_at n i s ≡ some s') × Inv m s'
  unfolding runs_from
  loop_lem zero i m s e inv = (s, refl, (let same : m ≡ i = omega arith in rw same inv))
  loop_lem (suc n) i m s e inv =
      let (s₁, first, inv₁) = add_lem i s inv in
      let (s₂, rest, inv₂) = loop_lem n (suc i) m s₁ (omega arith) inv₁ in (s₂, rw first rest, inv₂)

  -- The loop over `range(n)` does not raise; its runs tile 0 to n - 1 and tell every answer.
  pub runs_lem :
      (n : ℕ)
      → (s : RunState) × (runs_from pool_at n 0 no_runs ≡ some s)
        × Tiles s.runs n
        × ((r : Run) → Memᴰ r s.runs → (j : ℕ) → r.first ≤ j → j ≤ r.last → Tells r j)
  runs_lem n =
      let start : Inv 0 no_runs = record { tiles = refl; tells = tt; latest = tt } in
      let (s, e, inv) = loop_lem n 0 n no_runs (omega arith) start in
      (s, e, inv.tiles, λ r m. All-at TellsAll m inv.tells)
