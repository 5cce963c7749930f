-- ===== src/Renderer.antt =====
-- scripts/vitocatalog/renderer.py `_make_obj_id`: a unique, valid id from a technical name.
pub mod Generate
pub mod Ids
pub mod Keys
pub mod Profiles
pub mod Search
use esphome_vitohome.Common.{
  ℕ, zero, suc, ◌+◌, ◌*◌, ◌/◌, ◌%◌, Bool, true, false, not, ◌&&◌, ◌||◌, Option, none, some, List,
  [], ◌∷◌, ◌++◌, leb, ◌==◌, any, length, if◌then◌else◌, Text, codes, same_text,
}

abbrev pub is_digit : ℕ → Bool
is_digit c = leb 48 c && leb c 57

-- `[0-9A-Za-z_]`
unfoldable pub is_id_char : ℕ → Bool
is_id_char c = (is_digit c || (leb 65 c && leb c 90)) || ((leb 97 c && leb c 122) || (c == 95))

-- `re.sub(r"[^0-9A-Za-z_]", "_", tech)`
abbrev pub sanitised : Text → Text
sanitised [] = []
sanitised (c ∷ s) = (if is_id_char c then c else 95) ∷ sanitised s

abbrev pub after_underscore : ℕ → Text → Text
after_underscore c [] = c ∷ []
after_underscore c (d ∷ s) = if (c == 95) && (d == 95) then d ∷ s else c ∷ d ∷ s

-- `re.sub(r"_+", "_", base)`
abbrev pub collapsed : Text → Text
collapsed [] = []
collapsed (c ∷ s) = after_underscore c (collapsed s)

-- `base.strip("_")`
abbrev pub trim_start : Text → Text
trim_start [] = []
trim_start (c ∷ s) = let rest = trim_start s in if c == 95 then rest else c ∷ s

abbrev pub before_end : ℕ → Text → Text
before_end c [] = if c == 95 then [] else c ∷ []
before_end c (d ∷ s) = c ∷ d ∷ s

abbrev pub trim_end : Text → Text
trim_end [] = []
trim_end (c ∷ s) = before_end c (trim_end s)

abbrev pub prefixed : Text → Text
prefixed [] = codes "id_dp"
prefixed (c ∷ s) = if is_digit c then codes "id_" ++ (c ∷ s) else c ∷ s

-- The name without a number.
unfoldable pub base_id : Text → Text
unfolding is_id_char
base_id tech = prefixed (trim_end (trim_start (collapsed (sanitised tech))))

-- `str(i)`, with the fuel `i` enough, since each digit divides by 10.
abbrev pub decimal_from : ℕ → ℕ → Text → Text
decimal_from zero n after = after
decimal_from (suc fuel) n after =
    let rest = decimal_from fuel (n / 10) ((n % 10 + 48) ∷ after) in if n == 0 then after else rest

-- The candidates in their order: the base, then `f"{base}_{i}"` from i = 2 on.
unfoldable pub nth_candidate : Text → ℕ → Text
nth_candidate base zero = base
nth_candidate base (suc k) = base ++ (95 ∷ decimal_from (k + 2) (k + 2) [])

abbrev pub is_used : Text → List Text → Bool
is_used cand used = any (λ t. same_text t cand) used

-- The loop, from the k-th candidate on; `none` where the fuel runs out.
unfoldable pub search_id : ℕ → Text → ℕ → List Text → Option Text
unfolding nth_candidate same_text
search_id zero base k used = none
search_id (suc fuel) base k used =
    let rest = search_id fuel base (suc k) used in
    if is_used (nth_candidate base k) used then rest else some (nth_candidate base k)

-- `_make_obj_id`: the id, which the caller's set then holds too. Among one candidate more than there are
-- used ids one is free.
unfoldable pub make_obj_id : Text → List Text → Option Text
unfolding base_id search_id
make_obj_id tech used = search_id (suc (length used)) (base_id tech) 0 used
