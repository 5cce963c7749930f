-- ===== src/Climate/Presets.antt =====
-- Every state byte names one preset.
use mathlib.Core.List.{Memᴰ}
use esphome_vitohome.Common.{
  ℕ, ◌≡◌, refl, inl, inr, Bool, true, false, Option, none, some, List, [], ◌∷◌, map, arith,
  Bool-cases, not_both, ◌==◌, if◌then◌else◌,
}
use esphome_vitohome.Hub.Invalid.{Result, ok, invalid, >>=-eq-ok, read_twice, preset_names}
use esphome_vitohome.Hub.Fields.{contains, guard}
use esphome_vitohome.Platforms.{all_unique}
use esphome_vitohome.Climate.{Preset, reads_of, all_reads, some_preset, validate_presets}

-- The first preset whose read set has the byte: the one that the device's state is shown as.
unfoldable pub first_with : ℕ → List Preset → Option Preset
first_with b [] = none
first_with b (p ∷ ps) = let rest = first_with b ps in if contains p.read b then some p else rest

mem-contains : (b : ℕ) (xs : List ℕ) → Memᴰ b xs → contains xs b ≡ true
mem-contains b [] i = elim i [ ]
mem-contains b (x ∷ xs) (Memᴰ.head e) = ground arith
mem-contains b (x ∷ xs) (Memᴰ.tail i) = ground (arith, mem-contains b xs i)

not_seen :
    (seen : List ℕ) (r : ℕ) (rest : Result (List ℕ)) (s : List ℕ)
    → (if contains seen r then invalid (read_twice r) else rest) ≡ ok s
    → (contains seen r ≡ false) × (rest ≡ ok s)
not_seen seen r rest s h = go (contains seen r) h
  where
    go :
        (b : Bool)
        → (if b then invalid (read_twice r) else rest) ≡ ok s
        → (b ≡ false) × (rest ≡ ok s)
    go true h = cc
    go false h = (refl, h)

reads_of-keeps :
    (seen rs s : List ℕ) (b : ℕ)
    → reads_of seen rs ≡ ok s
    → contains seen b ≡ true
    → contains s b ≡ true
reads_of-keeps seen [] s b h k = cc
reads_of-keeps seen (r ∷ rs) s b h k =
    reads_of-keeps (r ∷ seen) rs s b (not_seen seen r (reads_of (r ∷ seen) rs) s h).1 (ground arith)

reads_of-adds :
    (seen rs s : List ℕ) (b : ℕ) → reads_of seen rs ≡ ok s → Memᴰ b rs → contains s b ≡ true
reads_of-adds seen [] s b h i = elim i [ ]
reads_of-adds seen (r ∷ rs) s b h (Memᴰ.head e) =
    reads_of-keeps (r ∷ seen) rs s b (not_seen seen r (reads_of (r ∷ seen) rs) s h).1 (ground arith)
reads_of-adds seen (r ∷ rs) s b h (Memᴰ.tail i) =
    reads_of-adds (r ∷ seen) rs s b (not_seen seen r (reads_of (r ∷ seen) rs) s h).1 i

reads_of-new :
    (seen rs s : List ℕ) (b : ℕ) → reads_of seen rs ≡ ok s → Memᴰ b rs → contains seen b ≡ false
reads_of-new seen [] s b h i = elim i [ ]
reads_of-new seen (r ∷ rs) s b h (Memᴰ.head e) =
    rw e (not_seen seen r (reads_of (r ∷ seen) rs) s h).0
reads_of-new seen (r ∷ rs) s b h (Memᴰ.tail i) =
    let later : contains (r ∷ seen) b ≡ false =
      reads_of-new (r ∷ seen) rs s b (not_seen seen r (reads_of (r ∷ seen) rs) s h).1 i in
    ground arith

all_reads-new :
    (seen : List ℕ) (ps : List Preset) (s : List ℕ) (p : Preset) (b : ℕ)
    → all_reads seen ps ≡ ok s
    → Memᴰ p ps
    → Memᴰ b p.read
    → contains seen b ≡ false
unfolding all_reads
all_reads-new seen [] s p b h i j = elim i [ ]
all_reads-new seen (q ∷ ps) s p b h (Memᴰ.head e) j =
    let (more, k, l) = >>=-eq-ok (reads_of seen q.read) _ h in
    reads_of-new seen q.read more b k (rw e at j)
all_reads-new seen (q ∷ ps) s p b h (Memᴰ.tail i) j =
    let (more, k, l) = >>=-eq-ok (reads_of seen q.read) _ h in
    elim (Bool-cases (contains seen b)) [
      | inl c ↦
          absurd
            (not_both (reads_of-keeps seen q.read more b k c) (all_reads-new more ps s p b l i j))
      | inr c ↦ c
    ]

contained-mem : (b : ℕ) (xs : List ℕ) → contains xs b ≡ true → Memᴰ b xs
contained-mem b [] h = cc
contained-mem b (x ∷ xs) h = elim (Bool-cases (x == b)) [
  | inl e ↦ Memᴰ.head (ground arith)
  | inr e ↦ Memᴰ.tail (contained-mem b xs (rw e at h))
]

all_reads-first :
    (seen : List ℕ) (ps : List Preset) (s : List ℕ) (p : Preset) (b : ℕ)
    → all_reads seen ps ≡ ok s
    → Memᴰ p ps
    → Memᴰ b p.read
    → first_with b ps ≡ some p
unfolding all_reads first_with
all_reads-first seen [] s p b h i j = elim i [ ]
all_reads-first seen (q ∷ ps) s p b h (Memᴰ.head e) j =
    rw (mem-contains b q.read (rw e at j), e) refl
all_reads-first seen (q ∷ ps) s p b h (Memᴰ.tail i) j =
    let (more, k, l) = >>=-eq-ok (reads_of seen q.read) _ h in
    elim (Bool-cases (contains q.read b)) [
      | inl c ↦ absurd (
          not_both (reads_of-adds seen q.read more b k (contained-mem b q.read c))
            (all_reads-new more ps s p b l i j))
      | inr c ↦ rw c (all_reads-first more ps s p b l i j)
    ]

-- In an accepted list of presets no two names are alike, and a state byte that a preset reads is read
-- by no other: looking the byte up gives that preset.
pub validate_presets-reads :
    (value out : List Preset) (p : Preset) (b : ℕ)
    → validate_presets value ≡ ok out
    → Memᴰ p value
    → Memᴰ b p.read
    → (out ≡ value) × (all_unique (map (λ q. q.name) value) ≡ true) × (first_with b out ≡ some p)
unfolding validate_presets
validate_presets-reads value out p b h i j =
    let (u, e, h₁) = >>=-eq-ok (some_preset value) _ h in
    let (v, f, h₂) =
      >>=-eq-ok (guard (all_unique (map (λ q. q.name) value)) (invalid preset_names)) _ h₁ in
    let (s, g, h₃) = >>=-eq-ok (all_reads [] value) _ h₂ in
    let same : out ≡ value = cc in
    (
      same,
      passed (all_unique (map (λ q. q.name) value)) f,
      rw same (all_reads-first [] value s p b g i j),
    )
  where
    passed : (b : Bool) {t : Unit {0}} → guard b (invalid preset_names) ≡ ok t → b ≡ true
    passed true h = refl
    passed false h = cc
